-- ===== src/Rpc/Server/Calls.antt =====
-- From `async_call` of a server, over the queue of a connection, to the registered functions on the
-- other side.
use newbee.Base.{
  ℕ, ◌%◌, ◌^◌, ◌≡◌, refl, sym, ap, ◌∙◌, Bool, not, ◌||◌, Option, none, some, List, [], ◌∷◌, ◌++◌,
  if◌then◌else◌, ltb, ◌==◌, length, Bool-cases, Option-cases, inl, inr,
}
use newbee.Memory.{Returns, Returns-mono}
use newbee.Rpc.Message.{Byte, Settings, with_flag, compress_msg}
use newbee.Rpc.Connecter.{Connecter, CloseType}
use newbee.Rpc.Connecter.Wire.{wire, front, Sent}
use newbee.Rpc.Connecter.Writes.{Writes, Writes-Sent}
use newbee.Rpc.Protocol.{Conn, protocol}
use newbee.Rpc.Protocol.Chunks.{receive, concat}
use newbee.Rpc.Protocol.Stream.{Message, framed, Fits, AllFit, stream}
use newbee.Rpc.Dispatch.{Rpc}
use newbee.Rpc.Dispatch.Delivery.{Sending, handled, outcomes, receive-handled}
use newbee.Rpc.Server.{async_call}

module _ (compress : List Byte → Option (List Byte)) (s : Settings) where
  -- The message that a call puts on the connection: where compression is on for the command and the
  -- body is large enough, it is packed and flagged.
  abbrev pub packet : Sending → Message
  packet (cmd, body) =
      if ltb (length body) s.size_limit || not s.opened || not (s.cmd_filter (cmd % 2 ^ 16) == 0)
      then (cmd % 2 ^ 16, 0, body)
      else (elim (compress body) [
        | none ↦ (cmd % 2 ^ 16, 0, body)
        | some packed ↦ (cmd % 2 ^ 16, with_flag 0, packed)
      ])

  abbrev pub packets : List Sending → List Message
  packets [] = []
  packets (m ∷ ms) = packet m ∷ packets ms

  -- What the calls give to `async_write`.
  abbrev pub async_calls : List Sending → List (List Byte)
  async_calls [] = []
  async_calls ((cmd, body) ∷ ms) = async_call compress s cmd body ∷ async_calls ms

  -- The bytes of one message.
  abbrev frame : Message → List Byte
  frame (cmd, res, body) = framed cmd res body

  async_call-frame :
      (cmd : ℕ) (body : List Byte) → async_call compress s cmd body ≡ frame (packet (cmd, body))
  unfolding async_call compress_msg
  async_call-frame cmd body =
      elim (Bool-cases (
        ltb (length body) s.size_limit || not s.opened || not (s.cmd_filter (cmd % 2 ^ 16) == 0))) [
          | inl y ↦ rw y refl
          | inr n ↦ elim (Option-cases (compress body)) [
            | inl e ↦ rw (n, e) refl
            | inr (packed, e) ↦ rw (n, e) refl
          ]
        ]

  async_calls-stream : (ms : List Sending) → concat (async_calls ms) ≡ stream (packets ms)
  async_calls-stream [] = refl
  async_calls-stream ((cmd, body) ∷ ms) =
      λ i. async_call-frame cmd body i ++ async_calls-stream ms i

  packets-append : (ms ns : List Sending) → packets (ms ++ ns) ≡ packets ms ++ packets ns
  packets-append [] ns = refl
  packets-append (m ∷ ms) ns = ap (◌∷◌ (packet m)) (packets-append ms ns)

  -- The socket was given all that was posted, where the queue is empty.
  drained-wire :
      (posted completed : List (List Byte)) (conn : Connecter)
      → Sent posted completed conn
      → conn.write_queue ≡ []
      → wire conn.requests ≡ posted
  drained-wire posted completed conn v e =
      v.in_flight
      ∙ ap (λ q. completed ++ front q) e
      ∙ ap (λ q. completed ++ q) (sym e)
      ∙ sym v.in_order

  module _ (set_write_state : Bool → Connecter → Connecter)
      (sync_close_i : CloseType → Connecter → Connecter)
      (sets : (w : Bool) (c : Connecter) → set_write_state w c ≡ record c { is_writing = w }) where
    -- If `set_write_state` sets the flag and nothing else: calls of the server that are written to
    -- a connection that was opened, whose writes complete without an error, with fewer bytes
    -- queued than `size_t` can count, have reached the socket when the queue is empty, and are
    -- handled on the other side, however the bytes are cut into reads there: where the commands
    -- and lengths fit and the last message is not empty, a new protocol object returns from each
    -- read, and its posts cause exactly what the messages are to cause, in order. A body that
    -- `compress_msg` has packed is given to the registered function as it was packed.
    pub async_calls-handled :
        (c : Conn) (r : Rpc) (ms : List Sending) (m : Sending) (cmd res : ℕ) (b : Byte)
        (bs : List Byte) (completed chunks : List (List Byte)) (conn : Connecter)
        → packet m ≡ (cmd, res, b ∷ bs)
        → AllFit (packets ms)
        → Fits (cmd, res, b ∷ bs)
        → Writes set_write_state sync_close_i sets (async_calls (ms ++ m ∷ [])) completed conn
        → conn.write_queue ≡ []
        → concat chunks ≡ concat (wire conn.requests)
        → Returns
            (λ t. handled r t.events ≡ outcomes r (packets (ms ++ m ∷ [])))
            (receive c chunks protocol)
    async_calls-handled c r ms m cmd res b bs completed chunks conn last fit fits w drained same =
        let joined : packets (ms ++ m ∷ []) ≡ packets ms ++ (cmd, res, b ∷ bs) ∷ [] =
          packets-append ms (m ∷ []) ∙ ap (λ p. packets ms ++ p ∷ []) last in
        let written =
          drained-wire _ completed conn
            (Writes-Sent set_write_state sync_close_i sets _ completed conn w) drained in
        Returns-mono
          (receive-handled c r (packets ms) cmd res b bs chunks fit fits
            (same ∙ ap concat written ∙ async_calls-stream (ms ++ m ∷ []) ∙ ap stream joined))
          λ t e. e ∙ ap (outcomes r) (sym joined)
