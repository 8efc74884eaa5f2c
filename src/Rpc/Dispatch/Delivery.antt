-- ===== src/Rpc/Dispatch/Delivery.antt =====
-- From `async_send` on one side to the registered functions on the other.
use newbee.Base.{
  ℕ, ◌≡◌, refl, sym, ap, ◌∙◌, none, some, List, [], ◌∷◌, ◌++◌, if◌then◌else◌, arith, Option-cases,
  inl, inr,
}
use newbee.Memory.{Returns, Returns-mono}
use newbee.Rpc.Message.{Byte, make_msg}
use newbee.Rpc.Connecter.{shutdown}
use newbee.Rpc.Protocol.{
  Conn, Event, post, async_read, monitor_add, monitor_update, monitor_del, protocol,
}
use newbee.Rpc.Protocol.Chunks.{receive, concat, posts}
use newbee.Rpc.Protocol.Stream.{Message, framed, Fits, AllFit, stream, sent}
use newbee.Rpc.Protocol.Messages.{receive-stream}
use newbee.Rpc.Dispatch.{Rpc, Effect, called, closed, unknown, handle_msg, happen, async_send}

-- The posts that `m_io` runs, in order.
abbrev pub handled : Rpc → List Event → List Effect
handled r [] = []
handled r (post flag cmd res body ∷ es) = handle_msg r flag cmd res body ++ handled r es
handled r (async_read ∷ es) = handled r es
handled r (monitor_add ∷ es) = handled r es
handled r (monitor_update ∷ es) = handled r es
handled r (monitor_del ∷ es) = handled r es

-- What the messages are to cause: a registered function is called where the body unpacks, else the
-- connection is shut down; an unknown command is shown to `on_unknown_msg`.
abbrev pub outcome : Rpc → Message → List Effect
outcome r (cmd, res, body) = elim (r.calls cmd) [
  | some call ↦ if call body then called cmd body ∷ [] else closed shutdown ∷ []
  | none ↦
      if r.accepts_unknown cmd body
      then unknown cmd body ∷ []
      else unknown cmd body ∷ closed shutdown ∷ []
]

abbrev pub outcomes : Rpc → List Message → List Effect
outcomes r [] = []
outcomes r (m ∷ ms) = outcome r m ++ outcomes r ms

handle_msg-outcome :
    (r : Rpc) (cmd res : ℕ) (body : List Byte)
    → handle_msg r 1 cmd res body ≡ outcome r (cmd, res, body)
unfolding handle_msg happen
handle_msg-outcome r cmd res body = elim (Option-cases (r.calls cmd)) [
  | inl e ↦ rw (outcome, e) refl
  | inr (call, e) ↦ rw e (ground arith)
]

handled-sent : (r : Rpc) (ms : List Message) → handled r (sent ms) ≡ outcomes r ms
handled-sent r [] = refl
handled-sent r ((cmd, res, body) ∷ ms) =
    λ i. handle_msg-outcome r cmd res body i ++ handled-sent r ms i

handled-posts : (r : Rpc) (es : List Event) → handled r (posts es) ≡ handled r es
handled-posts r [] = refl
handled-posts r (post flag cmd res body ∷ es) =
    ap (λ rest. handle_msg r flag cmd res body ++ rest) (handled-posts r es)
handled-posts r (async_read ∷ es) = handled-posts r es
handled-posts r (monitor_add ∷ es) = handled-posts r es
handled-posts r (monitor_update ∷ es) = handled-posts r es
handled-posts r (monitor_del ∷ es) = handled-posts r es

-- The bytes of messages that fit, of which the last has a body, however they are cut: a new protocol
-- object makes the posts that cause what the messages are to cause.
pub receive-handled :
    (c : Conn) (r : Rpc) (ms : List Message) (cmd res : ℕ) (b : Byte) (bs : List Byte)
    (chunks : List (List Byte))
    → AllFit ms
    → Fits (cmd, res, b ∷ bs)
    → concat chunks ≡ stream (ms ++ (cmd, res, b ∷ bs) ∷ [])
    → Returns
        (λ t. handled r t.events ≡ outcomes r (ms ++ (cmd, res, b ∷ bs) ∷ []))
        (receive c chunks protocol)
receive-handled c r ms cmd res b bs chunks fit fits same =
    Returns-mono
      (receive-stream c ms cmd res b bs chunks protocol (record { no_head = refl; no_body = refl })
        fit fits same)
      λ t (_, passed).
        sym (handled-posts r t.events)
        ∙ ap (handled r) passed
        ∙ handled-sent r (ms ++ (cmd, res, b ∷ bs) ∷ [])

-- What `async_send` is given: command and body.
abbrev pub Sending : Type 0
Sending = ℕ × List Byte

-- What it gives to the connection, and the messages that are to arrive.
abbrev pub sends : List Sending → List Byte
sends [] = []
sends ((cmd, body) ∷ ms) = async_send cmd body ++ sends ms

abbrev pub unflagged : List Sending → List Message
unflagged [] = []
unflagged ((cmd, body) ∷ ms) = (cmd, 0, body) ∷ unflagged ms

sends-stream : (ms : List Sending) → sends ms ≡ stream (unflagged ms)
unfolding async_send make_msg
sends-stream [] = refl
sends-stream ((cmd, body) ∷ ms) = ap (λ bs. framed cmd 0 body ++ bs) (sends-stream ms)

unflagged-append : (ms ns : List Sending) → unflagged (ms ++ ns) ≡ unflagged ms ++ unflagged ns
unflagged-append [] ns = refl
unflagged-append ((cmd, body) ∷ ms) ns = ap (◌∷◌ (cmd, 0, body)) (unflagged-append ms ns)

-- Messages that `async_send` gives to a connection, whose commands and lengths fit their fields,
-- reach the other side, however the bytes are cut into reads there: if the last message has a
-- body, a new protocol object returns from each read, and its posts cause exactly what the
-- messages are to cause, in order.
pub async_send-handled :
    (c : Conn) (r : Rpc) (ms : List Sending) (cmd : ℕ) (b : Byte) (bs : List Byte)
    (chunks : List (List Byte))
    → AllFit (unflagged ms)
    → Fits (cmd, 0, b ∷ bs)
    → concat chunks ≡ sends (ms ++ (cmd, b ∷ bs) ∷ [])
    → Returns
        (λ t. handled r t.events ≡ outcomes r (unflagged (ms ++ (cmd, b ∷ bs) ∷ [])))
        (receive c chunks protocol)
async_send-handled c r ms cmd b bs chunks fit fits same =
    let joined = unflagged-append ms ((cmd, b ∷ bs) ∷ []) in
    Returns-mono
      (receive-handled c r (unflagged ms) cmd 0 b bs chunks fit fits
        (same ∙ sends-stream (ms ++ (cmd, b ∷ bs) ∷ []) ∙ ap stream joined))
      λ t e. e ∙ ap (outcomes r) (sym joined)
