-- ===== src/Rpc/Protocol/Stream.antt =====
-- What is framed by a header is what the protocol object posts.
use newbee.Base.{
  ℕ, ◌+◌, ◌^◌, ◌<◌, ◌≡◌, refl, sym, ap, ◌∙◌, true, false, List, [], ◌∷◌, ◌++◌, length, foldl,
  foldl-append, arith, append_assoc, append-nil,
}
use newbee.Rpc.Message.{Byte, head_bytes, copy_bytes}
use newbee.Rpc.Message.Fields.{head_bytes-fields}
use newbee.Rpc.Protocol.{
  Conn, Event, post, Protocol, finish, has_read_head_end_i, has_read_body_end_i,
}
use newbee.Rpc.Protocol.Feed.{
  Framed, settle, feed, is_complete, settle-open, settle_complete, settle-finish, open_head,
  add_body, head_run, settle-settle, feed-settle, body_run,
}
use newbee.Rpc.Protocol.Chunks.{posts, posted-finish}

-- A message that is sent: command, `res` and body.
abbrev pub Message : Type 0
Message = ℕ × ℕ × List Byte

-- The message behind its header.
abbrev pub framed : ℕ → ℕ → List Byte → List Byte
framed cmd res body = head_bytes (length body) cmd res ++ body

-- `uint16_t` and `uint32_t` hold the command, `res` and the length.
abbrev pub Fits : Message → Type 0
Fits (cmd, res, body) = (cmd < 2 ^ 16) × (res < 2 ^ 16) × (length body < 2 ^ 32)

abbrev pub AllFit : List Message → Type 0
AllFit [] = Unit {0}
AllFit (m ∷ ms) = Fits m × AllFit ms

-- What goes over the connection.
abbrev pub stream : List Message → List Byte
stream [] = []
stream ((cmd, res, body) ∷ ms) = framed cmd res body ++ stream ms

-- The posts that pass the messages on.
abbrev pub sent : List Message → List Event
sent [] = []
sent ((cmd, res, body) ∷ ms) = post 1 cmd res body ∷ sent ms

-- Between two messages.
pub record Idle (s : Protocol) : Type 0 where
  pub no_head : s.msg_size ≡ 0
  pub no_body : s.body ≡ []

pub Idle-Framed : (s : Protocol) → Idle s → Framed s
Idle-Framed s i = record {
  measured = ap length i.no_body ∙ omega (arith, i.no_head);
  within = λ w. absurd (omega (arith, i.no_head));
}

module _ (c : Conn) where
  settle-foldl :
      (bs : List Byte) (s : Protocol)
      → settle c (foldl (feed c) s bs) ≡ settle c (foldl (feed c) (settle c s) bs)
  settle-foldl [] s = sym (settle-settle c s)
  settle-foldl (b ∷ bs) s = ap (λ t. settle c (foldl (feed c) t bs)) (sym (feed-settle c s b))

  -- The state behind the head of a message.
  abbrev pub opened : Protocol → ℕ → ℕ → List Byte → Protocol
  opened s cmd res body = record s {
    msg_size = 8;
    head = copy_bytes s.head 0 (head_bytes (length body) cmd res);
    body = [];
  }

  open_message :
      (s : Protocol) (cmd res : ℕ) (body : List Byte)
      → Idle s
      → foldl (feed c) s (head_bytes (length body) cmd res) ≡ opened s cmd res body
  unfolding head_bytes
  open_message s cmd res body i =
      head_run c (head_bytes (length body) cmd res) s (omega (arith, i.no_head)) ∙ (λ j. record s {
        head = copy_bytes s.head (i.no_head j) (head_bytes (length body) cmd res);
        msg_size = i.no_head j + 8;
        body = i.no_body j;
      })

  complete_message :
      (s : Protocol) (cmd res : ℕ) (body : List Byte)
      → Fits (cmd, res, body)
      → is_complete (add_body (opened s cmd res body) body) ≡ true
  unfolding has_read_head_end_i has_read_body_end_i
  complete_message s cmd res body fits =
      rw ((head_bytes-fields s.head (length body) cmd res fits.2 fits.0 fits.1).0) (ground arith)

  unfinished_message :
      (s : Protocol) (cmd res : ℕ) (b : Byte) (bs : List Byte)
      → Fits (cmd, res, b ∷ bs)
      → is_complete (opened s cmd res (b ∷ bs)) ≡ false
  unfolding has_read_head_end_i has_read_body_end_i
  unfinished_message s cmd res b bs fits =
      rw ((head_bytes-fields s.head (length (b ∷ bs)) cmd res fits.2 fits.0 fits.1).0)
        (ground arith)

  -- The message that is read is finished: at once if its body has a byte.
  pub nonempty_message :
      (s : Protocol) (cmd res : ℕ) (b : Byte) (bs : List Byte)
      → Idle s
      → Fits (cmd, res, b ∷ bs)
      → foldl (feed c) s (framed cmd res (b ∷ bs))
        ≡ finish c (add_body (opened s cmd res (b ∷ bs)) (b ∷ bs))
  nonempty_message s cmd res b bs i fits =
      foldl-append (feed c) s (head_bytes (length (b ∷ bs)) cmd res) (b ∷ bs)
      ∙ ap (λ t. foldl (feed c) t (b ∷ bs)) (open_message s cmd res (b ∷ bs) i)
      ∙ body_run c b bs (opened s cmd res (b ∷ bs)) (omega arith)
          (unfinished_message s cmd res b bs fits)
          (rw ((head_bytes-fields s.head (length (b ∷ bs)) cmd res fits.2 fits.0 fits.1).0)
            (omega arith))
      ∙ settle_complete c (add_body (opened s cmd res (b ∷ bs)) (b ∷ bs))
          (complete_message s cmd res (b ∷ bs) fits)

  pub empty_message :
      (s : Protocol) (cmd res : ℕ)
      → Idle s
      → foldl (feed c) s (framed cmd res []) ≡ opened s cmd res []
  empty_message s cmd res i =
      ap (foldl (feed c) s) (append-nil (head_bytes 0 cmd res)) ∙ open_message s cmd res [] i

  whole_message :
      (s : Protocol) (cmd res : ℕ) (body : List Byte)
      → Idle s
      → Fits (cmd, res, body)
      → settle c (foldl (feed c) s (framed cmd res body))
        ≡ finish c (add_body (opened s cmd res body) body)
  whole_message s cmd res [] i fits =
      ap (settle c) (empty_message s cmd res i)
      ∙ settle_complete c (opened s cmd res []) (complete_message s cmd res [] fits)
  whole_message s cmd res (b ∷ bs) i fits =
      ap (settle c) (nonempty_message s cmd res b bs i fits)
      ∙ settle-finish c (add_body (opened s cmd res (b ∷ bs)) (b ∷ bs))

  pub finish-Idle : (s : Protocol) → Idle (finish c s)
  unfolding finish
  finish-Idle s = record { no_head = refl; no_body = refl }

  pub posts-finish :
      (s : Protocol) (cmd res : ℕ) (body : List Byte)
      → Fits (cmd, res, body)
      → posts (finish c (add_body (opened s cmd res body) body)).events
        ≡ posts s.events ++ post 1 cmd res body ∷ []
  posts-finish s cmd res body fits =
      let (_, cmd_kept, res_kept) =
        head_bytes-fields s.head (length body) cmd res fits.2 fits.0 fits.1 in
      ap (λ (t : Protocol). t.events) (posted-finish c (add_body (opened s cmd res body) body))
      ∙ (λ i. posts s.events ++ post 1 (cmd_kept i) (res_kept i) body ∷ [])

  -- What a stream of messages asks for.
  pub record Passed (s t : Protocol) (ms : List Message) : Type 0 where
    pub idle : Idle t
    pub passed : posts t.events ≡ posts s.events ++ sent ms

  pub stream-Passed :
      (ms : List Message) (s : Protocol)
      → Idle s
      → AllFit ms
      → Passed s (settle c (foldl (feed c) s (stream ms))) ms
  stream-Passed [] s i fit =
      rw (settle-open c s (open_head s (omega (arith, i.no_head))))
        (record { idle = i; passed = sym (append-nil _) })
  stream-Passed ((cmd, res, body) ∷ ms) s i (fits, fit) =
      let whole : Protocol = finish c (add_body (opened s cmd res body) body) in
      let rest = stream-Passed ms whole (finish-Idle _) fit in
      let same : settle c (foldl (feed c) s (framed cmd res body ++ stream ms))
          ≡ settle c (foldl (feed c) whole (stream ms)) =
        ap (settle c) (foldl-append (feed c) s (framed cmd res body) (stream ms))
        ∙ settle-foldl (stream ms) (foldl (feed c) s (framed cmd res body))
        ∙ ap (λ t. settle c (foldl (feed c) t (stream ms))) (whole_message s cmd res body i fits) in
      rw same (record {
        idle = rest.idle;
        passed =
            rest.passed
            ∙ ap (λ es. es ++ sent ms) (posts-finish s cmd res body fits)
            ∙ append_assoc (posts s.events) (post 1 cmd res body ∷ []) (sent ms);
      })

pub stream-append : (ms ns : List Message) → stream (ms ++ ns) ≡ stream ms ++ stream ns
stream-append [] ns = refl
stream-append ((cmd, res, body) ∷ ms) ns =
    ap (λ bs. framed cmd res body ++ bs) (stream-append ms ns)
    ∙ sym (append_assoc (framed cmd res body) (stream ms) (stream ns))

pub sent-append : (ms ns : List Message) → sent (ms ++ ns) ≡ sent ms ++ sent ns
sent-append [] ns = refl
sent-append ((cmd, res, body) ∷ ms) ns = ap (◌∷◌ (post 1 cmd res body)) (sent-append ms ns)
