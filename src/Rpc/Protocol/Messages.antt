-- ===== src/Rpc/Protocol/Messages.antt =====
-- Messages that stand behind their headers and are read by `on_read`, and when they are posted.
use newbee.Base.{
  ℕ, ◌≡◌, sym, ap, ◌∙◌, List, [], ◌∷◌, ◌++◌, length, drop, ◌%◌, foldl, foldl-append, append_assoc,
  append-nil,
}
use newbee.Memory.{Returns, Returns-mono}
use newbee.Rpc.Message.{Byte, head_bytes}
use newbee.Rpc.Protocol.{Conn, post, Protocol, finish}
use newbee.Rpc.Protocol.Feed.{settle, feed, feed-settle, add_body}
use newbee.Rpc.Protocol.Chunks.{receive, concat, posts, posted, receive-feed}
use newbee.Rpc.Protocol.Stream.{
  Message, framed, Fits, AllFit, stream, sent, Idle, Idle-Framed, stream-Passed, stream-append,
  sent-append, nonempty_message, empty_message, opened, finish-Idle, posts-finish,
}

module _ (c : Conn) where
  -- A message behind a stream of others.
  last_message :
      (ms : List Message) (cmd res : ℕ) (body : List Byte) (s : Protocol)
      → foldl (feed c) s (stream (ms ++ (cmd, res, body) ∷ []))
        ≡ foldl (feed c) (settle c (foldl (feed c) s (stream ms))) (framed cmd res body)
  unfolding head_bytes
  last_message ms cmd res body s =
      ap (foldl (feed c) s) (stream-append ms ((cmd, res, body) ∷ []))
      ∙ ap (λ bs. foldl (feed c) s (stream ms ++ bs)) (append-nil (framed cmd res body))
      ∙ foldl-append (feed c) s (stream ms) (framed cmd res body)
      ∙ ap (λ t. foldl (feed c) t (drop 1 (framed cmd res body)))
          (sym (feed-settle c (foldl (feed c) s (stream ms)) (length body % 256)))

  -- If the bytes of a list of messages, each behind its header, whose commands, `res` and lengths
  -- fit their fields, are cut into reads anyhow and the last message has a body, a protocol object
  -- between two messages returns from each `on_read` and posts each message once, in order, with
  -- its command, `res` and body, and then waits for the next head.
  pub receive-stream :
      (ms : List Message) (cmd res : ℕ) (b : Byte) (bs : List Byte) (chunks : List (List Byte))
      (s : Protocol)
      → Idle s
      → AllFit ms
      → Fits (cmd, res, b ∷ bs)
      → concat chunks ≡ stream (ms ++ (cmd, res, b ∷ bs) ∷ [])
      → Returns
          (λ t. Idle t × (posts t.events ≡ posts s.events ++ sent (ms ++ (cmd, res, b ∷ bs) ∷ [])))
          (receive c chunks s)
  receive-stream ms cmd res b bs chunks s i fit fits same =
      let before : Protocol = settle c (foldl (feed c) s (stream ms)) in
      let p = stream-Passed c ms s i fit in
      let whole = finish c (add_body (opened c before cmd res (b ∷ bs)) (b ∷ bs)) in
      let fed : foldl (feed c) s (concat chunks) ≡ whole =
        ap (foldl (feed c) s) same
        ∙ last_message ms cmd res (b ∷ bs) s
        ∙ nonempty_message c before cmd res b bs p.idle fits in
      Returns-mono (receive-feed c chunks s (Idle-Framed s i)) λ t (_, e).
        let e' : posted t ≡ posted whole = e ∙ ap posted fed in
        (
          record {
            no_head = ap (λ (u : Protocol). u.msg_size) e' ∙ (finish-Idle c _).no_head;
            no_body = ap (λ (u : Protocol). u.body) e' ∙ (finish-Idle c _).no_body;
          },
          ap (λ (u : Protocol). u.events) e'
              ∙ posts-finish c before cmd res (b ∷ bs) fits
              ∙ ap (λ es. es ++ post 1 cmd res (b ∷ bs) ∷ []) p.passed
              ∙ append_assoc (posts s.events) (sent ms) (sent ((cmd, res, b ∷ bs) ∷ []))
              ∙ ap (λ es. posts s.events ++ es) (sym (sent-append ms ((cmd, res, b ∷ bs) ∷ []))),
        )

  -- If the bytes of a list of messages, each behind its header, of which those before the last fit
  -- their fields, are cut into reads anyhow and the last message has no body, a protocol object
  -- between two messages returns from each `on_read` and has read every byte, but has posted
  -- exactly the messages before the last.
  pub receive-empty_body :
      (ms : List Message) (cmd res : ℕ) (chunks : List (List Byte)) (s : Protocol)
      → Idle s
      → AllFit ms
      → concat chunks ≡ stream (ms ++ (cmd, res, []) ∷ [])
      → Returns
          (λ t. (t.msg_size ≡ 8) × (posts t.events ≡ posts s.events ++ sent ms))
          (receive c chunks s)
  receive-empty_body ms cmd res chunks s i fit same =
      let before : Protocol = settle c (foldl (feed c) s (stream ms)) in
      let p = stream-Passed c ms s i fit in
      let fed : foldl (feed c) s (concat chunks) ≡ opened c before cmd res [] =
        ap (foldl (feed c) s) same
        ∙ last_message ms cmd res [] s
        ∙ empty_message c before cmd res p.idle in
      Returns-mono (receive-feed c chunks s (Idle-Framed s i)) λ t (_, e).
        let e' : posted t ≡ posted (opened c before cmd res []) = e ∙ ap posted fed in
        (ap (λ (u : Protocol). u.msg_size) e', ap (λ (u : Protocol). u.events) e' ∙ p.passed)
