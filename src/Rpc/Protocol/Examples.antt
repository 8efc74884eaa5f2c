-- ===== src/Rpc/Protocol/Examples.antt =====
-- A passive connection that is monitored, and two messages in three reads.
use newbee.Base.{◌+◌, ◌≡◌, refl, true, List, [], ◌∷◌, ◌++◌, foldl, arith}
use newbee.Memory.{Returns, ok}
use newbee.Rpc.Message.{Byte, head_bytes}
use newbee.Rpc.Protocol.{Conn, protocol, emit, async_read, on_read}
use newbee.Rpc.Protocol.Feed.{Framed, feed}
use newbee.Rpc.Protocol.Loop.{on_read-feed}
use newbee.Rpc.Protocol.Chunks.{receive, concat, posts, posted, receive-independent}
use newbee.Rpc.Protocol.Stream.{stream, sent, Idle}
use newbee.Rpc.Protocol.Messages.{receive-stream, receive-empty_body}
use newbee.Rpc.Protocol.Broken.{run-one_report}
use newbee.Rpc.Protocol.Reports.{run, read, closed, connect_failed, reports}

abbrev watched : Conn
watched = record { passive = true; monitored = true }

-- A message with the command 7 and no body, then one with the command 300, a `res` and two bytes.
abbrev reads : List (List Byte)
reads =
    (0 ∷ 0 ∷ 0 ∷ [])
    ∷ (0 ∷ 7 ∷ 0 ∷ 0 ∷ 0 ∷ 2 ∷ [])
    ∷ (0 ∷ 0 ∷ 0 ∷ 44 ∷ 1 ∷ 3 ∷ 0 ∷ 65 ∷ 66 ∷ [])
    ∷ []

protocol-Framed : Framed protocol
protocol-Framed = record { measured = refl; within = λ w. omega arith }

protocol-Idle : Idle protocol
protocol-Idle = record { no_head = refl; no_body = refl }

on_read-feed_example :
    (on_read watched 7 (2 ∷ 0 ∷ 0 ∷ []) protocol
      ≡ ok (emit async_read (foldl (feed watched) protocol (2 ∷ 0 ∷ 0 ∷ []))))
    × Framed (foldl (feed watched) protocol (2 ∷ 0 ∷ 0 ∷ []))
on_read-feed_example =
    on_read-feed watched 7 (2 ∷ 0 ∷ 0 ∷ []) protocol protocol-Framed (omega arith)

receive-independent_example :
    Returns
      (λ t. Returns (λ t'. posted t ≡ posted t') (receive watched (concat reads ∷ []) protocol))
      (receive watched reads protocol)
receive-independent_example =
    receive-independent watched reads (concat reads ∷ []) protocol protocol-Framed refl

reads-stream : concat reads ≡ stream ((7, 0, []) ∷ (300, 3, 65 ∷ 66 ∷ []) ∷ [])
unfolding head_bytes
reads-stream = refl

receive-stream_example :
    Returns
      (λ t.
        Idle t
        × (posts t.events
            ≡ posts protocol.events ++ sent ((7, 0, []) ∷ (300, 3, 65 ∷ 66 ∷ []) ∷ [])))
      (receive watched reads protocol)
receive-stream_example =
    receive-stream watched ((7, 0, []) ∷ []) 300 3 65 (66 ∷ []) reads protocol protocol-Idle
      ((omega arith, omega arith, omega arith), tt) (omega arith, omega arith, omega arith)
      reads-stream

head_only : concat ((0 ∷ 0 ∷ 0 ∷ 0 ∷ 7 ∷ 0 ∷ 0 ∷ 0 ∷ []) ∷ []) ≡ stream ((7, 0, []) ∷ [])
unfolding head_bytes
head_only = refl

receive-empty_body_example :
    Returns
      (λ t. (t.msg_size ≡ 8) × (posts t.events ≡ posts protocol.events ++ sent []))
      (receive watched ((0 ∷ 0 ∷ 0 ∷ 0 ∷ 7 ∷ 0 ∷ 0 ∷ 0 ∷ []) ∷ []) protocol)
receive-empty_body_example =
    receive-empty_body watched [] 7 0 ((0 ∷ 0 ∷ 0 ∷ 0 ∷ 7 ∷ 0 ∷ 0 ∷ 0 ∷ []) ∷ []) protocol
      protocol-Idle tt head_only

run-one_report_example :
    Returns
      (λ t. (reports t.events ≡ reports protocol.events + 1) × (t.is_broken ≡ true))
      (run watched (read (1 ∷ 0 ∷ []) ∷ closed ∷ connect_failed ∷ closed ∷ []) protocol)
run-one_report_example =
    run-one_report watched (read (1 ∷ 0 ∷ []) ∷ closed ∷ connect_failed ∷ closed ∷ []) protocol
      protocol-Framed refl
