-- ===== src/Rpc/Dispatch/Examples.antt =====
-- One registered command, and a message for it behind one that is unknown.
use newbee.Base.{◌≡◌, refl, true, false, List, [], ◌∷◌, arith}
use newbee.Memory.{Returns}
use newbee.Rpc.Message.{Byte, make_msg, head_bytes}
use newbee.Rpc.Connecter.{shutdown}
use newbee.Rpc.Protocol.{Conn, protocol}
use newbee.Rpc.Protocol.Chunks.{receive, concat}
use newbee.Rpc.Dispatch.{Rpc, called, closed, unknown, rpc, reg_call, async_send}
use newbee.Rpc.Dispatch.Delivery.{handled, sends, async_send-handled}

abbrev listener : Rpc
listener = reg_call 300 (λ body. true) (rpc (λ cmd body. false))

abbrev conn : Conn
conn = record { passive = true; monitored = false }

abbrev reads : List (List Byte)
reads =
    (0 ∷ 0 ∷ 0 ∷ [])
    ∷ (0 ∷ 7 ∷ 0 ∷ 0 ∷ 0 ∷ 2 ∷ [])
    ∷ (0 ∷ 0 ∷ 0 ∷ 44 ∷ 1 ∷ 0 ∷ 0 ∷ 65 ∷ 66 ∷ [])
    ∷ []

reads-sends : concat reads ≡ sends ((7, []) ∷ (300, 65 ∷ 66 ∷ []) ∷ [])
unfolding async_send make_msg head_bytes
reads-sends = refl

async_send-handled_example :
    Returns
      (λ t.
        handled listener t.events ≡ unknown 7 [] ∷ closed shutdown ∷ called 300 (65 ∷ 66 ∷ []) ∷ [])
      (receive conn reads protocol)
unfolding reg_call rpc
async_send-handled_example =
    async_send-handled conn listener ((7, []) ∷ []) 300 65 (66 ∷ []) reads
      ((omega arith, omega arith, omega arith), tt) (omega arith, omega arith, omega arith)
      reads-sends
