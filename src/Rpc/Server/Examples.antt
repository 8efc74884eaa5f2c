-- ===== src/Rpc/Server/Examples.antt =====
-- A pool of three services and four connections, and two calls of which the second is packed.
use newbee.Base.{◌≡◌, refl, Bool, false, true, Option, some, List, [], ◌∷◌, arith}
use newbee.Memory.{Run, ok, fault, out_of_fuel, Returns, and_then}
use newbee.Rpc.Message.{Byte, Settings, compress_msg, head_bytes}
use newbee.Rpc.Connecter.{
  Connecter, CloseType, connecter, remote_open, sync_write_i, write_complete_i,
  start_sending_buffer_i, shutdown,
}
use newbee.Rpc.Connecter.Wire.{wire}
use newbee.Rpc.Connecter.Writes.{Writes, opened, written, finished}
use newbee.Rpc.Protocol.{Conn, protocol}
use newbee.Rpc.Protocol.Chunks.{receive, concat}
use newbee.Rpc.Dispatch.{Rpc, called, closed, unknown, rpc, reg_call}
use newbee.Rpc.Dispatch.Delivery.{Sending, handled}
use newbee.Rpc.Server.{async_call}
use newbee.Rpc.Server.Calls.{async_calls, async_calls-handled}
use newbee.Utility.IoServicePool
use newbee.Utility.IoServicePool.{io_service_pool}
use newbee.Rpc.Server.{server, listen, accept, close}
use newbee.Rpc.Server.Listening.{serve-in_turn}
use newbee.Rpc.Server.Serving.{accept_many, Closed}

-- The accept that is under way at `close` had completed: its connection is opened too.
serve-in_turn_example :
    Returns (Closed ((2, true) ∷ (0, true) ∷ (1, true) ∷ (2, true) ∷ (0, true) ∷ []) (some 1)) (
      and_then (and_then (IoServicePool.start 3 io_service_pool) server) (λ s.
        and_then
          (listen true true s)
          (λ r. and_then (accept_many 4 (r.1)) (λ t. accept false (close t)))))
serve-in_turn_example = serve-in_turn 3 (omega arith) true 4 false (omega arith)

-- Every body is packed to two bytes.
abbrev pack : List Byte → Option (List Byte)
pack body = some (9 ∷ 8 ∷ [])

abbrev settings : Settings
settings = record { size_limit = 3; opened = true; cmd_filter = λ cmd. 0 }

abbrev first_call : Sending
first_call = (7, [])

abbrev second_call : Sending
second_call = (300, 65 ∷ 66 ∷ 67 ∷ [])

abbrev write_state : Bool → Connecter → Connecter
write_state w c = record c { is_writing = w }

abbrev no_close : CloseType → Connecter → Connecter
no_close type c = c

abbrev first_bytes : List Byte
first_bytes = 0 ∷ 0 ∷ 0 ∷ 0 ∷ 7 ∷ 0 ∷ 0 ∷ 0 ∷ []

abbrev second_bytes : List Byte
second_bytes = 2 ∷ 0 ∷ 0 ∷ 0 ∷ 44 ∷ 1 ∷ 0 ∷ 128 ∷ 9 ∷ 8 ∷ []

abbrev state_of : Run Connecter → Connecter
state_of (ok c) = c
state_of fault = connecter
state_of out_of_fuel = connecter

abbrev two_written : Connecter
two_written = state_of (
    sync_write_i write_state no_close second_bytes
      (state_of (sync_write_i write_state no_close first_bytes (remote_open true connecter))))

abbrev drained : Connecter
drained = state_of (
    write_complete_i write_state no_close false 10
      (state_of (write_complete_i write_state no_close false 8 two_written)))

drained-Writes :
    Writes write_state no_close
      (λ w c. refl)
      (async_calls pack settings (first_call ∷ second_call ∷ []))
      (first_bytes ∷ second_bytes ∷ [])
      drained
unfolding sync_write_i write_complete_i start_sending_buffer_i remote_open connecter async_call
    compress_msg head_bytes
drained-Writes =
    finished second_bytes
      (finished first_bytes (written second_bytes (written first_bytes (opened true) refl) refl)
        refl (omega arith) refl)
      refl (omega arith) refl

nothing_left : drained.write_queue ≡ []
unfolding sync_write_i write_complete_i start_sending_buffer_i remote_open connecter
nothing_left = refl

abbrev reads : List (List Byte)
reads = first_bytes ∷ (2 ∷ 0 ∷ 0 ∷ []) ∷ (0 ∷ 44 ∷ 1 ∷ 0 ∷ 128 ∷ 9 ∷ 8 ∷ []) ∷ []

reads-wire : concat reads ≡ concat (wire drained.requests)
unfolding sync_write_i write_complete_i start_sending_buffer_i remote_open connecter
reads-wire = refl

abbrev conn : Conn
conn = record { passive = true; monitored = false }

abbrev listener : Rpc
listener = reg_call 300 (λ body. true) (rpc (λ cmd body. false))

-- The function for the command 300 is given the packed bytes.
async_calls-handled_example :
    Returns
      (λ t.
        handled listener t.events ≡ unknown 7 [] ∷ closed shutdown ∷ called 300 (9 ∷ 8 ∷ []) ∷ [])
      (receive conn reads protocol)
unfolding reg_call rpc
async_calls-handled_example =
    async_calls-handled pack settings write_state no_close (λ w c. refl) conn listener
      (first_call ∷ []) second_call 300 32768 9 (8 ∷ []) (first_bytes ∷ second_bytes ∷ []) reads
      drained refl ((omega arith, omega arith, omega arith), tt)
      (omega arith, omega arith, omega arith) drained-Writes nothing_left reads-wire
