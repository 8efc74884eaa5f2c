-- ===== src/Rpc/Connecter/Examples.antt =====
-- A connection that was opened and has written two buffers, of which one is complete.
use newbee.Base.{ℕ, ◌≡◌, refl, Bool, true, false, some, List, [], ◌∷◌, ◌++◌, arith}
use newbee.Status.{success}
use newbee.Memory.{Run, ok, fault, out_of_fuel}
use newbee.Rpc.Connecter.{
  Connecter, CloseType, connecter, remote_open, sync_write_i, write_complete_i,
  start_sending_buffer_i, sync_connect, active, connected, connect_to, read_some,
}
use newbee.Rpc.Connecter.Connecting.{sync_connect-first}
use newbee.Rpc.Connecter.Writes.{Writes, opened, written, finished, Writes-Sent}
use newbee.Rpc.Connecter.Wire.{Sent}

abbrev write_state : Bool → Connecter → Connecter
write_state w c = record c { is_writing = w }

abbrev no_close : CloseType → Connecter → Connecter
no_close type c = c

abbrev state_of : Run Connecter → Connecter
state_of (ok c) = c
state_of fault = connecter
state_of out_of_fuel = connecter

abbrev one_written : Connecter
one_written = state_of (sync_write_i write_state no_close (65 ∷ []) (remote_open true connecter))

abbrev two_written : Connecter
two_written = state_of (sync_write_i write_state no_close (66 ∷ 67 ∷ []) one_written)

abbrev one_complete : Connecter
one_complete = state_of (write_complete_i write_state no_close false 1 two_written)

one_complete-Writes :
    Writes write_state no_close
      (λ w c. refl)
      ((65 ∷ []) ∷ (66 ∷ 67 ∷ []) ∷ [])
      ((65 ∷ []) ∷ [])
      one_complete
unfolding sync_write_i write_complete_i start_sending_buffer_i remote_open connecter
one_complete-Writes =
    finished (65 ∷ []) (written (66 ∷ 67 ∷ []) (written (65 ∷ []) (opened true) refl) refl) refl
      (omega arith) refl

Writes-Sent_example : Sent ((65 ∷ []) ∷ (66 ∷ 67 ∷ []) ∷ []) ((65 ∷ []) ∷ []) one_complete
Writes-Sent_example =
    Writes-Sent write_state no_close (λ w c. refl) ((65 ∷ []) ∷ (66 ∷ 67 ∷ []) ∷ [])
      ((65 ∷ []) ∷ []) one_complete one_complete-Writes

abbrev end_points : List (ℕ × Bool)
end_points = (1, false) ∷ (2, true) ∷ (3, true) ∷ []

sync_connect-first_example :
    sync_connect (some end_points) connecter
    ≡ ok (
      success,
      record connecter {
        status = connected;
        connect_type = active;
        requests = connecter.requests ++ (connect_to 1 ∷ connect_to 2 ∷ []) ++ read_some ∷ [];
      },
    )
sync_connect-first_example = sync_connect-first end_points connecter
