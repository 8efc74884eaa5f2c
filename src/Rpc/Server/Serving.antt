-- ===== src/Rpc/Server/Serving.antt =====
-- What holds of a server that waits for connections, and how it ends.
use newbee.Base.{ℕ, zero, suc, ◌+◌, ◌%◌, ◌≡◌, refl, ap, Bool, true, false, Option, none, some, List}
use newbee.Memory.{Run, ok, and_then, Holds, holds, Holds-any, Holds-bind}
use newbee.Utility.IoServicePool.{get_io_service}
use newbee.Utility.IoServicePool.Turns.{Turn}
use newbee.Rpc.Acceptor.{
  Acceptor, acceptor, accept_next, sync_start_listen_i, sync_accept_i, complete_accept,
  sync_close_i,
}
use newbee.Rpc.Acceptor
use newbee.Rpc.Acceptor.Accepts.{opened_in_turn}
use newbee.Rpc.Server.{Server, with_acceptor, accept, close}

-- `k` connections are accepted without an error.
abbrev pub accept_many : (k : ℕ) → Server → Run Server
accept_many zero s = ok s
accept_many (suc k) s = and_then (accept false s) (accept_many k)

-- The acceptor of a server waits on the turn `i`, having opened these.
pub record Serves (n i : ℕ) (monitor : Bool) (opened : List (ℕ × Bool)) (s : Server) : Type 0 where
  pub acceptor : Acceptor
  pub has : s.acc ≡ some acceptor
  pub first_io : s.io ≡ 0
  pub is_started : acceptor.started ≡ true
  pub turn : Turn n (suc i) s.pool
  pub waits : acceptor.waiting ≡ some (i % n)
  pub monitor_kept : acceptor.use_monitor ≡ monitor
  pub same_opened : acceptor.opened ≡ opened

-- The flags of an acceptor, which accepting leaves alone.
abbrev pub SameFlags : Acceptor → Acceptor → Type 0
SameFlags a b = (b.started ≡ a.started) × (b.is_open ≡ a.is_open)

accept_next-SameFlags : (a : Acceptor) → Holds (SameFlags a) (accept_next a)
unfolding accept_next
accept_next-SameFlags a = Holds-any (get_io_service a.pool) (λ r. holds (refl, refl))

pub complete_accept-SameFlags :
    (a : Acceptor) (conn : ℕ)
    → a.waiting ≡ some conn
    → Holds (SameFlags a) (complete_accept false a)
unfolding complete_accept sync_accept_i
complete_accept-SameFlags a conn e =
    rw (complete_accept, e)
      (Holds-bind (accept_next-SameFlags (record a { waiting = none })) (λ b f. holds f))

stop-started :
    (a : Acceptor)
    → a.started ≡ true
    → Acceptor.stop a ≡ record a { started = false; is_open = false }
unfolding Acceptor.stop
stop-started a e = simp e refl

pub close-stopped :
    (s : Server) (a : Acceptor)
    → s.acc ≡ some a
    → a.started ≡ true
    → close s ≡ record s { acc = some (record a { started = false; is_open = false }) }
unfolding close
close-stopped s a e on = rw (close, e) (ap (λ b. record s { acc = some b }) (stop-started a on))

pub with_acceptor-new :
    (s : Server)
    → s.acc ≡ none
    → with_acceptor s ≡ and_then (get_io_service s.pool) (λ r. ok (acceptor r.1))
unfolding with_acceptor
with_acceptor-new s e = rw (with_acceptor, e) refl

-- A server that was closed: its acceptor is stopped, has opened these, and waits for this.
pub record Closed (opened : List (ℕ × Bool)) (waiting : Option ℕ) (s : Server) : Type 0 where
  pub first_io : s.io ≡ 0
  pub acceptor : Acceptor
  pub has : s.acc ≡ some acceptor
  pub not_started : acceptor.started ≡ false
  pub not_open : acceptor.is_open ≡ false
  pub waits : acceptor.waiting ≡ waiting
  pub same_opened : acceptor.opened ≡ opened

-- What the handler of the last accept leaves, which comes behind `close` with or without an error.
abbrev pub Left : (n : ℕ) → (monitor : Bool) → (k : ℕ) → (error : Bool) → Server → Type 0
Left n monitor k true = Closed (opened_in_turn n 2 k monitor) none
Left n monitor k false = Closed (opened_in_turn n 2 (suc k) monitor) (some ((k + 3) % n))
