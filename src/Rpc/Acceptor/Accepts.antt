-- ===== src/Rpc/Acceptor/Accepts.antt =====
-- The io services of the connections that are accepted.
use newbee.Base.{
  ℕ, zero, suc, ◌+◌, ◌%◌, ◌<◌, ◌≡◌, refl, ap, ◌∙◌, Bool, true, false, none, some, List, [], ◌∷◌,
  ◌++◌, append-nil, append_assoc, arith, ◌==◌,
}
use newbee.Memory.{Run, ok, and_then, Returns, returns, Returns-bind, Returns-mono}
use newbee.Status.{Status, success}
use newbee.Utility.IoServicePool.{IoServicePool, io_service_pool, size_mod, get_io_service, numbers}
use newbee.Utility.IoServicePool
use newbee.Utility.IoServicePool.Turns.{Turn, get_io_service-Turn}
use newbee.Rpc.Acceptor.{
  Acceptor, acceptor, accept_next, start, sync_start_listen_i, sync_accept_i, complete_accept,
}

-- `k` connections are accepted without an error.
abbrev pub accept_all : (k : ℕ) → Acceptor → Run Acceptor
accept_all zero a = ok a
accept_all (suc k) a = and_then (complete_accept false a) (accept_all k)

-- The turns `first`, `first + 1`, …, each modulo `n`, with the flag for the monitor.
abbrev pub opened_in_turn : (n first k : ℕ) → Bool → List (ℕ × Bool)
opened_in_turn n first zero monitor = []
opened_in_turn n first (suc k) monitor =
    (first % n, monitor) ∷ opened_in_turn n (suc first) k monitor

-- A pool of `n` services whose last turn, of the number `i`, is the connection that is waited for.
pub record Waits (n i : ℕ) (monitor : Bool) (opened : List (ℕ × Bool)) (a : Acceptor) : Type 0 where
  pub turn : Turn n (suc i) a.pool
  pub waits : a.waiting ≡ some (i % n)
  pub monitor_kept : a.use_monitor ≡ monitor
  pub same_opened : a.opened ≡ opened

module _ (n : ℕ) (some_service : 0 < n) (monitor : Bool) where
  pub accept_next-Waits :
      (i : ℕ) (a : Acceptor)
      → i + 1 < size_mod
      → Turn n i a.pool
      → a.use_monitor ≡ monitor
      → Returns (Waits n i monitor a.opened) (accept_next a)
  unfolding accept_next
  accept_next-Waits i a bounded turn kept =
      Returns-bind (get_io_service-Turn n i a.pool some_service bounded turn)
        λ (s, pool) (e, turn').
          returns
            (record { turn = turn'; waits = ap some e; monitor_kept = kept; same_opened = refl })

  accepted :
      (a : Acceptor) (conn : ℕ)
      → a.waiting ≡ some conn
      → complete_accept false a
        ≡ and_then
            (accept_next (record a { waiting = none }))
            (λ b. ok (record b { opened = b.opened ++ (conn, b.use_monitor) ∷ [] }))
  unfolding complete_accept sync_accept_i
  accepted a conn e = rw (complete_accept, e) refl

  pub complete_accept-Waits :
      (i : ℕ) (opened : List (ℕ × Bool)) (a : Acceptor)
      → suc i + 1 < size_mod
      → Waits n i monitor opened a
      → Returns
          (Waits n (suc i) monitor (opened ++ (i % n, monitor) ∷ []))
          (complete_accept false a)
  complete_accept-Waits i opened a bounded w = rw (accepted a (i % n) w.waits) (
      Returns-bind
        (accept_next-Waits (suc i) (record a { waiting = none }) bounded w.turn w.monitor_kept)
        λ b v. returns (record {
          turn = v.turn;
          waits = v.waits;
          monitor_kept = v.monitor_kept;
          same_opened = λ j. (v.same_opened ∙ w.same_opened) j ++ (i % n, v.monitor_kept j) ∷ [];
        }))

  accept_all-Waits :
      (k i : ℕ) (opened : List (ℕ × Bool)) (a : Acceptor)
      → i + k + 1 < size_mod
      → Waits n i monitor opened a
      → Returns (Waits n (i + k) monitor (opened ++ opened_in_turn n i k monitor)) (accept_all k a)
  accept_all-Waits zero i opened a bounded w = returns (rw (append-nil opened, plus_zero i) w)
    where
      plus_zero : (m : ℕ) → m + 0 ≡ m
      plus_zero m = omega arith
  accept_all-Waits (suc k) i opened a bounded w =
      rw
        (
          ← append_assoc opened ((i % n, monitor) ∷ []) (opened_in_turn n (suc i) k monitor),
          next_sum i k,
        )
        (Returns-bind (complete_accept-Waits i opened a (omega arith) w)
          λ b v. accept_all-Waits k (suc i) (opened ++ (i % n, monitor) ∷ []) b (omega arith) v)
    where
      next_sum : (m l : ℕ) → m + suc l ≡ suc m + l
      next_sum m l = omega arith

  -- An acceptor that is started and can listen, over a new pool of one service or more, accepts
  -- connections without an error, fewer than the counter of the pool can hold: their io services
  -- are those of the pool in turn, each is opened with the flag for the monitor that `start` was
  -- given, and the next connection is waited for on the service whose turn is next.
  pub accept_all-in_turn :
      (k : ℕ)
      → k + 1 < size_mod
      → Returns
          (λ a. (a.opened ≡ opened_in_turn n 0 k monitor) × (a.waiting ≡ some (k % n)))
          (and_then
            (IoServicePool.start n io_service_pool)
            λ pool. and_then (start monitor true (acceptor pool)) λ r. accept_all k r.1)
  unfolding IoServicePool.start io_service_pool start sync_start_listen_i acceptor
  accept_all-in_turn k bounded =
      let some_size : (n == 0) ≡ false = ground arith in
      let listening : (a : Acceptor)
          → Turn n 0 a.pool
          → a.use_monitor ≡ monitor
          → a.opened ≡ []
          → Returns (λ (r : Status × Acceptor). Waits n 0 monitor [] r.1)
              (and_then {B = Status × Acceptor} (accept_next a)
                (λ b. ok (success, record b { started = true }))) =
        λ a turn kept none_opened.
          Returns-bind (accept_next-Waits 0 a (omega arith) turn kept) λ b w. returns (record {
            turn = w.turn;
            waits = w.waits;
            monitor_kept = w.monitor_kept;
            same_opened = w.same_opened ∙ none_opened;
          }) in
      rw some_size (
        Returns-bind
          (listening
            (record {
              pool = record {
                io_services_set = numbers 0 n;
                work_set = numbers 0 n;
                next_io_service = 0;
                vt_threads = numbers 0 n;
              };
              use_monitor = monitor;
              started = false;
              is_open = true;
              waiting = none;
              opened = [];
            })
            (record { services = refl; next_turn = refl }) refl refl)
          λ r w.
            Returns-mono (accept_all-Waits k 0 [] r.1 (omega arith) w)
              λ a v. (v.same_opened, v.waits ∙ ap (λ m. some (m % n)) (omega arith)))
