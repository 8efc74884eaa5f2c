-- ===== src/Rpc/Server/Listening.antt =====
-- A server from its start to its end: the services of the connections that it accepts.
use newbee.Base.{
  ℕ, zero, suc, ◌+◌, ◌%◌, ◌<◌, ◌≡◌, refl, ◌∙◌, Bool, true, false, none, List, [], ◌∷◌, ◌++◌,
  append-nil, append_assoc, arith, ◌==◌, ap, some, sym,
}
use native.Mathlib.Nat.{zero-mod}
use newbee.Memory.{ok, and_then, Returns, returns, Returns-bind, Returns-Holds}
use newbee.Status.{Status, success}
use newbee.Utility.IoServicePool.{IoServicePool, io_service_pool, size_mod, get_io_service, numbers}
use newbee.Utility.IoServicePool
use newbee.Utility.IoServicePool.Turns.{Turn, get_io_service-Turn}
use newbee.Rpc.Acceptor.{
  Acceptor, acceptor, accept_next, sync_start_listen_i, sync_accept_i, complete_accept,
  sync_close_i,
}
use newbee.Rpc.Acceptor
use newbee.Rpc.Acceptor.Accepts.{opened_in_turn, Waits, accept_next-Waits, complete_accept-Waits}
use newbee.Rpc.Server.Serving.{
  Serves, accept_many, complete_accept-SameFlags, close-stopped, with_acceptor-new, Left,
}
use newbee.Rpc.Server.{Server, server, keep_acceptor, listen, accept, close}

module _ (n : ℕ) (some_service : 0 < n) (monitor : Bool) where
  accept-Serves :
      (i : ℕ) (opened : List (ℕ × Bool)) (s : Server)
      → suc i + 1 < size_mod
      → Serves n i monitor opened s
      → Returns (Serves n (suc i) monitor (opened ++ (i % n, monitor) ∷ [])) (accept false s)
  unfolding accept
  accept-Serves i opened s bounded v =
      let a = record v.acceptor { pool = s.pool } in
      let waits : Waits n i monitor opened a = record {
        turn = v.turn;
        waits = v.waits;
        monitor_kept = v.monitor_kept;
        same_opened = v.same_opened;
      } in
      rw (accept, v.has)
        (Returns-bind
          (Returns-Holds (complete_accept-Waits n some_service monitor i opened a bounded waits)
            (complete_accept-SameFlags a (i % n) (v.waits)))
          (λ b (w, same). returns (record {
            acceptor = b;
            has = refl;
            first_io = v.first_io;
            is_started = same.0 ∙ v.is_started;
            turn = w.turn;
            waits = w.waits;
            monitor_kept = w.monitor_kept;
            same_opened = w.same_opened;
          })))

  accept_many-Serves :
      (k i : ℕ) (opened : List (ℕ × Bool)) (s : Server)
      → i + k + 1 < size_mod
      → Serves n i monitor opened s
      → Returns
          (Serves n (i + k) monitor (opened ++ opened_in_turn n i k monitor))
          (accept_many k s)
  accept_many-Serves zero i opened s bounded v = returns (rw (append-nil opened, plus_zero i) v)
    where
      plus_zero : (m : ℕ) → m + 0 ≡ m
      plus_zero m = omega arith
  accept_many-Serves (suc k) i opened s bounded v =
      rw
        (
          ← append_assoc opened ((i % n, monitor) ∷ []) (opened_in_turn n (suc i) k monitor),
          next_sum i k,
        )
        (Returns-bind (accept-Serves i opened s (omega arith) v)
          (λ t w. accept_many-Serves k (suc i) (opened ++ (i % n, monitor) ∷ []) t (omega arith) w))
    where
      next_sum : (m l : ℕ) → m + suc l ≡ suc m + l
      next_sum m l = omega arith

  -- A server of the constructor, which has taken the first turn.
  record IsNew (s : Server) : Type 0 where
    first_io : s.io ≡ 0
    no_acceptor : s.acc ≡ none
    turn : Turn n 1 s.pool

  server-IsNew : Returns IsNew (and_then (IoServicePool.start n io_service_pool) server)
  unfolding IoServicePool.start io_service_pool server
  server-IsNew =
      let some_size : (n == 0) ≡ false = ground arith in
      rw some_size (
        Returns-bind
          (get_io_service-Turn n 0 _ some_service (omega arith)
            (record { services = refl; next_turn = refl }))
          (λ (io, pool) (e, turn).
            returns (record { first_io = e ∙ zero-mod n; no_acceptor = refl; turn = turn })))

  switched_on :
      (i : ℕ) (opened : List (ℕ × Bool)) (b : Acceptor)
      → Waits n i monitor opened b
      → Waits n i monitor opened (record b { started = true })
  switched_on i opened b w = record {
    turn = w.turn;
    waits = w.waits;
    monitor_kept = w.monitor_kept;
    same_opened = w.same_opened;
  }

  start-new :
      (a : Acceptor)
      → a.started ≡ false
      → Acceptor.start monitor true a
        ≡ and_then {B = Status × Acceptor}
            (accept_next (record a { use_monitor = monitor; is_open = true }))
            (λ b. ok (success, record b { started = true }))
  unfolding Acceptor.start sync_start_listen_i
  start-new a e = rw (Acceptor.start, e) refl

  started_listening :
      (s : Server) (a : Acceptor)
      → s.io ≡ 0
      → Turn n 2 a.pool
      → a.started ≡ false
      → a.opened ≡ []
      → Returns
          (λ (r : Status × Server). Serves n 2 monitor [] (r.1))
          (and_then {B = Status × Server}
            (Acceptor.start monitor true a)
            (λ r. ok (success, keep_acceptor r.1 s)))
  started_listening s a first turn shut none_opened = rw (start-new a shut) (
      Returns-bind
        {P = λ (r : Status × Acceptor). Waits n 2 monitor a.opened (r.1) × ((r.1).started ≡ true)}
        (Returns-bind
          (accept_next-Waits n some_service monitor 2
            (record a { use_monitor = monitor; is_open = true }) (omega arith) turn refl)
          (λ b w. returns (switched_on 2 (a.opened) b w, refl)))
        (λ (_, b) (w, on). returns (record {
          acceptor = b;
          has = refl;
          first_io = first;
          is_started = on;
          turn = w.turn;
          waits = w.waits;
          monitor_kept = w.monitor_kept;
          same_opened = w.same_opened ∙ none_opened;
        })))

  listen-Serves :
      (s : Server)
      → IsNew s
      → Returns (λ (r : Status × Server). Serves n 2 monitor [] (r.1)) (listen monitor true s)
  unfolding listen acceptor
  listen-Serves s v = rw (with_acceptor-new s (v.no_acceptor)) (
      Returns-bind {P = λ a. Turn n 2 (a.pool) × (a.started ≡ false) × (a.opened ≡ [])}
        (Returns-bind (get_io_service-Turn n 1 (s.pool) some_service (omega arith) (v.turn))
          (λ (io, pool) (_, turn). returns (turn, refl, refl)))
        (λ a (turn, shut, none_opened). started_listening s a (v.first_io) turn shut none_opened))

  opened_in_turn-snoc :
      (k i : ℕ)
      → opened_in_turn n i (suc k) monitor
        ≡ opened_in_turn n i k monitor ++ ((i + k) % n, monitor) ∷ []
  opened_in_turn-snoc zero i = ap (λ m. (m % n, monitor) ∷ []) (omega arith)
  opened_in_turn-snoc (suc k) i = ap (◌∷◌ (i % n, monitor)) (
      opened_in_turn-snoc k (suc i)
      ∙ ap (λ m. opened_in_turn n (suc i) k monitor ++ (m % n, monitor) ∷ []) (omega arith))

  close-Left :
      (k : ℕ) (s : Server) (error : Bool)
      → k + 4 < size_mod
      → Serves n (2 + k) monitor (opened_in_turn n 2 k monitor) s
      → Returns (Left n monitor k error) (accept error (close s))
  unfolding accept complete_accept sync_accept_i
  close-Left k s true bounded v =
      rw (close-stopped s v.acceptor v.has v.is_started, complete_accept, v.waits)
        (returns (record {
          first_io = v.first_io;
          acceptor = _;
          has = refl;
          not_started = refl;
          not_open = refl;
          waits = refl;
          same_opened = v.same_opened;
        }))
  close-Left k s false bounded v =
      let a = record v.acceptor { pool = s.pool; started = false; is_open = false } in
      let waits : Waits n (2 + k) monitor (opened_in_turn n 2 k monitor) a = record {
        turn = v.turn;
        waits = v.waits;
        monitor_kept = v.monitor_kept;
        same_opened = v.same_opened;
      } in
      rw (close-stopped s v.acceptor v.has v.is_started) (
        Returns-bind
          (Returns-Holds
            (complete_accept-Waits n some_service monitor (2 + k) _ a (omega arith) waits)
            (complete_accept-SameFlags a ((2 + k) % n) v.waits))
          (λ b (w, (shut, closed)). returns (record {
            first_io = v.first_io;
            acceptor = b;
            has = refl;
            not_started = shut;
            not_open = closed;
            waits = w.waits ∙ ap (λ m. some (m % n)) (omega arith);
            same_opened = w.same_opened ∙ sym (opened_in_turn-snoc k 2);
          })))

  -- Over a new pool of one service or more, fewer connections than its counter can hold: a server
  -- takes the first service for itself and, if it can listen, the second for its acceptor, and
  -- returns from each call; its connections are opened on the services from the third on, in turn,
  -- with the flag for the monitor that `listen` was given. Behind `close` the acceptor is stopped
  -- and closed; if the accept that was under way then ends with an error, it opens no connection
  -- and waits for none, and if it had completed without one, its connection is opened too, on the
  -- service whose turn it was, and the next one is waited for.
  pub serve-in_turn :
      (k : ℕ) (error : Bool)
      → k + 4 < size_mod
      → Returns (Left n monitor k error) (
          and_then (and_then (IoServicePool.start n io_service_pool) server) (λ s.
            and_then
              (listen monitor true s)
              (λ r. and_then (accept_many k (r.1)) (λ t. accept error (close t)))))
  serve-in_turn k error bounded = Returns-bind server-IsNew (λ s new.
      Returns-bind (listen-Serves s new) (λ r v.
        Returns-bind (accept_many-Serves k 2 [] (r.1) (omega arith) v)
          (λ t w. close-Left k t error bounded w)))
