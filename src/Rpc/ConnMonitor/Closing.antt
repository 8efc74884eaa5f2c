-- ===== src/Rpc/ConnMonitor/Closing.antt =====
-- Which connections the monitor closes.
use newbee.Base.{
  ℕ, ◌<◌, ◌≡◌, refl, sym, ap, subst, ◌∙◌, true, false, List, [], ◌∷◌, ◌++◌, Eq, length, drop,
  drop-append, append-nil, append_assoc, arith,
}
use newbee.Memory.{Run, ok, fault, out_of_fuel, and_then, Returns, returns, Returns-bind}
use newbee.Status.{Status, success}
use newbee.HeartBeat.ElementMgr
use newbee.HeartBeat.ElementMgr.{Mgr}
use newbee.HeartBeat.ElementMgr.Spec
use newbee.HeartBeat.ElementMgr.Spec.{Spec, is_over, told}
use newbee.HeartBeat.ElementMgr.Implements.{Implements}
use newbee.HeartBeat.ElementMgr.Expiry.{IsOrdered, in_time, late, handle_timeout-exact}
use newbee.HeartBeat.ElementMgr.Clear.{Emptied, trigger_all_timeout-Emptied}
use newbee.HeartBeat.Service
use newbee.HeartBeat.Service.{Service}
use newbee.Rpc.ConnMonitor.{
  ConnMonitor, stop, close_all, handle_timeout, handle_all, called_back, work, tick,
}

module _ {E : Type 0} where
  handle_all-started :
      (conns : List E) (m : ConnMonitor E)
      → m.started ≡ true
      → (handle_all conns m).closed ≡ m.closed ++ conns
  unfolding handle_timeout
  handle_all-started [] m on = sym (append-nil m.closed)
  handle_all-started (conn ∷ conns) m on =
      let once : handle_timeout conn m ≡ record m { closed = m.closed ++ conn ∷ [] } =
        simp on refl in
      ap (λ k. (handle_all conns k).closed) once
      ∙ handle_all-started conns (record m { closed = m.closed ++ conn ∷ [] }) on
      ∙ append_assoc m.closed (conn ∷ []) conns

  handle_all-stopped :
      (conns : List E) (m : ConnMonitor E) → m.started ≡ false → handle_all conns m ≡ m
  unfolding handle_timeout
  handle_all-stopped [] m off = refl
  handle_all-stopped (conn ∷ conns) m off =
      let once : handle_timeout conn m ≡ m = simp off refl in
      ap (handle_all conns) once ∙ handle_all-stopped conns m off

  handle_all-service :
      (conns : List E) (m : ConnMonitor E)
      → (handle_all conns m).conn_heart_beat ≡ m.conn_heart_beat
  unfolding handle_timeout
  handle_all-service [] m = refl
  handle_all-service (conn ∷ conns) m =
      handle_all-service conns (handle_timeout conn m) ∙ kept conn m
    where
      kept :
          (conn : E) (m : ConnMonitor E)
          → (handle_timeout conn m).conn_heart_beat ≡ m.conn_heart_beat
      kept conn m = ground arith

module _ {E : Type 0} ⦃q : Eq E⦄ where
  -- What a manager has called since it implemented `s`.
  since :
      (m n : Mgr E) (s t : Spec E) (es : List E)
      → Implements m s
      → Implements n t
      → t.called ≡ s.called ++ es
      → drop (length m.called) n.called ≡ es
  since m n s t es i j e =
      let old : m.called ≡ s.called = ap (λ (u : Spec E). u.called) i.view in
      let new : n.called ≡ t.called = ap (λ (u : Spec E). u.called) j.view in
      (λ k. drop (length (old k)) ((new ∙ e) k)) ∙ drop-append s.called es

  -- A tick of a started monitor with a callback and a time-out, whose manager implements a list of
  -- entries that is ordered by time and shorter than the fuel, returns, closes exactly the
  -- connections that are over, the one with the oldest beat first, and goes on watching exactly
  -- the others.
  pub tick-closes :
      (m : ConnMonitor E) (s : Spec E) (fuel now : ℕ)
      → m.started ≡ true
      → Implements m.conn_heart_beat.manager s
      → IsOrdered s.entries
      → s.config.timeout_flag ≡ true
      → s.config.has_callback ≡ true
      → length s.entries < fuel
      → Returns
          (λ m'.
            (m'.closed ≡ m.closed ++ late (is_over now s.config.timeout) s.entries)
            × Implements m'.conn_heart_beat.manager (record s {
              entries = in_time (is_over now s.config.timeout) s.entries;
              called = told s (late (is_over now s.config.timeout) s.entries);
            }))
          (tick fuel now m)
  unfolding tick Service.handle_timeout
  tick-closes m s fuel now on i ordered timed calls enough =
      let lates : List E = late (is_over now s.config.timeout) s.entries in
      let after : Spec E = record s {
        entries = in_time (is_over now s.config.timeout) s.entries;
        called = told s lates;
      } in
      let ran : Returns (λ (r : Status × Service E). Implements r.1.manager after)
          (Service.handle_timeout fuel now m.conn_heart_beat) =
        Returns-bind
          (handle_timeout-exact fuel now m.conn_heart_beat.manager s i ordered timed enough)
          λ (_, n) (_, j). returns j in
      let told_late : after.called ≡ s.called ++ lates = simp calls refl in
      Returns-bind ran λ (_, service) j.
        let conns = drop (length m.conn_heart_beat.manager.called) service.manager.called in
        let watching : ConnMonitor E = record m { conn_heart_beat = service } in
        returns (
          handle_all-started conns watching on
              ∙ ap (λ es. m.closed ++ es)
                  (since m.conn_heart_beat.manager service.manager s after lates i j told_late),
          subst {A = Service E} (λ k. Implements k.manager after)
              (sym (handle_all-service conns watching)) j,
        )

  triggered :
      (s : Service E) (r : Run (Unit {0} × Mgr E))
      → and_then
          (and_then {B = Status × Service E}
            (and_then {B = Unit {0} × Service E} r
              (λ x. ok (x.0, record s { manager = x.1; io_stopped = false; queue = [] })))
            (λ x. ok (success, x.1)))
          (λ x. ok x.1)
        ≡ and_then r (λ x. ok (record s { manager = x.1; io_stopped = false; queue = [] }))
  triggered s (ok x) = refl
  triggered s fault = refl
  triggered s out_of_fuel = refl

  -- The thread of an idle service runs the task that `trigger_all_timeout` posts.
  abbrev Triggers : (fuel fresh now : ℕ) → Service E → Type 0
  Triggers fuel fresh now s =
      Service.work fuel fresh now (Service.trigger_all_timeout s)
      ≡ and_then (ElementMgr.trigger_all_timeout fuel s.manager)
          (λ r. ok (record s { manager = r.1; io_stopped = false; queue = [] }))

  work-trigger :
      (s : Service E) (fuel fresh now : ℕ)
      → s.io_stopped ≡ false
      → s.queue ≡ []
      → Triggers fuel fresh now s
  unfolding Service.work Service.trigger_all_timeout Service.trigger_all_timeout_i
  work-trigger s fuel fresh now running idle =
      subst {A = Service E} (Triggers fuel fresh now)
        (λ i. record s { io_stopped = sym running i; queue = sym idle i })
        (triggered s (ElementMgr.trigger_all_timeout fuel s.manager))

  stopped :
      (m : ConnMonitor E)
      → m.started ≡ true
      → (stop m).1 ≡ record m {
        conn_heart_beat = Service.trigger_all_timeout m.conn_heart_beat;
        started = false;
      }
  unfolding stop close_all
  stopped m on = simp on refl

  work-called :
      (fuel fresh now : ℕ) (m : ConnMonitor E)
      → work fuel fresh now m
        ≡ and_then (Service.work fuel fresh now m.conn_heart_beat) (λ s. ok (called_back s m))
  unfolding work
  work-called fuel fresh now m = refl

  -- If a started monitor is stopped whose service runs with nothing in its queue, and whose
  -- manager implements a list of fewer entries than there is fuel, and the thread comes to the
  -- posted task only then, it empties the service, and not one connection is closed.
  pub stop-closes_nothing :
      (m : ConnMonitor E) (s : Spec E) (fuel fresh now : ℕ)
      → m.started ≡ true
      → m.conn_heart_beat.io_stopped ≡ false
      → m.conn_heart_beat.queue ≡ []
      → Implements m.conn_heart_beat.manager s
      → length s.entries < fuel
      → Returns
          (λ m'.
            (m'.closed ≡ m.closed)
            × Emptied m.conn_heart_beat.manager m'.conn_heart_beat.manager
                (Spec.trigger_all_timeout s))
          (work fuel fresh now (stop m).1)
  unfolding Service.trigger_all_timeout
  stop-closes_nothing m s fuel fresh now on running idle i enough =
      let ran : Returns
          (λ (v : Service E).
            Emptied m.conn_heart_beat.manager v.manager (Spec.trigger_all_timeout s))
          (Service.work fuel fresh now (Service.trigger_all_timeout m.conn_heart_beat)) =
        rw (work-trigger m.conn_heart_beat fuel fresh now running idle) (
          Returns-bind (trigger_all_timeout-Emptied m.conn_heart_beat.manager s fuel i enough)
            λ (_, n) e. returns (record { rep = e.rep; view = e.view; stale = e.stale })) in
      rw (stopped m on, work-called)
        (Returns-bind ran λ service emptied.
          let watching : ConnMonitor E = record m { conn_heart_beat = service; started = false } in
          let same =
            handle_all-stopped
              (drop (length m.conn_heart_beat.manager.called) service.manager.called) watching
              refl in
          returns (
            ap (λ (k : ConnMonitor E). k.closed) same,
            subst {A = ConnMonitor E}
                (λ k.
                  Emptied m.conn_heart_beat.manager k.conn_heart_beat.manager
                    (Spec.trigger_all_timeout s))
                (sym same) emptied,
          ))
