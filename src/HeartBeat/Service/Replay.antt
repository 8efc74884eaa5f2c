-- ===== src/HeartBeat/Service/Replay.antt =====
-- The manager of a service, from the tasks that have run and the ticks between them.
use newbee.Base.{
  ℕ, ◌+◌, ◌*◌, ◌<◌, ◌≡◌, refl, sym, ap, subst, append-nil, ◌∙◌, Bool, true, not, List, [], ◌∷◌,
  ◌++◌, Eq, arith, ◌==◌, foldl, foldl-append,
}
use newbee.Memory.{Returns-ok, ok}
use newbee.HeartBeat.NodeList.{Status, null}
use newbee.HeartBeat.ElementMgr
use newbee.HeartBeat.ElementMgr.{Mgr, ulong_mod, init}
use newbee.HeartBeat.ElementMgr.Spec
use newbee.HeartBeat.ElementMgr.Spec.{Spec, Config}
use newbee.HeartBeat.ElementMgr.Rep.{init-Rep}
use newbee.HeartBeat.ElementMgr.Implements.{Implements, count_entries}
use newbee.HeartBeat.ElementMgr.Constancy.{HasRoom, supplied}
use newbee.HeartBeat.ElementMgr.Add.{add_element-Implements}
use newbee.HeartBeat.ElementMgr.Update.{update_element-Implements}
use newbee.HeartBeat.ElementMgr.Delete.{del_element-Implements}
use newbee.HeartBeat.ElementMgr.Timeout.{handle_timeout-Implements}
use newbee.HeartBeat.ElementMgr.History.{Answers, Reach, configured, reach-Sound, usable}
use newbee.HeartBeat.Service.{
  Task, add_task, update_task, del_task, get_all_task, trigger_task, stop_task, Service, run_task,
  service, start, handle_timeout, heart_beat_ticks, add_element, update_element, del_element,
}
use newbee.HeartBeat.Service.Runs.{
  Runs, begun, asked, passed, worked, ticked, is_beat, AllBeat, Runs-Kept, on_manager-ok,
}

-- What the thread did: a task at a time, with a node or without, and the handler of the timer.
pub data Step (E : Type 0) : Type 0 where
  did : (now : ℕ) (has_memory : Bool) (k : Task E) → Step E
  tick : (now : ℕ) → Step E

module _ {E : Type 0} where
  abbrev pub ticks_of : List (Step E) → ℕ
  ticks_of [] = 0
  ticks_of (did now has_memory k ∷ steps) = ticks_of steps
  ticks_of (tick now ∷ steps) = ticks_of steps + 1

  abbrev pub tasks_of : List (Step E) → List (Task E)
  tasks_of [] = []
  tasks_of (did now has_memory k ∷ steps) = k ∷ tasks_of steps
  tasks_of (tick now ∷ steps) = tasks_of steps

  ticks_of-append :
      (steps more : List (Step E)) → ticks_of (steps ++ more) ≡ ticks_of steps + ticks_of more
  ticks_of-append [] more = omega arith
  ticks_of-append (did now has_memory k ∷ steps) more = ticks_of-append steps more
  ticks_of-append (tick now ∷ steps) more = omega (arith, ticks_of-append steps more)

  tasks_of-append :
      (steps more : List (Step E)) → tasks_of (steps ++ more) ≡ tasks_of steps ++ tasks_of more
  tasks_of-append [] more = refl
  tasks_of-append (did now has_memory k ∷ steps) more = ap (◌∷◌ k) (tasks_of-append steps more)
  tasks_of-append (tick now ∷ steps) more = tasks_of-append steps more

module _ {E : Type 0} ⦃q : Eq E⦄ where
  -- The list of entries behind a step.
  abbrev pub step : Spec E → Step E → Spec E
  step s (did now has_memory (add_task e)) = (Spec.add_element has_memory now e s).1
  step s (did now has_memory (update_task e)) = (Spec.update_element now e s).1
  step s (did now has_memory (del_task e)) = (Spec.del_element e s).1
  step s (did now has_memory get_all_task) = s
  step s (did now has_memory trigger_task) = s
  step s (did now has_memory stop_task) = s
  step s (tick now) = Spec.handle_timeout now s

  abbrev pub nothing_yet : Config → Spec E
  nothing_yet c = record { entries = []; called = []; config = c }

  abbrev pub replay : Config → List (Step E) → Spec E
  replay c steps = foldl step (nothing_yet c) steps

  configured-Implements : (c : Config) → Implements (configured c) (nothing_yet c)
  unfolding init
  configured-Implements c = record {
    nodes = [];
    rep = record {
      list = init-Rep.list;
      index = init-Rep.index;
      distinct = tt;
      no_leak = init-Rep.no_leak;
    };
    counted = refl;
    bounded = omega arith;
    view = refl;
  }

module _ {E : Type 0} ⦃q : Eq E⦄ (c : Config) where
  -- The steps of a run, and when it was started.
  abbrev pub steps_of :
      (t : ℕ) (posted ran : List (Task E)) (s : Service E) → Runs c t posted ran s → List (Step E)
  steps_of t posted ran s (begun _ flag) = []
  steps_of t posted' ran s' (asked {posted} {s} k beat r) = steps_of t posted ran s r
  steps_of u posted ran s (passed {t} later r) = steps_of t posted ran s r
  steps_of t posted ran' s' (worked {ran} {s} fuel fresh k r front bounded answers ran_ok) =
      steps_of t posted ran s r ++ did t (not (fresh == null)) k ∷ []
  steps_of t posted ran s' (ticked {s} fuel r enough ran_ok) =
      steps_of t posted ran s r ++ tick t ∷ []

  abbrev pub started_at :
      (t : ℕ) (posted ran : List (Task E)) (s : Service E) → Runs c t posted ran s → ℕ
  started_at t posted ran s (begun _ flag) = t
  started_at t posted' ran s' (asked {posted} {s} k beat r) = started_at t posted ran s r
  started_at u posted ran s (passed {t} later r) = started_at t posted ran s r
  started_at t posted ran' s' (worked {ran} {s} fuel fresh k r front bounded answers ran_ok) =
      started_at t posted ran s r
  started_at t posted ran s' (ticked {s} fuel r enough ran_ok) = started_at t posted ran s r

  module _ (room : HasRoom c) where
    run_task-step :
        (t fuel fresh : ℕ) (k : Task E) (s s' : Service E) (st : Status) (spec : Spec E)
        → is_beat k ≡ true
        → Reach c t s.manager
        → Implements s.manager spec
        → s.manager.element_count + 1 < ulong_mod
        → Answers s.manager fresh
        → run_task fuel fresh t k s ≡ ok (st, s')
        → Implements s'.manager (step spec (did t (not (fresh == null)) k)) × (s'.timer ≡ s.timer)
    unfolding add_element update_element del_element
    run_task-step t fuel fresh (add_task e) s s' st spec beat r i bounded answers ran =
        let m = s.manager in
        let (ran', _, _, timer) = on_manager-ok (ElementMgr.add_element fresh t e m) s s' st ran in
        (
          (Returns-ok _ _ _
              (add_element-Implements m spec fresh t e (not (fresh == null)) i
                (omega (arith, count_entries m spec i))
                (usable c room t m (reach-Sound c room t m r)) (supplied fresh) answers)
              ran').1,
          timer,
        )
    run_task-step t fuel fresh (update_task e) s s' st spec beat r i bounded answers ran =
        let m = s.manager in
        let (ran', _, _, timer) = on_manager-ok (ElementMgr.update_element t e m) s s' st ran in
        ((Returns-ok _ _ _ (update_element-Implements m spec t e i) ran').1, timer)
    run_task-step t fuel fresh (del_task e) s s' st spec beat r i bounded answers ran =
        let m = s.manager in
        let (ran', _, _, timer) = on_manager-ok (ElementMgr.del_element e m) s s' st ran in
        ((Returns-ok _ _ _ (del_element-Implements m spec e i) ran').1, timer)
    run_task-step t fuel fresh get_all_task s s' st spec beat r i bounded answers ran = cc beat
    run_task-step t fuel fresh trigger_task s s' st spec beat r i bounded answers ran = cc beat
    run_task-step t fuel fresh stop_task s s' st spec beat r i bounded answers ran = cc beat

    handle_timeout-step :
        (t fuel : ℕ) (s s' : Service E) (st : Status) (spec : Spec E)
        → Implements s.manager spec
        → s.manager.element_count < fuel
        → handle_timeout fuel t s ≡ ok (st, s')
        → Implements s'.manager (step spec (tick t)) × (s'.timer ≡ s.timer + heart_beat_ticks)
    unfolding handle_timeout
    handle_timeout-step t fuel s s' st spec i enough ran =
        let (ran', _, _, timer) =
          on_manager-ok (ElementMgr.handle_timeout fuel t s.manager)
            (record s { timer = s.timer + heart_beat_ticks }) s' st ran in
        (
          (Returns-ok _ _ _
              (handle_timeout-Implements fuel t s.manager spec i
                (omega (arith, count_entries s.manager spec i)))
              ran').1,
          timer,
        )

    -- What holds behind these steps.
    record Replayed (steps : List (Step E)) (start_time : ℕ) (s : Service E) : Type 0 where
      implements : Implements s.manager (replay c steps)
      timer : s.timer ≡ start_time + heart_beat_ticks * (ticks_of steps + 1)

    step-Replayed :
        (steps : List (Step E)) (x : Step E) (start_time ticks : ℕ) (s s' : Service E)
        → ticks_of (x ∷ []) ≡ ticks
        → Replayed steps start_time s
        → Implements s'.manager (step (replay c steps) x)
          × (s'.timer ≡ s.timer + heart_beat_ticks * ticks)
        → Replayed (steps ++ x ∷ []) start_time s'
    step-Replayed steps x start_time ticks s s' n v (i, timer) = record {
      implements = rw (foldl-append step (nothing_yet c) steps (x ∷ [])) i;
      timer = omega (arith, timer, v.timer, ticks_of-append steps (x ∷ []), n);
    }

    Runs-Replayed :
        (t : ℕ) (posted ran : List (Task E)) (s : Service E) (r : Runs c t posted ran s)
        → Replayed (steps_of t posted ran s r) (started_at t posted ran s r) s
    unfolding start service
    Runs-Replayed t posted ran s (begun _ flag) = record {
      implements = configured-Implements c;
      timer = omega arith;
    }
    Runs-Replayed t posted' ran s' (asked {posted} {s} k beat r) =
        let v = Runs-Replayed t posted ran s r in
        record { implements = v.implements; timer = v.timer }
    Runs-Replayed u posted ran s (passed {t} later r) = Runs-Replayed t posted ran s r
    Runs-Replayed t posted ran' s'
          (worked {ran} {s} {st} {ks} fuel fresh k r front bounded answers done) =
        let v = Runs-Replayed t posted ran s r in
        let kept = Runs-Kept c t posted ran s r in
        let beats : AllBeat (k ∷ ks) = subst AllBeat front kept.beats in
        let steps = steps_of t posted ran s r in
        let (i, timer) =
          run_task-step t fuel fresh k (record s { queue = ks }) s' st (replay c steps) beats.0
            kept.history v.implements bounded answers done in
        step-Replayed steps (did t (not (fresh == null)) k) (started_at t posted ran s r) 0 s s'
          refl v (i, omega (arith, timer))
    Runs-Replayed t posted ran s' (ticked {s} {st} fuel r enough done) =
        let v = Runs-Replayed t posted ran s r in
        let steps = steps_of t posted ran s r in
        let (i, timer) =
          handle_timeout-step t fuel s s' st (replay c steps) v.implements enough done in
        step-Replayed steps (tick t) (started_at t posted ran s r) 1 s s' refl v
          (i, omega (arith, timer))

  tasks_of-steps :
      (t : ℕ) (posted ran : List (Task E)) (s : Service E) (r : Runs c t posted ran s)
      → tasks_of (steps_of t posted ran s r) ≡ ran
  tasks_of-steps t posted ran s (begun _ flag) = refl
  tasks_of-steps t posted' ran s' (asked {posted} {s} k beat r) = tasks_of-steps t posted ran s r
  tasks_of-steps u posted ran s (passed {t} later r) = tasks_of-steps t posted ran s r
  tasks_of-steps t posted ran' s' (worked {ran} {s} fuel fresh k r front bounded answers done) =
      tasks_of-append (steps_of t posted ran s r) (did t (not (fresh == null)) k ∷ [])
      ∙ ap (λ ks. ks ++ k ∷ []) (tasks_of-steps t posted ran s r)
  tasks_of-steps t posted ran s' (ticked {s} fuel r enough done) =
      tasks_of-append (steps_of t posted ran s r) (tick t ∷ [])
      ∙ append-nil _
      ∙ tasks_of-steps t posted ran s r

  -- Under settings whose limit, where there is one, is at least one: in every run of a started
  -- service under additions, updates, deletions and ticks, the manager implements the list of
  -- entries and the calls of the callback that the list specification gives for the tasks that
  -- have run and the ticks, each at its time and with a node where the pool gave one; the tasks
  -- that have run, followed by those in the queue, are the tasks that were posted; and the timer
  -- expires ten seconds behind the start, and ten seconds later for each tick.
  pub Runs-replay :
      (room : HasRoom c) (t : ℕ) (posted ran : List (Task E)) (s : Service E)
      (r : Runs c t posted ran s)
      → Implements s.manager (replay c (steps_of t posted ran s r))
        × (posted ≡ tasks_of (steps_of t posted ran s r) ++ s.queue)
        × (s.timer
            ≡ started_at t posted ran s r
              + heart_beat_ticks * (ticks_of (steps_of t posted ran s r) + 1))
  Runs-replay room t posted ran s r =
      let v = Runs-Replayed room t posted ran s r in
      (
        v.implements,
        (Runs-Kept c t posted ran s r).in_order
            ∙ ap (λ ks. ks ++ s.queue) (sym (tasks_of-steps t posted ran s r)),
        v.timer,
      )
