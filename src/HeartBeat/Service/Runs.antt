-- ===== src/HeartBeat/Service/Runs.antt =====
-- Runs of a started service under additions, updates, deletions and ticks: the tasks run in the
-- order of their posts, and the manager goes through a history of its own.
use newbee.Base.{
  ℕ, ◌+◌, ◌<◌, ◌≤◌, ◌≡◌, refl, sym, ap, subst, ◌∙◌, Bool, true, false, List, [], ◌∷◌, ◌++◌,
  append_assoc, Eq,
}
use newbee.Memory.{Run, ok, fault, out_of_fuel, and_then, returns, Returns-ok}
use newbee.HeartBeat.NodeList.{Status}
use newbee.HeartBeat.ElementMgr
use newbee.HeartBeat.ElementMgr.{Mgr, ulong_mod}
use newbee.HeartBeat.ElementMgr.Spec.{Config}
use newbee.HeartBeat.ElementMgr.History.{
  Answers, configured, Reach, started, waited, added, updated, deleted, timed_out,
}
use newbee.HeartBeat.Service.{
  Task, add_task, update_task, del_task, get_all_task, trigger_task, stop_task, Service, service,
  start, post, run_task, handle_timeout, heart_beat_ticks, add_element, update_element, del_element,
}

-- Tasks that add, update or delete.
abbrev pub is_beat : {E : Type 0} → Task E → Bool
is_beat (add_task e) = true
is_beat (update_task e) = true
is_beat (del_task e) = true
is_beat get_all_task = false
is_beat trigger_task = false
is_beat stop_task = false

module _ {E : Type 0} where
  abbrev pub AllBeat : List (Task E) → Type 0
  AllBeat [] = Unit {0}
  AllBeat (k ∷ ks) = (is_beat k ≡ true) × AllBeat ks

  AllBeat-snoc :
      (ks : List (Task E)) (k : Task E) → AllBeat ks → is_beat k ≡ true → AllBeat (ks ++ k ∷ [])
  AllBeat-snoc [] k a b = (b, tt)
  AllBeat-snoc (j ∷ ks) k (h, a) b = (h, AllBeat-snoc ks k a b)

  -- The result `x` comes from the run `r` of the manager.
  abbrev pub Via : {A : Type 0} → Run (A × Mgr E) → Service E → A × Service E → Type 0
  Via r s x =
      (r ≡ ok (x.0, x.1.manager))
      × (x.1.queue ≡ s.queue)
      × (x.1.io_stopped ≡ s.io_stopped)
      × (x.1.timer ≡ s.timer)

  -- A run of a function of the manager in the service.
  pub on_manager-ok :
      {A : Type 0} (r : Run (A × Mgr E)) (s s' : Service E) (a : A)
      → and_then {B = A × Service E} r (λ x. ok (x.0, record s { manager = x.1 })) ≡ ok (a, s')
      → (r ≡ ok (a, s'.manager))
        × (s'.queue ≡ s.queue)
        × (s'.io_stopped ≡ s.io_stopped)
        × (s'.timer ≡ s.timer)
  on_manager-ok {A} (ok (b, m)) s s' a e =
      Returns-ok {A = A × Service E} (Via (ok (b, m)) s) (ok (b, record s { manager = m })) (a, s')
        (returns (refl, refl, refl, refl)) e
  on_manager-ok fault s s' a e = cc e
  on_manager-ok out_of_fuel s s' a e = cc e

module _ {E : Type 0} ⦃q : Eq E⦄ (c : Config) where
  -- `Runs t posted ran s`: at time `t`, behind the posts `posted`, of which `ran` have run, a
  -- service whose manager was set to `c` can be in the state `s`.
  pub data Runs : ℕ → List (Task E) → List (Task E) → Service E → Type 0 where
    begun :
        (t : ℕ) (flag : Bool)
        → Runs t [] [] (start t (record (service flag) { manager = configured c })).1
    asked :
        {t : ℕ} {posted ran : List (Task E)} {s : Service E} (k : Task E)
        → is_beat k ≡ true
        → Runs t posted ran s
        → Runs t (posted ++ k ∷ []) ran (post k s)
    passed :
        {t u : ℕ} {posted ran : List (Task E)} {s : Service E}
        → t ≤ u
        → Runs t posted ran s
        → Runs u posted ran s
    worked :
        {t : ℕ} {posted ran : List (Task E)} {s s' : Service E} {st : Status} {ks : List (Task E)}
        (fuel fresh : ℕ) (k : Task E)
        → Runs t posted ran s
        → s.queue ≡ k ∷ ks
        → s.manager.element_count + 1 < ulong_mod
        → Answers s.manager fresh
        → run_task fuel fresh t k (record s { queue = ks }) ≡ ok (st, s')
        → Runs t posted (ran ++ k ∷ []) s'
    ticked :
        {t : ℕ} {posted ran : List (Task E)} {s s' : Service E} {st : Status} (fuel : ℕ)
        → Runs t posted ran s
        → s.manager.element_count < fuel
        → handle_timeout fuel t s ≡ ok (st, s')
        → Runs t posted ran s'

  pub record Kept (t : ℕ) (posted ran : List (Task E)) (s : Service E) : Type 0 where
    pub in_order : posted ≡ ran ++ s.queue
    pub beats : AllBeat s.queue
    pub history : Reach c t s.manager
    pub running : s.io_stopped ≡ false

  -- A task that runs is a step of the manager, and leaves the queue alone.
  record Stepped (t : ℕ) (s s' : Service E) : Type 0 where
    same_queue : s'.queue ≡ s.queue
    same_running : s'.io_stopped ≡ s.io_stopped
    next_history : Reach c t s'.manager

  task-Stepped :
      (t fuel fresh : ℕ) (k : Task E) (s s' : Service E) (st : Status)
      → is_beat k ≡ true
      → Reach c t s.manager
      → s.manager.element_count + 1 < ulong_mod
      → Answers s.manager fresh
      → run_task fuel fresh t k s ≡ ok (st, s')
      → Stepped t s s'
  unfolding add_element update_element del_element
  task-Stepped t fuel fresh (add_task e) s s' st beat r bounded answers ran =
      let (ran', same, on, _) =
        on_manager-ok (ElementMgr.add_element fresh t e s.manager) s s' st ran in
      record {
        same_queue = same;
        same_running = on;
        next_history = added fresh e r bounded answers ran';
      }
  task-Stepped t fuel fresh (update_task e) s s' st beat r bounded answers ran =
      let (ran', same, on, _) =
        on_manager-ok (ElementMgr.update_element t e s.manager) s s' st ran in
      record { same_queue = same; same_running = on; next_history = updated e r ran' }
  task-Stepped t fuel fresh (del_task e) s s' st beat r bounded answers ran =
      let (ran', same, on, _) = on_manager-ok (ElementMgr.del_element e s.manager) s s' st ran in
      record { same_queue = same; same_running = on; next_history = deleted e r ran' }
  task-Stepped t fuel fresh get_all_task s s' st beat r bounded answers ran = cc beat
  task-Stepped t fuel fresh trigger_task s s' st beat r bounded answers ran = cc beat
  task-Stepped t fuel fresh stop_task s s' st beat r bounded answers ran = cc beat

  worked-Kept :
      (t fuel fresh : ℕ) (posted ran ks : List (Task E)) (k : Task E) (s s' : Service E)
      (st : Status)
      → Kept t posted ran s
      → s.queue ≡ k ∷ ks
      → s.manager.element_count + 1 < ulong_mod
      → Answers s.manager fresh
      → run_task fuel fresh t k (record s { queue = ks }) ≡ ok (st, s')
      → Kept t posted (ran ++ k ∷ []) s'
  worked-Kept t fuel fresh posted ran ks k s s' st kept front bounded answers did =
      let beats : AllBeat (k ∷ ks) = subst AllBeat front kept.beats in
      let step =
        task-Stepped t fuel fresh k (record s { queue = ks }) s' st beats.0 kept.history bounded
          answers did in
      record {
        in_order =
            kept.in_order
            ∙ ap (λ rest. ran ++ rest) front
            ∙ sym (append_assoc ran (k ∷ []) ks)
            ∙ ap (λ rest. (ran ++ k ∷ []) ++ rest) (sym step.same_queue);
        beats = subst AllBeat (sym step.same_queue) beats.1;
        history = step.next_history;
        running = step.same_running ∙ kept.running;
      }

  begun-Kept :
      (t : ℕ) (flag : Bool)
      → Kept t [] [] (start t (record (service flag) { manager = configured c })).1
  unfolding start service
  begun-Kept t flag = record { in_order = refl; beats = tt; history = started t; running = refl }

  ticked-Kept :
      (t fuel : ℕ) (posted ran : List (Task E)) (s s' : Service E) (st : Status)
      → Kept t posted ran s
      → s.manager.element_count < fuel
      → handle_timeout fuel t s ≡ ok (st, s')
      → Kept t posted ran s'
  unfolding handle_timeout
  ticked-Kept t fuel posted ran s s' st kept enough did =
      let (did', same, on, _) =
        on_manager-ok (ElementMgr.handle_timeout fuel t s.manager)
          (record s { timer = s.timer + heart_beat_ticks }) s' st did in
      record {
        in_order = kept.in_order ∙ ap (λ rest. ran ++ rest) (sym same);
        beats = subst AllBeat (sym same) kept.beats;
        history = timed_out fuel kept.history enough did';
        running = on ∙ kept.running;
      }

  pub Runs-Kept :
      (t : ℕ) (posted ran : List (Task E)) (s : Service E)
      → Runs t posted ran s
      → Kept t posted ran s
  Runs-Kept t posted ran s (begun _ flag) = begun-Kept t flag
  Runs-Kept t posted' ran s' (asked {posted} {s} k beat r) =
      let kept = Runs-Kept t posted ran s r in
      record {
        in_order = ap (λ ks. ks ++ k ∷ []) kept.in_order ∙ append_assoc ran s.queue (k ∷ []);
        beats = AllBeat-snoc s.queue k kept.beats beat;
        history = kept.history;
        running = kept.running;
      }
  Runs-Kept u posted ran s (passed {t} later r) =
      let kept = Runs-Kept t posted ran s r in
      record {
        in_order = kept.in_order;
        beats = kept.beats;
        history = waited later kept.history;
        running = kept.running;
      }
  Runs-Kept t posted ran' s' (worked {ran} {s} {st} {ks} fuel fresh k r front bounded answers did) =
      worked-Kept t fuel fresh posted ran ks k s s' st (Runs-Kept t posted ran s r) front bounded
        answers did
  Runs-Kept t posted ran s' (ticked {s} {st} fuel r enough did) =
      ticked-Kept t fuel posted ran s s' st (Runs-Kept t posted ran s r) enough did
