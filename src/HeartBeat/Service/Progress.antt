-- ===== src/HeartBeat/Service/Progress.antt =====
-- The thread of a started service is never stuck: each task that it comes to can be run.
use newbee.Base.{
  ℕ, ◌+◌, ◌<◌, ◌≤◌, ◌≡◌, refl, sym, ap, ◌∙◌, append-nil, append_assoc, subst, Bool, true, not, List,
  [], ◌∷◌, ◌++◌, Eq, length, drop, drop-append, arith, ◌==◌,
}
use newbee.Memory.{
  Run, ok, and_then, Returns, returns, Returns-bind, Returns-mono, Returns-result, Returns-Holds,
  Holds,
}
use newbee.HeartBeat.NodeList.{Ptr, Status, null}
use newbee.HeartBeat.ElementMgr
use newbee.HeartBeat.ElementMgr.{Mgr, ElementData, ulong_mod}
use newbee.HeartBeat.ElementMgr.Spec
use newbee.HeartBeat.ElementMgr.Spec.{Spec, Config, remove}
use newbee.HeartBeat.ElementMgr.Implements.{Implements, count_entries}
use newbee.HeartBeat.ElementMgr.Constancy.{HasRoom, supplied}
use newbee.HeartBeat.ElementMgr.Add.{add_element-Implements, length-evict}
use newbee.HeartBeat.ElementMgr.Update.{update_element-Implements}
use newbee.HeartBeat.ElementMgr.Delete.{del_element-Implements}
use newbee.HeartBeat.ElementMgr.History.{Answers, Reach, reach-Sound, size, usable}
use newbee.HeartBeat.Service.{
  Task, add_task, update_task, del_task, get_all_task, trigger_task, stop_task, Service, run_task,
  on_manager, add_element, update_element, del_element, work,
}
use newbee.HeartBeat.Service.Runs.{Runs, worked, is_beat, AllBeat, Runs-Kept}

same_rest : {A : Type 0} (xs ys zs : List A) → xs ++ ys ≡ xs ++ zs → ys ≡ zs
same_rest xs ys zs e = sym (drop-append xs ys) ∙ ap (drop (length xs)) e ∙ drop-append xs zs

-- The entries that the operations leave.
module _ {E : Type 0} ⦃q : Eq E⦄ where
  length-remove : (e : E) (ds : List (ElementData E)) → length (remove e ds) ≤ length ds
  length-remove e [] = omega arith
  length-remove e (d ∷ ds) = ground (arith, length-remove e ds)

  length-add_element :
      (has_memory : Bool) (now : ℕ) (e : E) (s : Spec E)
      → length (Spec.add_element has_memory now e s).1.entries ≤ length s.entries + 1
  unfolding Spec.add_element
  length-add_element has_memory now e s = ground (arith, length-evict s)

  length-update_element :
      (now : ℕ) (e : E) (s : Spec E)
      → length (Spec.update_element now e s).1.entries ≤ length s.entries + 1
  unfolding Spec.update_element
  length-update_element now e s = ground (arith, length-remove e s.entries)

  length-del_element :
      (e : E) (s : Spec E) → length (Spec.del_element e s).1.entries ≤ length s.entries + 1
  unfolding Spec.del_element
  length-del_element e s = ground (arith, length-remove e s.entries)

-- A run of the manager counts one element more at most.
abbrev Grows : {E : Type 0} → Mgr E → Status × Mgr E → Type 0
Grows m r = r.1.element_count ≤ m.element_count + 1

module _ {E : Type 0} ⦃q : Eq E⦄ where
  grows :
      (m : Mgr E) (s : Spec E) (i : Implements m s) (r : Status × Mgr E) (s' : Spec E)
      → Implements r.1 s'
      → length s'.entries ≤ length s.entries + 1
      → Grows m r
  grows m s i r s' i' h = omega (arith, count_entries m s i, count_entries r.1 s' i')

  on_manager-Grows :
      (f : Mgr E → Run (Status × Mgr E)) (s : Service E)
      → Returns (Grows s.manager) (f s.manager)
      → Returns (λ r. r.1.manager.element_count ≤ s.manager.element_count + 1) (on_manager f s)
  on_manager-Grows f s h = Returns-bind h (λ r p. returns p)

module _ {E : Type 0} ⦃q : Eq E⦄ (fuel t : ℕ) where
  -- The thread works, where the pool gives these answers one after the other.
  abbrev pub work_on : List Ptr → Service E → Run (Service E)
  work_on [] s = ok s
  work_on (fresh ∷ answers) s = and_then (work fuel fresh t s) (work_on answers)

  -- Each answer is NULL or an unused address when it is given.
  abbrev pub Supplied : List Ptr → Service E → Type 0
  Supplied [] s = Unit {0}
  Supplied (fresh ∷ answers) s =
      Answers s.manager fresh × Holds (Supplied answers) (work fuel fresh t s)

module _ {E : Type 0} ⦃q : Eq E⦄ (c : Config) (room : HasRoom c) where
  run_task-Grows :
      (t fuel fresh : ℕ) (k : Task E) (s : Service E)
      → is_beat k ≡ true
      → Reach c t s.manager
      → s.manager.element_count + 1 < ulong_mod
      → Answers s.manager fresh
      → Returns
          (λ r. r.1.manager.element_count ≤ s.manager.element_count + 1)
          (run_task fuel fresh t k s)
  unfolding add_element update_element del_element
  run_task-Grows t fuel fresh (add_task e) s beat r bounded answers =
      let m = s.manager in
      let v = reach-Sound c room t m r in
      let has_memory = not (fresh == null) in
      on_manager-Grows (ElementMgr.add_element fresh t e) s (
        Returns-mono
          (add_element-Implements m v.spec fresh t e has_memory v.implements
            (omega (arith, size c room t m v)) (usable c room t m v) (supplied fresh) answers)
          λ x (_, i). grows m v.spec v.implements x _ i (length-add_element has_memory t e v.spec))
  run_task-Grows t fuel fresh (update_task e) s beat r bounded answers =
      let m = s.manager in
      let v = reach-Sound c room t m r in
      on_manager-Grows (ElementMgr.update_element t e) s (
        Returns-mono (update_element-Implements m v.spec t e v.implements)
          λ x (_, i). grows m v.spec v.implements x _ i (length-update_element t e v.spec))
  run_task-Grows t fuel fresh (del_task e) s beat r bounded answers =
      let m = s.manager in
      let v = reach-Sound c room t m r in
      on_manager-Grows (ElementMgr.del_element e) s (
        Returns-mono (del_element-Implements m v.spec e v.implements)
          λ x (_, i). grows m v.spec v.implements x _ i (length-del_element e v.spec))
  run_task-Grows t fuel fresh get_all_task s beat r bounded answers = cc beat
  run_task-Grows t fuel fresh trigger_task s beat r bounded answers = cc beat
  run_task-Grows t fuel fresh stop_task s beat r bounded answers = cc beat

  -- The thread takes the front of the queue.
  work-goes_on :
      (t fuel fresh : ℕ) (posted ran ks : List (Task E)) (k : Task E) (s : Service E)
      → Runs c t posted ran s
      → s.queue ≡ k ∷ ks
      → s.manager.element_count + 1 < ulong_mod
      → Answers s.manager fresh
      → Returns
          (λ s'.
            Runs c t posted (ran ++ k ∷ []) s'
            × (s'.manager.element_count ≤ s.manager.element_count + 1))
          (work fuel fresh t s)
  unfolding work
  work-goes_on t fuel fresh posted ran ks k s r front bounded answers =
      let kept = Runs-Kept c t posted ran s r in
      let beats : AllBeat (k ∷ ks) = subst AllBeat front kept.beats in
      let ((st, s'), did, grown) = Returns-result (
        run_task-Grows t fuel fresh k (record s { queue = ks }) beats.0 kept.history bounded
          answers) in
      rw (kept.running, front, did)
        (returns (worked fuel fresh k r front bounded answers did, grown))

  module _ (fuel t : ℕ) where
    work_on-queue :
        (answers : List Ptr) (ks posted ran : List (Task E)) (s : Service E)
        → Runs c t posted ran s
        → s.queue ≡ ks
        → length answers ≡ length ks
        → s.manager.element_count + length ks < ulong_mod
        → Supplied fuel t answers s
        → Returns (λ s'. Runs c t posted posted s' × (s'.queue ≡ [])) (work_on fuel t answers s)
    work_on-queue [] [] posted ran s r front same bounded supplied =
        let all : posted ≡ ran =
          (Runs-Kept c t posted ran s r).in_order ∙ ap (λ ks. ran ++ ks) front ∙ append-nil ran in
        returns (subst (λ done. Runs c t posted done s) (sym all) r, front)
    work_on-queue (fresh ∷ answers) (k ∷ ks) posted ran s r front same bounded (answer, next) =
        Returns-bind
          (Returns-Holds (work-goes_on t fuel fresh posted ran ks k s r front (omega arith) answer)
            next)
          λ s' ((r', grown), supplied).
            let kept = Runs-Kept c t posted ran s r in
            let kept' = Runs-Kept c t posted (ran ++ k ∷ []) s' r' in
            let front' : s'.queue ≡ ks = same_rest (ran ++ k ∷ []) s'.queue ks (
              sym kept'.in_order
              ∙ kept.in_order
              ∙ ap (λ rest. ran ++ rest) front
              ∙ sym (append_assoc ran (k ∷ []) ks)) in
            work_on-queue answers ks posted (ran ++ k ∷ []) s' r' front' (omega arith) (omega arith)
              supplied
    work_on-queue [] (k ∷ ks) posted ran s r front same bounded supplied = absurd (omega arith)
    work_on-queue (fresh ∷ answers) [] posted ran s r front same bounded supplied =
        absurd (omega arith)

    -- Under settings whose limit, where there is one, is at least one: in every run of a started
    -- service under additions, updates, deletions and ticks, when the pool has an answer for each
    -- task of the queue, NULL or an address that is unused when it is given, and the counter can
    -- hold as many elements more as there are tasks, the thread is never stuck: it runs the queue
    -- to its end, and every task that was posted has run, in the order of the posts.
    pub work_on-done :
        (answers : List Ptr) (posted ran : List (Task E)) (s : Service E)
        → Runs c t posted ran s
        → length answers ≡ length s.queue
        → s.manager.element_count + length s.queue < ulong_mod
        → Supplied fuel t answers s
        → Returns (λ s'. Runs c t posted posted s' × (s'.queue ≡ [])) (work_on fuel t answers s)
    work_on-done answers posted ran s r = work_on-queue answers s.queue posted ran s r refl
