-- ===== src/HeartBeat/ElementMgr/History.antt =====
-- Histories of an element manager: the calls that one thread makes, under a clock that does not run
-- back and a pool that answers with unused addresses. The calls that empty the manager are left out
-- (they leave the counter behind: Clear).
use newbee.Base.{
  ℕ, ◌+◌, ◌<◌, ◌≤◌, ◌≡◌, refl, ap, ◌∙◌, sym, true, not, [], arith, Eq, length, ◌==◌, none, subst,
}
use newbee.Memory.{Returns, Returns-ok, ok}
use newbee.HeartBeat.NodeList.{Status, success, null}
use newbee.HeartBeat.ElementMgr.{
  Mgr, ulong_mod, init, evict, add_element, update_element, del_element, handle_timeout,
}
use newbee.HeartBeat.ElementMgr.Spec
use newbee.HeartBeat.ElementMgr.Spec.{Spec, Config, is_over, told}
use newbee.HeartBeat.ElementMgr.Rep.{init-Rep}
use newbee.HeartBeat.ElementMgr.Implements.{Implements, count_entries}
use newbee.HeartBeat.ElementMgr.Evict.{IsUsable}
use newbee.HeartBeat.ElementMgr.Add.{add_element-Implements}
use newbee.HeartBeat.ElementMgr.Update.{update_element-Implements}
use newbee.HeartBeat.ElementMgr.Delete.{del_element-Implements}
use newbee.HeartBeat.ElementMgr.Timeout.{handle_timeout-Implements}
use newbee.HeartBeat.ElementMgr.Expiry.{
  Timely, Timely-mono, handle_timeout-Timely, add_element-Timely, update_element-Timely,
  del_element-Timely, handle_timeout-exact, in_time, late,
}
use newbee.HeartBeat.ElementMgr.Constancy.{
  HasRoom, supplied, handle_timeout-config, add_element-config, update_element-config,
  del_element-config,
}

module _ {E : Type 0} ⦃q : Eq E⦄ where
  -- The pool answers the allocation of this `add_element` with NULL or with an unused address.
  abbrev pub Answers : Mgr E → (fresh : ℕ) → Type 0
  Answers m fresh = (m' : Mgr E) → evict m ≡ ok (tt, m') → m'.busy_list.heap fresh ≡ none

  -- A new manager with its settings.
  abbrev pub configured : Config → Mgr E
  configured c = record init {
    has_callback = c.has_callback;
    timeout_flag = c.timeout_flag;
    timeout = c.timeout;
    max_limit_flag = c.max_limit_flag;
    max_limit = c.max_limit;
  }

  -- `Reach c t m`: at time `t` a manager with the settings `c` can be in the state `m`.
  pub data Reach (c : Config) : ℕ → Mgr E → Type 0 where
    started : (t : ℕ) → Reach c t (configured c)
    waited : {t u : ℕ} {m : Mgr E} → t ≤ u → Reach c t m → Reach c u m
    added :
        {t : ℕ} {m m' : Mgr E} {st : Status} (fresh : ℕ) (e : E)
        → Reach c t m
        → m.element_count + 1 < ulong_mod
        → Answers m fresh
        → add_element fresh t e m ≡ ok (st, m')
        → Reach c t m'
    updated :
        {t : ℕ} {m m' : Mgr E} {st : Status} (e : E)
        → Reach c t m
        → update_element t e m ≡ ok (st, m')
        → Reach c t m'
    deleted :
        {t : ℕ} {m m' : Mgr E} {st : Status} (e : E)
        → Reach c t m
        → del_element e m ≡ ok (st, m')
        → Reach c t m'
    timed_out :
        {t : ℕ} {m m' : Mgr E} {st : Status} (fuel : ℕ)
        → Reach c t m
        → m.element_count < fuel
        → handle_timeout fuel t m ≡ ok (st, m')
        → Reach c t m'

  -- What holds of every state that can be reached.
  pub record Sound (c : Config) (t : ℕ) (m : Mgr E) : Type 0 where
    pub spec : Spec E
    pub implements : Implements m spec
    pub timely : Timely t spec
    pub config_kept : spec.config ≡ c

  module _ (c : Config) (room : HasRoom c) where
    pub size : (t : ℕ) (m : Mgr E) (s : Sound c t m) → m.element_count ≡ length s.spec.entries
    size t m s = count_entries m s.spec s.implements

    pub usable : (t : ℕ) (m : Mgr E) → Sound c t m → IsUsable m
    usable t m s =
        subst {A = Config} (λ k. k.max_limit_flag ≡ true → 0 < k.max_limit)
          (sym (ap (λ (t : Spec E). t.config) s.implements.view ∙ s.config_kept)) room

    started-Sound : (t : ℕ) → Sound c t (configured c)
    unfolding init
    started-Sound t = record {
      spec = record { entries = []; called = []; config = c };
      implements = record {
        nodes = [];
        rep = record {
          list = init-Rep.list;
          index = init-Rep.index;
          distinct = tt;
          no_leak = init-Rep.no_leak;
        };
        counted = refl;
        bounded = omega arith;
        view = refl;
      };
      timely = record { ordered = tt; up_to = tt };
      config_kept = refl;
    }

    added-Sound :
        (t : ℕ) (m m' : Mgr E) (st : Status) (fresh : ℕ) (e : E)
        → Sound c t m
        → m.element_count + 1 < ulong_mod
        → Answers m fresh
        → add_element fresh t e m ≡ ok (st, m')
        → Sound c t m'
    added-Sound t m m' st fresh e s bounded answers ran =
        let fits : length s.spec.entries + 1 < ulong_mod = omega (arith, size t m s) in
        let after =
          Returns-ok _ _ _
            (add_element-Implements m s.spec fresh t e (not (fresh == null)) s.implements fits
              (usable t m s) (supplied fresh) answers)
            ran in
        record {
          spec = (Spec.add_element (not (fresh == null)) t e s.spec).1;
          implements = after.1;
          timely = add_element-Timely t s.spec (not (fresh == null)) e s.timely;
          config_kept = add_element-config (not (fresh == null)) t e s.spec ∙ s.config_kept;
        }

    -- Under settings whose limit, where there is one, is at least one: every state that a history
    -- of additions, updates, deletions and time-outs reaches, with a clock that does not run back,
    -- a pool that answers with NULL or unused addresses and fewer elements than the counter can
    -- hold, implements a list of entries that is ordered by time, none later than now, with the
    -- settings it started with.
    pub reach-Sound : (t : ℕ) (m : Mgr E) → Reach c t m → Sound c t m
    reach-Sound t m (started _) = started-Sound t
    reach-Sound u m (waited {t} later r) =
        let s = reach-Sound t m r in
        record {
          spec = s.spec;
          implements = s.implements;
          timely = Timely-mono t u s.spec later s.timely;
          config_kept = s.config_kept;
        }
    reach-Sound t m' (added {m} {st} fresh e r bounded answers ran) =
        added-Sound t m m' st fresh e (reach-Sound t m r) bounded answers ran
    reach-Sound t m' (updated {m} e r ran) =
        let s = reach-Sound t m r in
        record {
          spec = (Spec.update_element t e s.spec).1;
          implements =
              (Returns-ok _ _ _ (update_element-Implements m s.spec t e s.implements) ran).1;
          timely = update_element-Timely t s.spec e s.timely;
          config_kept = update_element-config t e s.spec ∙ s.config_kept;
        }
    reach-Sound t m' (deleted {m} e r ran) =
        let s = reach-Sound t m r in
        record {
          spec = (Spec.del_element e s.spec).1;
          implements = (Returns-ok _ _ _ (del_element-Implements m s.spec e s.implements) ran).1;
          timely = del_element-Timely t s.spec e s.timely;
          config_kept = del_element-config e s.spec ∙ s.config_kept;
        }
    reach-Sound t m' (timed_out {m} fuel r enough ran) =
        let s = reach-Sound t m r in
        let fits : length s.spec.entries < fuel = omega (arith, size t m s, enough) in
        record {
          spec = Spec.handle_timeout t s.spec;
          implements =
              (Returns-ok _ _ _ (handle_timeout-Implements fuel t m s.spec s.implements fits)
                ran).1;
          timely = handle_timeout-Timely t t s.spec s.timely;
          config_kept = handle_timeout-config t s.spec ∙ s.config_kept;
        }

    -- Under settings with a time-out, whose limit, where there is one, is at least one: in every
    -- state that a history reaches, `handle_timeout` with more fuel than there are elements
    -- returns success, keeps exactly the entries that are not over and calls back for exactly the
    -- others, the oldest first.
    pub reach-handle_timeout :
        (fuel t : ℕ) (m : Mgr E)
        → Reach c t m
        → c.timeout_flag ≡ true
        → m.element_count < fuel
        → (s : Spec E) × Implements m s
          × Returns
              (λ r.
                (r.0 ≡ success)
                × Implements r.1 (record s {
                  entries = in_time (is_over t c.timeout) s.entries;
                  called = told s (late (is_over t c.timeout) s.entries);
                }))
              (handle_timeout fuel t m)
    reach-handle_timeout fuel t m r on enough =
        let s = reach-Sound t m r in
        let fits : length s.spec.entries < fuel = omega (arith, size t m s, enough) in
        let same : s.spec.config.timeout ≡ c.timeout =
          ap (λ (k : Config). k.timeout) s.config_kept in
        let on' : s.spec.config.timeout_flag ≡ true =
          ap (λ (k : Config). k.timeout_flag) s.config_kept ∙ on in
        (
          s.spec,
          s.implements,
          subst {A = ℕ}
              (λ k.
                Returns
                  (λ (r : Status × Mgr E).
                    (r.0 ≡ success)
                    × Implements r.1 (record s.spec {
                      entries = in_time (is_over t k) s.spec.entries;
                      called = told s.spec (late (is_over t k) s.spec.entries);
                    }))
                  (handle_timeout fuel t m))
              same (handle_timeout-exact fuel t m s.spec s.implements s.timely.ordered on' fits),
        )
