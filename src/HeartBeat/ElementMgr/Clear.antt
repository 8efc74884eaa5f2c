-- ===== src/HeartBeat/ElementMgr/Clear.antt =====
-- `clear_element`, `get_all_element_and_clear` and `trigger_all_timeout`.
use newbee.Base.{
  ℕ, ◌+◌, ◌%◌, ◌<◌, ◌≤◌, ◌≡◌, refl, sym, ◌∙◌, ap, true, ◌&&◌, none, List, [], ◌++◌, arith, ltb,
  lt→ltb, Eq, length,
}
use newbee.Memory.{Returns, returns, Returns-bind, Returns-mono, fault}
use newbee.HeartBeat.NodeList.{load, success}
use newbee.HeartBeat.NodeList.Pop.{pop-nil}
use newbee.HeartBeat.ElementMgr.{
  Mgr, ulong_mod, data_of, notify, clear_element, get_all_element_and_clear, trigger_all_timeout,
  add_element, evict, drop_node,
}
use newbee.HeartBeat.ElementMgr.Spec
use newbee.HeartBeat.ElementMgr.Spec.{Spec, Config, elements_of}
use newbee.HeartBeat.ElementMgr.Rep.{Rep}
use newbee.HeartBeat.ElementMgr.Implements.{
  Implements, spec_of, config_of, values, count_entries, length-values,
}
use newbee.HeartBeat.ElementMgr.Draining.{
  Drains, Drained, clear_loop-Drained, get_all_loop-Drained, told_all, trigger_loop-Drained,
}

module _ {E : Type 0} ⦃q : Eq E⦄ where
  -- An emptied manager: the list, the map and the pool are empty, and the counter is what it was.
  pub record Emptied (m n : Mgr E) (s : Spec E) : Type 0 where
    pub rep : Rep n []
    pub view : spec_of n [] ≡ s
    pub stale : n.element_count ≡ m.element_count

  emptied :
      (m n : Mgr E) (told : List E)
      → Drained m.element_count (config_of m) told n
      → Emptied m
          (record n { elements = λ _. none })
          (record { entries = []; called = told; config = config_of m })
  emptied m n told dr = record {
    rep = record {
      list = dr.list;
      index = λ e. refl;
      distinct = tt;
      no_leak = λ a o. dr.no_leak a;
    };
    view = λ i. record { entries = []; called = dr.called i; config = dr.config_kept i };
    stale = dr.count_kept;
  }

  start : (m : Mgr E) (s : Spec E) (i : Implements m s) → Drains m i.nodes
  start m s i = record { list = i.rep.list; no_leak = i.rep.no_leak }

  enough_for :
      (m : Mgr E) (s : Spec E) (fuel : ℕ) (i : Implements m s)
      → length s.entries < fuel
      → length i.nodes < fuel
  enough_for m s fuel i h = rw (← i.view, length-values i.nodes) at h

  -- `clear_element` frees every node, forgets every element and calls nobody; the counter stays.
  pub clear_element-Emptied :
      (m : Mgr E) (s : Spec E) (fuel : ℕ)
      → Implements m s
      → length s.entries < fuel
      → Returns (λ r. (r.0 ≡ success) × Emptied m r.1 (Spec.clear_element s)) (clear_element fuel m)
  unfolding clear_element Spec.clear_element
  clear_element-Emptied m s fuel i enough = rw (← i.view) (
      Returns-bind (clear_loop-Drained fuel m i.nodes (start m s i) (enough_for m s fuel i enough))
        λ (_, n) dr. returns (refl, emptied m n m.called dr))

  -- For a manager that implements a list of entries, `get_all_element_and_clear` with more fuel
  -- than there are entries returns success, adds the elements to the vector, most recent first,
  -- and empties list, map and pool without a callback; the counter stays what it was.
  pub get_all_element_and_clear-Emptied :
      (m : Mgr E) (s : Spec E) (fuel : ℕ) (vt : List E)
      → Implements m s
      → length s.entries < fuel
      → Returns
          (λ r.
            (r.0 ≡ (success, vt ++ elements_of s.entries)) × Emptied m r.1 (Spec.clear_element s))
          (get_all_element_and_clear fuel vt m)
  unfolding get_all_element_and_clear Spec.clear_element
  get_all_element_and_clear-Emptied m s fuel vt i enough = rw (← i.view) (
      Returns-bind
        (get_all_loop-Drained fuel vt m i.nodes (start m s i) (enough_for m s fuel i enough))
        λ (all, n) (got, dr). returns (ap (λ es. (success, es)) got, emptied m n m.called dr))

  -- For a manager that implements a list of entries, `trigger_all_timeout` with more fuel than
  -- there are entries returns, frees every node, forgets every element and calls back for each,
  -- most recent first; the counter stays what it was.
  pub trigger_all_timeout-Emptied :
      (m : Mgr E) (s : Spec E) (fuel : ℕ)
      → Implements m s
      → length s.entries < fuel
      → Returns (λ r. Emptied m r.1 (Spec.trigger_all_timeout s)) (trigger_all_timeout fuel m)
  unfolding trigger_all_timeout Spec.trigger_all_timeout
  trigger_all_timeout-Emptied m s fuel i enough = rw (← i.view) (
      Returns-bind
        (trigger_loop-Drained fuel m i.nodes (start m s i) (enough_for m s fuel i enough))
        λ (_, n) dr. returns (emptied m n (told_all m (elements_of (values i.nodes))) dr))

  -- With nothing in the list, a counter at the limit makes `add_element` read through NULL.
  pub add_element-fault :
      (n : Mgr E) (fresh now : ℕ) (e : E)
      → Rep n []
      → (n.max_limit_flag && ltb n.max_limit ((n.element_count + 1) % ulong_mod)) ≡ true
      → add_element fresh now e n ≡ fault
  unfolding add_element evict notify drop_node data_of load
  add_element-fault n fresh now e rep full =
      rw (rep.index e, full, (pop-nil n.busy_list rep.list).1) (ground arith)

  full_after :
      (m n : Mgr E) (s : Spec E)
      → Implements m s
      → Emptied m n (Spec.clear_element s)
      → m.max_limit_flag ≡ true
      → m.max_limit ≤ length s.entries
      → length s.entries + 1 < ulong_mod
      → (n.max_limit_flag && ltb n.max_limit ((n.element_count + 1) % ulong_mod)) ≡ true
  unfolding Spec.clear_element
  full_after m n s i x flag full bounded =
      let size : m.element_count ≡ length s.entries = count_entries m s i in
      let kept : config_of n ≡ config_of m =
        ap (λ (t : Spec E). t.config) x.view ∙ sym (ap (λ (t : Spec E). t.config) i.view) in
      let flag' : n.max_limit_flag ≡ true = ap (λ (c : Config). c.max_limit_flag) kept ∙ flag in
      let limit : n.max_limit ≡ m.max_limit = ap (λ (c : Config). c.max_limit) kept in
      let over : n.max_limit < (n.element_count + 1) % ulong_mod = omega (arith, x.stale) in
      rw flag' (lt→ltb n.max_limit ((n.element_count + 1) % ulong_mod) over)

  -- If a manager implements a list of at least as many entries as its limit allows, but fewer than
  -- the counter can hold, `clear_element` with more fuel than there are entries returns a manager
  -- in which every `add_element` reads through NULL.
  pub clear_element-breaks_add :
      (m : Mgr E) (s : Spec E) (fuel : ℕ)
      → Implements m s
      → length s.entries < fuel
      → m.max_limit_flag ≡ true
      → m.max_limit ≤ length s.entries
      → length s.entries + 1 < ulong_mod
      → Returns
          (λ r. (fresh now : ℕ) (e : E) → add_element fresh now e r.1 ≡ fault)
          (clear_element fuel m)
  clear_element-breaks_add m s fuel i enough flag full bounded =
      Returns-mono (clear_element-Emptied m s fuel i enough) λ (_, n) (_, x) fresh now e.
        add_element-fault n fresh now e x.rep (full_after m n s i x flag full bounded)
