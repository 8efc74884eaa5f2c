-- ===== src/HeartBeat/ElementMgr/Timeout.antt =====
-- `handle_timeout`.
use newbee.Base.{
  ℕ, zero, suc, ◌<◌, ◌≡◌, ◌≢◌, refl, sym, ◌∙◌, ap, Bool, true, false, [], ◌∷◌, ◌++◌, arith, Eq,
  Bool-cases, Snoc-cases, inl, inr, length, ◌==◌, ==_ne, append-nil, subst,
}
use newbee.Memory.{Returns, returns, ok}
use newbee.HeartBeat.NodeList
use newbee.HeartBeat.NodeList.{Ptr, null, node, NodeList, load, pop_back, success, failure}
use newbee.HeartBeat.NodeList.Segment.{focus, last-snoc}
use newbee.HeartBeat.ElementMgr.{
  ElementData, Mgr, ulong_mod, data_of, notify, drop_node, timeout_loop, handle_timeout,
}
use newbee.HeartBeat.ElementMgr.Spec
use newbee.HeartBeat.ElementMgr.Spec.{Spec, trim, trimmed, is_over, is_nil, told}
use newbee.HeartBeat.ElementMgr.Rep.{Entries, Rep}
use newbee.HeartBeat.ElementMgr.Unlink.{
  Loose, dropped, dropped-Rep, drop_node-dropped, pop_back-Loose, with_list,
}
use newbee.HeartBeat.ElementMgr.Evict.{noted, notify-noted, Loose-noted}
use newbee.HeartBeat.ElementMgr.Implements.{
  Implements, spec_of, values, values-append, length-values, length-middle,
}
use newbee.HeartBeat.ElementMgr.Trimming.{trims, trims-snoc_over, trims-snoc_not}

module _ {E : Type 0} ⦃q : Eq E⦄ where
  -- What the loop sees through `back()`.
  record BackNode (m : Mgr E) (p : Ptr) (d : ElementData E) : Type 0 where
    live : (NodeList.back m.busy_list == null) ≡ false
    read : data_of (NodeList.back m.busy_list) m ≡ ok (d, m)
    telling : notify (NodeList.back m.busy_list) m ≡ ok (tt, noted m d.element)
    ne_null : p ≢ null
    is_back : p ≡ NodeList.back m.busy_list

  back_node :
      (m : Mgr E) (xs : Entries E) (p : Ptr) (d : ElementData E)
      → Rep m (xs ++ (p, d) ∷ [])
      → BackNode m p d
  unfolding data_of load
  back_node m xs p d rep =
      let foc = focus m.busy_list.heap null null p d xs [] rep.list.chain in
      let back : p ≡ m.busy_list.tail = sym (rep.list.tail ∙ last-snoc null p d xs) in
      record {
        live = subst (λ a. (a == null) ≡ false) back (==_ne p null foc.ne_null);
        read = subst (λ a. data_of a m ≡ ok (d, m)) back (rw (==_ne p null foc.ne_null, foc.at));
        telling =
            subst (λ a. notify a m ≡ ok (tt, noted m d.element)) back
              (notify-noted m p _ _ d foc.ne_null foc.at);
        ne_null = foc.ne_null;
        is_back = back;
      }

  -- One round of the loop, at a last entry that is over.
  timeout_round :
      (k now timeout : ℕ) (m : Mgr E) (xs : Entries E) (p : Ptr) (d : ElementData E)
      → Rep m (xs ++ (p, d) ∷ [])
      → is_over now timeout d ≡ true
      → (l : NodeList (ElementData E)) × (timeout_loop (suc k) now timeout m
          ≡ timeout_loop k now timeout (dropped (noted (with_list m l) d.element) xs p d []))
        × Loose (noted (with_list m l) d.element) xs p d []
  unfolding timeout_loop
  timeout_round k now timeout m xs p d rep late =
      let back = back_node m xs p d rep in
      let (l, popped, loose) = pop_back-Loose m p d xs rep in
      let loose' = Loose-noted (with_list m l) d.element xs p d [] loose in
      let after = dropped (noted (with_list m l) d.element) xs p d [] in
      let dropping =
        subst (λ a. drop_node a (noted (with_list m l) d.element) ≡ ok (tt, after)) back.is_back
          (drop_node-dropped (noted (with_list m l) d.element) xs p d [] loose') in
      (
        l,
        rw (back.live, back.read, late, back.telling, popped, ==_ne p null back.ne_null, dropping),
        loose',
      )

  timeout_stop :
      (k now timeout : ℕ) (m : Mgr E) (xs : Entries E) (p : Ptr) (d : ElementData E)
      → Rep m (xs ++ (p, d) ∷ [])
      → is_over now timeout d ≡ false
      → timeout_loop (suc k) now timeout m ≡ ok (success, m)
  unfolding timeout_loop
  timeout_stop k now timeout m xs p d rep early =
      let back = back_node m xs p d rep in rw (back.live, back.read, early)

  timeout_empty :
      (k now timeout : ℕ) (m : Mgr E)
      → Rep m []
      → timeout_loop (suc k) now timeout m ≡ ok (success, m)
  unfolding timeout_loop
  timeout_empty k now timeout m rep = rw (ap (λ a. a == null) rep.list.tail)

  -- The node list of a specification whose last entry is `d`.
  spec-snoc :
      (m : Mgr E) (xs nodes : Entries E) (p : Ptr) (d : ElementData E)
      → nodes ≡ xs ++ (p, d) ∷ []
      → record (spec_of m []) { entries = values xs ++ d ∷ [] } ≡ spec_of m nodes
  spec-snoc m xs nodes p d e = rw (e, values-append xs ((p, d) ∷ []))

  -- The loop ends, drops the entries at the end that are over, oldest first, and tells of each.
  timeout_loop-trims :
      (k now timeout : ℕ) (m : Mgr E) (nodes : Entries E)
      → Rep m nodes
      → m.element_count ≡ length nodes
      → length nodes < ulong_mod
      → length nodes < k
      → Returns
          (λ r. (r.0 ≡ success) × Implements r.1 (trims (is_over now timeout) (spec_of m nodes)))
          (timeout_loop k now timeout m)
  timeout_loop-trims zero now timeout m nodes rep counted bounded fuel = absurd (omega arith)
  timeout_loop-trims (suc k) now timeout m nodes rep counted bounded fuel =
      let over : ElementData E → Bool = is_over now timeout in
      elim (Snoc-cases nodes) [
        | inl e ↦
            rw (timeout_empty k now timeout m (rw e at rep), e)
              (returns (
                refl,
                record {
                  nodes = [];
                  rep = rw e at rep;
                  counted = rw e at counted;
                  bounded = omega arith;
                  view = ground (arith, append-nil m.called);
                },
              ))
        | inr (xs, (p, d), e) ↦ elim (Bool-cases (is_over now timeout d)) [
          | inl late ↦
              let (l, ran, loose) = timeout_round k now timeout m xs p d (rw e at rep) late in
              let after = dropped (noted (with_list m l) d.element) xs p d [] in
              let shorter : length nodes ≡ suc (length xs) =
                ap length e
                ∙ length-middle xs p d []
                ∙ ap (λ ys. suc (length ys)) (append-nil xs) in
              rw ran (
                subst
                  (λ s.
                    Returns (λ r. (r.0 ≡ success) × Implements r.1 s)
                      (timeout_loop k now timeout after))
                  (trims-snoc_over over (values xs) d m late
                    ∙ ap (trims over) (spec-snoc m xs nodes p d e))
                  (timeout_loop-trims k now timeout after xs
                    (rw append-nil at
                      (dropped-Rep (noted (with_list m l) d.element) xs p d [] loose))
                    (omega arith) (omega arith) (omega arith)))
          | inr early ↦ rw (timeout_stop k now timeout m xs p d (rw e at rep) early) (
              returns (
                refl,
                record {
                  nodes = nodes;
                  rep = rep;
                  counted = counted;
                  bounded = bounded;
                  view =
                      sym (spec-snoc m xs nodes p d e)
                      ∙ trims-snoc_not over (values xs) d m early
                      ∙ ap (trims over) (spec-snoc m xs nodes p d e);
                },
              ))
        ]
      ]

  handle_on :
      (fuel now : ℕ) (m : Mgr E) (nodes : Entries E)
      → m.timeout_flag ≡ true
      → (handle_timeout fuel now m ≡ timeout_loop fuel now m.timeout m)
        × (trims (is_over now m.timeout) (spec_of m nodes)
            ≡ Spec.handle_timeout now (spec_of m nodes))
  unfolding handle_timeout Spec.handle_timeout
  handle_on fuel now m nodes on = (ground arith, ground arith)

  handle_off :
      (fuel now : ℕ) (m : Mgr E) (nodes : Entries E)
      → m.timeout_flag ≡ false
      → (handle_timeout fuel now m ≡ ok (success, m))
        × (spec_of m nodes ≡ Spec.handle_timeout now (spec_of m nodes))
  unfolding handle_timeout Spec.handle_timeout
  handle_off fuel now m nodes off = (ground arith, ground arith)

  handle_view :
      (fuel now : ℕ) (m : Mgr E) (nodes : Entries E)
      → Rep m nodes
      → m.element_count ≡ length nodes
      → length nodes < ulong_mod
      → length nodes < fuel
      → Returns
          (λ r. (r.0 ≡ success) × Implements r.1 (Spec.handle_timeout now (spec_of m nodes)))
          (handle_timeout fuel now m)
  handle_view fuel now m nodes rep counted bounded enough = elim (Bool-cases m.timeout_flag) [
    | inl on ↦
        let (ran, spec) = handle_on fuel now m nodes on in
        rw (ran, ← spec) (timeout_loop-trims fuel now m.timeout m nodes rep counted bounded enough)
    | inr off ↦
        let (ran, spec) = handle_off fuel now m nodes off in
        rw ran (
          returns (
            refl,
            record { nodes = nodes; rep = rep; counted = counted; bounded = bounded; view = spec },
          ))
  ]

  -- For a manager that implements a list of entries, `handle_timeout` with more fuel than there
  -- are entries returns success and does what the list specification says: if time-outs are on,
  -- the longest run of entries at the end that are over goes, and the callback is given each of
  -- them, the last entry first.
  pub handle_timeout-Implements :
      (fuel now : ℕ) (m : Mgr E) (s : Spec E)
      → Implements m s
      → length s.entries < fuel
      → Returns
          (λ r. (r.0 ≡ success) × Implements r.1 (Spec.handle_timeout now s))
          (handle_timeout fuel now m)
  handle_timeout-Implements fuel now m s i enough =
      let fits = rw (← i.view, length-values i.nodes) at enough in
      rw (← i.view) (handle_view fuel now m i.nodes i.rep i.counted i.bounded fits)
