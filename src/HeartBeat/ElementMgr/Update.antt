-- ===== src/HeartBeat/ElementMgr/Update.antt =====
-- `update_element`.
use newbee.Base.{
  ℕ, ◌≡◌, refl, ◌∙◌, ap, none, some, [], ◌∷◌, ◌++◌, arith, Eq, Option-cases, inl, inr, length,
  ==_ne, ◌<◌,
}
use newbee.Memory.{Returns, returns, Returns-result, ok}
use newbee.HeartBeat.NodeList.{Ptr, null, node, NodeList, load, write, push_front, success}
use newbee.HeartBeat.NodeList.Push.{push_front-cons}
use newbee.HeartBeat.NodeList.Segment.{
  IsList, SameOutside, frame-write, write_self, not-mem-cons_tests, not-mem-middle,
}
use newbee.HeartBeat.ElementMgr.{ElementData, entry, Mgr, ulong_mod, update_element, set_time}
use newbee.HeartBeat.ElementMgr.Spec
use newbee.HeartBeat.ElementMgr.Spec.{Spec, remove}
use newbee.HeartBeat.ElementMgr.Rep.{
  Entries, ptr_of, Rep, Split, Split-of_ptr, Distinct-append, ptr_of-move,
}
use newbee.HeartBeat.ElementMgr.Unlink.{Loose, erase-Loose, with_list}
use newbee.HeartBeat.ElementMgr.Implements.{
  Implements, spec_of, values, member-values, remove-values, length-middle,
}

module _ {E : Type 0} ⦃q : Eq E⦄ where
  -- The list whose unlinked node `p` has been given its new time.
  abbrev stamped : NodeList (ElementData E) → Ptr → ElementData E → NodeList (ElementData E)
  stamped l p d = record l { heap = write l.heap p (some (node null null d)) }

  module _ (m : Mgr E) (xs : Entries E) (p : Ptr) (d : ElementData E) (ys : Entries E) (now : ℕ)
      (loose : Loose m xs p d ys) where
    abbrev fresh : ElementData E
    fresh = entry d.element now

    -- The stamped node goes to the front of the list.
    relink :
        (l : NodeList (ElementData E)) × (push_front p (stamped m.busy_list p fresh)
          ≡ ok (success, l))
        × IsList l ((p, fresh) ∷ xs ++ ys)
        × SameOutside ((p, fresh) ∷ xs ++ ys) (stamped m.busy_list p fresh).heap l.heap
    relink =
        let is : IsList (stamped m.busy_list p fresh) (xs ++ ys) = record {
          header = loose.list.header;
          tail = loose.list.tail;
          chain = frame-write m.busy_list.heap null null p _ (xs ++ ys) loose.list.chain loose.out;
        } in
        let ((st, l), e, (done, is', same)) = Returns-result (
          push_front-cons (stamped m.busy_list p fresh) p null null fresh loose.ne_null
            (write_self m.busy_list.heap p _) (xs ++ ys) is loose.out) in
        (l, e ∙ ap (λ s. ok (s, l)) done, is', same)

    relinked-Rep :
        (l : NodeList (ElementData E))
        → IsList l ((p, fresh) ∷ xs ++ ys)
        → SameOutside ((p, fresh) ∷ xs ++ ys) (stamped m.busy_list p fresh).heap l.heap
        → Rep (with_list m l) ((p, fresh) ∷ xs ++ ys)
    unfolding write
    relinked-Rep l is same = record {
      list = is;
      index = λ e. loose.index e ∙ ptr_of-move e xs ys p d loose.distinct;
      distinct = let parts = Distinct-append xs ys p d loose.distinct in (parts.1, parts.0);
      no_leak = λ a o.
          let (ne, o') = not-mem-cons_tests a p d (xs ++ ys) o in
          same a o ∙ rw ne (loose.no_leak a (not-mem-middle a p d xs ys ne o'));
    }

    set_time-stamped : set_time p now m ≡ ok (tt, with_list m (stamped m.busy_list p fresh))
    unfolding set_time load
    set_time-stamped = rw (==_ne p null loose.ne_null, loose.at)

  update_at :
      (m : Mgr E) (xs : Entries E) (p : Ptr) (d : ElementData E) (ys : Entries E) (now : ℕ)
      → Rep m (xs ++ (p, d) ∷ ys)
      → m.element_count ≡ length (xs ++ (p, d) ∷ ys)
      → length (xs ++ (p, d) ∷ ys) < ulong_mod
      → ptr_of d.element xs ≡ none
      → m.elements d.element ≡ some p
      → Returns
          (λ r.
            (r.0 ≡ success)
            × Implements r.1 (record (spec_of m []) {
              entries = entry d.element now ∷ remove d.element (values (xs ++ (p, d) ∷ ys));
            }))
          (update_element now d.element m)
  unfolding update_element
  update_at m xs p d ys now rep counted bounded free found =
      let (l, erased, loose) = erase-Loose m xs p d ys rep in
      let m1 = with_list m l in
      let (l', pushed, is, same) = relink m1 xs p d ys now loose in
      rw (found, erased, set_time-stamped m1 xs p d ys now loose, pushed)
        (returns (
          refl,
          record {
            nodes = (p, entry d.element now) ∷ xs ++ ys;
            rep = relinked-Rep m1 xs p d ys now loose l' is same;
            counted = omega (arith, length-middle xs p d ys);
            bounded = omega (arith, length-middle xs p d ys);
            view = rw (remove-values xs p d ys free);
          },
        ))

  update_found :
      (m : Mgr E) (nodes : Entries E) (now : ℕ) (e : E) (p : Ptr)
      → Rep m nodes
      → m.element_count ≡ length nodes
      → length nodes < ulong_mod
      → m.elements e ≡ some p
      → Split e p nodes
      → Returns
          (λ r.
            (r.0 ≡ success)
            × Implements r.1
                (record (spec_of m []) { entries = entry e now ∷ remove e (values nodes) }))
          (update_element now e m)
  update_found m nodes now e p rep counted bounded found s =
      rw (s.whole, ← s.here)
        (update_at m s.before p s.value s.behind now (rw s.whole at rep) (rw s.whole at counted)
          (rw s.whole at bounded) (rw (← s.here) at s.not_before) (rw (← s.here) at found))

  update_view :
      (m : Mgr E) (nodes : Entries E) (now : ℕ) (e : E)
      → Rep m nodes
      → m.element_count ≡ length nodes
      → length nodes < ulong_mod
      → let s = spec_of m nodes in
        Returns
          (λ r.
            (r.0 ≡ (Spec.update_element now e s).0)
            × Implements r.1 (Spec.update_element now e s).1)
          (update_element now e m)
  unfolding Spec.update_element update_element
  update_view m nodes now e rep counted bounded = elim (Option-cases (ptr_of e nodes)) [
    | inl missing ↦
        rw (member-values e nodes, missing, rep.index e, missing)
          (returns (
            refl,
            record { nodes = nodes; rep = rep; counted = counted; bounded = bounded; view = refl },
          ))
    | inr (p, found) ↦
        rw (member-values e nodes, found)
          (update_found m nodes now e p rep counted bounded (rep.index e ∙ found)
            (Split-of_ptr e p nodes found))
  ]

  -- For a manager that implements a list of entries, `update_element` returns and does what the
  -- list specification says: the entry of the element moves to the front with the new time, and an
  -- unknown element is refused.
  pub update_element-Implements :
      (m : Mgr E) (s : Spec E) (now : ℕ) (e : E)
      → Implements m s
      → Returns
          (λ r.
            (r.0 ≡ (Spec.update_element now e s).0)
            × Implements r.1 (Spec.update_element now e s).1)
          (update_element now e m)
  update_element-Implements m s now e i =
      rw (← i.view) (update_view m i.nodes now e i.rep i.counted i.bounded)
