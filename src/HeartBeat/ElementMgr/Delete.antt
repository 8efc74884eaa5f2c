-- ===== src/HeartBeat/ElementMgr/Delete.antt =====
-- `del_element`.
use newbee.Base.{
  ◌≡◌, refl, ◌∙◌, none, some, [], ◌∷◌, ◌++◌, Eq, Option-cases, inl, inr, length, ==_ne, ◌<◌,
}
use newbee.Memory.{Returns, returns, ok}
use newbee.HeartBeat.NodeList.{Ptr, null, NodeList, load, success}
use newbee.HeartBeat.ElementMgr.{ElementData, Mgr, ulong_mod, del_element, destroy}
use newbee.HeartBeat.ElementMgr.Spec
use newbee.HeartBeat.ElementMgr.Spec.{Spec, remove}
use newbee.HeartBeat.ElementMgr.Rep.{Entries, ptr_of, Rep, Split, Split-of_ptr}
use newbee.HeartBeat.ElementMgr.Unlink.{dropped-Implements, Loose, dropped, erase-Loose, with_list}
use newbee.HeartBeat.ElementMgr.Implements.{
  Implements, spec_of, values, member-values, remove-values,
}

module _ {E : Type 0} ⦃q : Eq E⦄ where
  del-Loose :
      (m : Mgr E) (xs : Entries E) (p : Ptr) (d : ElementData E) (ys : Entries E)
      → Rep m (xs ++ (p, d) ∷ ys)
      → m.elements d.element ≡ some p
      → (l : NodeList (ElementData E)) × (del_element d.element m
          ≡ ok (success, dropped (with_list m l) xs p d ys))
        × Loose (with_list m l) xs p d ys
  unfolding del_element destroy load
  del-Loose m xs p d ys rep found =
      let (l, erased, loose) = erase-Loose m xs p d ys rep in
      (l, rw (found, erased, ==_ne p null loose.ne_null, loose.at), loose)

  del_at :
      (m : Mgr E) (xs : Entries E) (p : Ptr) (d : ElementData E) (ys : Entries E)
      → Rep m (xs ++ (p, d) ∷ ys)
      → m.element_count ≡ length (xs ++ (p, d) ∷ ys)
      → length (xs ++ (p, d) ∷ ys) < ulong_mod
      → ptr_of d.element xs ≡ none
      → m.elements d.element ≡ some p
      → Returns
          (λ r.
            (r.0 ≡ success)
            × Implements r.1
                (record (spec_of m []) { entries = remove d.element (values (xs ++ (p, d) ∷ ys)) }))
          (del_element d.element m)
  del_at m xs p d ys rep counted bounded free found =
      let (l, ran, loose) = del-Loose m xs p d ys rep found in
      rw ran (
        returns (
          refl,
          rw (remove-values xs p d ys free)
              (dropped-Implements (with_list m l) xs p d ys loose counted bounded),
        ))

  del_found :
      (m : Mgr E) (nodes : Entries E) (e : E) (p : Ptr)
      → Rep m nodes
      → m.element_count ≡ length nodes
      → length nodes < ulong_mod
      → m.elements e ≡ some p
      → Split e p nodes
      → Returns
          (λ r.
            (r.0 ≡ success)
            × Implements r.1 (record (spec_of m []) { entries = remove e (values nodes) }))
          (del_element e m)
  del_found m nodes e p rep counted bounded found s =
      rw (s.whole, ← s.here)
        (del_at m s.before p s.value s.behind (rw s.whole at rep) (rw s.whole at counted)
          (rw s.whole at bounded) (rw (← s.here) at s.not_before) (rw (← s.here) at found))

  del_view :
      (m : Mgr E) (nodes : Entries E) (e : E)
      → Rep m nodes
      → m.element_count ≡ length nodes
      → length nodes < ulong_mod
      → let s = spec_of m nodes in
        Returns
          (λ r. (r.0 ≡ (Spec.del_element e s).0) × Implements r.1 (Spec.del_element e s).1)
          (del_element e m)
  unfolding Spec.del_element del_element
  del_view m nodes e rep counted bounded = elim (Option-cases (ptr_of e nodes)) [
    | inl missing ↦
        rw (member-values e nodes, missing, rep.index e, missing)
          (returns (
            refl,
            record { nodes = nodes; rep = rep; counted = counted; bounded = bounded; view = refl },
          ))
    | inr (p, found) ↦
        rw (member-values e nodes, found)
          (del_found m nodes e p rep counted bounded (rep.index e ∙ found)
            (Split-of_ptr e p nodes found))
  ]

  -- For a manager that implements a list of entries, `del_element` returns and does what the list
  -- specification says: the entry of the element goes, and an unknown element is refused.
  pub del_element-Implements :
      (m : Mgr E) (s : Spec E) (e : E)
      → Implements m s
      → Returns
          (λ r. (r.0 ≡ (Spec.del_element e s).0) × Implements r.1 (Spec.del_element e s).1)
          (del_element e m)
  del_element-Implements m s e i = rw (← i.view) (del_view m i.nodes e i.rep i.counted i.bounded)
