-- ===== src/HeartBeat/ElementMgr/Evict.antt =====
-- The callback, and the eviction of the last element by `add_element`.
use newbee.Base.{
  ℕ, ◌+◌, ◌%◌, ◌<◌, ◌≡◌, ◌≢◌, refl, sym, ◌∙◌, ap, Bool, true, ◌&&◌, some, List, [], ◌∷◌, ◌++◌,
  arith, if◌then◌else◌, ltb, Eq, append-nil, subst, Bool-cases, Snoc-cases, inl, inr, length, ==_ne,
}
use newbee.Memory.{Returns, returns, ok}
use newbee.HeartBeat.NodeList.{Ptr, null, node, NodeList, load}
use newbee.HeartBeat.ElementMgr.{ElementData, Mgr, ulong_mod, data_of, notify, evict}
use newbee.HeartBeat.ElementMgr.Spec
use newbee.HeartBeat.ElementMgr.Spec.{Spec, drop_last, last_element, is_nil}
use newbee.HeartBeat.ElementMgr.Rep.{Entries, Rep}
use newbee.HeartBeat.ElementMgr.Unlink.{
  Loose, dropped, dropped-Implements, drop_node-dropped, pop_back-Loose, with_list,
}
use newbee.HeartBeat.ElementMgr.Implements.{
  Implements, spec_of, values, values-append, length-values,
}

module _ {E : Type 0} where
  -- The state behind a call of the callback with `e`, if there is a callback.
  abbrev pub noted : Mgr E → E → Mgr E
  noted m e = record m { called = if m.has_callback then m.called ++ e ∷ [] else m.called }

  pub notify-noted :
      (m : Mgr E) (p f n : Ptr) (d : ElementData E)
      → p ≢ null
      → m.busy_list.heap p ≡ some (node f n d)
      → notify p m ≡ ok (tt, noted m d.element)
  unfolding notify load data_of
  notify-noted m p f n d ne at = elim (Bool-cases m.has_callback) [
    | inl y ↦ rw (y, ==_ne p null ne, at)
    | inr n ↦ ground arith
  ]

  pub drop_last-snoc :
      (ds : List (ElementData E)) (d : ElementData E)
      → (drop_last (ds ++ d ∷ []) ≡ ds) × (last_element (ds ++ d ∷ []) ≡ d.element ∷ [])
  drop_last-snoc [] d = (refl, refl)
  drop_last-snoc (c ∷ []) d = (refl, refl)
  drop_last-snoc (c ∷ b ∷ ds) d = let ih = drop_last-snoc (b ∷ ds) d in (ap (◌∷◌ c) ih.0, ih.1)

module _ {E : Type 0} ⦃q : Eq E⦄ where
  pub Loose-noted :
      (m : Mgr E) (e : E) (xs : Entries E) (p : Ptr) (d : ElementData E) (ys : Entries E)
      → Loose m xs p d ys
      → Loose (noted m e) xs p d ys
  Loose-noted m e xs p d ys l = record {
    list = l.list;
    ne_null = l.ne_null;
    at = l.at;
    out = l.out;
    index = l.index;
    distinct = l.distinct;
    no_leak = l.no_leak;
  }

  -- The two ways to state that the limit is reached.
  abbrev is_full : Mgr E → ℕ → Bool
  is_full m n = m.max_limit_flag && ltb m.max_limit n

  room_test :
      (m : Mgr E) (xs : Entries E)
      → m.element_count ≡ length xs
      → length xs + 1 < ulong_mod
      → is_full m ((m.element_count + 1) % ulong_mod) ≡ is_full m (length (values xs) + 1)
  room_test m xs counted bounded =
      let e : (m.element_count + 1) % ulong_mod ≡ length (values xs) + 1 =
        omega (arith, length-values xs) in
      ap (is_full m) e

  evict_spec :
      (m : Mgr E) (xs : Entries E) (p : Ptr) (d : ElementData E)
      → is_full m (length (values (xs ++ (p, d) ∷ [])) + 1) ≡ true
      → record (spec_of (noted m d.element) []) { entries = values (xs ++ []) }
        ≡ Spec.evict (spec_of m (xs ++ (p, d) ∷ []))
  unfolding Spec.evict
  evict_spec m xs p d full = rw full (
      rw (
        append-nil,
        values-append xs ((p, d) ∷ []),
        (drop_last-snoc (values xs) d).0,
        (drop_last-snoc (values xs) d).1,
      ))

  evict_ran :
      (m : Mgr E) (xs : Entries E) (p : Ptr) (d : ElementData E)
      → Rep m (xs ++ (p, d) ∷ [])
      → (m.max_limit_flag && ltb m.max_limit ((m.element_count + 1) % ulong_mod)) ≡ true
      → (l : NodeList (ElementData E)) × (evict m
          ≡ ok (tt, dropped (noted (with_list m l) d.element) xs p d []))
        × Loose (noted (with_list m l) d.element) xs p d []
  unfolding evict
  evict_ran m xs p d rep full =
      let (l, popped, loose) = pop_back-Loose m p d xs rep in
      let loose' = Loose-noted (with_list m l) d.element xs p d [] loose in
      (
        l,
        rw (full, popped, notify-noted (with_list m l) p null null d loose.ne_null loose.at)
            (drop_node-dropped (noted (with_list m l) d.element) xs p d [] loose'),
        loose',
      )

  evict_full :
      (m : Mgr E) (xs : Entries E) (p : Ptr) (d : ElementData E)
      → Rep m (xs ++ (p, d) ∷ [])
      → m.element_count ≡ length (xs ++ (p, d) ∷ [])
      → length (xs ++ (p, d) ∷ []) + 1 < ulong_mod
      → is_full m ((m.element_count + 1) % ulong_mod) ≡ true
      → Returns (λ r. Implements r.1 (Spec.evict (spec_of m (xs ++ (p, d) ∷ [])))) (evict m)
  evict_full m xs p d rep counted bounded full =
      let (l, ran, loose) = evict_ran m xs p d rep full in
      let full' = sym (room_test m (xs ++ (p, d) ∷ []) counted bounded) ∙ full in
      rw ran (
        returns (
          subst (Implements (dropped (noted (with_list m l) d.element) xs p d []))
            (evict_spec m xs p d full')
            (dropped-Implements (noted (with_list m l) d.element) xs p d [] loose counted
              (omega arith))))

  -- A limit of at least one leaves something to evict.
  abbrev pub IsUsable : Mgr E → Type 0
  IsUsable m = m.max_limit_flag ≡ true → 0 < m.max_limit

  empty_full :
      (m : Mgr E) (nodes : Entries E)
      → nodes ≡ []
      → m.element_count ≡ length nodes
      → is_full m ((m.element_count + 1) % ulong_mod) ≡ true
      → IsUsable m
      → ⊥
  empty_full m nodes e counted full usable =
      let zero_count : m.element_count ≡ 0 = counted ∙ ap length e in
      let full' : is_full m ((0 + 1) % ulong_mod) ≡ true = rw zero_count at full in
      ground (arith, usable)

  evict_view :
      (m : Mgr E) (nodes : Entries E)
      → Rep m nodes
      → m.element_count ≡ length nodes
      → length nodes + 1 < ulong_mod
      → IsUsable m
      → Returns (λ r. Implements r.1 (Spec.evict (spec_of m nodes))) (evict m)
  unfolding evict Spec.evict
  evict_view m nodes rep counted bounded usable =
      elim (Bool-cases (is_full m ((m.element_count + 1) % ulong_mod))) [
        | inl full ↦ elim (Snoc-cases nodes) [
          | inl e ↦ absurd (empty_full m nodes e counted full usable)
          | inr (xs, (p, d), e) ↦
              rw e (evict_full m xs p d (rw e at rep) (rw e at counted) (rw e at bounded) full)
        ]
        | inr room ↦
            rw (room, sym (room_test m nodes counted bounded) ∙ room)
              (returns (record {
                nodes = nodes;
                rep = rep;
                counted = counted;
                bounded = omega arith;
                view = refl;
              }))
      ]

  -- The eviction of `add_element` makes room as specified, given a limit of at least one.
  pub evict-Implements :
      (m : Mgr E) (s : Spec E)
      → Implements m s
      → length s.entries + 1 < ulong_mod
      → IsUsable m
      → Returns (λ r. Implements r.1 (Spec.evict s)) (evict m)
  evict-Implements m s i bounded usable =
      let fits = rw (← i.view, length-values i.nodes) at bounded in
      rw (← i.view) (evict_view m i.nodes i.rep i.counted fits usable)
