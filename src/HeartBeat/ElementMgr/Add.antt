-- ===== src/HeartBeat/ElementMgr/Add.antt =====
-- `add_element`.
use newbee.Base.{
  ℕ, ◌+◌, ◌%◌, ◌<◌, ◌≤◌, ◌≡◌, ◌≢◌, refl, sym, ◌∙◌, ap, Bool, true, false, not, none, some, List, [],
  ◌∷◌, arith, if◌then◌else◌, Eq, Bool-cases, Option-cases, inl, inr, length, ◌==◌,
}
use newbee.Memory.{Run, Returns, returns, Returns-result, ok}
use newbee.HeartBeat.NodeList.{
  Ptr, null, node, NodeList, Status, success, failure, write, push_front,
}
use newbee.HeartBeat.NodeList.Push.{push_front-cons}
use newbee.HeartBeat.NodeList.Segment.{
  IsList, ◌∉◌, SameOutside, frame-write, write_self, not-mem_of_none, not-mem-cons_tests,
}
use newbee.HeartBeat.ElementMgr.{
  ElementData, entry, Mgr, ulong_mod, pure, ◌>>=◌, ◌>>◌, on_list, count_up, map_insert, construct,
  evict, add_element,
}
use newbee.HeartBeat.ElementMgr.Spec
use newbee.HeartBeat.ElementMgr.Spec.{Spec, member, drop_last, is_nil}
use newbee.HeartBeat.ElementMgr.Rep.{Entries, ptr_of, Rep}
use newbee.HeartBeat.ElementMgr.Evict.{IsUsable, evict-Implements}
use newbee.HeartBeat.ElementMgr.Implements.{Implements, length-values, member-values, is_found}

module _ {E : Type 0} ⦃q : Eq E⦄ where
  member-drop_last :
      (e : E) (ds : List (ElementData E)) → member e ds ≡ false → member e (drop_last ds) ≡ false
  member-drop_last e [] h = refl
  member-drop_last e (d ∷ ds) h = ground (arith, member-drop_last e ds)

  length-drop_last : (ds : List (ElementData E)) → length (drop_last ds) ≤ length ds
  length-drop_last [] = omega arith
  length-drop_last (d ∷ ds) = ground (arith, length-drop_last ds)

  -- Eviction adds no element and no entry.
  member-evict :
      (e : E) (s : Spec E) → member e s.entries ≡ false → member e (Spec.evict s).entries ≡ false
  unfolding Spec.evict
  member-evict e s h = ground (arith, member-drop_last e s.entries)

  pub length-evict : (s : Spec E) → length (Spec.evict s).entries ≤ length s.entries
  unfolding Spec.evict
  length-evict s = ground (arith, length-drop_last s.entries)

  absent :
      (e : E) (m : Mgr E) (s : Spec E) (i : Implements m s)
      → member e s.entries ≡ false
      → ptr_of e i.nodes ≡ none
  absent e m s i h =
      let h' = ap (λ (t : Spec E). member e t.entries) i.view ∙ h in
      ground (arith, member-values e i.nodes, h')

  -- A fresh node for an element that is not there, put before the others.
  module _ (m : Mgr E) (xs : Entries E) (p : Ptr) (e : E) (now : ℕ) (rep : Rep m xs) (ne : p ≢ null)
      (free : m.busy_list.heap p ≡ none) (new : ptr_of e xs ≡ none) where
    abbrev built : NodeList (ElementData E)
    built = record m.busy_list {
      heap = write m.busy_list.heap p (some (node null null (entry e now)));
    }

    out : p ∉ xs
    out = not-mem_of_none m.busy_list.heap null null p xs rep.list.chain free

    link :
        (l : NodeList (ElementData E)) × (push_front p built ≡ ok (success, l))
        × IsList l ((p, entry e now) ∷ xs)
        × SameOutside ((p, entry e now) ∷ xs) built.heap l.heap
    link =
        let is : IsList built xs = record {
          header = rep.list.header;
          tail = rep.list.tail;
          chain = frame-write m.busy_list.heap null null p _ xs rep.list.chain out;
        } in
        let ((st, l), ran, (done, is', same)) = Returns-result (
          push_front-cons built p null null (entry e now) ne (write_self m.busy_list.heap p _) xs is
            out) in
        (l, ran ∙ ap (λ s. ok (s, l)) done, is', same)

    -- The state with the new node.
    abbrev added : NodeList (ElementData E) → Mgr E
    added l = record m {
      elements =
          λ a. elim (m.elements a) [ some x ↦ some x | none ↦ if q.beq a e then some p else none ];
      busy_list = l;
      element_count = (m.element_count + 1) % ulong_mod;
    }

    added-Rep :
        (l : NodeList (ElementData E))
        → IsList l ((p, entry e now) ∷ xs)
        → SameOutside ((p, entry e now) ∷ xs) built.heap l.heap
        → Rep (added l) ((p, entry e now) ∷ xs)
    unfolding write
    added-Rep l is same = record {
      list = is;
      index = λ a. elim (Bool-cases (q.beq a e)) [
        | inl hit ↦ ground (arith, rep.index a, ap (λ b. ptr_of b xs) ((q.beq_iff a e).0 hit))
        | inr miss ↦ ground (arith, rep.index a)
      ];
      distinct = (new, rep.distinct);
      no_leak = λ a o.
          let (other, o') = not-mem-cons_tests a p (entry e now) xs o in
          same a o ∙ rw other (rep.no_leak a o');
    }

  -- The allocation and what follows it, in the state that the eviction left.
  abbrev insertion : (fresh : Ptr) (now : ℕ) (e : E) → Mgr E → Run (Status × Mgr E)
  insertion fresh now e = do
    p ← construct fresh e now
    if p == null
        then pure failure
        else do map_insert e p; on_list (push_front p); count_up; pure success

  abbrev placed : Bool → ℕ → E → Spec E → Status × Spec E
  placed has_memory now e s =
      if has_memory then (success, record s { entries = entry e now ∷ s.entries }) else (failure, s)

  insertion-Implements :
      (m : Mgr E) (s : Spec E) (fresh now : ℕ) (e : E) (has_memory : Bool)
      → Implements m s
      → member e s.entries ≡ false
      → length s.entries + 1 < ulong_mod
      → (fresh == null) ≡ not has_memory
      → m.busy_list.heap fresh ≡ none
      → Returns
          (λ r.
            (r.0 ≡ (placed has_memory now e s).0) × Implements r.1 (placed has_memory now e s).1)
          (insertion fresh now e m)
  unfolding construct
  insertion-Implements m s fresh now e false i h bounded supplied free =
      rw supplied (returns (refl, i))
  insertion-Implements m s fresh now e true i h bounded supplied free =
      let new = absent e m s i h in
      let ne : fresh ≢ null = ground arith in
      let (l, pushed, is, same) = link m i.nodes fresh e now i.rep ne free new in
      let fits : length i.nodes + 1 < ulong_mod =
        omega (arith, length-values i.nodes, ap (λ (t : Spec E). length t.entries) i.view) in
      let live : (fresh == null) ≡ false = supplied in
      rw live (
        rw (live, pushed)
          (returns (
            refl,
            record {
              nodes = (fresh, entry e now) ∷ i.nodes;
              rep = added-Rep m i.nodes fresh e now i.rep ne free new l is same;
              counted = omega (arith, i.counted);
              bounded = omega arith;
              view = ap (λ (t : Spec E). record t { entries = entry e now ∷ t.entries }) i.view;
            },
          )))

  -- For a manager that implements a list of entries, with fewer elements than the counter can
  -- hold, a limit of at least one where there is one, and a pool that answers behind the eviction
  -- with NULL or an unused address: `add_element` returns and does what the list specification
  -- says; it refuses an element that is there, and otherwise evicts at the limit, takes a node and
  -- puts the new entry first.
  pub add_element-Implements :
      (m : Mgr E) (s : Spec E) (fresh now : ℕ) (e : E) (has_memory : Bool)
      → Implements m s
      → length s.entries + 1 < ulong_mod
      → IsUsable m
      → (fresh == null) ≡ not has_memory
      → ((m' : Mgr E) → evict m ≡ ok (tt, m') → m'.busy_list.heap fresh ≡ none)
      → Returns
          (λ r.
            (r.0 ≡ (Spec.add_element has_memory now e s).0)
            × Implements r.1 (Spec.add_element has_memory now e s).1)
          (add_element fresh now e m)
  unfolding add_element Spec.add_element
  add_element-Implements m s fresh now e has_memory i bounded usable supplied free =
      let found = member-values e i.nodes in
      let same = ap (λ (t : Spec E). member e t.entries) i.view in
      elim (Option-cases (ptr_of e i.nodes)) [
        | inl missing ↦
            let new = sym same ∙ found ∙ ap is_found missing in
            let ((_, m'), ran, i') = Returns-result (evict-Implements m s i bounded usable) in
            rw (new, i.rep.index e, missing, ran)
              (insertion-Implements m' (Spec.evict s) fresh now e has_memory i'
                (member-evict e s new) (omega (arith, length-evict s)) supplied (free m' ran))
        | inr (p, there) ↦
            rw (sym same ∙ found ∙ ap is_found there, i.rep.index e, there) (returns (refl, i))
      ]
