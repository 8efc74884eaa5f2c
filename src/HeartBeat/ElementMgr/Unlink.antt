-- ===== src/HeartBeat/ElementMgr/Unlink.antt =====
-- A node that has just left the busy list, and its removal from the map and the pool.
use newbee.Base.{
  ◌+◌, ◌-◌, ◌%◌, ◌≡◌, ◌≢◌, refl, ap, ◌∙◌, none, some, [], ◌∷◌, ◌++◌, arith, if◌then◌else◌, Eq,
  length, ◌==◌, ==_ne, append-nil, Bool-cases, inl, inr, ◌<◌,
}
use newbee.Memory.{ok, Returns-result}
use newbee.HeartBeat.NodeList.{
  Ptr, null, node, NodeList, success, write, load, erase, pop_back, pop_front,
}
use newbee.HeartBeat.NodeList.Segment.{
  ◌∉◌, IsList, SameOutside, focus, has-append, frame-write, not-mem-middle,
}
use newbee.HeartBeat.NodeList.Erase.{erase-append}
use newbee.HeartBeat.NodeList.Pop.{pop_back-snoc, pop_front-cons}
use newbee.HeartBeat.ElementMgr.{ElementData, Mgr, ulong_mod, drop_node}
use newbee.HeartBeat.ElementMgr.Rep.{Entries, ptr_of, Distinct, Rep, Distinct-append, ptr_of-remove}
use newbee.HeartBeat.ElementMgr.Implements.{Implements, spec_of, values, length-middle}

module _ {E : Type 0} ⦃q : Eq E⦄ where
  abbrev pub with_list : Mgr E → NodeList (ElementData E) → Mgr E
  with_list m l = record m { busy_list = l }

  -- The node `p` is out of the list, and still in the map and in the pool.
  pub record Loose (m : Mgr E) (xs : Entries E) (p : Ptr) (d : ElementData E) (ys : Entries E)
      : Type 0 where
    pub list : IsList m.busy_list (xs ++ ys)
    pub ne_null : p ≢ null
    pub at : m.busy_list.heap p ≡ some (node null null d)
    pub out : p ∉ (xs ++ ys)
    pub index : (e : E) → m.elements e ≡ ptr_of e (xs ++ (p, d) ∷ ys)
    pub distinct : Distinct (xs ++ (p, d) ∷ ys)
    pub no_leak : (a : Ptr) → a ∉ (xs ++ (p, d) ∷ ys) → m.busy_list.heap a ≡ none

  module _ (m : Mgr E) (xs : Entries E) (p : Ptr) (d : ElementData E) (ys : Entries E) where
    loosen :
        Rep m (xs ++ (p, d) ∷ ys)
        → (l : NodeList (ElementData E)) → IsList l (xs ++ ys)
        → l.heap p ≡ some (node null null d)
        → SameOutside (xs ++ (p, d) ∷ ys) m.busy_list.heap l.heap
        → Loose (with_list m l) xs p d ys
    loosen rep l is at same =
        let foc = focus m.busy_list.heap null null p d xs ys rep.list.chain in
        record {
          list = is;
          ne_null = foc.ne_null;
          at = at;
          out = rw (has-append p xs ys, foc.not_before) foc.not_behind;
          index = rep.index;
          distinct = rep.distinct;
          no_leak = λ a o. same a o ∙ rep.no_leak a o;
        }

    pub erase-Loose :
        Rep m (xs ++ (p, d) ∷ ys)
        → (l : NodeList (ElementData E)) × (erase p m.busy_list ≡ ok (success, l))
          × Loose (with_list m l) xs p d ys
    erase-Loose rep =
        let ((st, l), e, (done, is, at, same)) =
          Returns-result (erase-append m.busy_list p d xs ys rep.list) in
        (l, e ∙ ap (λ s. ok (s, l)) done, loosen rep l is at same)

    -- What `drop_node` makes of the state.
    abbrev pub dropped : Mgr E
    dropped = record m {
      elements = λ a. if q.beq a d.element then none else m.elements a;
      busy_list = record m.busy_list { heap = write m.busy_list.heap p none };
      element_count = (m.element_count + ulong_mod - 1) % ulong_mod;
    }

    pub drop_node-dropped : Loose m xs p d ys → drop_node p m ≡ ok (tt, dropped)
    unfolding drop_node load
    drop_node-dropped loose = rw (==_ne p null loose.ne_null, loose.at) (rw loose.at)

    pub dropped-Rep : Loose m xs p d ys → Rep dropped (xs ++ ys)
    unfolding write
    dropped-Rep loose = record {
      list = record {
        header = loose.list.header;
        tail = loose.list.tail;
        chain = frame-write m.busy_list.heap null null p none (xs ++ ys) loose.list.chain loose.out;
      };
      index = λ e. rw loose.index (ptr_of-remove e xs ys p d loose.distinct);
      distinct = (Distinct-append xs ys p d loose.distinct).0;
      no_leak = λ a o. elim (Bool-cases (a == p)) [
        | inl same ↦ rw same
        | inr other ↦ rw other (loose.no_leak a (not-mem-middle a p d xs ys other o))
      ];
    }

  -- The state behind the removal of one node implements the list without its entry.
  pub dropped-Implements :
      (m : Mgr E) (xs : Entries E) (p : Ptr) (d : ElementData E) (ys : Entries E)
      → Loose m xs p d ys
      → m.element_count ≡ length (xs ++ (p, d) ∷ ys)
      → length (xs ++ (p, d) ∷ ys) < ulong_mod
      → Implements (dropped m xs p d ys) (record (spec_of m []) { entries = values (xs ++ ys) })
  dropped-Implements m xs p d ys loose counted bounded = record {
    nodes = xs ++ ys;
    rep = dropped-Rep m xs p d ys loose;
    counted = omega (arith, length-middle xs p d ys);
    bounded = omega (arith, length-middle xs p d ys);
    view = refl;
  }

  module _ (m : Mgr E) (p : Ptr) (d : ElementData E) (xs : Entries E) where
    pub pop_back-Loose :
        Rep m (xs ++ (p, d) ∷ [])
        → (l : NodeList (ElementData E)) × (pop_back m.busy_list ≡ ok (p, l))
          × Loose (with_list m l) xs p d []
    pop_back-Loose rep =
        let ((r, l), e, (done, is, at, same)) =
          Returns-result (pop_back-snoc m.busy_list p d xs rep.list) in
        (l, e ∙ ap (λ s. ok (s, l)) done, loosen m xs p d [] rep l (rw append-nil is) at same)

    pub pop_front-Loose :
        Rep m ((p, d) ∷ xs)
        → (l : NodeList (ElementData E)) × (pop_front m.busy_list ≡ ok (p, l))
          × Loose (with_list m l) [] p d xs
    pop_front-Loose rep =
        let ((r, l), e, (done, is, at, same)) =
          Returns-result (pop_front-cons m.busy_list p d xs rep.list) in
        (l, e ∙ ap (λ s. ok (s, l)) done, loosen m [] p d xs rep l is at same)
