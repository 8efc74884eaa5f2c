-- ===== src/HeartBeat/ElementMgr/Draining.antt =====
-- The loops that empty the busy list.
use newbee.Base.{
  ℕ, zero, suc, ◌<◌, ◌≡◌, ◌≢◌, refl, sym, ◌∙◌, ap, none, some, List, [], ◌∷◌, ◌++◌, arith,
  if◌then◌else◌, Bool-cases, inl, inr, length, ◌==◌, ==_ne, append-nil, append_assoc,
}
use newbee.Memory.{Returns, returns, Returns-result, ok}
use newbee.HeartBeat.NodeList.{Ptr, null, node, NodeList, load, write, pop_front}
use newbee.HeartBeat.NodeList.Segment.{IsList, ◌∉◌, frame-write}
use newbee.HeartBeat.NodeList.Pop.{pop_front-cons, pop-nil}
use newbee.HeartBeat.ElementMgr.{
  ElementData, Mgr, data_of, destroy, clear_loop, get_all_loop, trigger_loop,
}
use newbee.HeartBeat.ElementMgr.Spec.{Config, elements_of}
use newbee.HeartBeat.ElementMgr.Rep.{Entries}
use newbee.HeartBeat.ElementMgr.Evict.{noted, notify-noted}
use newbee.HeartBeat.ElementMgr.Implements.{config_of, values}

module _ {E : Type 0} where
  -- While a list is taken apart only it and the pool are in step.
  pub record Drains (m : Mgr E) (xs : Entries E) : Type 0 where
    pub list : IsList m.busy_list xs
    pub no_leak : (a : Ptr) → a ∉ xs → m.busy_list.heap a ≡ none

  abbrev with_nodes : Mgr E → NodeList (ElementData E) → Mgr E
  with_nodes m l = record m { busy_list = l }

  abbrev freed : Mgr E → Ptr → Mgr E
  freed m p = with_nodes m (record m.busy_list { heap = write m.busy_list.heap p none })

  destroy-freed :
      (m : Mgr E) (p : Ptr) (d : ElementData E)
      → p ≢ null
      → m.busy_list.heap p ≡ some (node null null d)
      → destroy p m ≡ ok (tt, freed m p)
  unfolding destroy load
  destroy-freed m p d ne at = rw (==_ne p null ne, at)

  -- The pop of one round, and the state behind the round.
  record Round (m : Mgr E) (p : Ptr) (d : ElementData E) (xs : Entries E) : Type 0 where
    rest : NodeList (ElementData E)
    popped : pop_front m.busy_list ≡ ok (p, rest)
    ne_null : p ≢ null
    at : rest.heap p ≡ some (node null null d)
    drains : (n : Mgr E) → n.busy_list ≡ rest → Drains (freed n p) xs

  freed-Drains :
      (n : Mgr E) (p : Ptr) (d : ElementData E) (xs : Entries E)
      → IsList n.busy_list xs
      → p ∉ xs
      → ((a : Ptr) → a ∉ (p, d) ∷ xs → n.busy_list.heap a ≡ none)
      → Drains (freed n p) xs
  unfolding write
  freed-Drains n p d xs is out clean = record {
    list = record {
      header = is.header;
      tail = is.tail;
      chain = frame-write n.busy_list.heap null null p none xs is.chain out;
    };
    no_leak = λ a o. elim (Bool-cases (a == p)) [
      | inl same ↦ rw same
      | inr other ↦ rw other (clean a (rw other o))
    ];
  }

  round :
      (m : Mgr E) (p : Ptr) (d : ElementData E) (xs : Entries E)
      → Drains m ((p, d) ∷ xs)
      → Round m p d xs
  round m p d xs dr =
      let ((r, l), ran, (done, is, at, same)) =
        Returns-result (pop_front-cons m.busy_list p d xs dr.list) in
      let (ne, _, out, _) = dr.list.chain in
      record {
        rest = l;
        popped = ran ∙ ap (λ s. ok (s, l)) done;
        ne_null = ne;
        at = at;
        drains = λ n e. freed-Drains n p d xs (rw e is) out (rw e λ a o. same a o ∙ dr.no_leak a o);
      }

  -- What the three loops leave: an empty list and an empty pool, with the counter and the settings
  -- that they had, and what the callback was told.
  pub record Drained (count : ℕ) (config : Config) (told : List E) (n : Mgr E) : Type 0 where
    pub list : IsList n.busy_list []
    pub no_leak : (a : Ptr) → n.busy_list.heap a ≡ none
    pub count_kept : n.element_count ≡ count
    pub called : n.called ≡ told
    pub config_kept : config_of n ≡ config

  drained : (m : Mgr E) → Drains m [] → Drained m.element_count (config_of m) m.called m
  drained m dr = record {
    list = dr.list;
    no_leak = λ a. dr.no_leak a refl;
    count_kept = refl;
    called = refl;
    config_kept = refl;
  }

  pub clear_loop-Drained :
      (k : ℕ) (m : Mgr E) (xs : Entries E)
      → Drains m xs
      → length xs < k
      → Returns (λ r. Drained m.element_count (config_of m) m.called r.1) (clear_loop k m)
  unfolding clear_loop
  clear_loop-Drained zero m xs dr enough = absurd (omega arith)
  clear_loop-Drained (suc k) m [] dr enough =
      rw (pop-nil m.busy_list dr.list).0 (returns (drained m dr))
  clear_loop-Drained (suc k) m ((p, d) ∷ xs) dr enough =
      let r = round m p d xs dr in
      rw (r.popped, ==_ne p null r.ne_null, destroy-freed (with_nodes m r.rest) p d r.ne_null r.at)
        (clear_loop-Drained k (freed (with_nodes m r.rest) p) xs
          (r.drains (with_nodes m r.rest) refl) (omega arith))

  pub get_all_loop-Drained :
      (k : ℕ) (vt : List E) (m : Mgr E) (xs : Entries E)
      → Drains m xs
      → length xs < k
      → Returns
          (λ r.
            (r.0 ≡ vt ++ elements_of (values xs))
            × Drained m.element_count (config_of m) m.called r.1)
          (get_all_loop k vt m)
  unfolding get_all_loop data_of load
  get_all_loop-Drained zero vt m xs dr enough = absurd (omega arith)
  get_all_loop-Drained (suc k) vt m [] dr enough =
      rw (pop-nil m.busy_list dr.list).0 (returns (sym (append-nil vt), drained m dr))
  get_all_loop-Drained (suc k) vt m ((p, d) ∷ xs) dr enough =
      let r = round m p d xs dr in
      rw (r.popped, ==_ne p null r.ne_null)
        (rw (==_ne p null r.ne_null, r.at, destroy-freed (with_nodes m r.rest) p d r.ne_null r.at)
          (rw (← append_assoc vt (d.element ∷ []) (elements_of (values xs))) (
            get_all_loop-Drained k (vt ++ d.element ∷ []) (freed (with_nodes m r.rest) p) xs
              (r.drains (with_nodes m r.rest) refl) (omega arith))))

  -- What the callback has been told behind a call for each of the elements.
  abbrev pub told_all : Mgr E → List E → List E
  told_all m es = if m.has_callback then m.called ++ es else m.called

  told_next : (m : Mgr E) (e : E) (es : List E) → told_all (noted m e) es ≡ told_all m (e ∷ es)
  told_next m e es = ground (arith, append_assoc m.called (e ∷ []) es)

  pub trigger_loop-Drained :
      (k : ℕ) (m : Mgr E) (xs : Entries E)
      → Drains m xs
      → length xs < k
      → Returns
          (λ r. Drained m.element_count (config_of m) (told_all m (elements_of (values xs))) r.1)
          (trigger_loop k m)
  unfolding trigger_loop
  trigger_loop-Drained zero m xs dr enough = absurd (omega arith)
  trigger_loop-Drained (suc k) m [] dr enough = rw (pop-nil m.busy_list dr.list).0 (
      returns (record {
        list = dr.list;
        no_leak = λ a. dr.no_leak a refl;
        count_kept = refl;
        called = ground (arith, append-nil m.called);
        config_kept = refl;
      }))
  trigger_loop-Drained (suc k) m ((p, d) ∷ xs) dr enough =
      let r = round m p d xs dr in
      let n = noted (with_nodes m r.rest) d.element in
      rw
        (
          r.popped,
          ==_ne p null r.ne_null,
          notify-noted (with_nodes m r.rest) p null null d r.ne_null r.at,
          destroy-freed n p d r.ne_null r.at,
        )
        (rw (← told_next m d.element (elements_of (values xs)))
          (trigger_loop-Drained k (freed n p) xs (r.drains n refl) (omega arith)))
