-- ===== src/HeartBeat/ElementMgr/Rep.antt =====
-- What the state of an element manager stands for: the entries of its busy list, most recent
-- first, with the map and the node pool in step with them.
use newbee.Base.{
  ◌≡◌, refl, sym, ap, true, false, Option, none, some, [], ◌∷◌, ◌++◌, arith, if◌then◌else◌, Eq,
  Bool-cases, inl, inr,
}
use newbee.HeartBeat.NodeList.{Ptr}
use newbee.HeartBeat.NodeList.Segment.{Cells, ◌∉◌, IsList}
use newbee.HeartBeat.ElementMgr.{ElementData, Mgr, init}

abbrev pub Entries : Type 0 → Type 0
Entries E = Cells (ElementData E)

module _ {E : Type 0} ⦃q : Eq E⦄ where
  -- The node of an element.
  abbrev pub ptr_of : E → Entries E → Option Ptr
  ptr_of e [] = none
  ptr_of e ((p, d) ∷ xs) = if q.beq e d.element then some p else ptr_of e xs

  -- No element has two nodes.
  abbrev pub Distinct : Entries E → Type 0
  Distinct [] = Unit {0}
  Distinct ((p, d) ∷ xs) = (ptr_of d.element xs ≡ none) × Distinct xs

  -- The invariant: the busy list holds `xs`, the map finds exactly their nodes, and the pool has
  -- no other node.
  pub record Rep (m : Mgr E) (xs : Entries E) : Type 0 where
    pub list : IsList m.busy_list xs
    pub index : (e : E) → m.elements e ≡ ptr_of e xs
    pub distinct : Distinct xs
    pub no_leak : (a : Ptr) → a ∉ xs → m.busy_list.heap a ≡ none

  pub beq_refl : (e : E) → q.beq e e ≡ true
  beq_refl e = (q.beq_iff e e).1 refl

  pub beq_sym : (a b : E) → q.beq a b ≡ q.beq b a
  beq_sym a b = ground (arith, q.beq_iff a b, q.beq_iff b a)

  pub ptr_of-append :
      (e : E) (xs ys : Entries E)
      → ptr_of e (xs ++ ys) ≡ (elim (ptr_of e xs) [ some p ↦ some p | none ↦ ptr_of e ys ])
  ptr_of-append e [] ys = refl
  ptr_of-append e ((p, d) ∷ xs) ys = ground (arith, ptr_of-append e xs ys)

  -- An element that is found stands somewhere in the list.
  pub record Split (e : E) (p : Ptr) (xs : Entries E) : Type 0 where
    pub before : Entries E
    pub value : ElementData E
    pub behind : Entries E
    pub whole : xs ≡ before ++ (p, value) ∷ behind
    pub here : value.element ≡ e
    pub not_before : ptr_of e before ≡ none

  Split-step :
      (e : E) (p r : Ptr) (d : ElementData E) (xs : Entries E)
      → q.beq e d.element ≡ false
      → Split e p xs
      → Split e p ((r, d) ∷ xs)
  Split-step e p r d xs miss s = record {
    before = (r, d) ∷ s.before;
    value = s.value;
    behind = s.behind;
    whole = ap (◌∷◌ (r, d)) s.whole;
    here = s.here;
    not_before = rw miss s.not_before;
  }

  pub Split-of_ptr : (e : E) (p : Ptr) (xs : Entries E) → ptr_of e xs ≡ some p → Split e p xs
  Split-of_ptr e p [] h = cc
  Split-of_ptr e p ((r, d) ∷ xs) h = elim (Bool-cases (q.beq e d.element)) [
    | inl hit ↦ record {
      before = [];
      value = d;
      behind = xs;
      whole = ground arith;
      here = sym ((q.beq_iff e d.element).0 hit);
      not_before = refl;
    }
    | inr miss ↦ Split-step e p r d xs miss (Split-of_ptr e p xs (ground arith))
  ]

  -- Taking a node out of a list of distinct elements.
  pub Distinct-append :
      (xs ys : Entries E) (p : Ptr) (d : ElementData E)
      → Distinct (xs ++ (p, d) ∷ ys)
      → Distinct (xs ++ ys) × (ptr_of d.element (xs ++ ys) ≡ none) × (ptr_of d.element xs ≡ none)
  Distinct-append [] ys p d h = (h.1, h.0, refl)
  Distinct-append ((r, c) ∷ xs) ys p d h = ground (
    arith,
    Distinct-append xs ys p d h.1,
    ptr_of-append c.element xs ((p, d) ∷ ys),
    ptr_of-append c.element xs ys,
    beq_sym d.element c.element,
  )

  -- The map without the element finds what the list without its node holds.
  pub ptr_of-remove :
      (a : E) (xs ys : Entries E) (p : Ptr) (d : ElementData E)
      → Distinct (xs ++ (p, d) ∷ ys)
      → (if q.beq a d.element then none else ptr_of a (xs ++ (p, d) ∷ ys)) ≡ ptr_of a (xs ++ ys)
  ptr_of-remove a xs ys p d h = elim (Bool-cases (q.beq a d.element)) [
    | inl same ↦ rw same (rw ((q.beq_iff a d.element).0 same) (sym (Distinct-append xs ys p d h).1))
    | inr other ↦ ground (arith, ptr_of-append a xs ((p, d) ∷ ys), ptr_of-append a xs ys)
  ]

  -- A node that moves to the front is still found.
  pub ptr_of-move :
      (a : E) (xs ys : Entries E) (p : Ptr) (d : ElementData E)
      → Distinct (xs ++ (p, d) ∷ ys)
      → ptr_of a (xs ++ (p, d) ∷ ys) ≡ (if q.beq a d.element then some p else ptr_of a (xs ++ ys))
  ptr_of-move a xs ys p d h = elim (Bool-cases (q.beq a d.element)) [
    | inl same ↦ rw ((q.beq_iff a d.element).0 same) (
        rw (
          ptr_of-append d.element xs ((p, d) ∷ ys),
          (Distinct-append xs ys p d h).2,
          beq_refl d.element,
        ))
    | inr other ↦ ground (arith, ptr_of-append a xs ((p, d) ∷ ys), ptr_of-append a xs ys)
  ]

  pub init-Rep : Rep init []
  unfolding init
  init-Rep = record {
    list = record { header = refl; tail = refl; chain = tt };
    index = λ e. refl;
    distinct = tt;
    no_leak = λ a o. refl;
  }
