-- ===== src/HeartBeat/NodeList/Segment.antt =====
-- List segments: what the `front` and `next` pointers of heart_beat_list.h stand for.
use newbee.Base.{
  ◌≡◌, ◌≢◌, refl, Bool, true, false, ◌||◌, some, List, [], ◌∷◌, ◌++◌, arith, ◌==◌, ==_ne, subst,
  sym, Option, none,
}
use newbee.HeartBeat.NodeList.{Ptr, null, Node, node, Heap, NodeList, write}

-- What a list stands for: address and value of each node, from the header to the tail.
abbrev pub Cells : Type 0 → Type 0
Cells D = List (Ptr × D)

module _ {D : Type 0} where
  abbrev pub has : Ptr → Cells D → Bool
  has a [] = false
  has a ((p, _) ∷ xs) = (a == p) || has a xs

  infix 40 ◌∈◌ ◌∉◌
  abbrev pub ◌∈◌ : Ptr → Cells D → Type 0
  a ∈ xs = has a xs ≡ true

  abbrev pub ◌∉◌ : Ptr → Cells D → Type 0
  a ∉ xs = has a xs ≡ false

  abbrev pub Disjoint : Cells D → Cells D → Type 0
  Disjoint xs ys = (a : Ptr) → a ∈ xs → a ∉ ys

  abbrev pub first : Ptr → Cells D → Ptr
  first q [] = q
  first q ((p, _) ∷ xs) = p

  abbrev pub last : Ptr → Cells D → Ptr
  last q [] = q
  last q ((p, _) ∷ xs) = last p xs

  -- From behind `pre` the nodes `xs` follow one another, both ways, up to `post`.
  abbrev pub Seg : Heap D → Ptr → Cells D → Ptr → Type 0
  Seg h pre [] post = Unit {0}
  Seg h pre ((p, d) ∷ xs) post =
      (p ≢ null) × (h p ≡ some (node pre (first post xs) d)) × (p ∉ xs) × Seg h p xs post

  pub has-append : (a : Ptr) (xs ys : Cells D) → has a (xs ++ ys) ≡ (has a xs || has a ys)
  has-append a [] ys = refl
  has-append a (x ∷ xs) ys = ground (arith, has-append a xs ys)

  pub first-append : (q : Ptr) (xs ys : Cells D) → first q (xs ++ ys) ≡ first (first q ys) xs
  first-append q [] ys = refl
  first-append q (x ∷ xs) ys = refl

  pub last-append : (q : Ptr) (xs ys : Cells D) → last q (xs ++ ys) ≡ last (last q xs) ys
  last-append q [] ys = refl
  last-append q ((p, _) ∷ xs) ys = last-append p xs ys

  pub first-snoc :
      (a q : Ptr) (e : D) (xs zs : Cells D) → first a ((xs ++ (q, e) ∷ []) ++ zs) ≡ first q xs
  first-snoc a q e [] zs = refl
  first-snoc a q e (x ∷ xs) zs = refl

  pub last-snoc : (a q : Ptr) (e : D) (xs : Cells D) → last a (xs ++ (q, e) ∷ []) ≡ q
  last-snoc a q e xs = last-append a xs ((q, e) ∷ [])

  pub not-mem-cons : (p q : Ptr) (e : D) (xs : Cells D) → p ∉ (q, e) ∷ xs → (q ≢ p) × (p ∉ xs)
  not-mem-cons p q e xs out = ground arith

  pub not-mem-cons_tests :
      (a p : Ptr) (d : D) (xs : Cells D) → a ∉ (p, d) ∷ xs → ((a == p) ≡ false) × (a ∉ xs)
  not-mem-cons_tests a p d xs out = ground arith

  pub first-ne : (p q : Ptr) (xs : Cells D) → q ≢ p → p ∉ xs → first q xs ≢ p
  first-ne p q [] ne out = ne
  first-ne p q ((r, _) ∷ xs) ne out = ground arith

  pub last-ne : (p q : Ptr) (xs : Cells D) → q ≢ p → p ∉ xs → last q xs ≢ p
  last-ne p q [] ne out = ne
  last-ne p q ((r, _) ∷ xs) ne out = last-ne p r xs (ground arith) (ground arith)

  pub ne_of_mem : (a p : Ptr) (xs : Cells D) → a ∈ xs → p ∉ xs → (a == p) ≡ false
  ne_of_mem a p xs i o = ==_ne a p (λ e. cc (subst (λ b. b ∉ xs) (sym e) o))

  -- Writes at `p` and `q` spare a segment that holds neither.
  pub write-write_other :
      (h : Heap D) (p q : Ptr) (c c' : Option (Node D)) (xs : Cells D)
      → p ∉ xs
      → q ∉ xs
      → (a : Ptr) → a ∈ xs
      → write (write h p c) q c' a ≡ h a
  unfolding write
  write-write_other h p q c c' xs op oq a i = rw (ne_of_mem a q xs i oq, ne_of_mem a p xs i op)

  pub write_self : (h : Heap D) (p : Ptr) (c : Option (Node D)) → write h p c p ≡ c
  unfolding write
  write_self h p c = ground arith

  pub write-write_first :
      (h : Heap D) (p q : Ptr) (c c' : Option (Node D)) → q ≢ p → write (write h p c) q c' p ≡ c
  unfolding write
  write-write_first h p q c c' ne = ground arith

  -- Writes at members of `xs` do not show outside.
  pub write-write_outside :
      (h : Heap D) (p q : Ptr) (c c' : Option (Node D)) (xs : Cells D)
      → p ∈ xs
      → q ∈ xs
      → (a : Ptr) → a ∉ xs
      → write (write h p c) q c' a ≡ h a
  unfolding write
  write-write_outside h p q c c' xs ip iq a o =
      rw (
        ==_ne a q (λ e. cc (subst (λ b. b ∉ xs) e o)),
        ==_ne a p (λ e. cc (subst (λ b. b ∉ xs) e o)),
      )

  pub mem-middle : (p : Ptr) (d : D) (xs ys : Cells D) → p ∈ (xs ++ (p, d) ∷ ys)
  mem-middle p d xs ys = ground (arith, has-append p xs ((p, d) ∷ ys))

  pub not-mem-middle :
      (a p : Ptr) (d : D) (xs ys : Cells D)
      → (a == p) ≡ false
      → a ∉ (xs ++ ys)
      → a ∉ (xs ++ (p, d) ∷ ys)
  not-mem-middle a p d xs ys ne o =
      ground (arith, has-append a xs ys, has-append a xs ((p, d) ∷ ys))

  -- A segment survives any change that spares its own addresses.
  pub frame :
      (h g : Heap D) (pre post : Ptr) (xs : Cells D)
      → Seg h pre xs post
      → ((a : Ptr) → a ∈ xs → g a ≡ h a)
      → Seg g pre xs post
  frame h g pre post [] s same = tt
  frame h g pre post ((p, d) ∷ xs) (ne, at, out, s) same =
      (ne, ground (arith, same p), out, frame h g p post xs s λ a i. same a (ground arith))

  pub split :
      (h : Heap D) (pre post : Ptr) (xs ys : Cells D)
      → Seg h pre (xs ++ ys) post
      → Seg h pre xs (first post ys) × Seg h (last pre xs) ys post × Disjoint xs ys
  split h pre post [] ys s = (tt, s, λ a i. ground arith)
  split h pre post ((p, d) ∷ xs) ys (ne, at, out, s) =
      let (front, behind, apart) = split h p post xs ys s in
      (
        (ne, ground (arith, first-append post xs ys), ground (arith, has-append p xs ys), front),
        behind,
        λ a i. ground (arith, has-append p xs ys, apart a),
      )

  pub join :
      (h : Heap D) (pre post : Ptr) (xs ys : Cells D)
      → Seg h pre xs (first post ys)
      → Seg h (last pre xs) ys post
      → Disjoint xs ys
      → Seg h pre (xs ++ ys) post
  join h pre post [] ys s t apart = t
  join h pre post ((p, d) ∷ xs) ys (ne, at, out, s) t apart = (
    ne,
    ground (arith, first-append post xs ys),
    ground (arith, has-append p xs ys, apart p),
    join h p post xs ys s t λ a i. apart a (ground arith),
  )

  -- A write to one node spares a segment without it.
  pub frame-write :
      (h : Heap D) (pre post p : Ptr) (c : Option (Node D)) (xs : Cells D)
      → Seg h pre xs post
      → p ∉ xs
      → Seg (write h p c) pre xs post
  unfolding write
  frame-write h pre post p c xs s out = frame h _ pre post xs s λ a i. rw (ne_of_mem a p xs i out)

  -- Writing the node behind a segment appends it.
  pub Seg-snoc :
      (h : Heap D) (pre post q : Ptr) (e : D) (xs : Cells D)
      → Seg h pre xs q
      → q ≢ null
      → q ∉ xs
      → Seg (write h q (some (node (last pre xs) post e))) pre (xs ++ (q, e) ∷ []) post
  Seg-snoc h pre post q e xs s ne out =
      join _ pre post xs ((q, e) ∷ []) (frame-write h pre q q _ xs s out)
        (ne, write_self h q _, refl, tt) (λ a i. rw (ne_of_mem a q xs i out))

  -- Writing the node before a segment puts it in front.
  pub Seg-cons :
      (h : Heap D) (pre post q : Ptr) (e : D) (xs : Cells D)
      → Seg h q xs post
      → q ≢ null
      → q ∉ xs
      → Seg (write h q (some (node pre (first post xs) e))) pre ((q, e) ∷ xs) post
  Seg-cons h pre post q e xs s ne out =
      (ne, write_self h q _, out, frame-write h q post q _ xs s out)

  -- An address that holds no node is not in a segment.
  pub not-mem_of_none :
      (h : Heap D) (pre post a : Ptr) (xs : Cells D) → Seg h pre xs post → h a ≡ none → a ∉ xs
  not-mem_of_none h pre post a [] s free = refl
  not-mem_of_none h pre post a ((p, d) ∷ xs) s free =
      ground (arith, not-mem_of_none h p post a xs s.3 free)

  pub first-ne_null :
      (h : Heap D) (pre q : Ptr) (xs : Cells D) → Seg h pre xs q → q ≢ null → first q xs ≢ null
  first-ne_null h pre q [] s ne = ne
  first-ne_null h pre q (x ∷ xs) s ne = s.0

  -- Everything about the node `p` in the middle of a segment.
  pub record Focus (h : Heap D) (pre post p : Ptr) (d : D) (xs ys : Cells D) : Type 0 where
    pub ne_null : p ≢ null
    pub at : h p ≡ some (node (last pre xs) (first post ys) d)
    pub before : Seg h pre xs p
    pub behind : Seg h p ys post
    pub not_before : p ∉ xs
    pub not_behind : p ∉ ys
    pub apart : Disjoint xs ys

  pub focus :
      (h : Heap D) (pre post p : Ptr) (d : D) (xs ys : Cells D)
      → Seg h pre (xs ++ (p, d) ∷ ys) post
      → Focus h pre post p d xs ys
  focus h pre post p d xs ys s =
      let (front, (ne, at, out, behind), apart) = split h pre post xs ((p, d) ∷ ys) s in
      record {
        ne_null = ne;
        at = at;
        before = front;
        behind = behind;
        not_before = not_before xs apart;
        not_behind = out;
        apart = λ a i. ground (arith, apart a);
      }
    where
      not_before : (zs : Cells D) → Disjoint zs ((p, d) ∷ ys) → p ∉ zs
      not_before zs apart = ground (arith, apart p)

  -- `g` differs from `h` at most at the addresses of `xs`.
  abbrev pub SameOutside : Cells D → Heap D → Heap D → Type 0
  SameOutside xs h g = (a : Ptr) → a ∉ xs → g a ≡ h a

  -- The list object `l` holds the nodes `xs`, in order from the header to the tail.
  pub record IsList (l : NodeList D) (xs : Cells D) : Type 0 where
    pub header : l.header ≡ first null xs
    pub tail : l.tail ≡ last null xs
    pub chain : Seg l.heap null xs null
