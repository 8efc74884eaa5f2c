-- ===== src/HeartBeat/NodeList/Erase.antt =====
-- `erase`, which unlinks a node from where its own pointers say that it is.
use newbee.Base.{
  ◌≡◌, ◌≢◌, refl, some, [], ◌∷◌, ◌++◌, arith, inl, inr, Snoc-cases, sym, ◌∙◌, append-nil, Option,
}
use newbee.Memory.{Returns, returns}
use newbee.HeartBeat.NodeList.{Ptr, null, Heap, Node, node, NodeList, Status, success, write, erase}
use newbee.HeartBeat.NodeList.Segment.{
  Cells, ◌∈◌, ◌∉◌, Seg, IsList, SameOutside, Disjoint, focus, join, first, last, has-append,
  first-append, last-append, first-snoc, last-snoc, not-mem-cons, first-ne_null, frame-write,
  Seg-snoc, Seg-cons, write_self, write-write_other, write-write_outside, mem-middle,
}
use newbee.HeartBeat.NodeList.Relink.{erase_only, erase_first, erase_last, erase_between}

module _ {D : Type 0} (l : NodeList D) (p : Ptr) (d : D) where
  -- What an erasure leaves: the node is unlinked and the others keep their order.
  abbrev pub Erased : Cells D → Cells D → Status × NodeList D → Type 0
  Erased before after r =
      (r.0 ≡ success)
      × IsList r.1 after
      × (r.1.heap p ≡ some (node null null d))
      × SameOutside before l.heap r.1.heap

  erase_alone : IsList l ((p, d) ∷ []) → Returns (Erased ((p, d) ∷ []) []) (erase p l)
  erase_alone is =
      rw (erase_only l p d is.chain.0 is.header is.tail is.chain.1)
        (returns (refl, record { header = refl; tail = refl; chain = tt }, is.chain.1, λ a o. refl))

  erase_cons :
      (r : Ptr) (f : D) (ys : Cells D)
      → IsList l ((p, d) ∷ (r, f) ∷ ys)
      → Returns (Erased ((p, d) ∷ (r, f) ∷ ys) ((r, f) ∷ ys)) (erase p l)
  erase_cons r f ys is =
      let (ne, at, out, (ne', at', out', rest)) = is.chain in
      let apart : r ≢ p = ground arith in
      rw (erase_first l p d ne r (first null ys) f is.header at ne' apart at') (
        returns (
          refl,
          record {
            header = refl;
            tail = is.tail;
            chain =
                frame-write _ null null p _ ((r, f) ∷ ys)
                  (Seg-cons l.heap null null r f ys rest ne' out') out;
          },
          write_self _ p _,
          write-write_outside l.heap r p _ _ ((p, d) ∷ (r, f) ∷ ys) (ground arith) (ground arith),
        ))

  module _ (xs : Cells D) (q : Ptr) (e : D) where
    -- A second write to the same address spares what the first one does.
    frame-twice :
        (h : Heap D) (pre post a : Ptr) (c c' : Option (Node D)) (zs : Cells D)
        → Seg h pre zs post
        → a ∉ zs
        → Seg (write (write h a c) a c') pre zs post
    frame-twice h pre post a c c' zs s out =
        frame-write _ pre post a c' zs (frame-write h pre post a c zs s out) out

    abbrev upto : Cells D
    upto = xs ++ (q, e) ∷ []

    q_between : (ys : Cells D) → q ∈ (upto ++ (p, d) ∷ ys)
    q_between ys = ground (arith, has-append q upto ((p, d) ∷ ys), mem-middle q e xs [])

    alone : (a : Ptr) → a ≢ p → a ∉ (p, d) ∷ []
    alone a ne = ground arith

    r_between : (r : Ptr) (f : D) (ys : Cells D) → r ∈ (upto ++ (p, d) ∷ (r, f) ∷ ys)
    r_between r f ys = ground (arith, has-append r upto ((p, d) ∷ (r, f) ∷ ys))

    pq_apart : p ∉ upto → (p ∉ xs) × (q ≢ p)
    pq_apart out = ground (arith, has-append p xs ((q, e) ∷ []))

    rq_apart :
        (r : Ptr) (f : D) (ys : Cells D)
        → Disjoint upto ((r, f) ∷ ys)
        → (r ∉ upto) × (q ∉ (r, f) ∷ ys)
    rq_apart r f ys apart = (ground (arith, apart r), ground (arith, apart q, mem-middle q e xs []))

    erase_snoc :
        IsList l (upto ++ (p, d) ∷ []) → Returns (Erased (upto ++ (p, d) ∷ []) upto) (erase p l)
    erase_snoc is =
        let foc = focus l.heap null null p d upto [] is.chain in
        let foc' = focus l.heap null p q e xs [] foc.before in
        let (out, apart) = pq_apart foc.not_before in
        let header_is : l.header ≡ first q xs = is.header ∙ first-snoc null q e xs ((p, d) ∷ []) in
        let at : l.heap p ≡ some (node q null d) = rw last-snoc at foc.at in
        let live = first-ne_null l.heap null q xs foc'.before foc'.ne_null in
        rw
          (erase_last l p d foc.ne_null q (last null xs) e (λ z. live (sym header_is ∙ z))
            (is.tail ∙ last-snoc null p d upto) at foc'.ne_null apart foc'.at)
          (returns (
            refl,
            record {
              header = header_is ∙ sym (first-append null xs ((q, e) ∷ []));
              tail = sym (last-snoc null q e xs);
              chain =
                  frame-write _ null null p _ upto
                    (Seg-snoc l.heap null null q e xs foc'.before foc'.ne_null foc'.not_before)
                    foc.not_before;
            },
            write_self _ p _,
            write-write_outside l.heap q p _ _ (upto ++ (p, d) ∷ []) (q_between [])
                (mem-middle p d upto []),
          ))

    erase_mid :
        (r : Ptr) (f : D) (ys : Cells D)
        → IsList l (upto ++ (p, d) ∷ (r, f) ∷ ys)
        → Returns (Erased (upto ++ (p, d) ∷ (r, f) ∷ ys) (upto ++ (r, f) ∷ ys)) (erase p l)
    erase_mid r f ys is =
        let foc = focus l.heap null null p d upto ((r, f) ∷ ys) is.chain in
        let foc' = focus l.heap null p q e xs [] foc.before in
        let (out, apart) = pq_apart foc.not_before in
        let header_is : l.header ≡ first q xs =
          is.header ∙ first-snoc null q e xs ((p, d) ∷ (r, f) ∷ ys) in
        let at : l.heap p ≡ some (node q r d) = rw last-snoc at foc.at in
        let live = first-ne_null l.heap null q xs foc'.before foc'.ne_null in
        let (nr, atr, r_out, rest) = foc.behind in
        let (r_apart, q_out) = rq_apart r f ys foc.apart in
        let (rp, p_out) = not-mem-cons p r f ys foc.not_behind in
        let (rq, q_out') = not-mem-cons q r f ys q_out in
        let whole : Cells D = upto ++ (p, d) ∷ (r, f) ∷ ys in
        let r_in : r ∈ whole = r_between r f ys in
        let h2 = write (write l.heap p (some (node null r d))) p (some (node null null d)) in
        rw
          (erase_between l p d foc.ne_null q r (last null xs) (first null ys) e f
            (λ z. live (sym header_is ∙ z)) at foc'.ne_null nr apart rp (λ z. rq (sym z)) foc'.at
            atr)
          (returns (
            refl,
            record {
              header = header_is ∙ sym (first-snoc null q e xs ((r, f) ∷ ys));
              tail =
                  is.tail
                  ∙ last-append null upto ((p, d) ∷ (r, f) ∷ ys)
                  ∙ sym (last-append null upto ((r, f) ∷ ys));
              chain =
                  join _ null null upto ((r, f) ∷ ys)
                    (frame-write _ null r r _ upto
                      (Seg-snoc h2 null r q e xs
                        (frame-twice l.heap null q p _ _ xs foc'.before out) foc'.ne_null
                        foc'.not_before)
                      r_apart)
                    (rw last-snoc (
                      Seg-cons (write h2 q _) q null r f ys
                        (frame-write h2 r null q _ ys
                          (frame-twice l.heap r null p _ _ ys rest p_out) q_out')
                        nr r_out))
                    foc.apart;
            },
            write-write_other h2 q r _ _ ((p, d) ∷ []) (alone q apart) (alone r rp) p
                  (mem-middle p d [] [])
                ∙ write_self _ p _,
            λ a o.
                write-write_outside h2 q r _ _ whole (q_between ((r, f) ∷ ys)) r_in a o
                ∙ write-write_outside l.heap p p _ _ whole (mem-middle p d upto ((r, f) ∷ ys))
                    (mem-middle p d upto ((r, f) ∷ ys)) a o,
          ))

  erase_headed :
      (ys : Cells D) → IsList l ((p, d) ∷ ys) → Returns (Erased ((p, d) ∷ ys) ys) (erase p l)
  erase_headed [] is = erase_alone is
  erase_headed ((r, f) ∷ ys) is = erase_cons r f ys is

  erase_inner :
      (xs : Cells D) (q : Ptr) (e : D) (ys : Cells D)
      → IsList l ((xs ++ (q, e) ∷ []) ++ (p, d) ∷ ys)
      → Returns
          (Erased ((xs ++ (q, e) ∷ []) ++ (p, d) ∷ ys) ((xs ++ (q, e) ∷ []) ++ ys))
          (erase p l)
  erase_inner xs q e [] is = rw append-nil (erase_snoc xs q e is)
  erase_inner xs q e ((r, f) ∷ ys) is = erase_mid xs q e r f ys is

  -- `erase` of a node of a well-formed list, wherever it stands, returns success, takes out that
  -- node alone, leaves it unlinked, and writes to nodes of the list only.
  pub erase-append :
      (xs ys : Cells D)
      → IsList l (xs ++ (p, d) ∷ ys)
      → Returns (Erased (xs ++ (p, d) ∷ ys) (xs ++ ys)) (erase p l)
  erase-append xs ys is = elim (Snoc-cases xs) [
    | inl e ↦ rw e (erase_headed ys (rw e at is))
    | inr (zs, (q, c), e) ↦ rw e (erase_inner zs q c ys (rw e at is))
  ]
