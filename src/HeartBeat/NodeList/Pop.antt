-- ===== src/HeartBeat/NodeList/Pop.antt =====
-- `pop_front` and `pop_back`.
use newbee.Base.{◌≡◌, ◌≢◌, refl, some, [], ◌∷◌, ◌++◌, arith, inl, inr, Snoc-cases, sym, ◌∙◌}
use newbee.Memory.{Returns, returns, ok}
use newbee.HeartBeat.NodeList.{
  Ptr, null, node, NodeList, write, load, set_front, set_next, pop_front, pop_back,
}
use newbee.HeartBeat.NodeList.Segment.{
  Cells, ◌∈◌, ◌∉◌, IsList, SameOutside, focus, frame, first, last, has-append, first-append,
  last-append, last-ne, first-ne, frame-write, Seg-snoc, write-write_outside, mem-middle,
  write-write_other, write-write_first,
}

module _ {D : Type 0} (l : NodeList D) where
  -- On an empty list both return NULL and change nothing.
  pub pop-nil : IsList l [] → (pop_front l ≡ ok (null, l)) × (pop_back l ≡ ok (null, l))
  unfolding pop_front pop_back
  pop-nil is = ground arith

  module _ (p : Ptr) (d : D) where
    pop_one :
        IsList l ((p, d) ∷ [])
        → (pop_front l ≡ ok (p, record { header = null; tail = null; heap = l.heap }))
          × (pop_back l ≡ ok (p, record { header = null; tail = null; heap = l.heap }))
    unfolding pop_front pop_back
    pop_one is = ground arith

    pop_front_more :
        (q s : Ptr) (e : D)
        → l.header ≡ p
        → p ≢ l.tail
        → p ≢ null
        → l.heap p ≡ some (node null q d)
        → q ≢ null
        → q ≢ p
        → l.heap q ≡ some (node p s e)
        → pop_front l
          ≡ ok (
            p,
            record {
              header = q;
              tail = l.tail;
              heap = write (write l.heap p (some (node null null d))) q (some (node null s e));
            },
          )
    unfolding pop_front write set_front set_next load
    pop_front_more q s e hd tl ne at ne' apart at' = ground arith

    pop_back_more :
        (q s : Ptr) (e : D)
        → l.tail ≡ p
        → l.header ≢ p
        → p ≢ null
        → l.heap p ≡ some (node q null d)
        → q ≢ null
        → q ≢ p
        → l.heap q ≡ some (node s p e)
        → pop_back l
          ≡ ok (
            p,
            record {
              header = l.header;
              tail = q;
              heap = write (write l.heap p (some (node null null d))) q (some (node s null e));
            },
          )
    unfolding pop_back write set_front set_next load
    pop_back_more q s e hd tl ne at ne' apart at' = ground arith

    -- What a pop leaves: the node `p` is returned, unlinked, and the rest is the list.
    abbrev pub Popped : Cells D → Cells D → Ptr × NodeList D → Type 0
    Popped before after r =
        (r.0 ≡ p)
        × IsList r.1 after
        × (r.1.heap p ≡ some (node null null d))
        × SameOutside before l.heap r.1.heap

    -- `pop_front` of a well-formed list with a node returns the header node, unlinked, leaves the
    -- rest as the list, and writes to nodes of the list only.
    pub pop_front-cons :
        (xs : Cells D) → IsList l ((p, d) ∷ xs) → Returns (Popped ((p, d) ∷ xs) xs) (pop_front l)
    unfolding write
    pop_front-cons [] is =
        rw ((pop_one is).0) (
          returns
            (refl, record { header = refl; tail = refl; chain = tt }, is.chain.1, λ a o. refl))
    pop_front-cons ((q, e) ∷ xs) is =
        let apart : (q ≢ p) × (p ∉ xs) = ground arith in
        rw
          (pop_front_more q (first null xs) e is.header
            (λ t. last-ne p q xs apart.0 apart.1 (sym is.tail ∙ sym t)) is.chain.0 is.chain.1
            is.chain.3.0 (ground arith) is.chain.3.1)
          (returns (
            refl,
            record {
              header = refl;
              tail = is.tail;
              chain = (
                is.chain.3.0,
                ground arith,
                is.chain.3.2,
                frame l.heap _ q null xs is.chain.3.3
                    (write-write_other l.heap p q _ _ xs apart.1 is.chain.3.2),
              );
            },
            ground arith,
            λ a o. ground arith,
          ))

    pop_back_one : IsList l ((p, d) ∷ []) → Returns (Popped ((p, d) ∷ []) []) (pop_back l)
    pop_back_one is =
        rw ((pop_one is).1) (
          returns
            (refl, record { header = refl; tail = refl; chain = tt }, is.chain.1, λ a o. refl))

    pop_back_snoc :
        (xs : Cells D) (q : Ptr) (e : D)
        → IsList l ((xs ++ (q, e) ∷ []) ++ (p, d) ∷ [])
        → Returns (Popped ((xs ++ (q, e) ∷ []) ++ (p, d) ∷ []) (xs ++ (q, e) ∷ [])) (pop_back l)
    unfolding write
    pop_back_snoc xs q e is =
        let foc = focus l.heap null null p d (xs ++ (q, e) ∷ []) [] is.chain in
        let foc' = focus l.heap null p q e xs [] foc.before in
        let apart : (p ∉ xs) × (q ≢ p) =
          ground (arith, has-append p xs ((q, e) ∷ []), foc.not_before) in
        let heads = first-append null (xs ++ (q, e) ∷ []) ((p, d) ∷ []) in
        let tail_is : l.tail ≡ p =
          ground (arith, last-append null (xs ++ (q, e) ∷ []) ((p, d) ∷ [])) in
        let header_is : l.header ≡ first q xs =
          ground (arith, heads, first-append p xs ((q, e) ∷ [])) in
        let q_in : q ∈ ((xs ++ (q, e) ∷ []) ++ (p, d) ∷ []) =
          ground (arith, has-append q (xs ++ (q, e) ∷ []) ((p, d) ∷ []), mem-middle q e xs []) in
        rw
          (pop_back_more q (last null xs) e tail_is (ground (arith, first-ne p q xs)) foc.ne_null
            (ground (arith, foc.at, last-append null xs ((q, e) ∷ []))) foc'.ne_null apart.1
            foc'.at)
          (returns (
            refl,
            record {
              header = ground (arith, first-append null xs ((q, e) ∷ []));
              tail = ground (arith, last-append null xs ((q, e) ∷ []));
              chain =
                  Seg-snoc (write l.heap p _) null null q e xs
                    (frame-write l.heap null q p _ xs foc'.before apart.0) foc'.ne_null
                    foc'.not_before;
            },
            write-write_first l.heap p q _ _ apart.1,
            write-write_outside l.heap p q _ _ ((xs ++ (q, e) ∷ []) ++ (p, d) ∷ [])
                (mem-middle p d (xs ++ (q, e) ∷ []) []) q_in,
          ))

    -- `pop_back` of a well-formed list with a node returns the tail node, unlinked, leaves the
    -- rest as the list, and writes to nodes of the list only.
    pub pop_back-snoc :
        (xs : Cells D)
        → IsList l (xs ++ (p, d) ∷ [])
        → Returns (Popped (xs ++ (p, d) ∷ []) xs) (pop_back l)
    pop_back-snoc xs is = elim (Snoc-cases xs) [
      | inl e ↦ rw e (pop_back_one (rw e at is))
      | inr (ys, (q, c), e) ↦ rw e (pop_back_snoc ys q c (rw e at is))
    ]
