-- ===== src/HeartBeat/NodeList/Push.antt =====
-- `push_front` and `push_back`.
use newbee.Base.{◌≡◌, ◌≢◌, refl, some, [], ◌∷◌, ◌++◌, arith, inl, inr, Snoc-cases}
use newbee.Memory.{Returns, returns, ok}
use newbee.HeartBeat.NodeList.{
  Ptr, null, node, NodeList, success, write, load, set_front, set_next, push_front, push_back,
}
use newbee.HeartBeat.NodeList.Segment.{
  Cells, ◌∉◌, IsList, SameOutside, focus, frame, join, first, last, has-append, first-append,
  last-append,
}

module _ {D : Type 0} (l : NodeList D) (p f n : Ptr) (d : D) (ne : p ≢ null)
    (at : l.heap p ≡ some (node f n d)) where
  push_front_first :
      l.header ≡ null
      → push_front p l
        ≡ ok (
          success,
          record {
            header = p;
            tail = p;
            heap = write (write l.heap p (some (node null n d))) p (some (node null null d));
          },
        )
  unfolding push_front write set_front set_next load
  push_front_first e = ground arith

  push_front_more :
      (q s : Ptr) (e : D)
      → l.header ≡ q
      → q ≢ null
      → q ≢ p
      → l.heap q ≡ some (node null s e)
      → push_front p l
        ≡ ok (
          success,
          record {
            header = p;
            tail = l.tail;
            heap =
                write
                  (write
                    (write (write l.heap p (some (node null n d))) p (some (node null null d)))
                    p
                    (some (node null q d)))
                  q
                  (some (node p s e));
          },
        )
  unfolding push_front write set_front set_next load
  push_front_more q s e hd = ground arith

  push_back_first :
      l.tail ≡ null
      → push_back p l
        ≡ ok (
          success,
          record {
            header = p;
            tail = p;
            heap = write (write l.heap p (some (node null n d))) p (some (node null null d));
          },
        )
  unfolding push_back write set_front set_next load
  push_back_first e = ground arith

  push_back_more :
      (q s : Ptr) (e : D)
      → l.tail ≡ q
      → q ≢ null
      → q ≢ p
      → l.heap q ≡ some (node s null e)
      → push_back p l
        ≡ ok (
          success,
          record {
            header = l.header;
            tail = p;
            heap =
                write
                  (write
                    (write (write l.heap p (some (node null n d))) p (some (node null null d)))
                    q
                    (some (node s p e)))
                  p
                  (some (node q null d));
          },
        )
  unfolding push_back write set_front set_next load
  push_back_more q s e hd = ground arith

  -- `push_front` of an allocated node that is not in the well-formed list returns success, puts
  -- the node before the header, and writes to the nodes of the list and the new one only.
  pub push_front-cons :
      (xs : Cells D)
      → IsList l xs
      → p ∉ xs
      → Returns
          (λ r.
            (r.0 ≡ success) × IsList r.1 ((p, d) ∷ xs) × SameOutside ((p, d) ∷ xs) l.heap r.1.heap)
          (push_front p l)
  unfolding write
  push_front-cons [] is out =
      rw (push_front_first is.header)
        (returns (refl, record { header = refl; tail = refl; chain = ground arith }, ground arith))
  push_front-cons ((q, e) ∷ xs) is out =
      rw (push_front_more q (first null xs) e is.header is.chain.0 (ground arith) is.chain.1) (
        returns (
          refl,
          record {
            header = refl;
            tail = is.tail;
            chain = (
              ne,
              ground arith,
              out,
              (
                is.chain.0,
                ground arith,
                is.chain.2,
                frame l.heap _ q null xs is.chain.3 λ a i. ground arith,
              ),
            );
          },
          ground arith,
        ))

  push_back_snoc :
      (xs : Cells D) (q : Ptr) (e : D)
      → IsList l (xs ++ (q, e) ∷ [])
      → p ∉ (xs ++ (q, e) ∷ [])
      → Returns
          (λ r.
            (r.0 ≡ success)
            × IsList r.1 ((xs ++ (q, e) ∷ []) ++ (p, d) ∷ [])
            × SameOutside ((xs ++ (q, e) ∷ []) ++ (p, d) ∷ []) l.heap r.1.heap)
          (push_back p l)
  unfolding write
  push_back_snoc xs q e is out =
      let foc = focus l.heap null null q e xs [] is.chain in
      let ends = last-append null xs ((q, e) ∷ []) in
      let apart : (p ∉ xs) × (q ≢ p) = ground (arith, has-append p xs ((q, e) ∷ [])) in
      rw (push_back_more q (last null xs) e (ground arith) foc.ne_null apart.1 foc.at) (
        returns (
          refl,
          record {
            header = ground (
              arith,
              first-append null (xs ++ (q, e) ∷ []) ((p, d) ∷ []),
              first-append null xs ((q, e) ∷ []),
              first-append p xs ((q, e) ∷ []),
            );
            tail = ground (arith, last-append null (xs ++ (q, e) ∷ []) ((p, d) ∷ []));
            chain =
                join _ null null (xs ++ (q, e) ∷ []) ((p, d) ∷ [])
                  (join _ null p xs ((q, e) ∷ [])
                    (frame l.heap _ null q xs foc.before λ a i. ground (arith, foc.not_before))
                    (foc.ne_null, ground arith, refl, tt) (λ a i. ground (arith, foc.not_before)))
                  (ne, ground arith, refl, tt) (λ a i. ground arith);
          },
          λ a o. ground (
            arith,
            has-append a (xs ++ (q, e) ∷ []) ((p, d) ∷ []),
            has-append a xs ((q, e) ∷ []),
          ),
        ))

  push_back_empty :
      IsList l []
      → Returns
          (λ r.
            (r.0 ≡ success) × IsList r.1 ((p, d) ∷ []) × SameOutside ((p, d) ∷ []) l.heap r.1.heap)
          (push_back p l)
  unfolding write
  push_back_empty is =
      rw (push_back_first is.tail)
        (returns (refl, record { header = refl; tail = refl; chain = ground arith }, ground arith))

  -- `push_back` of an allocated node that is not in the well-formed list returns success, puts the
  -- node behind the tail, and writes to the nodes of the list and the new one only.
  pub push_back-append :
      (xs : Cells D)
      → IsList l xs
      → p ∉ xs
      → Returns
          (λ r.
            (r.0 ≡ success)
            × IsList r.1 (xs ++ (p, d) ∷ [])
            × SameOutside (xs ++ (p, d) ∷ []) l.heap r.1.heap)
          (push_back p l)
  push_back-append xs is out = elim (Snoc-cases xs) [
    | inl e ↦ rw e (push_back_empty (rw e at is))
    | inr (ys, (q, c), e) ↦ rw e (push_back_snoc ys q c (rw e at is) (rw e at out))
  ]
