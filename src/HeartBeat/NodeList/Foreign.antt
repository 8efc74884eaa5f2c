-- ===== src/HeartBeat/NodeList/Foreign.antt =====
-- `erase` on one list of a node that another list has.
use newbee.Base.{◌≡◌, ◌≢◌, refl, sym, ◌∙◌, some, [], ◌∷◌, ◌++◌, arith}
use newbee.Memory.{Returns, returns, Returns-ok}
use newbee.HeartBeat.NodeList.{Ptr, null, node, NodeList, success, erase}
use newbee.HeartBeat.NodeList.Segment.{
  Cells, ◌∉◌, IsList, Disjoint, focus, frame, first, last, has-append, first-snoc, last-snoc,
  not-mem-cons, first-ne_null, mem-middle,
}
use newbee.HeartBeat.NodeList.Relink.{erase_between}
use newbee.HeartBeat.NodeList.Erase.{Erased, erase-append}

module _ {D : Type 0} (other : NodeList D) (p q r : Ptr) (d e f : D) (xs ys : Cells D) where
  -- The nodes of the other list, with the node `p` between `q` and `r`, and without it.
  abbrev pub before : Cells D
  before = (xs ++ (q, e) ∷ []) ++ (p, d) ∷ (r, f) ∷ ys

  abbrev pub after : Cells D
  after = (xs ++ (q, e) ∷ []) ++ (r, f) ∷ ys

  -- What the node and its neighbours hold, and that none of them is another.
  record Between : Type 0 where
    has_header : other.header ≢ null
    ne : p ≢ null
    at : other.heap p ≡ some (node q r d)
    nq : q ≢ null
    nr : r ≢ null
    qp : q ≢ p
    rp : r ≢ p
    qr : q ≢ r
    at_q : other.heap q ≡ some (node (last null xs) p e)
    at_r : other.heap r ≡ some (node p (first null ys) f)

  q_apart : Disjoint (xs ++ (q, e) ∷ []) ((r, f) ∷ ys) → q ∉ (r, f) ∷ ys
  q_apart apart = ground (arith, apart q, mem-middle q e xs [])

  p_apart : p ∉ xs ++ (q, e) ∷ [] → q ≢ p
  p_apart out = ground (arith, has-append p xs ((q, e) ∷ []))

  between : IsList other before → Between
  between is =
      let upto : Cells D = xs ++ (q, e) ∷ [] in
      let foc = focus other.heap null null p d upto ((r, f) ∷ ys) is.chain in
      let foc' = focus other.heap null p q e xs [] foc.before in
      let live = first-ne_null other.heap null q xs foc'.before foc'.ne_null in
      let header_is : other.header ≡ first q xs =
        is.header ∙ first-snoc null q e xs ((p, d) ∷ (r, f) ∷ ys) in
      let at : other.heap p ≡ some (node q r d) = rw last-snoc at foc.at in
      let (nr, at_r, _, _) = foc.behind in
      let q_out = q_apart foc.apart in
      record {
        has_header = λ z. live (sym header_is ∙ z);
        ne = foc.ne_null;
        at = at;
        nq = foc'.ne_null;
        nr = nr;
        qp = p_apart foc.not_before;
        rp = (not-mem-cons p r f ys foc.not_behind).0;
        qr = λ z. (not-mem-cons q r f ys q_out).0 (sym z);
        at_q = foc'.at;
        at_r = at_r;
      }

  -- If two lists, the first of which is not empty, share the memory but no node, `erase` on the
  -- first of a node that the second has between two others reports success, leaves the first list
  -- as it is, takes the node out of the second, and leaves it unlinked.
  pub erase-foreign :
      (header tail : Ptr) (zs : Cells D)
      → IsList (record other { header = header; tail = tail }) zs
      → header ≢ null
      → IsList other before
      → Disjoint zs before
      → Returns
          (λ r.
            (r.0 ≡ success)
            × IsList r.1 zs
            × IsList (record other { heap = r.1.heap }) after
            × (r.1.heap p ≡ some (node null null d)))
          (erase p (record other { header = header; tail = tail }))
  erase-foreign header tail zs own hd is apart =
      let b = between is in
      let one = record other { header = header; tail = tail } in
      let run =
        erase_between other p d b.ne q r (last null xs) (first null ys) e f b.has_header b.at b.nq
          b.nr b.qp b.rp b.qr b.at_q b.at_r in
      let run' =
        erase_between one p d b.ne q r (last null xs) (first null ys) e f hd b.at b.nq b.nr b.qp
          b.rp b.qr b.at_q b.at_r in
      let (_, rest, unlinked, outside) =
        Returns-ok (Erased other p d before after) _ _
          (erase-append other p d (xs ++ (q, e) ∷ []) ((r, f) ∷ ys) is) run in
      rw run' (
        returns (
          refl,
          record {
            header = own.header;
            tail = own.tail;
            chain = frame other.heap _ null null zs own.chain (λ a i. outside a (apart a i));
          },
          rest,
          unlinked,
        ))
