-- ===== src/HeartBeat/NodeList/Relink.antt =====
-- What `erase` writes, by whether the node is alone, first, last or between two.
use newbee.Base.{◌≡◌, ◌≢◌, true, some, arith, ◌==◌, ◌||◌}
use newbee.Memory.{ok}
use newbee.HeartBeat.NodeList.{
  Ptr, null, node, NodeList, success, failure, write, load, set_front, set_next, erase_header,
  erase_behind, erase,
}

module _ {D : Type 0} (l : NodeList D) (p : Ptr) (d : D) where
  -- NULL, and any node while the list is empty, are refused.
  pub erase-failure : ((p == null) || (l.header == null)) ≡ true → erase p l ≡ ok (failure, l)
  unfolding erase
  erase-failure e = ground arith

  module _ (ne : p ≢ null) where
    pub erase_only :
        l.header ≡ p
        → l.tail ≡ p
        → l.heap p ≡ some (node null null d)
        → erase p l ≡ ok (success, record { header = null; tail = null; heap = l.heap })
    unfolding erase erase_header erase_behind load
    erase_only hd tl at = ground arith

    pub erase_first :
        (r s : Ptr) (f : D)
        → l.header ≡ p
        → l.heap p ≡ some (node null r d)
        → r ≢ null
        → r ≢ p
        → l.heap r ≡ some (node p s f)
        → erase p l
          ≡ ok (
            success,
            record {
              header = r;
              tail = l.tail;
              heap = write (write l.heap r (some (node null s f))) p (some (node null null d));
            },
          )
    unfolding erase erase_header erase_behind load set_front set_next write
    erase_first r s f hd at ne' apart at' = ground arith

    pub erase_last :
        (q s : Ptr) (e : D)
        → l.header ≢ null
        → l.tail ≡ p
        → l.heap p ≡ some (node q null d)
        → q ≢ null
        → q ≢ p
        → l.heap q ≡ some (node s p e)
        → erase p l
          ≡ ok (
            success,
            record {
              header = l.header;
              tail = q;
              heap = write (write l.heap q (some (node s null e))) p (some (node null null d));
            },
          )
    unfolding erase erase_header erase_behind load set_front set_next write
    erase_last q s e hd tl at ne' apart at' = ground arith

    pub erase_between :
        (q r s t : Ptr) (e f : D)
        → l.header ≢ null
        → l.heap p ≡ some (node q r d)
        → q ≢ null
        → r ≢ null
        → q ≢ p
        → r ≢ p
        → q ≢ r
        → l.heap q ≡ some (node s p e)
        → l.heap r ≡ some (node p t f)
        → erase p l
          ≡ ok (
            success,
            record {
              header = l.header;
              tail = l.tail;
              heap =
                  write
                    (write
                      (write (write l.heap p (some (node null r d))) p (some (node null null d)))
                      q
                      (some (node s r e)))
                    r
                    (some (node q t f));
            },
          )
    unfolding erase erase_header erase_behind load set_front set_next write
    erase_between q r s t e f hd at nq nr pq pr qr atq atr = ground arith
