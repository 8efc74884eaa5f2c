-- ===== src/Rpc/Protocol/Rounds.antt =====
-- One round of the loop of `on_read`.
use newbee.Base.{
  ℕ, ◌+◌, ◌-◌, ◌%◌, ◌<◌, ◌≤◌, ◌≡◌, refl, ap, true, false, List, [], leb, min, length, length-append,
  take, drop, length-take, arith, append-nil,
}
use newbee.Rpc.Message.{Byte, head_size, head_len, copy_bytes}
use newbee.Rpc.Protocol.{
  Conn, Protocol, size_mod, has_read_head_end_i, has_read_body_end_i, read_head_i, read_body_i,
  read_round,
}
use newbee.Rpc.Protocol.Feed.{is_complete, Framed, settle, add_head, add_body, head_len_lt}

pub min_le : (m n : ℕ) → min m n ≤ n
min_le m n = omega arith

module _ (c : Conn) (bytes : List Byte) (s : Protocol) where
  -- A round that reads a part of the head.
  pub round_head :
      (k : ℕ)
      → s.msg_size < 8
      → k ≡ min (8 - s.msg_size) (length bytes)
      → read_round c bytes s ≡ (drop k bytes, add_head s (take k bytes))
  unfolding read_round has_read_head_end_i read_head_i
  round_head k h e =
      let taken : length (take k bytes) ≡ k = length-take k bytes (omega arith) in
      let head_left : leb head_size s.msg_size ≡ false = ground arith in
      let asked : min ((head_size + size_mod - s.msg_size) % size_mod) (length bytes) ≡ k =
        omega arith in
      rw (head_left, asked)
        (ap
          (λ n. (
            drop k bytes,
            record s { head = copy_bytes s.head s.msg_size (take k bytes); msg_size = n },
          ))
          (omega (arith, taken)))

  -- A round that reads a part of the body.
  pub round_body :
      (k : ℕ)
      → 8 ≤ s.msg_size
      → s.msg_size ≤ 8 + head_len s.head
      → k ≡ min (8 + head_len s.head - s.msg_size) (length bytes)
      → read_round c bytes s ≡ (drop k bytes, settle c (add_body s (take k bytes)))
  unfolding read_round has_read_head_end_i has_read_body_end_i read_body_i settle
  round_body k h within e =
      let small = head_len_lt s.head in
      let taken : length (take k bytes) ≡ k = length-take k bytes (omega arith) in
      let head_done : leb head_size s.msg_size ≡ true = ground arith in
      let asked : min ((head_size + head_len s.head + size_mod - s.msg_size) % size_mod)
            (length bytes)
          ≡ k =
        omega arith in
      let counted : (s.msg_size + k) % size_mod ≡ s.msg_size + length (take k bytes) =
        omega arith in
      let still : leb head_size (s.msg_size + length (take k bytes)) ≡ true = ground arith in
      rw (head_done, asked, counted, still) refl

pub Framed-add_head :
    (s : Protocol) (bs : List Byte) → Framed s → s.msg_size + length bs ≤ 8 → Framed (add_head s bs)
Framed-add_head s bs f h = record {
  measured = omega (arith, f.measured);
  within = λ w. omega arith;
}

pub Framed-add_body :
    (s : Protocol) (bs : List Byte)
    → Framed s
    → 8 ≤ s.msg_size
    → length s.body + length bs ≤ head_len s.head
    → Framed (add_body s bs)
Framed-add_body s bs f h fits = record {
  measured = omega (arith, f.measured, length-append s.body bs);
  within = λ w. omega (arith, f.measured);
}

pub add_body-nil : (s : Protocol) → add_body s [] ≡ s
add_body-nil s = λ i. record s { body = append-nil s.body i; msg_size = plus_zero s.msg_size i }
  where
    plus_zero : (n : ℕ) → n + 0 ≡ n
    plus_zero n = omega arith

pub unfinished_size :
    (s : Protocol)
    → Framed s
    → 8 ≤ s.msg_size
    → is_complete s ≡ false
    → s.msg_size < 8 + head_len s.head
unfolding has_read_head_end_i has_read_body_end_i
unfinished_size s f h o = ground (arith, f.measured, f.within h)
