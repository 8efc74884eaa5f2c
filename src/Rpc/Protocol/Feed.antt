-- ===== src/Rpc/Protocol/Feed.antt =====
-- What `on_read` does, told byte by byte, without chunks and without a loop.
use newbee.Base.{
  ℕ, suc, ◌+◌, ◌-◌, ◌^◌, ◌<◌, ◌≤◌, ◌≡◌, refl, sym, ap, ◌∙◌, Bool, true, false, ◌&&◌, List, [], ◌∷◌,
  ◌++◌, leb, if◌then◌else◌, length, length-append, foldl, arith, append_assoc, Bool-cases, inl, inr,
}
use newbee.Rpc.Message.{Byte, Head, u16_at, head_len, copy_bytes}
use newbee.Rpc.Protocol.{Conn, Protocol, finish, has_read_head_end_i, has_read_body_end_i}

-- A message is complete.
abbrev pub is_complete : Protocol → Bool
is_complete s = has_read_head_end_i s && has_read_body_end_i s

-- The head is read into place; behind it, the body is as long as the count says, and not longer
-- than the head says.
pub record Framed (s : Protocol) : Type 0 where
  pub measured : length s.body ≡ s.msg_size - 8
  pub within : 8 ≤ s.msg_size → s.msg_size ≤ 8 + head_len s.head

pub head_len_lt : (h : Head) → head_len h < 2 ^ 32
unfolding head_len u16_at
head_len_lt h = omega arith

abbrev pub add_head : Protocol → List Byte → Protocol
add_head s bs = record s {
  head = copy_bytes s.head s.msg_size bs;
  msg_size = s.msg_size + length bs;
}

abbrev pub add_body : Protocol → List Byte → Protocol
add_body s bs = record s { body = s.body ++ bs; msg_size = s.msg_size + length bs }

pub complete_size :
    (s : Protocol) → Framed s → is_complete s ≡ true → s.msg_size ≡ 8 + head_len s.head
unfolding has_read_head_end_i has_read_body_end_i
complete_size s f h = ground (arith, f.measured)

pub open_head : (s : Protocol) → s.msg_size < 8 → is_complete s ≡ false
unfolding has_read_head_end_i
open_head s h = ground arith

open_body :
    (s : Protocol) (b : Byte)
    → 1 + length s.body < head_len s.head
    → is_complete (add_body s (b ∷ [])) ≡ false
unfolding has_read_body_end_i
open_body s b h = ground (arith, length-append s.body (b ∷ []))

add_body_more :
    (s : Protocol) (b : Byte) (bs : List Byte)
    → add_body (add_body s (b ∷ [])) bs ≡ add_body s (b ∷ bs)
add_body_more s b bs = λ i. record s {
  body = append_assoc s.body (b ∷ []) bs i;
  msg_size = sizes s.msg_size (length bs) i;
}
  where
    sizes : (m n : ℕ) → m + 1 + n ≡ m + suc n
    sizes m n = omega arith

module _ (c : Conn) where
  unfoldable pub settle : Protocol → Protocol
  settle s = if is_complete s then finish c s else s

  unfoldable pub accept : Protocol → Byte → Protocol
  unfolding settle
  accept s b = if leb 8 s.msg_size then settle (add_body s (b ∷ [])) else add_head s (b ∷ [])

  -- A complete message is posted before the next byte is looked at, and as soon as its last byte
  -- is there.
  unfoldable pub feed : Protocol → Byte → Protocol
  unfolding settle accept
  feed s b = accept (settle s) b

  pub settle-open : (s : Protocol) → is_complete s ≡ false → settle s ≡ s
  unfolding settle
  settle-open s h = rw h refl

  pub settle_complete : (s : Protocol) → is_complete s ≡ true → settle s ≡ finish c s
  unfolding settle
  settle_complete s h = rw h refl

  pub settle-finish : (s : Protocol) → settle (finish c s) ≡ finish c s
  unfolding settle finish has_read_head_end_i
  settle-finish s = refl

  feed_head : (s : Protocol) (b : Byte) → s.msg_size < 8 → feed s b ≡ add_head s (b ∷ [])
  unfolding feed accept
  feed_head s b h = rw (settle-open s (open_head s h)) (ground arith)

  -- Bytes of the head go into place.
  pub head_run :
      (bs : List Byte) (s : Protocol) → s.msg_size + length bs ≤ 8 → foldl feed s bs ≡ add_head s bs
  head_run [] s h = ap (λ n. record s { msg_size = n }) (omega arith)
  head_run (b ∷ bs) s h =
      ap (λ t. foldl feed t bs) (feed_head s b (omega arith))
      ∙ head_run bs (add_head s (b ∷ [])) (omega arith)
      ∙ ap (λ n. record s { head = copy_bytes s.head s.msg_size (b ∷ bs); msg_size = n })
          (omega arith)

  feed_body :
      (s : Protocol) (b : Byte)
      → 8 ≤ s.msg_size
      → is_complete s ≡ false
      → feed s b ≡ settle (add_body s (b ∷ []))
  unfolding feed accept
  feed_body s b h o = rw (settle-open s o) (ground arith)

  -- Bytes of the body are added, and the message is posted if they complete it.
  pub body_run :
      (b : Byte) (bs : List Byte) (s : Protocol)
      → 8 ≤ s.msg_size
      → is_complete s ≡ false
      → length s.body + suc (length bs) ≤ head_len s.head
      → foldl feed s (b ∷ bs) ≡ settle (add_body s (b ∷ bs))
  body_run b [] s h o fits = feed_body s b h o
  body_run b (d ∷ bs) s h o fits =
      let still : is_complete (add_body s (b ∷ [])) ≡ false = open_body s b (omega arith) in
      ap (λ t. foldl feed t (d ∷ bs)) (feed_body s b h o ∙ settle-open (add_body s (b ∷ [])) still)
      ∙ body_run d bs (add_body s (b ∷ [])) (omega arith) still
          (omega (arith, length-append s.body (b ∷ [])))
      ∙ ap settle (add_body_more s b (d ∷ bs))

  pub settle-settle : (s : Protocol) → settle (settle s) ≡ settle s
  settle-settle s = elim (Bool-cases (is_complete s)) [
    | inl y ↦ let done = settle_complete s y in ap settle done ∙ settle-finish s ∙ sym done
    | inr n ↦ ap settle (settle-open s n)
  ]

  pub feed-settle : (s : Protocol) (b : Byte) → feed (settle s) b ≡ feed s b
  unfolding feed
  feed-settle s b = ap (λ t. accept t b) (settle-settle s)
