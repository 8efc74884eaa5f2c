-- ===== src/Rpc/Protocol/Loop.antt =====
-- The loop of `on_read` ends and does what the bytes one by one ask for.
use newbee.Base.{
  ℕ, zero, suc, ◌+◌, ◌-◌, ◌*◌, ◌<◌, ◌≤◌, ◌≡◌, refl, sym, ap, subst, ◌∙◌, true, false, List, [], ◌∷◌,
  min, if◌then◌else◌, length, take, drop, take-drop, length-take, length-drop, foldl, foldl-append,
  arith, Bool-cases, inl, inr, le-or-lt,
}
use newbee.Memory.{ok}
use newbee.Rpc.Message.{Byte, head_len}
use newbee.Rpc.Protocol.{
  Conn, Protocol, emit, finish, has_read_head_end_i, read_round, read_loop, on_read, async_read,
}
use newbee.Rpc.Protocol.Feed.{
  is_complete, Framed, settle, feed, add_head, add_body, head_run, body_run, complete_size,
  feed-settle, settle_complete, settle-open,
}
use newbee.Rpc.Protocol.Rounds.{
  min_le, round_head, round_body, Framed-add_head, Framed-add_body, add_body-nil, unfinished_size,
}

module _ (c : Conn) where
  pub Framed-finish : (s : Protocol) → Framed (finish c s)
  unfolding finish
  Framed-finish s = record { measured = refl; within = λ w. omega arith }

  Framed-settle : (s : Protocol) → Framed s → Framed (settle c s)
  Framed-settle s f = elim (Bool-cases (is_complete s)) [
    | inl y ↦ rw (settle_complete c s y) (Framed-finish s)
    | inr n ↦ rw (settle-open c s n) f
  ]

  -- A complete message costs a round that takes no byte.
  abbrev cost : Protocol → ℕ
  cost s = if is_complete s then 1 else 0

  -- A round is progress, and leaves what the bytes ask for.
  record Progress (bytes : List Byte) (s : Protocol) : Type 0 where
    rest : List Byte
    next : Protocol
    ran : read_round c bytes s ≡ (rest, next)
    same : foldl (feed c) next rest ≡ foldl (feed c) s bytes
    framed : Framed next
    cheaper : 2 * length rest + cost next < 2 * length bytes + cost s

  cost_le : (s : Protocol) → cost s ≤ 1
  cost_le s = ground arith

  rest-same :
      (k : ℕ) (bytes : List Byte) (s t : Protocol)
      → foldl (feed c) s (take k bytes) ≡ t
      → foldl (feed c) t (drop k bytes) ≡ foldl (feed c) s bytes
  rest-same k bytes s t e =
      ap (λ x. foldl (feed c) x (drop k bytes)) (sym e)
      ∙ sym (foldl-append (feed c) s (take k bytes) (drop k bytes))
      ∙ ap (foldl (feed c) s) (take-drop k bytes)

  rest-cheaper :
      (k : ℕ) (bytes : List Byte) (s t : Protocol)
      → 0 < k
      → k ≤ length bytes
      → 2 * length (drop k bytes) + cost t < 2 * length bytes + cost s
  rest-cheaper k bytes s t h fits = omega (arith, length-drop k bytes, cost_le t)

  head_Progress :
      (b : Byte) (bs : List Byte) (s : Protocol) → Framed s → s.msg_size < 8 → Progress (b ∷ bs) s
  head_Progress b bs s f h =
      let bytes : List Byte = b ∷ bs in
      let k : ℕ = min (8 - s.msg_size) (length bytes) in
      let fits : k ≤ length bytes = min_le (8 - s.msg_size) (length bytes) in
      let taken : length (take k bytes) ≡ k = length-take k bytes fits in
      let placed : s.msg_size + length (take k bytes) ≤ 8 = omega (arith, taken) in
      record {
        rest = drop k bytes;
        next = add_head s (take k bytes);
        ran = round_head c bytes s k h refl;
        same = rest-same k bytes s (add_head s (take k bytes)) (head_run c (take k bytes) s placed);
        framed = Framed-add_head s (take k bytes) f placed;
        cheaper = rest-cheaper k bytes s (add_head s (take k bytes)) (omega arith) fits;
      }

  cost_complete : (s : Protocol) → is_complete s ≡ true → cost s ≡ 1
  cost_complete s h = rw h refl

  cost-finish : (s : Protocol) → cost (finish c s) ≡ 0
  unfolding finish has_read_head_end_i
  cost-finish s = refl

  -- A complete message: the round takes nothing.
  complete_Progress :
      (b : Byte) (bs : List Byte) (s : Protocol)
      → Framed s
      → is_complete s ≡ true
      → Progress (b ∷ bs) s
  complete_Progress b bs s f h =
      let done = settle_complete c s h in
      let full = complete_size s f h in
      record {
        rest = b ∷ bs;
        next = finish c s;
        ran =
            round_body c (b ∷ bs) s 0 (omega (arith, full)) (omega (arith, full))
              (omega (arith, full))
            ∙ ap (λ t. (b ∷ bs, settle c t)) (add_body-nil s)
            ∙ ap (λ t. (b ∷ bs, t)) done;
        same = ap (λ t. foldl (feed c) t bs) (ap (λ t. feed c t b) (sym done) ∙ feed-settle c s b);
        framed = Framed-finish s;
        cheaper = omega (arith, cost-finish s, cost_complete s h);
      }

  body_run_some :
      (bs : List Byte) (s : Protocol)
      → 0 < length bs
      → 8 ≤ s.msg_size
      → is_complete s ≡ false
      → length s.body + length bs ≤ head_len s.head
      → foldl (feed c) s bs ≡ settle c (add_body s bs)
  body_run_some [] s some h o fits = absurd (omega arith)
  body_run_some (b ∷ bs) s some h o fits = body_run c b bs s h o fits

  body_Progress :
      (b : Byte) (bs : List Byte) (s : Protocol)
      → Framed s
      → 8 ≤ s.msg_size
      → is_complete s ≡ false
      → Progress (b ∷ bs) s
  body_Progress b bs s f h unfinished =
      let bytes : List Byte = b ∷ bs in
      let k : ℕ = min (8 + head_len s.head - s.msg_size) (length bytes) in
      let fits : k ≤ length bytes = min_le (8 + head_len s.head - s.msg_size) (length bytes) in
      let taken : length (take k bytes) ≡ k = length-take k bytes fits in
      let some_left : 0 < k = omega (arith, unfinished_size s f h unfinished) in
      let placed : length s.body + length (take k bytes) ≤ head_len s.head =
        omega (arith, taken, f.measured) in
      record {
        rest = drop k bytes;
        next = settle c (add_body s (take k bytes));
        ran = round_body c bytes s k h (f.within h) refl;
        same =
            rest-same k bytes s (settle c (add_body s (take k bytes))) (
              body_run_some (take k bytes) s (omega (arith, taken, some_left)) h unfinished placed);
        framed =
            Framed-settle (add_body s (take k bytes)) (Framed-add_body s (take k bytes) f h placed);
        cheaper = rest-cheaper k bytes s (settle c (add_body s (take k bytes))) some_left fits;
      }

  progress : (b : Byte) (bs : List Byte) (s : Protocol) → Framed s → Progress (b ∷ bs) s
  progress b bs s f = elim (le-or-lt 8 s.msg_size) [
    | inr h ↦ head_Progress b bs s f h
    | inl h ↦ elim (Bool-cases (is_complete s)) [
      | inl y ↦ complete_Progress b bs s f y
      | inr n ↦ body_Progress b bs s f h n
    ]
  ]

  loop-feed :
      (fuel : ℕ) (bytes : List Byte) (s : Protocol)
      → Framed s
      → 2 * length bytes + cost s ≤ fuel
      → (read_loop c fuel bytes s ≡ ok (foldl (feed c) s bytes)) × Framed (foldl (feed c) s bytes)
  unfolding read_loop
  loop-feed zero [] s f h = (refl, f)
  loop-feed (suc fuel) [] s f h = (refl, f)
  loop-feed zero (b ∷ bs) s f h = absurd (omega arith)
  loop-feed (suc fuel) (b ∷ bs) s f h =
      let p = progress b bs s f in
      let ih = loop-feed fuel p.rest p.next p.framed (omega (arith, p.cheaper)) in
      (
        ap (λ (r : List Byte × Protocol). read_loop c fuel r.0 r.1) p.ran ∙ ih.0 ∙ ap ok p.same,
        subst Framed p.same ih.1,
      )

  -- Given more than twice as many rounds as there are bytes, `on_read` from a well framed state
  -- returns with the effect that its bytes have one by one, and the state stays well framed.
  pub on_read-feed :
      (fuel : ℕ) (bytes : List Byte) (s : Protocol)
      → Framed s
      → 2 * length bytes < fuel
      → (on_read c fuel bytes s ≡ ok (emit async_read (foldl (feed c) s bytes)))
        × Framed (foldl (feed c) s bytes)
  unfolding on_read
  on_read-feed fuel bytes s f h =
      let (ran, framed) = loop-feed fuel bytes s f (omega (arith, cost_le s)) in
      (rw ran refl, framed)
