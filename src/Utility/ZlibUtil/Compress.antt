-- ===== src/Utility/ZlibUtil/Compress.antt =====
-- The second `compress` of zlib_util: the chunks of the input, and the output they make.
use newbee.Base.{
  ℕ, zero, suc, ◌+◌, ◌-◌, ◌*◌, ◌^◌, ◌<◌, ◌≡◌, refl, sym, ap, ◌∙◌, subst, true, Option, some, List,
  ◌++◌, append-nil, length-take-le, ◌==◌, length, drop, append_assoc, arith, inl, inr, Bool-cases,
  take_all,
}
use newbee.Memory.{Run, ok, Returns, returns, Returns-bind, Returns-result}
use newbee.Status.{Status, success}
use newbee.Rpc.Message.{Byte}
use newbee.Utility.Zlib.{Zlib, Turn, Flush, z_finish, z_sync_flush, raw, is_ok}
use newbee.Utility.Zlib.Deflating.{
  Phase, opened, May, may_flush, may_go_on, after, Reached, start, turn, Deflates,
}
use newbee.Utility.ZlibUtil.Chunks.{
  within, is_too_large-lt, next_chunk-append, next_chunk-last, next_chunk-more,
}
use newbee.Utility.ZlibUtil.{chunk, next_chunk, deflate_loop, compress_loop, compress}

May-again :
    {S : Type 0} (flush : Flush) (call : Turn S)
    → (call.avail_out == 0) ≡ true
    → May (after flush call) flush call.next_in
May-again z_sync_flush call full = may_flush
May-again z_finish call full = rw full may_go_on

after_sync :
    {S : Type 0} (flush : Flush) (call : Turn S) → flush ≡ z_sync_flush → after flush call ≡ opened
after_sync flush call e = rw e refl

module _ {z : Zlib} (d : Deflates z) where
  open d use {text_of, is_complete, owed, most_owed, writes, owed_le}

  -- What the inner loop leaves when the text has been taken.
  abbrev Deflated : Flush → List Byte → Option z.Stream × List Byte → Type 0
  Deflated flush text (left, output) =
      (phase : Phase) × (s : z.Stream) × (left ≡ some s)
      × Reached z phase s text output
      × (text_of output ≡ text)
      × (flush ≡ z_finish → is_complete output ≡ true)
      × (flush ≡ z_sync_flush → phase ≡ opened)

  -- A flush that is done leaves nothing, so the stream has taken all of `next_in`.
  deflate-Deflated :
      {phase : Phase} {s : z.Stream} {taken given : List Byte} (flush : Flush) (next_in : List Byte)
      → Reached z phase s taken given
      → May phase flush next_in
      → 0 < (z.deflate s flush next_in chunk).avail_out
      → Deflated flush (taken ++ next_in) (
        some (z.deflate s flush next_in chunk).stream,
        given ++ (z.deflate s flush next_in chunk).written,
      )
  deflate-Deflated flush next_in r may h =
      let wrote = writes r flush next_in chunk may in
      (
        _,
        _,
        refl,
        turn r flush next_in next_in chunk may (sym (rw (wrote.drained h) (append-nil next_in))),
        wrote.flushed h,
        λ e. wrote.finished e h,
        after_sync flush _,
      )

  retext :
      {flush : Flush} {text text' : List Byte} {r : Run (Option z.Stream × List Byte)}
      → text ≡ text'
      → Returns (Deflated flush text) r
      → Returns (Deflated flush text') r
  retext {flush} {r} e h = subst (λ text. Returns (Deflated flush text) r) e h

  deflate_loop-Deflated :
      (fuel : ℕ) {phase : Phase} {s : z.Stream} {taken given : List Byte} (flush : Flush)
      (next_in : List Byte)
      → Reached z phase s taken given
      → May phase flush next_in
      → owed s next_in < fuel
      → Returns (Deflated flush (taken ++ next_in)) (deflate_loop z fuel s flush next_in given)
  unfolding deflate_loop
  deflate_loop-Deflated zero flush next_in r may h = absurd (omega arith)
  deflate_loop-Deflated (suc fuel) {s} {taken} {given} flush next_in r may h =
      let wrote = writes r flush next_in chunk may in
      let next = turn r flush next_in (wrote.used) chunk may (wrote.splits) in
      let call = z.deflate s flush next_in chunk in
      rw
        (
          take_all (chunk - call.avail_out) (call.written) (omega (arith, wrote.room)),
          wrote.sound (omega arith),
        )
        (elim (Bool-cases ((z.deflate s flush next_in chunk).avail_out == 0)) [
          | inl full ↦ rw full (
              retext
                (append_assoc taken (wrote.used) _
                  ∙ ap (λ rest. taken ++ rest) (sym (wrote.splits)))
                (deflate_loop-Deflated fuel flush _ next (May-again flush _ full)
                  (omega (arith, wrote.shrinks (omega arith) (ground arith)))))
          | inr left ↦ rw left (returns (deflate-Deflated flush next_in r may (ground arith)))
        ])

  abbrev pub Compressed : List Byte → Status × List Byte → Type 0
  Compressed input (status, output) =
      (status ≡ success)
      × ((phase : Phase) × (s : z.Stream) × Reached z phase s input output)
      × (text_of output ≡ input)
      × (is_complete output ≡ true)

  fits :
      {rounds : ℕ} {phase : Phase} {s : z.Stream} {taken given : List Byte}
      → Reached z phase s taken given
      → (input : List Byte) (copied : ℕ) → most_owed < rounds
      → owed s (next_chunk input copied) < rounds
  fits r input copied enough =
      omega (arith, owed_le r (next_chunk input copied) (length-take-le chunk (drop copied input)))

  compress_loop-Compressed :
      (fuel rounds : ℕ) {s : z.Stream} {taken given : List Byte}
      → Reached z opened s taken given
      → (input left : List Byte) (copied : ℕ) → input ≡ taken ++ left
      → copied ≡ length taken
      → most_owed < rounds
      → length left < fuel * chunk
      → Returns (Compressed input) (compress_loop z fuel rounds s input copied given)
  unfolding compress_loop
  compress_loop-Compressed zero rounds r input left copied e c enough h = absurd (omega arith)
  compress_loop-Compressed (suc fuel) rounds {s} {taken} {given} r input left copied e c enough h =
      rw (within input taken left copied e c)
        (elim (Bool-cases (length input == copied + length (next_chunk input copied))) [
          | inl last ↦ rw last (
              Returns-bind
                (deflate_loop-Deflated rounds z_finish (next_chunk input copied) r may_flush
                  (fits r input copied enough))
                (λ (_, output) (phase, s', o, r', text, whole, _).
                  rw (o, last)
                    (returns (
                      refl,
                      (
                        phase,
                        s',
                        subst (λ taken. Reached z phase s' taken output)
                            (next_chunk-last input taken left copied e c (ground arith)) r',
                      ),
                      text ∙ next_chunk-last input taken left copied e c (ground arith),
                      whole refl,
                    ))))
          | inr more ↦ rw more (
              Returns-bind
                (deflate_loop-Deflated rounds z_sync_flush (next_chunk input copied) r may_flush
                  (fits r input copied enough))
                (λ (_, output) (phase, s', o, r', _, _, still).
                  rw (o, more)
                    (let (split, count) = next_chunk-append input taken left copied e c in
                      compress_loop-Compressed fuel rounds
                        (subst (λ p. Reached z p s' _ output) (still refl) r') input
                        (drop chunk left) _ split count enough
                        (next_chunk-more input taken left copied fuel e c (ground arith) h))))
        ])

  pub compress-Compressed :
      (fuel rounds : ℕ) (input : List Byte)
      → is_ok (z.deflate_init raw).0 ≡ true
      → length input < 2 ^ 31
      → length input < fuel * chunk
      → most_owed < rounds
      → Returns (Compressed input) (compress z fuel rounds input)
  unfolding compress
  compress-Compressed fuel rounds input given small long enough =
      rw (given, is_too_large-lt small)
        (compress_loop-Compressed fuel rounds start input input 0 refl refl enough long)

  -- With a zlib that does what its documentation says of `deflate`, where it gives a stream and
  -- the input is shorter than 2 ^ 31 bytes: `compress`, with one round for each chunk of the input
  -- and one more, and more calls of `deflate` per chunk than zlib can owe output for, returns
  -- success; the output is a complete stream, and a decompressor makes the input of it.
  pub compress-text_of :
      (fuel rounds : ℕ) (input : List Byte)
      → is_ok (z.deflate_init raw).0 ≡ true
      → length input < 2 ^ 31
      → length input < fuel * chunk
      → most_owed < rounds
      → (output : List Byte) × (compress z fuel rounds input ≡ ok (success, output))
        × (text_of output ≡ input)
        × (is_complete output ≡ true)
  compress-text_of fuel rounds input given small long enough =
      let ((status, output), e, (s, _, text, whole)) =
        Returns-result (compress-Compressed fuel rounds input given small long enough) in
      (output, e ∙ ap (λ st. ok (st, output)) s, text, whole)
