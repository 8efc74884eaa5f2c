-- ===== src/Utility/ZlibUtil/Uncompress.antt =====
-- `uncompress` of zlib_util, on a stream and on one that is cut short.
use newbee.Base.{
  ℕ, zero, suc, ◌+◌, ◌*◌, ◌^◌, ◌≤◌, ◌<◌, ◌≡◌, ◌≢◌, refl, sym, ap, ◌∙◌, subst, true, false, List, [],
  ◌∷◌, ◌++◌, append-nil, ◌==◌, length, drop, arith, inl, inr, Bool-cases, ==_iff, some,
  length-append,
}
use newbee.Memory.{Run, ok, Returns, returns, Returns-bind, Returns-result}
use newbee.Rpc.Message.{Byte}
use newbee.Utility.Zlib.{ZCode, z_ok, z_errno, Zlib, zlib, is_ok, is_stream_end}
use newbee.Utility.Zlib.Inflating.{Inflates}
use newbee.Utility.ZlibUtil.Chunks.{
  within, next_chunk-append, next_chunk-drop, next_chunk-int, next_chunk-empty, next_chunk-nonempty,
}
use newbee.Utility.ZlibUtil.{chunk, next_chunk, uncompress_loop, uncompress}
use newbee.Utility.ZlibUtil.InflateLoop.{
  stream_end, not_stream_end, ok_not_end, ==_no, inflate_loop-Inflating,
}

module _ {z : Zlib} (d : Inflates z) where
  open d use {decode, decode_empty, Reading, opens, reads}

  -- What `uncompress` makes of `text`, the text of a stream of which the last bytes `cut` are missing.
  abbrev Uncompressed : (cut text : List Byte) → ZCode × List Byte → Type 0
  Uncompressed cut text (code, output) =
      (cut ≡ [] → (code ≡ z_ok) × (output ≡ text))
      × (cut ≢ [] → (code ≡ z_errno) × ((rest : List Byte) × (text ≡ output ++ rest)))

  retext_all :
      {cut text text' : List Byte} {r : Run (ZCode × List Byte)}
      → text ≡ text'
      → Returns (Uncompressed cut text) r
      → Returns (Uncompressed cut text') r
  retext_all {cut} {r} e h = subst (λ text. Returns (Uncompressed cut text) r) e h

  -- The input runs out before the stream does.
  runs_out :
      (left cut due given : List Byte)
      → left ≡ []
      → left ++ cut ≢ []
      → Uncompressed cut (given ++ due) (z_errno, given)
  runs_out left cut due given nothing more =
      (λ e. absurd (more (rw (nothing, e) refl)), λ _. (refl, (due, refl)))

  -- The stream ends with the chunk.
  ends_here :
      (left cut text rest output : List Byte)
      → left ++ cut ≡ []
      → rest ≡ []
      → text ≡ output ++ rest
      → Uncompressed cut text (z_ok, output)
  ends_here [] cut text rest output nothing e split =
      (λ _. (refl, sym (split ∙ rw e (append-nil output))), λ ne. absurd (ne nothing))
  ends_here (b ∷ left) cut text rest output nothing e split = absurd (cc nothing)

  uncompress_loop-Uncompressed :
      (fuel rounds copied : ℕ) (ret : ZCode) {s : z.Stream}
      (input taken left cut due given : List Byte)
      → length input < 2 ^ 31
      → input ≡ taken ++ left
      → copied ≡ length taken
      → Reading s (left ++ cut) due
      → is_stream_end ret ≡ false
      → left ++ cut ≢ []
      → length left + chunk ≤ fuel * chunk
      → length (given ++ due) < rounds
      → Returns
          (Uncompressed cut (given ++ due))
          (uncompress_loop z fuel rounds ret s input copied given)
  unfolding uncompress_loop
  uncompress_loop-Uncompressed zero rounds copied ret input taken left cut due given small e c r go
        more h enough =
      absurd (omega arith)
  uncompress_loop-Uncompressed (suc fuel) rounds copied ret {s} input taken left cut due given small
        e c r go more h enough =
      rw (within input taken left copied e c)
        (elim (Bool-cases (length (next_chunk input copied) == 0)) [
          | inl nothing ↦
              rw (nothing, go)
                (returns (
                  runs_out left cut due given
                    (next_chunk-empty input taken left copied e c
                      ((==_iff (length (next_chunk input copied)) 0).0 nothing))
                    more))
          | inr some_bytes ↦ rw some_bytes (
              Returns-bind
                (inflate_loop-Inflating d rounds (next_chunk input copied) (drop chunk left ++ cut)
                  due given
                  (subst (λ bytes. Reading s bytes due)
                    (next_chunk-drop input taken left copied e c cut) r)
                  (omega (arith, length-append given due)))
                (λ _ (code, s', rest, how, reading, text, at_end, ends).
                  rw how (elim (Bool-cases (is_stream_end code)) [
                    | inl end ↦ rw end (
                        let (nothing, e') = at_end (stream_end code end) in
                        returns (ends_here (drop chunk left) cut _ rest _ nothing e' text))
                    | inr on ↦ rw on (
                        let (split, count) = next_chunk-append input taken left copied e c in
                        retext_all (sym text) (
                          uncompress_loop-Uncompressed fuel rounds _ code input _ (drop chunk left)
                            cut rest _ small split
                            (next_chunk-int input taken left copied e c small ∙ count) reading on
                            (λ nothing. not_stream_end code on (ends nothing))
                            (next_chunk-nonempty input taken left copied fuel e c
                              (==_no (length (next_chunk input copied)) some_bytes) h)
                            (subst (λ bytes. length bytes < rounds) text enough)))
                  ])))
        ])

  -- The whole function, on a stream of which the last bytes may be missing.
  uncompress-Uncompressed :
      (fuel rounds : ℕ) (bytes cut text : List Byte)
      → is_ok (z.inflate_init zlib).0 ≡ true
      → decode (bytes ++ cut) ≡ some text
      → length bytes + chunk ≤ fuel * chunk
      → length text < rounds
      → length bytes < 2 ^ 31
      → Returns (Uncompressed cut text) (uncompress z fuel rounds bytes)
  unfolding uncompress
  uncompress-Uncompressed fuel rounds bytes cut text given e long enough small = rw given (
      uncompress_loop-Uncompressed fuel rounds 0 (z.inflate_init zlib).0 bytes [] bytes cut text []
        small refl refl (opens (bytes ++ cut) text e) (ok_not_end _ given)
        (λ nothing. cc (sym e ∙ ap decode nothing ∙ decode_empty)) long enough)

  -- With a zlib that does what its documentation says of `inflate`, where it gives a state: on the
  -- bytes of a whole stream, fewer than 2 ^ 31, `uncompress`, with one round for each chunk and
  -- one more, and more calls of `inflate` per chunk than there are bytes of text, returns 0 and
  -- the text.
  pub uncompress-decode :
      (fuel rounds : ℕ) (bytes text : List Byte)
      → is_ok (z.inflate_init zlib).0 ≡ true
      → decode bytes ≡ some text
      → length bytes + chunk ≤ fuel * chunk
      → length text < rounds
      → length bytes < 2 ^ 31
      → uncompress z fuel rounds bytes ≡ ok (z_ok, text)
  uncompress-decode fuel rounds bytes text given e long enough small =
      let ((code, output), run, (whole, _)) = Returns-result (
        uncompress-Uncompressed fuel rounds bytes [] text given (rw (append-nil bytes) e) long
          enough small) in
      let (succeeds, same) = whole refl in
      run ∙ ap (λ c. ok (c, output)) succeeds ∙ ap (λ o. ok (z_ok, o)) same

  -- With a zlib that does what its documentation says of `inflate`, where it gives a state: on a
  -- stream of which at least the last byte is missing, and fewer than 2 ^ 31 bytes are left,
  -- `uncompress`, with as many rounds, returns -1, and the output is a beginning of the text.
  pub uncompress-cut :
      (fuel rounds : ℕ) (bytes : List Byte) (b : Byte) (cut text : List Byte)
      → is_ok (z.inflate_init zlib).0 ≡ true
      → decode (bytes ++ b ∷ cut) ≡ some text
      → length bytes + chunk ≤ fuel * chunk
      → length text < rounds
      → length bytes < 2 ^ 31
      → (output rest : List Byte) × (uncompress z fuel rounds bytes ≡ ok (z_errno, output))
        × (text ≡ output ++ rest)
  uncompress-cut fuel rounds bytes b cut text given e long enough small =
      let ((code, output), run, (_, short)) =
        Returns-result
          (uncompress-Uncompressed fuel rounds bytes (b ∷ cut) text given e long enough small) in
      let (failed, (rest, split)) = short (λ nothing. cc nothing) in
      (output, rest, run ∙ ap (λ c. ok (c, output)) failed, split)
