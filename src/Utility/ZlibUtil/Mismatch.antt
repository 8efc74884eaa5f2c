-- ===== src/Utility/ZlibUtil/Mismatch.antt =====
-- `uncompress` on what `compress` makes: the one reads the format with a header, the other writes
-- the format without.
use newbee.Base.{
  ℕ, suc, ◌*◌, ◌^◌, ◌≤◌, ◌<◌, ◌≡◌, refl, true, List, [], ◌∷◌, length, take, arith, ltb, ◌==◌, false,
}
use newbee.Memory.{ok, Returns-ok}
use newbee.Status.{success}
use newbee.Rpc.Message.{Byte}
use newbee.Utility.Zlib.{z_data_error, Zlib, raw, zlib, is_ok}
use newbee.Utility.Zlib.Deflating.{Phase, Reached, Deflates, Headers}
use newbee.Utility.ZlibUtil.{chunk, inflate_loop, uncompress_loop, uncompress, compress}
use newbee.Utility.ZlibUtil.Compress.{Compressed, compress-Compressed}

not_below : (n : ℕ) → ltb (suc (suc n)) 0 ≡ false
not_below n = ground arith

not_none : (n : ℕ) → (suc (suc n) == 0) ≡ false
not_none n = ground arith

module _ {z : Zlib} (headers : Headers z) where
  open headers use {block, refuses}

  -- The first call of `inflate` ends the function.
  uncompress-refused :
      (fuel rounds : ℕ) {phase : Phase} {s : z.Stream} {taken : List Byte} (b b' : Byte)
      (bytes : List Byte)
      → Reached z phase s taken (b ∷ b' ∷ bytes)
      → is_ok (z.inflate_init zlib).0 ≡ true
      → uncompress z (suc fuel) (suc rounds) (b ∷ b' ∷ bytes) ≡ ok (z_data_error, [])
  unfolding uncompress uncompress_loop inflate_loop
  uncompress-refused fuel rounds b b' bytes r given =
      rw
        (
          given,
          inflate_loop,
          refuses b b' _ chunk (block r b (b' ∷ bytes) refl),
          not_below (length bytes),
          not_none (length (take 2046 bytes)),
        )
        refl

  pub uncompress-Reached :
      (fuel rounds : ℕ) {phase : Phase} {s : z.Stream} {taken : List Byte} (output : List Byte)
      → Reached z phase s taken output
      → is_ok (z.inflate_init zlib).0 ≡ true
      → 0 < fuel
      → 0 < rounds
      → 2 ≤ length output
      → uncompress z fuel rounds output ≡ ok (z_data_error, [])
  uncompress-Reached (suc fuel) (suc rounds) (b ∷ b' ∷ bytes) r given f n two =
      uncompress-refused fuel rounds b b' bytes r given
  uncompress-Reached fuel rounds output r given f n two = absurd (omega arith)

module _ {z : Zlib} (d : Deflates z) (headers : Headers z) where
  -- If raw streams do not start as a header does, and `inflate` refuses what has no header: on
  -- whatever `compress` gives with success, of two bytes at least, under the conditions under
  -- which it returns, `uncompress` returns a data error and an empty output.
  pub compress-uncompress_fails :
      (fuel rounds : ℕ) (input output : List Byte)
      → is_ok (z.deflate_init raw).0 ≡ true
      → is_ok (z.inflate_init zlib).0 ≡ true
      → length input < 2 ^ 31
      → length input < fuel * chunk
      → d.most_owed < rounds
      → compress z fuel rounds input ≡ ok (success, output)
      → 2 ≤ length output
      → uncompress z fuel rounds output ≡ ok (z_data_error, [])
  compress-uncompress_fails fuel rounds input output given given' small long enough run two =
      let (_, (phase, s, r), _, _) =
        Returns-ok (Compressed d input) _ (success, output)
          (compress-Compressed d fuel rounds input given small long enough) run in
      uncompress-Reached headers fuel rounds output r given' (omega arith) (omega arith) two
