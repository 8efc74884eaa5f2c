-- ===== src/Rpc/Message/Packing.antt =====
-- mylib/rpc/rpc_utility over mylib/utility/zlib_util: what becomes of a message that is compressed.
use newbee.Base.{
  ℕ, ◌+◌, ◌^◌, ◌≤◌, ◌<◌, ◌≡◌, refl, sym, ap, ◌∙◌, subst, true, false, not, ◌||◌, Option, none, some,
  List, [], ◌++◌, length, arith, ltb, ◌==◌, if◌then◌else◌, Bool-cases, inl, inr,
}
use newbee.Memory.{Run, ok, fault, out_of_fuel}
use newbee.Rpc.Message.{Byte, Settings, head_bytes, with_flag, compress_msg, uncompress_msg}
use newbee.Utility.Zlib.{ZCode, Zlib, raw, zlib, is_ok}
use newbee.Utility.Zlib.Deflating.{opened, Reached, Deflates, Headers}
use newbee.Utility.ZlibUtil.{compress_buffer, uncompress}
use newbee.Utility.ZlibUtil.Memory.{bytes_from}
use newbee.Utility.ZlibUtil.Buffer.{Grown, grown, overflows, compress_buffer-Grown}
use newbee.Utility.ZlibUtil.Mismatch.{uncompress-Reached}

-- `len` bytes of `tmp_dest`, unless `len` is 0 or less.
abbrev pub given_back : Run (Option ((ℕ → Byte) × ℕ)) → Option (List Byte)
given_back (ok none) = none
given_back (ok (some (tmp_dest, len))) = if len == 0 then none else some (bytes_from 0 len tmp_dest)
given_back fault = none
given_back out_of_fuel = none

abbrev pub output_of : Run (ZCode × List Byte) → List Byte
output_of (ok (code, output)) = output
output_of fault = []
output_of out_of_fuel = []

abbrev or_empty : Option (List Byte) → List Byte
or_empty none = []
or_empty (some bytes) = bytes

-- The two functions of zlib_util, as the messages use them: the code of `uncompress` is ignored.
unfoldable pub packed : Zlib → (fuel : ℕ) → List Byte → Option (List Byte)
packed z fuel body = given_back (compress_buffer z fuel body (λ at. 0))

unfoldable pub unpacked : Zlib → (fuel rounds : ℕ) → List Byte → List Byte
unpacked z fuel rounds bytes = output_of (uncompress z fuel rounds bytes)

module _ {z : Zlib} (d : Deflates z) where
  given_back-Reached :
      (text bytes : List Byte) (r : Run (Option ((ℕ → Byte) × ℕ)))
      → Grown d text r
      → given_back r ≡ some bytes
      → (s : z.Stream) × Reached z opened s text bytes
  given_back-Reached text bytes r (grown {s} {mem} {given} reached held made) e =
      elim (Bool-cases (length given == 0)) [
        | inl nothing ↦ cc (rw nothing at e)
        | inr len ↦
            (s, subst (Reached z opened s text) (sym held ∙ ap or_empty (rw len at e)) reached)
      ]
  given_back-Reached text bytes r (overflows reached large) e = cc e

  -- If raw streams do not start as a header does, `inflate` refuses what has no header, and zlib
  -- does what its documentation says of `deflate`: where compression is on for the command, and
  -- the body is not empty, reaches the limit, is shorter than 2 ^ 31 bytes and is packed to two
  -- bytes at least, with rounds enough, `compress_msg` sends the packed bytes under their length
  -- and with the flag, and `uncompress_msg` makes an empty body of them.
  pub compress_msg-loses_body :
      (headers : Headers z) (fuel rounds : ℕ) (s : Settings) (cmd : ℕ) (body bytes : List Byte)
      → s.opened ≡ true
      → s.cmd_filter cmd ≡ 0
      → s.size_limit ≤ length body
      → is_ok (z.deflate_init raw).0 ≡ true
      → is_ok (z.inflate_init zlib).0 ≡ true
      → 0 < length body
      → length body < 2 ^ 31
      → d.owed (z.deflate_init raw).1 body + 13 < fuel
      → 0 < rounds
      → packed z fuel body ≡ some bytes
      → 2 ≤ length bytes
      → (compress_msg (packed z fuel) s cmd body
          ≡ head_bytes (length bytes) cmd (with_flag 0) ++ bytes)
        × (uncompress_msg (unpacked z fuel rounds) s (with_flag 0) bytes ≡ [])
  unfolding compress_msg uncompress_msg packed unpacked
  compress_msg-loses_body headers fuel rounds s cmd body bytes on filter large given given'
        some_body small enough positive made two =
      let (stream, r) =
        given_back-Reached body bytes _
          (compress_buffer-Grown d fuel body (λ at. 0) given some_body small enough) made in
      let packs : (ltb (length body) s.size_limit || not s.opened || not (s.cmd_filter cmd == 0))
          ≡ false =
        ground arith in
      (
        rw (packs, made) refl,
        rw on (
            ap output_of
              (uncompress-Reached headers fuel rounds bytes r given' (omega arith) positive two)),
      )
