-- ===== src/Rpc/Message/Repacking.antt =====
-- The `compress_msg` of rpc_utility.h, which compresses a message that has its header already, over
-- mylib/utility/zlib_util.
use newbee.Base.{
  ℕ, ◌+◌, ◌*◌, ◌%◌, ◌^◌, ◌≤◌, ◌<◌, ◌≡◌, refl, ap, ◌∙◌, true, false, List, [], ◌++◌, arith, length,
  ltb,
}
use newbee.Memory.{Run, ok, fault, out_of_fuel}
use newbee.Status.{Status, success}
use newbee.Rpc.Message.{
  Byte, Settings, recompress_msg, uncompress_msg, with_flag, has_flag, head_size, head_bytes,
}
use newbee.Rpc.Message.Fields.{head_of-fields, drop-head_bytes}
use newbee.Rpc.Message.Packing.{unpacked, output_of}
use newbee.Utility.Zlib.{Zlib, raw, zlib, is_ok}
use newbee.Utility.Zlib.Deflating.{Deflates, Headers}
use newbee.Utility.ZlibUtil.{chunk, compress}
use newbee.Utility.ZlibUtil.Mismatch.{compress-uncompress_fails}

abbrev pub output_given : Run (Status × List Byte) → List Byte
output_given (ok (code, output)) = output
output_given fault = []
output_given out_of_fuel = []

-- `zlib_util_t::compress(tmp_src, tmp_dest)`, whose result is ignored.
unfoldable pub repacked : Zlib → (fuel rounds : ℕ) → List Byte → List Byte
unfolding compress
repacked z fuel rounds bytes = output_given (compress z fuel rounds bytes)

flagged :
    (res : ℕ) → res < 2 ^ 15 → (with_flag res ≡ res + 2 ^ 15) × (has_flag (res + 2 ^ 15) ≡ true)
flagged res small = (ground arith, ground arith)

-- The test of the length counts the header on both sides.
not_small :
    (limit cmd res : ℕ) (body : List Byte)
    → limit ≤ length body
    → length body < 2 ^ 31
    → ltb (length (head_bytes (length body) cmd res ++ body)) ((limit + head_size) % 2 ^ 64) ≡ false
unfolding head_bytes
not_small limit cmd res body large small = ground arith

module _ (compress : List Byte → List Byte) (s : Settings) where
  recompress_msg-large :
      (cmd res : ℕ) (body : List Byte)
      → s.opened ≡ true
      → s.size_limit ≤ length body
      → length body < 2 ^ 31
      → cmd < 2 ^ 16
      → res < 2 ^ 15
      → recompress_msg compress s (head_bytes (length body) cmd res ++ body)
        ≡ head_bytes (length (compress body)) cmd (res + 2 ^ 15) ++ compress body
  unfolding recompress_msg
  recompress_msg-large cmd res body on large small hc hr =
      let (_, same, kept) = head_of-fields cmd res body (omega arith) hc (omega arith) in
      let (marked, _) = flagged res hr in
      rw
        (
          on,
          not_small s.size_limit cmd res body large small,
          same,
          kept,
          drop-head_bytes (length body) cmd res body,
          marked,
        )
        refl

module _ {z : Zlib} (d : Deflates z) (headers : Headers z) where
  -- If raw streams do not start as a header does, `inflate` refuses what has no header, and zlib
  -- does what its documentation says of `deflate`: of a message whose command fits, whose `res`
  -- has no flag and whose body reaches the limit and is shorter than 2 ^ 31 bytes, where
  -- compression is on and `compress`, with rounds enough, succeeds with two bytes at least,
  -- `recompress_msg` makes one with the same command, the flag and those bytes behind their
  -- length, and `uncompress_msg` makes an empty body of them.
  pub recompress_msg-loses_body :
      (fuel rounds : ℕ) (s : Settings) (cmd res : ℕ) (body output : List Byte)
      → s.opened ≡ true
      → s.size_limit ≤ length body
      → cmd < 2 ^ 16
      → res < 2 ^ 15
      → is_ok (z.deflate_init raw).0 ≡ true
      → is_ok (z.inflate_init zlib).0 ≡ true
      → length body < 2 ^ 31
      → length body < fuel * chunk
      → d.most_owed < rounds
      → compress z fuel rounds body ≡ ok (success, output)
      → 2 ≤ length output
      → (recompress_msg (repacked z fuel rounds) s (head_bytes (length body) cmd res ++ body)
          ≡ head_bytes (length output) cmd (res + 2 ^ 15) ++ output)
        × (uncompress_msg (unpacked z fuel rounds) s (res + 2 ^ 15) output ≡ [])
  unfolding repacked unpacked uncompress_msg
  recompress_msg-loses_body fuel rounds s cmd res body output on large hc hr given given' small long
        enough run two =
      let (_, marked) = flagged res hr in
      (
        recompress_msg-large (repacked z fuel rounds) s cmd res body on large small hc hr
            ∙ ap
                (λ (r : Run (Status × List Byte)).
                  head_bytes (length (output_given r)) cmd (res + 2 ^ 15) ++ output_given r)
                run,
        rw (on, marked)
            (ap output_of (
              compress-uncompress_fails d headers fuel rounds body output given given' small long
                enough run two)),
      )
