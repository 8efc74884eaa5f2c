-- ===== src/Utility/ZlibUtil/Examples.antt =====
-- zlib as in Shift, on short strings.
use newbee.Base.{ℕ, ◌/◌, ◌≡◌, refl, true, List, [], ◌∷◌, ◌++◌, map, arith}
use newbee.Memory.{ok}
use newbee.Status.{success}
use newbee.Rpc.Message.{Byte}
use newbee.Utility.Zlib.{z_ok, z_errno, z_data_error}
use newbee.Utility.Zlib.Deflating.{Deflates}
use newbee.Utility.ZlibUtil.{compress, uncompress, compress_buffer, compress_loop, deflate_loop}
use newbee.Utility.ZlibUtil.Compress.{compress-text_of}
use newbee.Utility.ZlibUtil.Buffer.{Grown, compress_buffer-Grown}
use newbee.Utility.ZlibUtil.Uncompress.{uncompress-decode, uncompress-cut}
use newbee.Utility.ZlibUtil.Mismatch.{compress-uncompress_fails}
use newbee.Utility.ZlibUtil.ShiftInflates.{shifted-Inflates}
use newbee.Utility.ZlibUtil.ShiftDeflates.{shifting-Deflates, headed-Headers}
use newbee.Utility.ZlibUtil.Shift.{shifted, headed}

abbrev text : List Byte
text = 65 ∷ 66 ∷ 67 ∷ []

abbrev blank : ℕ → Byte
blank at = 0

abbrev deflates : Deflates shifted
deflates = shifting-Deflates _

compress-text_of_example :
    (output : List Byte) × (compress shifted 1 2049 text ≡ ok (success, output))
    × (map (λ b. b / 16) output ≡ text)
    × (true ≡ true)
compress-text_of_example =
    compress-text_of deflates 1 2049 text refl (omega arith) (omega arith) (omega arith)

compress_buffer-Grown_example : Grown deflates text (compress_buffer shifted 20 text blank)
compress_buffer-Grown_example =
    compress_buffer-Grown deflates 20 text blank refl (omega arith) (omega arith) (omega arith)

uncompress-decode_example : uncompress shifted 2 4 (66 ∷ 67 ∷ 68 ∷ 0 ∷ []) ≡ ok (z_ok, text)
uncompress-decode_example =
    uncompress-decode shifted-Inflates 2 4 (66 ∷ 67 ∷ 68 ∷ 0 ∷ []) text refl refl (omega arith)
      (omega arith) (omega arith)

uncompress-cut_example :
    (output rest : List Byte) × (uncompress shifted 2 4 (66 ∷ 67 ∷ []) ≡ ok (z_errno, output))
    × (text ≡ output ++ rest)
uncompress-cut_example =
    uncompress-cut shifted-Inflates 2 4 (66 ∷ 67 ∷ []) 68 (0 ∷ []) text refl refl (omega arith)
      (omega arith) (omega arith)

headed_run : compress headed 1 2049 text ≡ ok (success, 1040 ∷ 1056 ∷ 1072 ∷ [])
unfolding compress compress_loop deflate_loop
headed_run = refl

compress-uncompress_fails_example :
    uncompress headed 1 2049 (1040 ∷ 1056 ∷ 1072 ∷ []) ≡ ok (z_data_error, [])
compress-uncompress_fails_example =
    compress-uncompress_fails (shifting-Deflates _) headed-Headers 1 2049 text
      (1040 ∷ 1056 ∷ 1072 ∷ []) refl refl (omega arith) (omega arith) (omega arith) headed_run
      (omega arith)
