-- ===== src/Rpc/Message/Examples.antt =====
-- A toy compression that puts a byte in front, where there are two bytes or more.
use newbee.Base.{◌≡◌, refl, arith, true, Option, none, some, List, [], ◌∷◌, ◌++◌, drop}
use newbee.Rpc.Message.{
  Byte, Settings, set_byte, with_flag, head_bytes, compress_msg, uncompress_msg, recompress_msg,
  head_of, head_size, head_len, head_cmd, head_res,
}
use newbee.Rpc.Message.Packing.{packed, unpacked, compress_msg-loses_body}
use newbee.Memory.{ok}
use newbee.Status.{success}
use newbee.Utility.ZlibUtil.{compress_buffer, grow_loop, compress, compress_loop, deflate_loop}
use newbee.Utility.ZlibUtil.ShiftDeflates.{shifting-Deflates, headed-Headers}
use newbee.Utility.ZlibUtil.Shift.{headed}
use newbee.Rpc.Message.Fields.{compress_msg-uncompress_msg}
use newbee.Rpc.Message.Repacking.{repacked, recompress_msg-loses_body}

abbrev settings : Settings
settings = record { size_limit = 2; opened = true; cmd_filter = λ cmd. 0 }

abbrev pack : List Byte → Option (List Byte)
pack [] = none
pack (b ∷ bs) = some (0 ∷ b ∷ bs)

compress_msg-uncompress_msg_example :
    (drop head_size (compress_msg pack settings 7 (65 ∷ 66 ∷ 67 ∷ [])) ≡ 0 ∷ 65 ∷ 66 ∷ 67 ∷ [])
    × (head_len (head_of (compress_msg pack settings 7 (65 ∷ 66 ∷ 67 ∷ []))) ≡ 4)
    × (head_cmd (head_of (compress_msg pack settings 7 (65 ∷ 66 ∷ 67 ∷ []))) ≡ 7)
    × (head_res (head_of (compress_msg pack settings 7 (65 ∷ 66 ∷ 67 ∷ []))) ≡ 32768)
    × (uncompress_msg
          (drop 1)
          settings
          (head_res (head_of (compress_msg pack settings 7 (65 ∷ 66 ∷ 67 ∷ []))))
          (drop head_size (compress_msg pack settings 7 (65 ∷ 66 ∷ 67 ∷ [])))
        ≡ 65 ∷ 66 ∷ 67 ∷ [])
compress_msg-uncompress_msg_example =
    compress_msg-uncompress_msg pack (drop 1) settings 7 (65 ∷ 66 ∷ 67 ∷ []) (omega arith)
      (omega arith)

-- A message that is compressed by the zlib that looks at headers.
packed_run : packed headed 20 (65 ∷ 66 ∷ 67 ∷ []) ≡ some (1040 ∷ 1056 ∷ 1072 ∷ [])
unfolding packed compress_buffer grow_loop set_byte
packed_run = refl

compress_msg-loses_body_example :
    (compress_msg (packed headed 20) settings 7 (65 ∷ 66 ∷ 67 ∷ [])
      ≡ head_bytes 3 7 (with_flag 0) ++ 1040 ∷ 1056 ∷ 1072 ∷ [])
    × (uncompress_msg (unpacked headed 20 1) settings (with_flag 0) (1040 ∷ 1056 ∷ 1072 ∷ []) ≡ [])
compress_msg-loses_body_example =
    compress_msg-loses_body (shifting-Deflates _) headed-Headers 20 1 settings 7 (65 ∷ 66 ∷ 67 ∷ [])
      (1040 ∷ 1056 ∷ 1072 ∷ []) refl refl (omega arith) refl refl (omega arith) (omega arith)
      (omega arith) (omega arith) packed_run (omega arith)

-- The same body in a message with a header, of which two bits of `res` are set.
compressed_run : compress headed 1 2049 (65 ∷ 66 ∷ 67 ∷ []) ≡ ok (success, 1040 ∷ 1056 ∷ 1072 ∷ [])
unfolding compress compress_loop deflate_loop
compressed_run = refl

recompress_msg-loses_body_example :
    (recompress_msg (repacked headed 1 2049) settings (head_bytes 3 7 5 ++ 65 ∷ 66 ∷ 67 ∷ [])
      ≡ head_bytes 3 7 32773 ++ 1040 ∷ 1056 ∷ 1072 ∷ [])
    × (uncompress_msg (unpacked headed 1 2049) settings 32773 (1040 ∷ 1056 ∷ 1072 ∷ []) ≡ [])
recompress_msg-loses_body_example =
    recompress_msg-loses_body (shifting-Deflates _) headed-Headers 1 2049 settings 7 5
      (65 ∷ 66 ∷ 67 ∷ []) (1040 ∷ 1056 ∷ 1072 ∷ []) refl (omega arith) (omega arith) (omega arith)
      refl refl (omega arith) (omega arith) (omega arith) compressed_run (omega arith)
