-- ===== src/Rpc/Message.antt =====
-- mylib/rpc/rpc_msg_head.h and rpc_utility: the header of a message and the making of messages.
-- A byte is a number that is read modulo 256; the header is the memory of the packed struct
-- `rpc_msg_head_t` on a little-endian machine, a function from the offset.
mod Examples
pub mod Fields
pub mod Packing
pub mod Repacking
use newbee.Base.{
  ℕ, suc, ◌+◌, ◌*◌, ◌/◌, ◌%◌, ◌^◌, Bool, true, false, ◌||◌, not, Option, none, some, List, [], ◌∷◌,
  ◌++◌, ltb, leb, ◌==◌, if◌then◌else◌, length, take, drop,
}

abbrev pub Byte : Type 0
Byte = ℕ

-- The memory of a `rpc_msg_head_t`.
abbrev pub Head : Type 0
Head = ℕ → Byte

-- `sizeof(rpc_msg_head_t)`.
abbrev pub head_size : ℕ
head_size = 8

-- `rpc_msg_head_t()`.
abbrev pub zero_head : Head
zero_head at = 0

unfoldable pub u16_at : ℕ → Head → ℕ
u16_at at h = h at % 256 + 256 * (h (at + 1) % 256)

-- The fields `len`, `cmd` and `res`.
unfoldable pub head_len : Head → ℕ
unfolding u16_at
head_len h = u16_at 0 h + 2 ^ 16 * u16_at 2 h

abbrev pub head_cmd : Head → ℕ
head_cmd = u16_at 4

abbrev pub head_res : Head → ℕ
head_res = u16_at 6

-- `memset` and `memcpy` on the header.
unfoldable pub set_byte : Head → ℕ → Byte → Head
set_byte h at b i = if i == at then b else h i

abbrev pub copy_bytes : Head → ℕ → List Byte → Head
copy_bytes h at [] = h
copy_bytes h at (b ∷ bs) = copy_bytes (set_byte h at b) (at + 1) bs

-- The bytes of the header with these fields.

unfoldable pub head_bytes : (len cmd res : ℕ) → List Byte
head_bytes len cmd res =
    len % 256
    ∷ len / 2 ^ 8 % 256
    ∷ len / 2 ^ 16 % 256
    ∷ len / 2 ^ 24 % 256
    ∷ cmd % 256
    ∷ cmd / 256 % 256
    ∷ res % 256
    ∷ res / 256 % 256
    ∷ []

-- `make_msg`.
unfoldable pub make_msg : (cmd : ℕ) → List Byte → List Byte
make_msg cmd body = head_bytes (length body) cmd 0 ++ body

-- `bin_msg`.
unfoldable pub bin_msg : (cmd : ℕ) → List Byte → (size : ℕ) → List Byte
bin_msg cmd body size = head_bytes size cmd 0 ++ (if ltb 0 size then take size body else [])

-- `ZLIB_FLAG_MASK`.
abbrev pub zlib_flag_mask : ℕ
zlib_flag_mask = 32768

-- The settings of `rpc_msg_util_t`.
pub record Settings : Type 0 where
  pub size_limit : ℕ
  pub opened : Bool
  pub cmd_filter : ℕ → ℕ

-- `res | ZLIB_FLAG_MASK`, and whether the flag is set.
abbrev pub with_flag : ℕ → ℕ
with_flag res =
    if ltb (res % 65536) zlib_flag_mask then res % 65536 + zlib_flag_mask else res % 65536

abbrev pub has_flag : ℕ → Bool
has_flag res = leb zlib_flag_mask (res % 65536)

-- `zlib_util_t`'s functions, as they are called: the one that allocates gives nothing on a result
-- of 0 or less.
module _ (compress : List Byte → Option (List Byte)) where
  -- `compress_msg(cmd, data_)`.
  unfoldable pub compress_msg : Settings → (cmd : ℕ) → List Byte → List Byte
  compress_msg s cmd body =
      if ltb (length body) s.size_limit || not s.opened || not (s.cmd_filter cmd == 0)
      then head_bytes (length body) cmd 0 ++ body
      else (elim (compress body) [
        | none ↦ head_bytes (length body) cmd 0 ++ body
        | some packed ↦ head_bytes (length packed) cmd (with_flag 0) ++ packed
      ])

-- The header in front of the bytes of a message.
abbrev pub head_of : List Byte → Head
head_of msg = copy_bytes zero_head 0 (take head_size msg)

-- `compress_msg(src_msg_)`.
unfoldable pub recompress_msg :
    (compress : List Byte → List Byte) → Settings → List Byte → List Byte
recompress_msg compress s msg =
    if not s.opened
    then msg
    else (if ltb (length msg) ((s.size_limit + head_size) % 2 ^ 64)
        then msg
        else (let packed = compress (drop head_size msg) in
            let h = head_of msg in
            head_bytes (length packed) (head_cmd h) (with_flag (head_res h)) ++ packed))

-- `uncompress_msg`.
unfoldable pub uncompress_msg :
    (uncompress : List Byte → List Byte) → Settings → (res : ℕ) → List Byte → List Byte
uncompress_msg uncompress s res src =
    if not s.opened then src else (if has_flag res then uncompress src else src)
