-- ===== src/Utility/Zlib.antt =====
-- zlib, which mylib/utility/zlib_util calls: a parameter, with what zlib.h says of it.
-- A call of `deflate` or `inflate` is known by what it makes of the bytes at `next_in` and of
-- `avail_out` bytes of room.
pub mod Deflating
pub mod Inflating
use newbee.Base.{
  ℕ, ◌+◌, ◌<◌, ◌≤◌, ◌%◌, ◌≡◌, ◌≢◌, ◌⊎◌, Option, none, some, Bool, true, false, List, [], ◌∷◌, ◌++◌,
  length,
}
use newbee.Rpc.Message.{Byte}

-- The results of zlib's functions. `z_errno` is -1, which the functions here return themselves.
pub data ZCode : Type 0 where
  z_ok : ZCode
  z_stream_end : ZCode
  z_need_dict : ZCode
  z_errno : ZCode
  z_stream_error : ZCode
  z_data_error : ZCode
  z_mem_error : ZCode
  z_buf_error : ZCode
  z_version_error : ZCode

pub data Flush : Type 0 where
  z_sync_flush : Flush
  z_finish : Flush

-- What the window bits choose: `-MAX_WBITS` is the stream without a header.
pub data Format : Type 0 where
  raw : Format
  zlib : Format

-- After a call: `next_in` holds the `avail_in` bytes that are left, `written` what has been put at
-- `next_out`.
pub record Turn (S : Type 0) : Type 0 where
  pub code : ZCode
  pub stream : S
  pub next_in : List Byte
  pub avail_out : ℕ
  pub written : List Byte

pub record Zlib : Type 1 where
  pub Stream : Type 0
  pub deflate_init : Format → ZCode × Stream
  pub inflate_init : Format → ZCode × Stream
  pub deflate : Stream → Flush → (next_in : List Byte) → (avail_out : ℕ) → Turn Stream
  pub inflate : Stream → (next_in : List Byte) → (avail_out : ℕ) → Turn Stream

abbrev pub is_ok : ZCode → Bool
is_ok z_ok = true
is_ok _ = false

abbrev pub is_stream_error : ZCode → Bool
is_stream_error z_stream_error = true
is_stream_error _ = false

abbrev pub is_stream_end : ZCode → Bool
is_stream_end z_stream_end = true
is_stream_end _ = false

abbrev pub is_finish : Flush → Bool
is_finish z_finish = true
is_finish z_sync_flush = false
