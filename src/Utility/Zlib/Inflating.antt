-- ===== src/Utility/Zlib/Inflating.antt =====
-- What zlib.h says of `inflate`.
use newbee.Base.{ℕ, ◌+◌, ◌<◌, ◌≡◌, ◌⊎◌, Option, none, some, List, [], ◌++◌, length}
use newbee.Rpc.Message.{Byte}
use newbee.Utility.Zlib.{z_ok, z_stream_end, z_buf_error, zlib, Turn, Zlib}

-- What a call of `inflate` does to a stream with `due` bytes of text to come, where `later` follows
-- the bytes at hand.
pub record Reads {S : Type 0} (Reading : S → (left due : List Byte) → Type 0)
    (later due : List Byte) (n : ℕ) (call : Turn S) : Type 0 where
  pub rest : List Byte
  pub splits : due ≡ call.written ++ rest
  pub room : length call.written + call.avail_out ≡ n
  pub goes_on : Reading call.stream (call.next_in ++ later) rest
  pub no_error : (call.code ≡ z_ok) ⊎ (call.code ≡ z_stream_end) ⊎ (call.code ≡ z_buf_error)
  -- Room that is left over says that the bytes at hand are used up.
  pub drained : 0 < call.avail_out → call.next_in ≡ []
  -- Z_STREAM_END is given at the end of the stream, and is given there.
  pub at_end : call.code ≡ z_stream_end → (call.next_in ++ later ≡ []) × (rest ≡ [])
  pub ends : 0 < call.avail_out → later ≡ [] → call.code ≡ z_stream_end

-- What zlib.h says of `inflate`. `decode` says which texts the streams with a header stand for, and
-- `Reading` that a stream has bytes to read that stand for the text that is due.
pub record Inflates (z : Zlib) : Type 1 where
  pub decode : List Byte → Option (List Byte)
  pub decode_empty : decode [] ≡ none
  pub Reading : z.Stream → (left due : List Byte) → Type 0
  pub opens :
      (bytes text : List Byte)
      → decode bytes ≡ some text
      → Reading (z.inflate_init zlib).1 bytes text
  pub reads :
      {s : z.Stream} (next_in later due : List Byte) (n : ℕ)
      → Reading s (next_in ++ later) due
      → 0 < n
      → Reads Reading later due n (z.inflate s next_in n)
