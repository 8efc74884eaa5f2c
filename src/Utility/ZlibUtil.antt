-- ===== src/Utility/ZlibUtil.antt =====
-- mylib/utility/zlib_util: the loops that feed a string through zlib.
-- Memory is always given; a string is a list of bytes. `fault` is a size that does not fit an `int`,
-- and a `string::copy` from beyond the end.
pub mod Memory
pub mod Chunks
pub mod Compress
pub mod Buffer
pub mod InflateLoop
pub mod Uncompress
pub mod Mismatch
pub mod Shift
pub mod ShiftDeflates
pub mod ShiftInflates
mod Examples
use newbee.Base.{
  ℕ, zero, suc, ◌+◌, ◌-◌, ◌*◌, ◌%◌, ◌^◌, Bool, true, false, Option, none, some, List, [], ◌++◌, ltb,
  leb, ◌==◌, if◌then◌else◌, length, take, drop,
}
use newbee.Memory.{Run, ok, fault, out_of_fuel, and_then}
use newbee.Status.{Status, success, failure}
use newbee.Rpc.Message.{Byte, copy_bytes}
use newbee.Utility.Zlib.{
  ZCode, z_ok, z_stream_end, z_need_dict, z_errno, z_stream_error, z_data_error, z_mem_error,
  z_buf_error, Flush, z_sync_flush, z_finish, raw, zlib, Zlib, is_ok, is_stream_error,
  is_stream_end, is_finish,
}

-- `CHUNK` and `BUFFER_INC_FACTOR`.
abbrev pub chunk : ℕ
chunk = 2048

abbrev pub buffer_inc_factor : ℕ
buffer_inc_factor = 2

-- The test for a size that is no `int`.
abbrev pub is_too_large : ℕ → Bool
is_too_large n = leb (2 ^ 31) n

-- The `int` that `n` is as a `size_t`: beyond 2 ^ 31 it is negative.
unfoldable pub int_as_size : ℕ → ℕ
int_as_size n = if ltb (n % 2 ^ 32) (2 ^ 31) then n % 2 ^ 32 else n % 2 ^ 32 + (2 ^ 64 - 2 ^ 32)

-- `input.copy(in, CHUNK, copied)`.
abbrev pub next_chunk : List Byte → ℕ → List Byte
next_chunk input copied = take chunk (drop copied input)

-- The `switch` and the test before it: what is returned at once.
abbrev pub returned_at_once : ZCode → Option ZCode
returned_at_once z_stream_error = some z_errno
returned_at_once z_need_dict = some z_data_error
returned_at_once z_data_error = some z_data_error
returned_at_once z_mem_error = some z_mem_error
returned_at_once _ = none

-- How the inner loop of `uncompress` ends: the function returns, or goes on with the result of the
-- last call.
pub data Inflated (S : Type 0) : Type 0 where
  returns_code : ZCode → Inflated S
  goes_on : ZCode → S → Inflated S

module _ (z : Zlib) where
  -- The loop of the first `compress`: the memory at `*out`, `next_out` as an offset, `avail_out`,
  -- `bufferSize` and `total_out`. The result is the memory and `outLength`.
  unfoldable pub grow_loop :
      (fuel : ℕ)
      → z.Stream
      → (next_in : List Byte) → (ℕ → Byte)
      → (next_out avail_out buffer_size total_out : ℕ) → Run (Option ((ℕ → Byte) × ℕ))
  grow_loop zero s next_in out next_out avail_out buffer_size total_out = out_of_fuel
  grow_loop (suc fuel) s next_in out next_out avail_out buffer_size total_out =
      let turn = z.deflate s z_sync_flush next_in avail_out in
      let out' = copy_bytes out next_out turn.written in
      let total' = total_out + length turn.written in
      let rest =
        grow_loop fuel turn.stream turn.next_in out' buffer_size buffer_size
          (buffer_size * buffer_inc_factor) total' in
      if is_ok turn.code
      then (if turn.avail_out == 0
          then (if is_too_large (buffer_size * buffer_inc_factor) then fault else rest)
          else ok (some (out', total')))
      else ok none

  -- `compress(in, inLength, out)`; `none` is -1.
  unfoldable pub compress_buffer :
      (fuel : ℕ) → List Byte → (out : ℕ → Byte) → Run (Option ((ℕ → Byte) × ℕ))
  unfolding grow_loop
  compress_buffer fuel input out =
      let buffer_size = length input in
      let (code, s) = z.deflate_init raw in
      let looped = grow_loop fuel s input out 0 buffer_size buffer_size 0 in
      if is_too_large buffer_size then fault else if is_ok code then looped else ok none

  -- The inner loop of the second `compress`, and the output; no stream is the return of -1.
  unfoldable pub deflate_loop :
      (fuel : ℕ)
      → z.Stream
      → Flush
      → (next_in output : List Byte) → Run (Option z.Stream × List Byte)
  deflate_loop zero s flush next_in output = out_of_fuel
  deflate_loop (suc fuel) s flush next_in output =
      let turn = z.deflate s flush next_in chunk in
      let have = chunk - turn.avail_out in
      let output' = output ++ take have turn.written in
      let rest = deflate_loop fuel turn.stream flush turn.next_in output' in
      if is_stream_error turn.code
      then ok (none, output)
      else if turn.avail_out == 0
      then rest
      else ok (some turn.stream, output')

  unfoldable pub compress_loop :
      (fuel rounds : ℕ)
      → z.Stream
      → (input : List Byte) → (copied : ℕ) → (output : List Byte) → Run (Status × List Byte)
  unfolding deflate_loop
  compress_loop zero rounds s input copied output = out_of_fuel
  compress_loop (suc fuel) rounds s input copied output =
      let next_in = next_chunk input copied in
      let copied' = copied + length next_in in
      let flush = if length input == copied' then z_finish else z_sync_flush in
      let deflated = deflate_loop rounds s flush next_in output in
      if ltb (length input) copied
      then fault
      else and_then {B = Status × List Byte} deflated (λ d. elim (d.0) [
        | none ↦ ok (failure, d.1)
        | some s' ↦
            let rest = compress_loop fuel rounds s' input copied' (d.1) in
            if is_finish flush then ok (success, d.1) else rest
      ])

  -- `compress(input, output)`; the fuel is of the outer loop and of the inner one.
  unfoldable pub compress : (fuel rounds : ℕ) → List Byte → Run (Status × List Byte)
  unfolding compress_loop
  compress fuel rounds input =
      let (code, s) = z.deflate_init raw in
      let looped = compress_loop fuel rounds s input 0 [] in
      if is_ok code
      then (if is_too_large (length input) then fault else looped)
      else ok (failure, [])

  -- The inner loop of `uncompress`, and the output.
  unfoldable pub inflate_loop :
      (fuel : ℕ) → z.Stream → (next_in output : List Byte) → Run (Inflated z.Stream × List Byte)
  inflate_loop zero s next_in output = out_of_fuel
  inflate_loop (suc fuel) s next_in output =
      let turn = z.inflate s next_in chunk in
      let have = chunk - turn.avail_out in
      let output' = output ++ take have turn.written in
      let rest = inflate_loop fuel turn.stream turn.next_in output' in
      elim (returned_at_once turn.code) [
        | some code ↦ ok (returns_code code, output)
        | none ↦ if turn.avail_out == 0 then rest else ok (goes_on turn.code turn.stream, output')
      ]

  -- `ret` is the last result of zlib; `copied` is the `int`, as `copy` takes it.
  unfoldable pub uncompress_loop :
      (fuel rounds : ℕ)
      → (ret : ZCode) → z.Stream
      → (input : List Byte) → (copied : ℕ) → (output : List Byte) → Run (ZCode × List Byte)
  unfolding inflate_loop int_as_size
  uncompress_loop zero rounds ret s input copied output = out_of_fuel
  uncompress_loop (suc fuel) rounds ret s input copied output =
      let next_in = next_chunk input copied in
      let copied' = int_as_size (copied + length next_in) in
      let inflated = inflate_loop rounds s next_in output in
      if ltb (length input) copied
      then fault
      else if length next_in == 0
      then ok (if is_stream_end ret then z_ok else z_errno, output)
      else and_then {B = ZCode × List Byte} inflated (λ i. elim (i.0) [
        | returns_code code ↦ ok (code, i.1)
        | goes_on ret' s' ↦
            let rest = uncompress_loop fuel rounds ret' s' input copied' (i.1) in
            if is_stream_end ret' then ok (z_ok, i.1) else rest
      ])

  -- `uncompress(input, output)`.
  unfoldable pub uncompress : (fuel rounds : ℕ) → List Byte → Run (ZCode × List Byte)
  unfolding uncompress_loop
  uncompress fuel rounds input =
      let (ret, s) = z.inflate_init zlib in
      let looped = uncompress_loop fuel rounds ret s input 0 [] in
      if is_ok ret then looped else ok (ret, [])
