-- ===== src/Utility/ZlibUtil/Buffer.antt =====
-- The first `compress` of zlib_util: the buffer that is doubled where it is full.
use newbee.Base.{
  ℕ, zero, suc, ◌+◌, ◌-◌, ◌*◌, ◌^◌, ◌≤◌, ◌<◌, ◌≡◌, refl, sym, ap, ◌∙◌, subst, true, Option, some,
  List, ◌++◌, append_assoc, append-nil, ◌==◌, length, arith, inl, inr, Bool-cases, length-append,
  ==_iff, le-or-lt, leb→le,
}
use newbee.Memory.{Run, ok, fault}
use newbee.Rpc.Message.{Byte, copy_bytes}
use newbee.Utility.Zlib.{Zlib, Turn, z_sync_flush, raw, is_ok}
use newbee.Utility.Zlib.Deflating.{opened, may_flush, Reached, start, turn, Writes, Deflates}
use newbee.Utility.ZlibUtil.Chunks.{is_too_large-lt}
use newbee.Utility.ZlibUtil.{buffer_inc_factor, is_too_large, grow_loop, compress_buffer}
use newbee.Utility.ZlibUtil.Memory.{bytes_from, bytes_from-append}

module _ {z : Zlib} (d : Deflates z) where
  open d use {text_of, owed, writes, moves, moves_on}

  -- How the function ends: with the length of the output, whose bytes stand in the memory in the
  -- order in which they came and make the text; or where the buffer would have 2 ^ 31 bytes, with
  -- an output of half of them.
  pub data Grown (text : List Byte) : Run (Option ((ℕ → Byte) × ℕ)) → Type 0 where
    grown :
        {s : z.Stream} {mem : ℕ → Byte} {given : List Byte}
        → Reached z opened s text given
        → bytes_from 0 (length given) mem ≡ given
        → text_of given ≡ text
        → Grown text (ok (some (mem, length given)))
    overflows :
        {s : z.Stream} {taken given : List Byte}
        → Reached z opened s taken given
        → 2 ^ 30 ≤ length given
        → Grown text fault

  retext :
      {text text' : List Byte} {r : Run (Option ((ℕ → Byte) × ℕ))}
      → text ≡ text'
      → Grown text r
      → Grown text' r
  retext {r} e h = subst (λ text. Grown text r) e h

  -- The state at the head of the loop, with `avail` and `size` bytes of room.
  record Looping (s : z.Stream) (given next_in : List Byte) (mem : ℕ → Byte)
      (next_out avail size total : ℕ) : Type 0 where
    held : bytes_from 0 next_out mem ≡ given
    place : next_out ≡ length given
    count : total ≡ length given
    fills : next_out + avail ≡ size
    some_room : 0 < avail
    half : size ≤ 2 * avail
    succeeds : is_ok (z.deflate s z_sync_flush next_in avail).code ≡ true

  held_more :
      {given : List Byte} (mem : ℕ → Byte) (next_out n : ℕ) (written : List Byte)
      → bytes_from 0 next_out mem ≡ given
      → n ≡ next_out + length written
      → bytes_from 0 n (copy_bytes mem next_out written) ≡ given ++ written
  held_more mem next_out n written held e =
      rw e (bytes_from-append mem next_out written ∙ ap (λ bytes. bytes ++ written) held)

  -- The call in a round of the loop.
  abbrev call : z.Stream → List Byte → ℕ → Turn z.Stream
  call s next_in avail = z.deflate s z_sync_flush next_in avail

  module _ {s : z.Stream} {taken given next_in : List Byte} {mem : ℕ → Byte}
      {next_out avail size total : ℕ} (r : Reached z opened s taken given)
      (l : Looping s given next_in mem next_out avail size total) where
    wrote :
        Writes text_of
          (d.is_complete)
          owed
          s
          taken
          given
          z_sync_flush
          next_in
          avail
          (call s next_in avail)
    wrote = writes r z_sync_flush next_in avail may_flush

    -- A call that leaves no room has filled the buffer.
    full_length :
        (call s next_in avail).avail_out ≡ 0
        → length (given ++ (call s next_in avail).written) ≡ size
    full_length full = omega (arith, wrote.room, length-append given (call s next_in avail).written)

    -- The buffer is doubled.
    doubled :
        (call s next_in avail).avail_out ≡ 0
        → Looping
            (call s next_in avail).stream
            (given ++ (call s next_in avail).written)
            (call s next_in avail).next_in
            (copy_bytes mem next_out (call s next_in avail).written)
            size
            size
            (size * buffer_inc_factor)
            (total + length (call s next_in avail).written)
    doubled full =
        let long = length-append given (call s next_in avail).written in
        let filled = full_length full in
        record {
          held = held_more mem next_out size _ (l.held) (omega arith);
          place = omega arith;
          count = omega arith;
          fills = omega arith;
          some_room = omega arith;
          half = omega arith;
          succeeds = moves_on r next_in avail size (l.some_room) full (omega arith);
        }

    less_owed :
        (fuel : ℕ)
        → (call s next_in avail).avail_out ≡ 0
        → owed s next_in + (13 - size) < suc fuel
        → owed (call s next_in avail).stream (call s next_in avail).next_in
            + (13 - size * buffer_inc_factor)
          < fuel
    less_owed fuel full h = elim (le-or-lt 7 avail) [
      | inl much ↦ omega (arith, wrote.shrinks (omega arith) full)
      | inr few ↦ omega (arith, wrote.not_grows)
    ]

    ended :
        0 < (call s next_in avail).avail_out
        → Grown (taken ++ next_in) (
            ok (
              some (
                copy_bytes mem next_out (call s next_in avail).written,
                total + length (call s next_in avail).written,
              )))
    ended left =
        let long = length-append given (call s next_in avail).written in
        let count : total + length (call s next_in avail).written
            ≡ length (given ++ (call s next_in avail).written) =
          omega arith in
        rw count (
          grown
            (turn r z_sync_flush next_in next_in avail may_flush
              (sym (rw (wrote.drained left) (append-nil next_in))))
            (held_more mem next_out _ _ (l.held) (omega arith)) (wrote.flushed left))

  half_of : (size : ℕ) {n : ℕ} → 2 ^ 31 ≤ size * buffer_inc_factor → n ≡ size → 2 ^ 30 ≤ n
  half_of size h e = omega arith

  grow_loop-Grown :
      (fuel : ℕ) {s : z.Stream} {taken given : List Byte} {mem : ℕ → Byte} (next_in : List Byte)
      (next_out avail size total : ℕ)
      → Reached z opened s taken given
      → Looping s given next_in mem next_out avail size total
      → owed s next_in + (13 - size) < fuel
      → Grown (taken ++ next_in) (grow_loop z fuel s next_in mem next_out avail size total)
  unfolding grow_loop
  grow_loop-Grown zero next_in next_out avail size total r l h = absurd (omega arith)
  grow_loop-Grown (suc fuel) {s} {taken} {given} {mem} next_in next_out avail size total r l h =
      let written = writes r z_sync_flush next_in avail may_flush in
      let next = turn r z_sync_flush next_in (written.used) avail may_flush (written.splits) in
      rw (l.succeeds) (elim (Bool-cases ((z.deflate s z_sync_flush next_in avail).avail_out == 0)) [
        | inl full ↦ rw full (
            let filled = (==_iff (z.deflate s z_sync_flush next_in avail).avail_out 0).0 full in
            elim (Bool-cases (is_too_large (size * buffer_inc_factor))) [
              | inl large ↦
                  rw large (
                    overflows next
                      (half_of size (leb→le (2 ^ 31) _ large) (full_length r l filled)))
              | inr small ↦ rw small (
                  retext
                    (append_assoc taken (written.used) _
                      ∙ ap (λ rest. taken ++ rest) (sym (written.splits)))
                    (grow_loop-Grown fuel _ size size (size * buffer_inc_factor) _ next
                      (doubled r l filled) (less_owed r l fuel filled h)))
            ])
        | inr left ↦ rw left (ended r l (ground arith))
      ])

  -- With a zlib that does what its documentation says of `deflate`, where it gives a stream and
  -- the input has at least one and fewer than 2 ^ 31 bytes: the `compress` that doubles its
  -- buffer, with 14 rounds more than zlib owes output, ends; it gives the length of an output
  -- whose bytes stand in the buffer in order and of which a decompressor makes the input, unless
  -- the output has come to 2 ^ 30 bytes, where the size of the buffer overflows.
  pub compress_buffer-Grown :
      (fuel : ℕ) (input : List Byte) (mem : ℕ → Byte)
      → is_ok (z.deflate_init raw).0 ≡ true
      → 0 < length input
      → length input < 2 ^ 31
      → owed (z.deflate_init raw).1 input + 13 < fuel
      → Grown input (compress_buffer z fuel input mem)
  unfolding compress_buffer
  compress_buffer-Grown fuel input mem given some_text small enough =
      rw (given, is_too_large-lt small)
        (grow_loop-Grown fuel input 0 (length input) (length input) 0 start
          (record {
            held = refl;
            place = refl;
            count = refl;
            fills = omega arith;
            some_room = some_text;
            half = omega arith;
            succeeds = moves start input (length input) some_text some_text;
          })
          (omega arith))
