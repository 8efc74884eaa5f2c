-- ===== src/Utility/Zlib/Deflating.antt =====
-- What zlib.h says of `deflate`, on a stream that is used as it is to be used.
use newbee.Base.{
  ℕ, ◌+◌, ◌%◌, ◌<◌, ◌≤◌, ◌≡◌, ◌≢◌, Bool, true, false, List, [], ◌∷◌, ◌++◌, ◌==◌, if◌then◌else◌,
  length,
}
use newbee.Rpc.Message.{Byte}
use newbee.Utility.Zlib.{
  Flush, z_sync_flush, z_finish, raw, zlib, z_data_error, Turn, Zlib, is_ok, is_stream_error,
}

-- Where a stream stands. Once it is being finished, only that can be gone on with, on the bytes that
-- were left.
pub data Phase : Type 0 where
  opened : Phase
  finishing : (left : List Byte) → Phase
  closed : Phase

pub data May : Phase → Flush → (next_in : List Byte) → Type 0 where
  may_flush : {flush : Flush} {next_in : List Byte} → May opened flush next_in
  may_go_on : {left : List Byte} → May (finishing left) z_finish left

abbrev pub after : {S : Type 0} → Flush → Turn S → Phase
after z_sync_flush turn = opened
after z_finish turn = if turn.avail_out == 0 then finishing turn.next_in else closed

module _ (z : Zlib) where
  -- The streams that calls of `deflate` lead to, the bytes they have taken and those they gave.
  pub data Reached : Phase → z.Stream → (taken given : List Byte) → Type 0 where
    start : Reached opened (z.deflate_init raw).1 [] []
    turn :
        {phase : Phase} {s : z.Stream} {taken given : List Byte}
        → Reached phase s taken given
        → (flush : Flush) (next_in used : List Byte) (n : ℕ) → May phase flush next_in
        → next_in ≡ used ++ (z.deflate s flush next_in n).next_in
        → Reached
            (after flush (z.deflate s flush next_in n))
            (z.deflate s flush next_in n).stream
            (taken ++ used)
            (given ++ (z.deflate s flush next_in n).written)

-- What a call does to the stream `s`. `text_of` is what a decompressor makes of the bytes so far,
-- `is_complete` whether they end a stream, and `owed` a bound on the output that is still to come
-- for the bytes at hand.
pub record Writes {S : Type 0} (text_of : List Byte → List Byte) (is_complete : List Byte → Bool)
    (owed : S → List Byte → ℕ) (s : S) (taken given : List Byte) (flush : Flush)
    (next_in : List Byte) (n : ℕ) (call : Turn S) : Type 0 where
  pub used : List Byte
  pub splits : next_in ≡ used ++ call.next_in
  pub room : length call.written + call.avail_out ≡ n
  pub sound : 0 < n → is_stream_error call.code ≡ false
  -- Room that is left over says that the flush is done.
  pub drained : 0 < call.avail_out → call.next_in ≡ []
  pub flushed : 0 < call.avail_out → text_of (given ++ call.written) ≡ taken ++ next_in
  pub finished : flush ≡ z_finish → 0 < call.avail_out → is_complete (given ++ call.written) ≡ true
  -- With room for more than a flush marker, a call that fills it leaves less to come.
  pub shrinks : 6 < n → call.avail_out ≡ 0 → owed call.stream call.next_in < owed s next_in
  pub not_grows : owed call.stream call.next_in ≤ owed s next_in

pub record Deflates (z : Zlib) : Type 1 where
  pub text_of : List Byte → List Byte
  pub is_complete : List Byte → Bool
  pub owed : z.Stream → List Byte → ℕ
  pub writes :
      {phase : Phase} {s : z.Stream} {taken given : List Byte}
      → Reached z phase s taken given
      → (flush : Flush) (next_in : List Byte) (n : ℕ) → May phase flush next_in
      → Writes text_of is_complete owed s taken given flush next_in n (z.deflate s flush next_in n)
  -- A bound on what is owed for 2048 bytes at hand.
  pub most_owed : ℕ
  pub owed_le :
      {phase : Phase} {s : z.Stream} {taken given : List Byte}
      → Reached z phase s taken given
      → (next_in : List Byte) → length next_in ≤ 2048
      → owed s next_in ≤ most_owed
  -- `deflate` gives Z_OK if it can do something: there is input, or the last call ran out of room.
  pub moves :
      {s : z.Stream} {taken given : List Byte}
      → Reached z opened s taken given
      → (next_in : List Byte) (n : ℕ) → 0 < n
      → 0 < length next_in
      → is_ok (z.deflate s z_sync_flush next_in n).code ≡ true
  pub moves_on :
      {s : z.Stream} {taken given : List Byte}
      → Reached z opened s taken given
      → (next_in : List Byte) (n m : ℕ) → 0 < n
      → (z.deflate s z_sync_flush next_in n).avail_out ≡ 0
      → 0 < m
      → is_ok
          (z.deflate
            (z.deflate s z_sync_flush next_in n).stream
            z_sync_flush
            (z.deflate s z_sync_flush next_in n).next_in
            m).code
        ≡ true

-- The first byte of the two formats: a raw stream starts with a block, whose three first bits are
-- not 0 or are followed by zeros, and a header has 8 in its low four bits, or `inflate` refuses it.
pub record Headers (z : Zlib) : Type 0 where
  pub block :
      {phase : Phase} {s : z.Stream} {taken given : List Byte}
      → Reached z phase s taken given
      → (b : Byte) (bytes : List Byte) → given ≡ b ∷ bytes
      → b % 16 ≢ 8
  pub refuses :
      (b b' : Byte) (bytes : List Byte) (n : ℕ)
      → b % 16 ≢ 8
      → (z.inflate (z.inflate_init zlib).1 (b ∷ b' ∷ bytes) n).code ≡ z_data_error
