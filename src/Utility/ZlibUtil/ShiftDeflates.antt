-- ===== src/Utility/ZlibUtil/ShiftDeflates.antt =====
-- The zlib of Shift does what the documentation says of `deflate`, and has no headers.
use newbee.Base.{
  ℕ, zero, suc, ◌+◌, ◌-◌, ◌*◌, ◌/◌, ◌%◌, ◌<◌, ◌≡◌, ◌≢◌, refl, sym, ap, ◌∙◌, Bool, true, List, [],
  ◌∷◌, ◌++◌, map, length, take, drop, take-drop, length-drop, take_all, length-eq-zero, arith,
}
use mathlib.Core.List.{append_cancel_right}
use newbee.Rpc.Message.{Byte}
use newbee.Utility.Zlib.{Turn}
use newbee.Utility.Zlib.Deflating.{Phase, Reached, start, turn, Deflates, Headers}
use newbee.Utility.ZlibUtil.Shift.{shifting, headed}

div_mul : (b : ℕ) → b * 16 / 16 ≡ b
div_mul b = omega arith

unmap : (bytes : List Byte) → map (λ b. b / 16) (map (λ b. b * 16) bytes) ≡ bytes
unmap [] = refl
unmap (b ∷ bytes) = rw (unmap bytes, div_mul b) refl

pub length-map : (bytes : List Byte) → length (map (λ b. b * 16) bytes) ≡ length bytes
length-map [] = refl
length-map (b ∷ bytes) = ap suc (length-map bytes)

map_append :
    (xs ys : List Byte)
    → map (λ b. b * 16) (xs ++ ys) ≡ map (λ b. b * 16) xs ++ map (λ b. b * 16) ys
map_append [] ys = refl
map_append (x ∷ xs) ys = ap (◌∷◌ (x * 16)) (map_append xs ys)

pub take_room : (n : ℕ) (bytes : List Byte) → length (take n bytes) + (n - length bytes) ≡ n
take_room zero bytes = omega arith
take_room (suc n) [] = omega arith
take_room (suc n) (b ∷ bytes) = omega (arith, take_room n bytes)

abbrev first_byte : List Byte → Byte
first_byte [] = 0
first_byte (b ∷ bytes) = b

pub first :
    (taken : List Byte) (b : Byte) (bytes : List Byte)
    → map (λ b. b * 16) taken ≡ b ∷ bytes
    → b % 16 ≢ 8
first [] b bytes e = cc e
first (x ∷ taken) b bytes e = let same : x * 16 ≡ b = ap first_byte e in omega arith

module _ (inflate : Bool → List Byte → ℕ → Turn Bool) where
  pub given_map :
      {phase : Phase} {s : Bool} {taken given : List Byte}
      → Reached (shifting inflate) phase s taken given
      → given ≡ map (λ b. b * 16) taken
  given_map start = refl
  given_map (turn {taken} r flush next_in used n may e) =
      let same =
        append_cancel_right used (take n next_in) (drop n next_in)
          (sym e ∙ sym (take-drop n next_in)) in
      rw (same, map_append taken (take n next_in), given_map r) refl

  pub text_so_far :
      (n : ℕ) {phase : Phase} {s : Bool} {taken given : List Byte}
      → Reached (shifting inflate) phase s taken given
      → (bytes : List Byte) → 0 < n - length bytes
      → map (λ b. b / 16) (given ++ map (λ b. b * 16) (take n bytes)) ≡ taken ++ bytes
  text_so_far n {taken} r bytes h =
      rw (given_map r, take_all n bytes (omega arith), ← map_append taken bytes)
        (unmap (taken ++ bytes))

  pub block_start :
      {phase : Phase} {s : Bool} {taken given : List Byte}
      → Reached (shifting inflate) phase s taken given
      → (b : Byte) (bytes : List Byte) → given ≡ b ∷ bytes
      → b % 16 ≢ 8
  block_start {taken} r b bytes e = first taken b bytes (sym (given_map r) ∙ e)

  abbrev pub shifting-Deflates : Deflates (shifting inflate)
  shifting-Deflates = record {
    text_of = map (λ b. b / 16);
    is_complete = λ bytes. true;
    owed = λ s. length;
    writes = λ r flush bytes n may. record {
      used = take n bytes;
      splits = sym (take-drop n bytes);
      room = rw (length-map (take n bytes)) (take_room n bytes);
      sound = λ h. refl;
      drained = λ h. length-eq-zero (drop n bytes) (omega (arith, length-drop n bytes));
      flushed = λ h. text_so_far n r bytes h;
      finished = λ e h. refl;
      shrinks = λ h h'. omega (arith, length-drop n bytes);
      not_grows = omega (arith, length-drop n bytes);
    };
    most_owed = 2048;
    owed_le = λ r bytes h. h;
    moves = λ r bytes n h h'. refl;
    moves_on = λ r bytes n m h h' h''. refl;
  }

abbrev pub headed-Headers : Headers headed
headed-Headers = record { block = block_start _; refuses = λ b b' bytes n h. refl }
