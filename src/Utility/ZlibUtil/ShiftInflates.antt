-- ===== src/Utility/ZlibUtil/ShiftInflates.antt =====
-- The zlib of Shift does what the documentation says of `inflate`.
use newbee.Base.{
  ℕ, zero, suc, ◌≡◌, refl, sym, ap, ◌∙◌, ◌⊎◌, inl, inr, Bool, true, false, Option, none, some,
  Option-cases, List, [], ◌∷◌, ◌++◌, arith,
}
use newbee.Rpc.Message.{Byte}
use newbee.Utility.Zlib.Inflating.{Reads, Inflates}
use newbee.Utility.ZlibUtil.Shift.{unshift, shifted}

-- The text up to the 0 that ends it.
abbrev pub unshifted : List Byte → Option (List Byte)
unshifted [] = none
unshifted (zero ∷ []) = some []
unshifted (zero ∷ b ∷ bytes) = none
unshifted (suc b ∷ bytes) = elim (unshifted bytes) [ none ↦ none | some text ↦ some (b ∷ text) ]

abbrev pub Unshifting : Bool → (left due : List Byte) → Type 0
Unshifting ended left due =
    ((ended ≡ false) × (unshifted left ≡ some due)) ⊎ ((ended ≡ true) × (left ≡ []) × (due ≡ []))

abbrev or_empty : Option (List Byte) → List Byte
or_empty none = []
or_empty (some bytes) = bytes

last_zero :
    (bytes due : List Byte) → unshifted (zero ∷ bytes) ≡ some due → (bytes ≡ []) × (due ≡ [])
last_zero [] due e = (refl, sym (ap or_empty e))
last_zero (b ∷ bytes) due e = cc e

next_byte :
    (b : Byte) (bytes due : List Byte)
    → unshifted (suc b ∷ bytes) ≡ some due
    → (rest : List Byte) × (due ≡ b ∷ rest) × (unshifted bytes ≡ some rest)
next_byte b bytes due e = elim (Option-cases (unshifted bytes)) [
  | inl n ↦ cc (rw n at e)
  | inr (rest, f) ↦ (rest, sym (ap or_empty (rw f at e)), f)
]

empty_left : (xs ys : List Byte) → xs ++ ys ≡ [] → xs ≡ []
empty_left [] ys e = refl
empty_left (x ∷ xs) ys e = cc e

unshift-Reads :
    (bytes later due : List Byte) (n : ℕ)
    → unshifted (bytes ++ later) ≡ some due
    → Reads Unshifting later due n (unshift bytes n)
unshift-Reads [] later due n e = record {
  rest = due;
  splits = refl;
  room = omega arith;
  goes_on = inl (refl, e);
  no_error = inr (inr refl);
  drained = λ _. refl;
  at_end = λ h. cc h;
  ends = λ _ h. cc (sym e ∙ ap unshifted h);
}
unshift-Reads (zero ∷ bytes) later due zero e = record {
  rest = due;
  splits = refl;
  room = refl;
  goes_on = inl (refl, e);
  no_error = inl refl;
  drained = λ h. absurd (omega arith);
  at_end = λ h. cc h;
  ends = λ h. absurd (omega arith);
}
unshift-Reads (suc b ∷ bytes) later due zero e = record {
  rest = due;
  splits = refl;
  room = refl;
  goes_on = inl (refl, e);
  no_error = inl refl;
  drained = λ h. absurd (omega arith);
  at_end = λ h. cc h;
  ends = λ h. absurd (omega arith);
}
unshift-Reads (zero ∷ bytes) later due (suc n) e =
    let (nothing, empty) = last_zero (bytes ++ later) due e in
    record {
      rest = [];
      splits = empty;
      room = omega arith;
      goes_on = inr (refl, nothing, refl);
      no_error = inr (inl refl);
      drained = λ _. empty_left bytes later nothing;
      at_end = λ _. (nothing, refl);
      ends = λ _ _. refl;
    }
unshift-Reads (suc b ∷ bytes) later due (suc n) e =
    let (due', split, e') = next_byte b (bytes ++ later) due e in
    let step = unshift-Reads bytes later due' n e' in
    record {
      rest = step.rest;
      splits = split ∙ ap (◌∷◌ b) (step.splits);
      room = omega (arith, step.room);
      goes_on = step.goes_on;
      no_error = step.no_error;
      drained = step.drained;
      at_end = step.at_end;
      ends = step.ends;
    }

pub shifted-Reads :
    (ended : Bool) (bytes later due : List Byte) (n : ℕ)
    → Unshifting ended (bytes ++ later) due
    → Reads Unshifting later due n (shifted.inflate ended bytes n)
shifted-Reads false bytes later due n (inl (_, e)) = unshift-Reads bytes later due n e
shifted-Reads true bytes later due n (inr (_, nothing, e)) = record {
  rest = [];
  splits = e;
  room = omega arith;
  goes_on = inr (refl, nothing, refl);
  no_error = inr (inl refl);
  drained = λ _. empty_left bytes later nothing;
  at_end = λ _. (nothing, refl);
  ends = λ _ _. refl;
}
shifted-Reads false bytes later due n (inr (e, _, _)) = cc e
shifted-Reads true bytes later due n (inl (e, _)) = cc e

abbrev pub shifted-Inflates : Inflates shifted
shifted-Inflates = record {
  decode = unshifted;
  decode_empty = refl;
  Reading = Unshifting;
  opens = λ bytes text e. inl (refl, e);
  reads = λ {s} bytes later due n r h. shifted-Reads s bytes later due n r;
}
