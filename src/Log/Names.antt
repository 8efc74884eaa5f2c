-- ===== src/Log/Names.antt =====
-- The files of a log, by their dates and serial numbers.
use newbee.Base.{ℕ, ◌+◌, ◌≡◌, Bool, true, false, ◌&&◌, ◌||◌, ltb, ◌==◌, arith, Bool-cases, inl, inr}
use newbee.Log.{Date, same_date}

-- A file: its date and its serial number.
abbrev pub File : Type 0
File = Date × ℕ

abbrev pub same_file : File → File → Bool
same_file (date, sn) (date', sn') = same_date date date' && (sn == sn')

abbrev pub is_before : Date → Date → Bool
is_before (y, m, d) (y', m', d') = ltb y y' || ((y == y') && (ltb m m' || ((m == m') && ltb d d')))

-- Whether a file is named later than another, by date and number.
abbrev pub is_later : File → File → Bool
is_later (date, sn) (date', sn') = is_before date date' || (same_date date date' && ltb sn sn')

before_trans : (a b c : Date) → is_before a b ≡ true → is_before b c ≡ true → is_before a c ≡ true
before_trans (y, m, d) (y', m', d') (y'', m'', d'') h k = ground arith

before_same : (a b c : Date) → is_before a b ≡ true → same_date b c ≡ true → is_before a c ≡ true
before_same (y, m, d) (y', m', d') (y'', m'', d'') h k = ground arith

pub later_apart : (f g : File) → is_later f g ≡ true → same_file f g ≡ false
later_apart ((y, m, d), sn) ((y', m', d'), sn') h = ground arith

-- The first file of a later day, and the next file of the day.
pub day_later :
    (now : Date) (f g : File)
    → is_before f.0 now ≡ true
    → (same_file (now, 0) g || is_later (now, 0) g) ≡ true
    → is_later f g ≡ true
day_later now (date, sn) (date', sn') h k = elim (Bool-cases (same_date now date')) [
  | inl y ↦ ground (arith, before_same date now date' h y)
  | inr n ↦ elim (Bool-cases (is_before now date')) [
    | inl b ↦ ground (arith, before_trans date now date' h b)
    | inr b ↦ cc (rw (n, b) at k)
  ]
]

pub next_later :
    (date : Date) (sn : ℕ) (g : File)
    → (same_file (date, sn + 1) g || is_later (date, sn + 1) g) ≡ true
    → is_later (date, sn) g ≡ true
next_later (y, m, d) sn ((y', m', d'), sn') k = ground arith
