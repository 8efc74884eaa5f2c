-- ===== src/Log/FirstFree.antt =====
-- The file that `open` starts with.
use newbee.Base.{
  ℕ, zero, suc, ◌+◌, ◌<◌, ◌≤◌, ◌≡◌, refl, sym, ap, ◌∙◌, subst, Bool, true, false, not, ◌&&◌, ◌||◌,
  [], ◌∷◌, ◌++◌, arith, Bool-cases, le-or-lt, inl, inr,
}
use newbee.Memory.{Returns, returns, Returns-bind, Returns-mono}
use newbee.Status.{Status, success}
use newbee.Log.{Log, Date, open_file}
use newbee.Log.Opening.{Files, next_free, open_file_thread, open_log}

-- The first number from `from` on that has no file.
record FirstFree (has_file : ℕ → Bool) (from sn : ℕ) : Type 0 where
  beyond : from ≤ sn
  is_free : has_file sn ≡ false
  before : (i : ℕ) → from ≤ i → i < sn → has_file i ≡ true

next_le :
    (has_file : ℕ → Bool) (from free : ℕ)
    → from ≤ free
    → has_file from ≡ true
    → has_file free ≡ false
    → suc from ≤ free
next_le has_file from free h taken none = elim (le-or-lt (suc from) free) [
  | inl less ↦ less
  | inr same ↦ let e : from ≡ free = omega arith in absurd (cc (sym taken ∙ ap has_file e ∙ none))
]

later :
    (has_file : ℕ → Bool) (from sn : ℕ)
    → has_file from ≡ true
    → FirstFree has_file (suc from) sn
    → FirstFree has_file from sn
later has_file from sn taken f = record {
  beyond = omega (arith, f.beyond);
  is_free = f.is_free;
  before = λ i l m. elim (le-or-lt (suc from) i) [
    | inl less ↦ f.before i less m
    | inr same ↦ let e : from ≡ i = omega arith in subst (λ n. has_file n ≡ true) e taken
  ];
}

next_free-FirstFree :
    (fuel : ℕ) (has_file : ℕ → Bool) (from free : ℕ)
    → from ≤ free
    → has_file free ≡ false
    → free < from + fuel
    → Returns (FirstFree has_file from) (next_free fuel has_file from)
unfolding next_free
next_free-FirstFree zero has_file from free h none enough = absurd (omega arith)
next_free-FirstFree (suc fuel) has_file from free h none enough =
    elim (Bool-cases (has_file from)) [
      | inl taken ↦ rw taken (
          Returns-mono
            (next_free-FirstFree fuel has_file (suc from) free
              (next_le has_file from free h taken none) none (omega arith))
            (λ sn f. later has_file from sn taken f))
      | inr here ↦ rw here (
          returns (record {
            beyond = omega arith;
            is_free = here;
            before = λ i l m. absurd (omega arith);
          }))
    ]

made : (has makes : Bool) → (has || makes) ≡ true → (not has && not makes) ≡ false
made has makes h = ground arith

-- A success with the file of the first free number, and none behind the output so far but that.
abbrev pub Starts : Date → Files → Log → Status × Log → Type 0
Starts now files l (status, opened) =
    (status ≡ success)
    × (opened.output ≡ l.output ++ open_file now opened.cur_sn ∷ [])
    × (files.has_file opened.cur_sn ≡ false)
    × ((i : ℕ) → i < opened.cur_sn → files.has_file i ≡ true)

-- A log that is not open and writes to files, whose directories are there or can be made, opened
-- with more rounds than the number of some file that is not there: `open` returns success, the log
-- is open, and the one file that is opened is that of the day with the first serial number that no
-- file has.
pub open_log-first_free :
    (fuel : ℕ) (now : Date) (files : Files) (free : ℕ) (l : Log)
    → l.opened ≡ false
    → l.enable_write_file ≡ true
    → (files.has_path || files.makes_path) ≡ true
    → (files.has_day || files.makes_day) ≡ true
    → files.has_file free ≡ false
    → free < fuel
    → Returns
        (λ (r : Status × Log). Starts now files l r × ((r.1).opened ≡ true))
        (open_log fuel now files l)
unfolding open_log open_file_thread
open_log-first_free fuel now files free l shut write path day none enough =
    rw
      (
        shut,
        write,
        made files.has_path files.makes_path path,
        made files.has_day files.makes_day day,
      )
      (Returns-bind {P = Starts now files l}
        (Returns-bind
          (next_free-FirstFree fuel (files.has_file) 0 free (omega arith) none (omega arith))
          (λ sn f. returns (refl, refl, f.is_free, λ i m. f.before i (omega arith) m)))
        (λ r started. returns (started, refl)))
