-- ===== src/Log/Filter.antt =====
-- Which levels `log` lets through.
use newbee.Base.{ℕ, ◌≡◌, refl, Bool, true, false, not, ◌&&◌, ◌||◌, Bool-cases, inl, inr, arith}
use newbee.Status.{success, failure}
use newbee.Log.{
  Log, Level, fatal, error, warn, info, trace, debug, all_log_level, value_of, log_flag,
  enable_log_level, log, check_module, check_log_level,
}

flag_self : (v : Level) → log_flag (value_of v) (value_of v) ≡ true
flag_self fatal = refl
flag_self error = refl
flag_self warn = refl
flag_self info = refl
flag_self trace = refl
flag_self debug = refl
flag_self all_log_level = refl

or_true : (a b : Bool) → b ≡ true → (a || b) ≡ true
or_true a b h = ground arith

and_not : (a b : Bool) → b ≡ true → (a && not b) ≡ false
and_not a b h = ground arith

log-set :
    (name : ℕ) (v : Level) (size : ℕ) (l : Log)
    → l.log_level (value_of v) ≡ true
    → log name v size l ≡ (failure, l)
unfolding log check_module check_log_level
log-set name v size l h = elim (Bool-cases (l.modules name)) [
  | inl y ↦ rw (log, y, h) refl
  | inr n ↦ rw (log, n) refl
]

log-unset :
    (name : ℕ) (v : Level) (size : ℕ) (l : Log)
    → l.modules name ≡ true
    → l.log_level (value_of v) ≡ false
    → (log name v size l).0 ≡ success
unfolding log check_module check_log_level
log-unset name v size l m h = rw (log, m, h) refl

-- A level that is enabled is not logged: `log` reports a failure and puts nothing out; a level
-- that is disabled is logged, for a module that is enabled.
pub log-inverted :
    (name : ℕ) (v : Level) (size : ℕ) (l : Log)
    → l.modules name ≡ true
    → (log name v size (enable_log_level (log_flag (value_of v)) true l)
        ≡ (failure, enable_log_level (log_flag (value_of v)) true l))
      × ((log name v size (enable_log_level (log_flag (value_of v)) false l)).0 ≡ success)
unfolding enable_log_level
log-inverted name v size l m = (
  log-set name v size (enable_log_level (log_flag (value_of v)) true l)
      (or_true _ (log_flag (value_of v) (value_of v)) (flag_self v)),
  log-unset name v size (enable_log_level (log_flag (value_of v)) false l) m
      (and_not _ (log_flag (value_of v) (value_of v)) (flag_self v)),
)
