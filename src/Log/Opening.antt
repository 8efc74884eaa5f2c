-- ===== src/Log/Opening.antt =====
-- mylib/log: the setters, `open`, `close` and `init_log`. What the file system answers is an
-- argument; the thread always starts. A failed `assert` is a fault, and serial numbers are taken to
-- fit an `int`.
use newbee.Base.{ℕ, zero, suc, ◌+◌, Bool, true, false, not, ◌&&◌, List, [], ◌∷◌, ltb, if◌then◌else◌}
use newbee.Memory.{Run, ok, fault, out_of_fuel, and_then}
use newbee.Status.{Status, success, failure}
use newbee.Log.{
  Level, fatal, error, warn, info, trace, debug, all_log_level, log_if_opened, Log, Date, Mask,
  open_file, put, enable_log_level, enable_module,
}

-- What `access` and `mkdir` answer for the path, the directory of the day, and the files in it.
pub record Files : Type 0 where
  pub has_path : Bool
  pub makes_path : Bool
  pub has_day : Bool
  pub makes_day : Bool
  pub has_file : (sn : ℕ) → Bool

unfoldable pub set_path : ℕ → Log → Log
set_path path l = record l { path = path }

unfoldable pub set_filename : ℕ → Log → Log
set_filename filename l = record l { filename = filename }

-- The limits are `int`s. One below 0 does what 0 does, as every count reaches it.
unfoldable pub set_maxline : ℕ → Log → Log
set_maxline maxline l = record l { maxline = maxline }

unfoldable pub set_maxsize : ℕ → Log → Log
set_maxsize maxsize l = record l { maxsize = maxsize }

unfoldable pub set_print_screen : Bool → Log → Log
set_print_screen enable l = record l { enable_print_screen = enable }

unfoldable pub set_write_file : Bool → Log → Log
set_write_file enable l = record l { enable_write_file = enable }

-- The `while` of `open_file_thread`.
unfoldable pub next_free : (fuel : ℕ) → (has_file : ℕ → Bool) → (sn : ℕ) → Run ℕ
next_free zero has_file sn = out_of_fuel
next_free (suc fuel) has_file sn =
    let rest = next_free fuel has_file (suc sn) in if has_file sn then rest else ok sn

unfoldable pub open_file_thread : (fuel : ℕ) → Files → Log → Run (Status × Log)
unfolding next_free
open_file_thread fuel files l =
    if l.opened
    then fault
    else if not files.has_path && not files.makes_path
    then ok (failure, l)
    else if not files.has_day && not files.makes_day
    then ok (failure, l)
    else and_then {B = Status × Log} (next_free fuel files.has_file l.cur_sn) (λ sn. ok (
      success,
      record (put (open_file l.cur_date sn) l) { cur_sn = sn; has_work = true; has_thread = true },
    ))

unfoldable pub open_log : (fuel : ℕ) → (now : Date) → Files → Log → Run (Status × Log)
unfolding open_file_thread
open_log fuel now files l =
    let dated = record l { cur_date = now; cur_sn = 0; cur_line = 0; cur_size = 0 } in
    let ret =
      if dated.enable_write_file then open_file_thread fuel files dated else ok (success, dated) in
    if l.opened
    then ok (success, l)
    else and_then {B = Status × Log} ret (λ r. ok (r.0, record (r.1) { opened = true }))

-- `close` joins the thread, if there is one.
unfoldable pub close_log : Log → Log
close_log l =
    if not l.opened then l else record l { opened = false; modules = λ m. false; has_work = false }

-- `LOG_FLAG(log_level + 1) - 1`, for a level below 30: from there on the shift of the `int` is not
-- defined.
abbrev pub flags_up_to : ℕ → Mask
flags_up_to level bit = ltb bit (level + 1)

abbrev pub enable_modules : List ℕ → Log → Log
enable_modules [] l = l
enable_modules (m ∷ ms) l = enable_modules ms (enable_module m true l)

-- The calls of the setters in `init_log`.
unfoldable pub configured :
    (path filename : ℕ) (print_screen write_file : Bool) (level : ℕ) (modules : List ℕ)
    (max_size max_line : ℕ)
    → Log
    → Log
unfolding set_path set_filename set_maxline set_maxsize set_print_screen set_write_file
configured path filename print_screen write_file level modules max_size max_line l =
    let named = set_filename filename (set_path path l) in
    let limited = set_maxsize max_size (set_maxline max_line named) in
    let levelled = enable_log_level (flags_up_to level) true limited in
    let writing = if write_file then set_write_file true levelled else levelled in
    let printing = if print_screen then set_print_screen true writing else writing in
    enable_modules modules printing

unfoldable pub init_log :
    (path filename : ℕ) (print_screen write_file : Bool) (level : ℕ) (modules : List ℕ)
    (max_size max_line fuel : ℕ) (now : Date)
    → Files
    → Log
    → Run (Status × Log)
unfolding configured open_log
init_log path filename print_screen write_file level modules max_size max_line fuel now files l =
    open_log fuel now files
      (configured path filename print_screen write_file level modules max_size max_line l)

-- The macros of `log.h`: whether a line of the level is compiled in. `ENABLE_TARCE`, which logtrace
-- asks for, is defined nowhere.
unfoldable pub is_compiled : (debug_log : Bool) → Level → Bool
is_compiled debug_log fatal = true
is_compiled debug_log error = true
is_compiled debug_log warn = debug_log
is_compiled debug_log info = debug_log
is_compiled debug_log trace = false
is_compiled debug_log debug = debug_log
is_compiled debug_log all_log_level = false

-- `logfatal`, `logerror` and the others.
unfoldable pub log_line : (debug_log : Bool) → (name : ℕ) → Level → (size : ℕ) → Log → Log
unfolding is_compiled log_if_opened
log_line debug_log name level size l =
    if is_compiled debug_log level then log_if_opened name level size l else l
