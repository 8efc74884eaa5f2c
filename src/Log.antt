-- ===== src/Log.antt =====
-- mylib/log: which lines are logged, and the files that they go to.
-- A mask (`unsigned int`) is the function that gives its bits; a module's name and a file's parts are
-- numbers; a date is the triple of `tm_year`, `tm_mon` and `tm_mday`. The clock and what the file
-- system answers are arguments. The output is recorded in order, a text by its length.
mod Examples
pub mod Filter
pub mod Opening
pub mod FirstFree
pub mod InitLog
pub mod Names
pub mod Rotation
use newbee.Base.{
  ℕ, zero, suc, ◌+◌, ◌<◌, Bool, true, false, not, ◌&&◌, ◌||◌, List, [], ◌∷◌, ◌++◌, ltb, leb, ◌==◌,
  if◌then◌else◌,
}
use newbee.Memory.{Run, ok, out_of_fuel}
use newbee.Status.{Status, success, failure}

-- The levels, with `ALL_LOG_LEVEL`.
pub data Level : Type 0 where
  fatal : Level
  error : Level
  warn : Level
  info : Level
  trace : Level
  debug : Level
  all_log_level : Level

-- The values of the enumeration.
abbrev pub value_of : Level → ℕ
value_of fatal = 0
value_of error = 1
value_of warn = 2
value_of info = 3
value_of trace = 4
value_of debug = 5
value_of all_log_level = 6

-- The bits of an `unsigned int`.
abbrev pub Mask : Type 0
Mask = ℕ → Bool

-- `LOG_FLAG(x)`.
abbrev pub log_flag : ℕ → Mask
log_flag x bit = bit == x

-- Whether the mask is `LOG_FLAG(ALL_LOG_LEVEL)`, a mask of the 32 bits from `bit` on.
abbrev pub is_flag_from : (bit bits : ℕ) → Mask → Bool
is_flag_from bit zero mask = true
is_flag_from bit (suc bits) mask =
    (if mask bit then bit == 6 else not (bit == 6)) && is_flag_from (suc bit) bits mask

abbrev pub is_all_flag : Mask → Bool
is_all_flag = is_flag_from 0 32

abbrev pub Date : Type 0
Date = ℕ × ℕ × ℕ

abbrev pub same_date : Date → Date → Bool
same_date (y, m, d) (y', m', d') = (y == y') && (m == m') && (d == d')

-- The output: the file of a date and a serial number is opened, a text is written, the file is
-- closed, a text is shown on the screen, and a text is posted to the file thread.
pub data Output : Type 0 where
  open_file : Date → (sn : ℕ) → Output
  close_file : Output
  write_text : (size : ℕ) → Output
  show_text : (size : ℕ) → Output
  post_text : (size : ℕ) → Output

-- `log_t`; `has_work` and `has_thread` say that `work_` and `work_thread_` are set.
pub record Log : Type 0 where
  pub opened : Bool
  pub has_work : Bool
  pub has_thread : Bool
  pub path : ℕ
  pub filename : ℕ
  pub enable_print_screen : Bool
  pub enable_write_file : Bool
  pub log_level : Mask
  pub modules : ℕ → Bool
  pub maxline : ℕ
  pub maxsize : ℕ
  pub cur_date : Date
  pub cur_sn : ℕ
  pub cur_size : ℕ
  pub cur_line : ℕ
  pub output : List Output

-- The constructor.
unfoldable pub log_t : Log
log_t = record {
  opened = false;
  has_work = false;
  has_thread = false;
  path = 0;
  filename = 0;
  enable_print_screen = false;
  enable_write_file = false;
  log_level = λ bit. false;
  modules = λ m. false;
  maxline = 50000;
  maxsize = 102400;
  cur_date = (0, 0, 0);
  cur_sn = 0;
  cur_size = 0;
  cur_line = 0;
  output = [];
}

abbrev pub put : Output → Log → Log
put o l = record l { output = l.output ++ o ∷ [] }

unfoldable pub enable_log_level : Mask → (enable : Bool) → Log → Log
enable_log_level level enable l =
    if enable
    then (let all : Mask = if is_all_flag level then (λ bit. true) else l.log_level in
        record l { log_level = λ bit. all bit || level bit })
    else (let all : Mask = if is_all_flag level then (λ bit. false) else l.log_level in
        record l { log_level = λ bit. all bit && not (level bit) })

unfoldable pub enable_module : ℕ → (enable : Bool) → Log → Log
enable_module name enable l = record l { modules = λ m. if m == name then enable else l.modules m }

-- `check_module` and `check_log_level`: the results are taken for 0, or not.
unfoldable pub check_module : ℕ → Log → Status
check_module name l = if l.modules name then success else failure

unfoldable pub check_log_level : Level → Log → Status
check_log_level level l = if l.log_level (value_of level) then failure else success

-- `log`, where the line has `size` characters with its head.
unfoldable pub log : (name : ℕ) → Level → (size : ℕ) → Log → Status × Log
unfolding check_module check_log_level
log name level size l = elim (check_module name l) [
  | failure ↦ (failure, l)
  | success ↦ elim (check_log_level level l) [
    | failure ↦ (failure, l)
    | success ↦
        let posted = if l.enable_write_file then put (post_text size) l else l in
        (success, if l.enable_print_screen then put (show_text size) posted else posted)
  ]
]

-- `_logfatal`, `_logerror` and the others.
unfoldable pub log_if_opened : (name : ℕ) → Level → (size : ℕ) → Log → Log
unfolding log
log_if_opened name level size l = if not l.opened then l else (log name level size l).1

-- The two parts of `handle_write_file` that open a new file.
abbrev pub new_day : Date → Log → Log
new_day now l =
    put (open_file now 0)
      (put close_file (record l { cur_date = now; cur_sn = 0; cur_line = 0; cur_size = 0 }))

abbrev pub new_file : Log → Log
new_file l =
    put (open_file l.cur_date (l.cur_sn + 1))
      (put close_file (record l { cur_sn = l.cur_sn + 1; cur_size = 0; cur_line = 0 }))

unfoldable pub handle_write_file : (now : Date) → (size : ℕ) → Log → Log
handle_write_file now size l =
    let dated = if not (same_date now l.cur_date) then new_day now l else l in
    let written = put (write_text size) dated in
    let rotated =
      if leb written.maxline written.cur_line || leb written.maxsize written.cur_size
      then new_file written
      else written in
    record rotated { cur_size = rotated.cur_size + size; cur_line = rotated.cur_line + 1 }
