-- ===== src/Log/InitLog.antt =====
-- What is logged behind `init_log`.
use newbee.Base.{
  ℕ, ◌+◌, ◌<◌, ◌≡◌, refl, sym, ap, ◌∙◌, Bool, true, false, not, ◌&&◌, ◌||◌, List, [], ◌∷◌, ◌++◌,
  append_assoc, append-nil, ◌==◌, ltb, if◌then◌else◌, arith, Bool-cases, inl, inr, lt→ltb,
}
use newbee.Memory.{ok, Holds, Holds-ok, holds, holds_fault, Holds-if, Holds-bind, Holds-any}
use newbee.Status.{Status, success, failure}
use newbee.Log.{
  Log, Date, is_all_flag, Level, Mask, value_of, log, log_t, check_module, check_log_level,
  enable_log_level, enable_module, Output, post_text, show_text, put,
}
use newbee.Log.Opening.{
  Files, set_path, set_filename, set_maxline, set_maxsize, set_print_screen, set_write_file,
  next_free, open_file_thread, open_log, flags_up_to, enable_modules, configured, init_log,
}

-- The levels, the modules and the two outputs of a log are these.
record Filters (mask : Mask) (modules : ℕ → Bool) (writes prints : Bool) (l : Log) : Type 0 where
  levels : (bit : ℕ) → l.log_level bit ≡ mask bit
  named : (name : ℕ) → l.modules name ≡ modules name
  writing : l.enable_write_file ≡ writes
  printing : l.enable_print_screen ≡ prints

module _ {mask : Mask} {modules : ℕ → Bool} {writes prints : Bool} where
  kept :
      {l l' : Log}
      → Filters mask modules writes prints l
      → l'.log_level ≡ l.log_level
      → l'.modules ≡ l.modules
      → l'.enable_write_file ≡ l.enable_write_file
      → l'.enable_print_screen ≡ l.enable_print_screen
      → Filters mask modules writes prints l'
  kept f e e' w p = record {
    levels = λ bit. ap (λ m. m bit) e ∙ f.levels bit;
    named = λ name. ap (λ m. m name) e' ∙ f.named name;
    writing = w ∙ f.writing;
    printing = p ∙ f.printing;
  }

  open_file_thread-Filters :
      (fuel : ℕ) (files : Files) (l : Log)
      → Filters mask modules writes prints l
      → Holds
          (λ (r : Status × Log). Filters mask modules writes prints (r.1))
          (open_file_thread fuel files l)
  unfolding open_file_thread
  open_file_thread-Filters fuel files l f = Holds-if (l.opened) holds_fault (
      Holds-if (not files.has_path && not files.makes_path) (holds f) (
        Holds-if (not files.has_day && not files.makes_day) (holds f) (
          Holds-any (next_free fuel (files.has_file) (l.cur_sn))
            (λ sn. holds (kept f refl refl refl refl)))))

  open_log-Filters :
      (fuel : ℕ) (now : Date) (files : Files) (l : Log)
      → Filters mask modules writes prints l
      → Holds
          (λ (r : Status × Log). Filters mask modules writes prints (r.1))
          (open_log fuel now files l)
  unfolding open_log
  open_log-Filters fuel now files l f = Holds-if (l.opened) (holds f) (
      Holds-bind
        (Holds-if (l.enable_write_file)
          (open_file_thread-Filters fuel files _ (kept f refl refl refl refl))
          (holds (kept f refl refl refl refl)))
        (λ r g. holds (kept g refl refl refl refl)))

abbrev pub lists : List ℕ → ℕ → Bool
lists [] name = false
lists (m ∷ ms) name = name == m || lists ms name

listed : (b c d : Bool) → (c || (if b then true else d)) ≡ ((b || c) || d)
listed b c d = ground arith

enable_modules-modules :
    (ms : List ℕ) (l : Log) (name : ℕ)
    → (enable_modules ms l).modules name ≡ (lists ms name || l.modules name)
unfolding enable_module
enable_modules-modules [] l name = refl
enable_modules-modules (m ∷ ms) l name =
    enable_modules-modules ms (enable_module m true l) name
    ∙ listed (name == m) (lists ms name) (l.modules name)

-- But for the modules, the log is the same.
enable_modules-kept :
    (ms : List ℕ) (l : Log)
    → ((enable_modules ms l).log_level ≡ l.log_level)
      × ((enable_modules ms l).enable_write_file ≡ l.enable_write_file)
      × ((enable_modules ms l).enable_print_screen ≡ l.enable_print_screen)
unfolding enable_module
enable_modules-kept [] l = (refl, refl, refl)
enable_modules-kept (m ∷ ms) l = enable_modules-kept ms (enable_module m true l)

not_all : (level : ℕ) → is_all_flag (flags_up_to level) ≡ false
not_all level = rw (lt→ltb 0 (level + 1) (omega arith)) refl

-- What `init_log` does but for the modules.
set_up-Filters :
    (print_screen write_file : Bool) (level : ℕ) (l : Log)
    → l.log_level ≡ (λ bit. false)
    → l.modules ≡ (λ name. false)
    → l.enable_write_file ≡ false
    → l.enable_print_screen ≡ false
    → let levelled = enable_log_level (flags_up_to level) true l in
      let writing = if write_file then set_write_file true levelled else levelled in
      Filters
        (flags_up_to level)
        (λ name. false)
        write_file
        print_screen
        (if print_screen then set_print_screen true writing else writing)
unfolding set_print_screen set_write_file enable_log_level
set_up-Filters false false level l none unnamed w p = record {
  levels = λ bit. rw (not_all level, none) refl;
  named = λ name. rw unnamed refl;
  writing = w;
  printing = p;
}
set_up-Filters false true level l none unnamed w p = record {
  levels = λ bit. rw (not_all level, none) refl;
  named = λ name. rw unnamed refl;
  writing = refl;
  printing = p;
}
set_up-Filters true false level l none unnamed w p = record {
  levels = λ bit. rw (not_all level, none) refl;
  named = λ name. rw unnamed refl;
  writing = w;
  printing = refl;
}
set_up-Filters true true level l none unnamed w p = record {
  levels = λ bit. rw (not_all level, none) refl;
  named = λ name. rw unnamed refl;
  writing = refl;
  printing = refl;
}

or_false : (b : Bool) → (b || false) ≡ b
or_false b = ground arith

configured-Filters :
    (path filename : ℕ) (print_screen write_file : Bool) (level : ℕ) (modules : List ℕ)
    (max_size max_line : ℕ)
    → Filters
        (flags_up_to level)
        (lists modules)
        write_file
        print_screen
        (configured path filename print_screen write_file level modules max_size max_line log_t)
unfolding configured set_path set_filename set_maxline set_maxsize log_t
configured-Filters path filename print_screen write_file level modules max_size max_line =
    let f =
      set_up-Filters print_screen write_file level
        (set_maxsize max_size (set_maxline max_line (set_filename filename (set_path path log_t))))
        refl refl refl refl in
    let (same, writes, prints) = enable_modules-kept modules _ in
    record {
      levels = λ bit. ap (λ m. m bit) same ∙ f.levels bit;
      named = λ name.
          enable_modules-modules modules _ name
          ∙ ap (λ b. lists modules name || b) (f.named name)
          ∙ or_false (lists modules name);
      writing = writes ∙ f.writing;
      printing = prints ∙ f.printing;
    }

-- What a line puts out where it is let through: the text for the file, and the one on the screen.
abbrev pub line_out : (writes prints : Bool) → (size : ℕ) → List Output
line_out writes prints size =
    (if writes then post_text size ∷ [] else []) ++ (if prints then show_text size ∷ [] else [])

-- `log`, from the levels, the modules and the outputs.
abbrev pub logged : (passes writes prints : Bool) → (size : ℕ) → Log → Status × Log
logged passes writes prints size l =
    if passes
    then (success, record l { output = l.output ++ line_out writes prints size })
    else (failure, l)

put_out :
    (writes prints : Bool) (size : ℕ) (l : Log)
    → (if prints
        then put (show_text size) (if writes then put (post_text size) l else l)
        else if writes
        then put (post_text size) l
        else l)
      ≡ record l { output = l.output ++ line_out writes prints size }
put_out true true size l =
    ap (λ o. record l { output = o }) (append_assoc l.output (post_text size ∷ []) _)
put_out true false size l = refl
put_out false true size l = refl
put_out false false size l = ap (λ o. record l { output = o }) (sym (append-nil l.output))

log-Filters :
    (mask : Mask) (modules : ℕ → Bool) (writes prints : Bool) (l : Log) (name size : ℕ) (v : Level)
    → Filters mask modules writes prints l
    → log name v size l
      ≡ logged
          (modules name && not (mask (value_of v)))
          l.enable_write_file
          l.enable_print_screen
          size
          l
unfolding log check_module check_log_level
log-Filters mask modules writes prints l name size v f =
    rw (← f.named name, ← f.levels (value_of v))
      (elim (Bool-cases (l.modules name)) [
        | inr n ↦ rw (log, n) refl
        | inl y ↦ elim (Bool-cases (l.log_level (value_of v))) [
          | inl set ↦ rw (log, y, set) refl
          | inr unset ↦
              rw (log, y, unset)
                (ap (λ k. (success, k)) (put_out l.enable_write_file l.enable_print_screen size l))
        ]
      ])

and_below : (b : Bool) (level n : ℕ) → (b && not (ltb n (level + 1))) ≡ (b && ltb level n)
and_below b level n = ground arith

-- Where `init_log` on a new log returns, for a level below 30 and whatever the file system
-- answers: `log` lets a line through if its module is one of those listed and its level is above
-- the one that was asked for, and then posts its text for the file and shows it on the screen,
-- each where it was asked for; in all other cases it reports a failure and leaves the log as it
-- is, so the lines up to that level are dropped.
pub init_log-inverted :
    (path filename : ℕ) (print_screen write_file : Bool) (level : ℕ) (modules : List ℕ)
    (max_size max_line fuel : ℕ) (now : Date) (files : Files) (ret : Status) (l : Log)
    → level < 30
    → init_log path filename print_screen write_file level modules max_size max_line fuel now files
        log_t
      ≡ ok (ret, l)
    → (name size : ℕ) (v : Level)
    → log name v size l
      ≡ logged (lists modules name && ltb level (value_of v)) write_file print_screen size l
unfolding init_log
init_log-inverted path filename print_screen write_file level modules max_size max_line fuel now
      files ret l small run name size v =
    let f =
      Holds-ok
        (λ (r : Status × Log).
          Filters (flags_up_to level) (lists modules) write_file print_screen (r.1))
        _ (ret, l)
        (open_log-Filters fuel now files _ (
          configured-Filters path filename print_screen write_file level modules max_size max_line))
        run in
    log-Filters (flags_up_to level) (lists modules) write_file print_screen l name size v f ∙ (λ i.
      logged (and_below (lists modules name) level (value_of v) i) (f.writing i) (f.printing i) size
        l)
