-- ===== src/Log/Examples.antt =====
-- A log with one module, and one that takes two texts a file.
use newbee.Base.{ℕ, ◌≤◌, ◌≡◌, refl, true, false, ltb, arith, List, [], ◌∷◌, ◌++◌}
use newbee.Memory.{Run, ok, fault, out_of_fuel, Returns}
use newbee.Status.{Status, success}
use newbee.Log.Opening.{Files, next_free, open_file_thread, open_log, configured, init_log}
use newbee.Log.FirstFree.{Starts, open_log-first_free}
use newbee.Log.InitLog.{init_log-inverted}
use newbee.Log.{Log, Date, debug, post_text, show_text, log_t, log, enable_log_level, enable_module}
use newbee.Log.Rotation.{handle_all, texts_in, handle_all-bounded}

abbrev one_module : Log
one_module = enable_module 3 true (record log_t { enable_write_file = true })

abbrev short_files : Log
short_files = record log_t { maxline = 2 }

abbrev texts : List (Date × ℕ)
texts =
    ((124, 0, 1), 10)
    ∷ ((124, 0, 1), 20)
    ∷ ((124, 0, 1), 30)
    ∷ ((124, 0, 1), 40)
    ∷ ((124, 0, 2), 50)
    ∷ []

handle_all-bounded_example :
    texts_in ((0, 0, 0), 0) ((124, 0, 1), 0) (handle_all texts short_files) ≤ 3
unfolding log_t
handle_all-bounded_example =
    handle_all-bounded texts short_files ((124, 0, 1), 0) refl
      (refl, (refl, (refl, (refl, (refl, tt)))))

-- Two files of the day are there.
abbrev two_files : Files
two_files = record {
  has_path = true;
  makes_path = false;
  has_day = false;
  makes_day = true;
  has_file = λ sn. ltb sn 2;
}

abbrev to_file : Log
to_file = record log_t { enable_write_file = true }

open_log-first_free_example :
    Returns
      (λ (r : Status × Log). Starts (124, 0, 1) two_files to_file r × ((r.1).opened ≡ true))
      (open_log 6 (124, 0, 1) two_files to_file)
unfolding log_t
open_log-first_free_example =
    open_log-first_free 6 (124, 0, 1) two_files 5 to_file refl refl refl refl refl (omega arith)

abbrev log_of : Run (Status × Log) → Log
log_of (ok (ret, l)) = l
log_of fault = log_t
log_of out_of_fuel = log_t

abbrev initialized : Log
initialized =
    log_of (init_log 1 2 true true 2 (3 ∷ []) 5000000 100000 4 (124, 0, 1) two_files log_t)

initialized_run :
    init_log 1 2 true true 2 (3 ∷ []) 5000000 100000 4 (124, 0, 1) two_files log_t
    ≡ ok (success, initialized)
unfolding init_log configured open_log open_file_thread next_free enable_module enable_log_level
    log_t
initialized_run = refl

init_log-inverted_example : log 3 debug 40 initialized ≡ (
  success,
  record initialized { output = initialized.output ++ post_text 40 ∷ show_text 40 ∷ [] },
)
init_log-inverted_example =
    init_log-inverted 1 2 true true 2 (3 ∷ []) 5000000 100000 4 (124, 0, 1) two_files success
      initialized (omega arith) initialized_run 3 40 debug
