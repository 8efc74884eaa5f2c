-- ===== src/Utility/SignalHandler.antt =====
-- mylib/utility/signal_handler: the registered signals and the loop that waits for them.
-- A callback is known by a number; `none` is the empty function that a quit signal is registered
-- with. `sigwait` is a parameter: the signals that it gives, in order, until it fails.
pub mod EventLoop
mod Examples
use newbee.Base.{ℕ, Bool, true, false, Option, none, some, List, [], ◌∷◌, ◌==◌, if◌then◌else◌}
use newbee.Status.{Status, success, failure}

-- `signal_callback_func_t`.
abbrev pub Callback : Type 0
Callback = Option ℕ

-- `signal_handler_t`.
pub record SignalHandler : Type 0 where
  pub wait_mask : ℕ → Bool
  pub signal_func_map : ℕ → Option Callback

-- The constructor.
unfoldable pub signal_handler : SignalHandler
signal_handler = record { wait_mask = λ s. false; signal_func_map = λ s. none }

-- `sigaddset`, and the assignment to an entry of the map.
unfoldable pub add_signal : ℕ → SignalHandler → SignalHandler
add_signal num h = record h { wait_mask = λ s. if s == num then true else h.wait_mask s }

unfoldable pub set_callback : ℕ → Callback → SignalHandler → SignalHandler
set_callback num f h = record h {
  signal_func_map = λ s. if s == num then some f else h.signal_func_map s;
}

unfoldable pub register_signal : (num : ℕ) → Callback → SignalHandler → Status × SignalHandler
unfolding add_signal set_callback
register_signal num f h =
    let masked = add_signal num h in
    elim (masked.signal_func_map num) [
      | some g ↦ (failure, masked)
      | none ↦ (success, set_callback num f masked)
    ]

unfoldable pub register_quit_signal : (num : ℕ) → SignalHandler → Status × SignalHandler
unfolding add_signal set_callback
register_quit_signal num h =
    let masked = add_signal num h in
    elim (masked.signal_func_map num) [
      | some g ↦ (failure, masked)
      | none ↦ (success, set_callback num none masked)
    ]

-- The callbacks that run, and the result.
unfoldable pub event_loop : SignalHandler → List ℕ → List ℕ × Status
event_loop h [] = ([], success)
event_loop h (num ∷ nums) =
    let (rest, status) = event_loop h nums in
    elim (h.signal_func_map num) [
      | none ↦ ([], failure)
      | some f ↦ elim f [ none ↦ ([], success) | some g ↦ (g ∷ rest, status) ]
    ]

-- `set_terminate`: the arguments of `kill`, with SIGQUIT.
unfoldable pub set_terminate : (pid : ℕ) → ℕ × ℕ
set_terminate pid = (pid, 3)

-- `block_all_signal` blocks the full set, whatever is registered.
unfoldable pub block_all_signal : ℕ → Bool
block_all_signal num = true
