-- ===== src/Utility/SignalService.antt =====
-- mylib/utility/signal_service.h: the thread that waits for signals. A thread is known by its number.
pub mod Terminating
mod Examples
use newbee.Base.{ℕ, Bool, true, false, List, [], ◌∷◌}
use newbee.Status.{Status}
use newbee.Utility.SignalHandler.{
  SignalHandler, signal_handler, register_quit_signal, event_loop, set_terminate,
}

abbrev pub sighup : ℕ
sighup = 1

abbrev pub sigint : ℕ
sigint = 2

abbrev pub sigquit : ℕ
sigquit = 3

abbrev pub sigterm : ℕ
sigterm = 15

-- `signal_service_t`; the numbers of the thread and the flag are not initialized by the source.
pub record SignalService : Type 0 where
  pub pid : ℕ
  pub is_terminated : Bool
  pub handler : SignalHandler

abbrev pub quit_on : ℕ → SignalService → SignalService
quit_on num s = record s { handler = (register_quit_signal num s.handler).1 }

abbrev pub quit_on_all : List ℕ → SignalService → SignalService
quit_on_all [] s = s
quit_on_all (num ∷ nums) s = quit_on_all nums (quit_on num s)

-- `start` up to the event loop, and the event loop with the signals that `sigwait` gives.
unfoldable pub started : (tid : ℕ) → SignalService → SignalService
started tid s =
    quit_on_all (sigint ∷ sigquit ∷ sigterm ∷ sighup ∷ [])
      (record s { pid = tid; is_terminated = false })

unfoldable pub start : (tid : ℕ) → (signals : List ℕ) → SignalService → List ℕ × Status
unfolding started event_loop
start tid signals s = event_loop (started tid s).handler signals

-- `start` with the signals to quit on.
unfoldable pub start_on : (quit_signals signals : List ℕ) → SignalService → List ℕ × Status
unfolding event_loop
start_on quit_signals signals s =
    event_loop (quit_on_all quit_signals (record s { is_terminated = false })).handler signals

-- `terminate`: the thread and the signal that `kill` is called with.
unfoldable pub terminate : SignalService → (ℕ × ℕ) × SignalService
unfolding set_terminate
terminate s = (set_terminate s.pid, record s { is_terminated = true })
