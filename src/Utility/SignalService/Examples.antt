-- ===== src/Utility/SignalService/Examples.antt =====
-- A service with a callback for the signal 10.
use newbee.Base.{◌≡◌, refl, true, false, List, [], ◌∷◌, ◌++◌}
use newbee.Status.{success}
use newbee.Utility.SignalHandler.{
  signal_handler, register_signal, register_quit_signal, add_signal, set_callback,
}
use newbee.Utility.SignalHandler.EventLoop.{Registration, handled_by, register_all, AllMasked}
use newbee.Utility.SignalService.{SignalService, started, start, terminate}
use newbee.Utility.SignalService.Terminating.{quit_signals, start-terminated}

abbrev one_callback : List Registration
one_callback = handled_by 10 7 ∷ []

abbrev service : SignalService
service = record {
  pid = 0;
  is_terminated = false;
  handler = register_all one_callback signal_handler;
}

two_masked : AllMasked (register_all (one_callback ++ quit_signals) signal_handler) (10 ∷ 10 ∷ [])
unfolding signal_handler register_signal register_quit_signal add_signal set_callback
two_masked = (refl, (refl, tt))

start-terminated_example :
    ((terminate (started 42 service)).0.0 ≡ 42)
    × ((terminate (started 42 service)).1.is_terminated ≡ true)
    × (start 42 ((10 ∷ 10 ∷ []) ++ (terminate (started 42 service)).0.1 ∷ 9 ∷ []) service
        ≡ (7 ∷ 7 ∷ [], success))
start-terminated_example =
    start-terminated 42 one_callback service (10 ∷ 10 ∷ []) (9 ∷ []) refl refl two_masked
