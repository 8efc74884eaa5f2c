-- ===== src/Utility/SignalHandler/Examples.antt =====
-- Two signals with callbacks, one of them registered twice, and a quit signal.
use newbee.Base.{◌≡◌, refl, List, [], ◌∷◌}
use newbee.Status.{success}
use newbee.Utility.SignalHandler.{
  signal_handler, event_loop, register_signal, register_quit_signal, add_signal, set_callback,
}
use newbee.Utility.SignalHandler.EventLoop.{
  Registration, handled_by, quits, register_all, AllMasked, event_loop-callbacks,
}

abbrev registrations : List Registration
registrations = handled_by 10 1 ∷ handled_by 12 2 ∷ handled_by 10 3 ∷ quits 15 ∷ []

all-AllMasked : AllMasked (register_all registrations signal_handler) (12 ∷ 10 ∷ 15 ∷ 12 ∷ [])
unfolding signal_handler register_signal register_quit_signal add_signal set_callback
all-AllMasked = (refl, (refl, (refl, (refl, tt))))

event_loop-callbacks_example :
    event_loop (register_all registrations signal_handler) (12 ∷ 10 ∷ 15 ∷ 12 ∷ [])
    ≡ (2 ∷ 1 ∷ [], success)
event_loop-callbacks_example =
    event_loop-callbacks registrations (12 ∷ 10 ∷ 15 ∷ 12 ∷ []) all-AllMasked
