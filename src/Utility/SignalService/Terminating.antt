-- ===== src/Utility/SignalService/Terminating.antt =====
-- The end of the event loop of the service.
use newbee.Base.{
  ℕ, ◌≡◌, refl, sym, ap, ◌∙◌, true, none, some, List, [], ◌∷◌, ◌++◌, ◌==◌, Option-cases, Bool-cases,
  inl, inr,
}
use newbee.Status.{Status, success}
use newbee.Utility.SignalHandler.{SignalHandler, signal_handler, event_loop, set_terminate}
use newbee.Utility.SignalHandler.EventLoop.{
  Registration, handled_by, quits, register_all, callback_of, callbacks, AllMasked,
  event_loop-callbacks, register_all-map,
}
use newbee.Utility.SignalService.{
  SignalService, started, start, terminate, sigint, sigquit, sigterm, sighup,
}

-- What follows a quit signal is not looked at.
event_loop-append :
    (h : SignalHandler) (ss : List ℕ) (q : ℕ) (later : List ℕ)
    → h.signal_func_map q ≡ some none
    → event_loop h (ss ++ q ∷ later) ≡ event_loop h ss
unfolding event_loop
event_loop-append h [] q later e = rw (event_loop, e) refl
event_loop-append h (s ∷ ss) q later e = elim (Option-cases (h.signal_func_map s)) [
  | inl n ↦ rw (event_loop, n) refl
  | inr (f, found) ↦ elim (Option-cases f) [
    | inl quit ↦ rw (event_loop, found, quit) refl
    | inr (g, call) ↦
        rw (event_loop, found, call)
          (ap (λ (r : List ℕ × Status). (g ∷ r.0, r.1)) (event_loop-append h ss q later e))
  ]
]

register_all-append :
    (rs rs' : List Registration) (h : SignalHandler)
    → register_all (rs ++ rs') h ≡ register_all rs' (register_all rs h)
register_all-append [] rs' h = refl
register_all-append (r ∷ rs) rs' h = register_all-append rs rs' _

abbrev quit_all : List ℕ → List Registration
quit_all [] = []
quit_all (num ∷ nums) = quits num ∷ quit_all nums

-- The registrations of `start`.
abbrev pub quit_signals : List Registration
quit_signals = quits sigint ∷ quits sigquit ∷ quits sigterm ∷ quits sighup ∷ []

callback_of-append :
    (s : ℕ) (rs rs' : List Registration)
    → callback_of s rs ≡ none
    → callback_of s (rs ++ rs') ≡ callback_of s rs'
callback_of-append s [] rs' e = refl
callback_of-append s (handled_by num g ∷ rs) rs' e = elim (Bool-cases (s == num)) [
  | inl y ↦ cc (rw y at e)
  | inr n ↦ rw n (callback_of-append s rs rs' (rw n at e))
]
callback_of-append s (quits num ∷ rs) rs' e = elim (Bool-cases (s == num)) [
  | inl y ↦ cc (rw y at e)
  | inr n ↦ rw n (callback_of-append s rs rs' (rw n at e))
]

-- The handler of a service that is started.
started-handler :
    (tid : ℕ) (rs : List Registration) (s : SignalService)
    → s.handler ≡ register_all rs signal_handler
    → (started tid s).handler ≡ register_all (rs ++ quit_signals) signal_handler
unfolding started
started-handler tid rs s e =
    ap (register_all quit_signals) e ∙ sym (register_all-append rs quit_signals signal_handler)

-- If no callback was registered for SIGQUIT, the thread that `start` was called on is the one that
-- `terminate` signals, and where that signal arrives, behind signals of the mask, the event loop
-- has run the callbacks of the signals before it up to the first that quits, and ends with
-- success, whatever would follow.
pub start-terminated :
    (tid : ℕ) (rs : List Registration) (s : SignalService) (ss later : List ℕ)
    → s.handler ≡ register_all rs signal_handler
    → callback_of sigquit rs ≡ none
    → AllMasked (register_all (rs ++ quit_signals) signal_handler) ss
    → ((terminate (started tid s)).0.0 ≡ tid)
      × ((terminate (started tid s)).1.is_terminated ≡ true)
      × (start tid (ss ++ (terminate (started tid s)).0.1 ∷ later) s
          ≡ (callbacks (rs ++ quit_signals) ss, success))
unfolding start started terminate set_terminate signal_handler
start-terminated tid rs s ss later e free masked =
    let h = started-handler tid rs s e in
    let found : (register_all (rs ++ quit_signals) signal_handler).signal_func_map sigquit
        ≡ some none =
      register_all-map (rs ++ quit_signals) signal_handler sigquit
      ∙ callback_of-append sigquit rs quit_signals free in
    (
      refl,
      refl,
      rw h (
          event_loop-append (register_all (rs ++ quit_signals) signal_handler) ss sigquit later
            found
          ∙ event_loop-callbacks (rs ++ quit_signals) ss masked),
    )
