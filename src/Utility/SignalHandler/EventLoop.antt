-- ===== src/Utility/SignalHandler/EventLoop.antt =====
-- What the event loop does with the signals that were registered.
use newbee.Base.{
  ℕ, ◌≡◌, refl, sym, ap, ◌∙◌, Bool, true, false, Option, none, some, List, [], ◌∷◌, ◌==◌, ◌||◌,
  if◌then◌else◌, arith, Option-cases, inl, inr,
}
use newbee.Status.{Status, success}
use newbee.Utility.SignalHandler.{
  SignalHandler, Callback, signal_handler, register_signal, register_quit_signal, event_loop,
  add_signal, set_callback,
}

-- A registration: with a callback, or as a quit signal.
pub data Registration : Type 0 where
  handled_by : (num callback : ℕ) → Registration
  quits : (num : ℕ) → Registration

abbrev pub register : Registration → SignalHandler → SignalHandler
register (handled_by num g) h = (register_signal num (some g) h).1
register (quits num) h = (register_quit_signal num h).1

abbrev pub register_all : List Registration → SignalHandler → SignalHandler
register_all [] h = h
register_all (r ∷ rs) h = register_all rs (register r h)

-- What was registered first for a signal.
abbrev pub callback_of : ℕ → List Registration → Option Callback
callback_of s [] = none
callback_of s (handled_by num g ∷ rs) = if s == num then some (some g) else callback_of s rs
callback_of s (quits num ∷ rs) = if s == num then some none else callback_of s rs

-- The callback of a signal runs, if it has one, and then those of the rest.
abbrev callbacks_step : Option Callback → List ℕ → List ℕ
callbacks_step none rest = []
callbacks_step (some f) rest = elim f [ none ↦ [] | some g ↦ g ∷ rest ]

-- The callbacks of the signals up to the first that has none.
abbrev pub callbacks : List Registration → List ℕ → List ℕ
callbacks rs [] = []
callbacks rs (s ∷ ss) = callbacks_step (callback_of s rs) (callbacks rs ss)

-- The signals that `sigwait` can give are those of the mask.
abbrev pub AllMasked : SignalHandler → List ℕ → Type 0
AllMasked h [] = Unit {0}
AllMasked h (s ∷ ss) = (h.wait_mask s ≡ true) × AllMasked h ss

abbrev or_else : Option Callback → Option Callback → Option Callback
or_else none f = f
or_else (some f) g = some f

abbrev is_some : Option Callback → Bool
is_some none = false
is_some (some f) = true

set_map :
    (s num : ℕ) (f : Callback) (h : SignalHandler) (others : Option Callback)
    → h.signal_func_map num ≡ none
    → or_else ((set_callback num f h).signal_func_map s) others
      ≡ or_else (h.signal_func_map s) (if s == num then some f else others)
unfolding set_callback
set_map s num f h others e = ground arith

kept_map :
    (s num : ℕ) (f g : Callback) (h : SignalHandler) (others : Option Callback)
    → h.signal_func_map num ≡ some g
    → or_else (h.signal_func_map s) others
      ≡ or_else (h.signal_func_map s) (if s == num then some f else others)
kept_map s num f g h others e = ground arith

register-map :
    (r : Registration) (rs : List Registration) (h : SignalHandler) (s : ℕ)
    → or_else ((register r h).signal_func_map s) (callback_of s rs)
      ≡ or_else (h.signal_func_map s) (callback_of s (r ∷ rs))
unfolding register_signal register_quit_signal add_signal
register-map (handled_by num g) rs h s = elim (Option-cases (h.signal_func_map num)) [
  | inl e ↦ rw (register, e) (set_map s num (some g) (add_signal num h) (callback_of s rs) e)
  | inr (f, e) ↦ rw (register, e) (kept_map s num (some g) f h (callback_of s rs) e)
]
register-map (quits num) rs h s = elim (Option-cases (h.signal_func_map num)) [
  | inl e ↦ rw (register, e) (set_map s num none (add_signal num h) (callback_of s rs) e)
  | inr (f, e) ↦ rw (register, e) (kept_map s num none f h (callback_of s rs) e)
]

-- The signal of a registration.
abbrev signal_of : Registration → ℕ
signal_of (handled_by num g) = num
signal_of (quits num) = num

register-mask :
    (r : Registration) (h : SignalHandler) (s : ℕ)
    → (register r h).wait_mask s ≡ (if s == signal_of r then true else h.wait_mask s)
unfolding register_signal register_quit_signal add_signal set_callback
register-mask (handled_by num g) h s = elim (Option-cases (h.signal_func_map num)) [
  | inl e ↦ rw (register, e) refl
  | inr (f, e) ↦ rw (register, e) refl
]
register-mask (quits num) h s = elim (Option-cases (h.signal_func_map num)) [
  | inl e ↦ rw (register, e) refl
  | inr (f, e) ↦ rw (register, e) refl
]

pub register_all-map :
    (rs : List Registration) (h : SignalHandler) (s : ℕ)
    → (register_all rs h).signal_func_map s ≡ or_else (h.signal_func_map s) (callback_of s rs)
register_all-map [] h s = ground arith
register_all-map (r ∷ rs) h s = register_all-map rs (register r h) s ∙ register-map r rs h s

masked_found :
    (r : Registration) (rs : List Registration) (m : Bool) (s : ℕ)
    → ((if s == signal_of r then true else m) || is_some (callback_of s rs))
      ≡ (m || is_some (callback_of s (r ∷ rs)))
masked_found (handled_by num g) rs m s = ground arith
masked_found (quits num) rs m s = ground arith

register_all-mask :
    (rs : List Registration) (h : SignalHandler) (s : ℕ)
    → (register_all rs h).wait_mask s ≡ (h.wait_mask s || is_some (callback_of s rs))
register_all-mask [] h s = ground arith
register_all-mask (r ∷ rs) h s =
    register_all-mask rs (register r h) s
    ∙ ap (λ m. m || is_some (callback_of s rs)) (register-mask r h s)
    ∙ masked_found r rs (h.wait_mask s) s

event_loop-next :
    (h : SignalHandler) (s g : ℕ) (ss rest : List ℕ) (status : Status)
    → h.signal_func_map s ≡ some (some g)
    → event_loop h ss ≡ (rest, status)
    → event_loop h (s ∷ ss) ≡ (g ∷ rest, status)
unfolding event_loop
event_loop-next h s g ss rest status e ih =
    rw (event_loop, e) (ap (λ (r : List ℕ × Status). (g ∷ r.0, r.1)) ih)

event_loop-quit :
    (h : SignalHandler) (s : ℕ) (ss : List ℕ)
    → h.signal_func_map s ≡ some none
    → event_loop h (s ∷ ss) ≡ ([], success)
unfolding event_loop
event_loop-quit h s ss e = rw (event_loop, e) refl

-- Whatever was registered, with whatever repetitions: for signals of its mask, the event loop runs
-- the callback that was registered first for each, in order, ends at the first quit signal or
-- where `sigwait` fails, and never finds a signal without an entry.
pub event_loop-callbacks :
    (rs : List Registration) (ss : List ℕ)
    → AllMasked (register_all rs signal_handler) ss
    → event_loop (register_all rs signal_handler) ss ≡ (callbacks rs ss, success)
unfolding event_loop signal_handler
event_loop-callbacks rs [] masked = refl
event_loop-callbacks rs (s ∷ ss) (m, masked) =
    let ih = event_loop-callbacks rs ss masked in
    let found : is_some (callback_of s rs) ≡ true =
      sym (register_all-mask rs signal_handler s) ∙ m in
    let entry : (register_all rs signal_handler).signal_func_map s ≡ callback_of s rs =
      register_all-map rs signal_handler s in
    elim (Option-cases (callback_of s rs)) [
      | inl e ↦ absurd (cc (sym (ap is_some e) ∙ found))
      | inr (f, e) ↦ elim (Option-cases f) [
        | inl quit ↦
            event_loop-quit (register_all rs signal_handler) s ss (entry ∙ e ∙ ap some quit)
            ∙ ap (λ found. (callbacks_step found (callbacks rs ss), success))
                (sym (e ∙ ap some quit))
        | inr (g, call) ↦
            event_loop-next (register_all rs signal_handler) s g ss (callbacks rs ss) success
              (entry ∙ e ∙ ap some call) ih
            ∙ ap (λ found. (callbacks_step found (callbacks rs ss), success))
                (sym (e ∙ ap some call))
      ]
    ]
