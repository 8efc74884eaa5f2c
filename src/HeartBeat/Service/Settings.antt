-- ===== src/HeartBeat/Service/Settings.antt =====
-- The settings of a heart beat service: they are made before `start`, and never behind it.
use newbee.Base.{ℕ, ◌≡◌, refl, true, Bool, Eq}
use newbee.Memory.{Run, ok, and_then}
use newbee.HeartBeat.NodeList.{failure}
use newbee.HeartBeat.ElementMgr
use newbee.HeartBeat.ElementMgr.Spec.{Config}
use newbee.HeartBeat.ElementMgr.History.{configured}
use newbee.HeartBeat.Service.{
  Service, service, set_callback_function, set_timeout, set_max_limit, start,
}

module _ {E : Type 0} ⦃q : Eq E⦄ where
  -- The setters, then `start`.
  abbrev pub set_up : (flag : Bool) → (now : ℕ) → Config → Run (Service E)
  set_up flag now c = and_then (set_callback_function c.has_callback (service flag)) λ a.
      and_then (set_timeout c.timeout_flag c.timeout a.1)
        λ b. and_then (set_max_limit c.max_limit_flag c.max_limit b.1) λ d. ok (start now d.1).1

  -- The setters and `start` leave a started service with a new manager that has exactly these
  -- settings; in a service that is started each setter reports a failure and changes nothing.
  pub set_up-configured :
      (flag : Bool) (now : ℕ) (c : Config) (s : Service E) (p : Bool) (k : ℕ)
      → s.started ≡ true
      → (set_up flag now c ≡ ok (start now (record (service flag) { manager = configured c })).1)
        × (set_callback_function p s ≡ ok (failure, s))
        × (set_timeout p k s ≡ ok (failure, s))
        × (set_max_limit p k s ≡ ok (failure, s))
  unfolding service set_callback_function set_timeout set_max_limit start ElementMgr.init
      ElementMgr.set_callback_function ElementMgr.set_timeout ElementMgr.set_max_limit
  set_up-configured flag now c s p k on = (refl, simp on refl, simp on refl, simp on refl)
