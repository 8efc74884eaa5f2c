-- ===== src/HeartBeat/Service/Stop.antt =====
-- `stop` of a heart beat service, and what is left of it.
use newbee.Base.{ℕ, ◌<◌, ◌≡◌, refl, sym, subst, true, false, [], Eq, length}
use newbee.Memory.{Run, ok, fault, out_of_fuel, and_then, Returns, returns, Returns-bind}
use newbee.HeartBeat.NodeList.{Status, success}
use newbee.HeartBeat.ElementMgr
use newbee.HeartBeat.ElementMgr.Spec
use newbee.HeartBeat.ElementMgr.Spec.{Spec, elements_of}
use newbee.HeartBeat.ElementMgr.Implements.{Implements}
use newbee.HeartBeat.ElementMgr.Clear.{Emptied, clear_element-Emptied}
use newbee.HeartBeat.Service.{
  Service, stop_posts, stop_joined, start, work, async_add_element, stop_service,
}

module _ {E : Type 0} ⦃q : Eq E⦄ where
  -- A stopped service that is started again reports success and says that it is started, but its
  -- `m_io_service` was never reset, and the thread runs nothing that is posted to it.
  abbrev pub IsDead : Service E → Type 0
  IsDead s =
      (now : ℕ)
      → ((start now s).1.started ≡ true)
        × ((e : E) (fuel fresh t : ℕ)
            → work fuel fresh t (async_add_element e (start now s).1)
              ≡ ok (async_add_element e (start now s).1))

  -- The thread clears the manager and stops.
  abbrev StopsBy : (fuel fresh now : ℕ) → Service E → Type 0
  StopsBy fuel fresh now s =
      work fuel fresh now (stop_posts s)
      ≡ and_then (ElementMgr.clear_element fuel s.manager)
          (λ r. ok (record s { manager = r.1; io_stopped = true; queue = [] }))

  cleared :
      (s : Service E) (r : Run (Status × ElementMgr.Mgr E))
      → and_then
          (and_then {B = Status × Service E}
            (and_then {B = Status × Service E} r (λ x.
              ok (x.0, record s { manager = x.1; started = true; io_stopped = false; queue = [] })))
            (λ x. ok (success, record (x.1) { io_stopped = true })))
          (λ x. ok x.1)
        ≡ and_then r
            (λ x. ok (record s { manager = x.1; started = true; io_stopped = true; queue = [] }))
  cleared s (ok x) = refl
  cleared s fault = refl
  cleared s out_of_fuel = refl

  work-stop :
      (s : Service E) (fuel fresh now : ℕ)
      → s.started ≡ true
      → s.io_stopped ≡ false
      → s.queue ≡ []
      → StopsBy fuel fresh now s
  unfolding stop_posts work stop_service
  work-stop s fuel fresh now on running idle =
      subst {A = Service E} (StopsBy fuel fresh now)
        (λ i. record s { started = sym on i; io_stopped = sym running i; queue = sym idle i })
        (cleared s (ElementMgr.clear_element fuel s.manager))

  joined-IsDead :
      (s : Service E)
      → s.started ≡ true
      → s.io_stopped ≡ true
      → ((stop_joined s).1.started ≡ false) × IsDead (stop_joined s).1
  unfolding stop_joined start work async_add_element
  joined-IsDead s on stopped =
      subst {A = Service E} (λ t. ((stop_joined t).1.started ≡ false) × IsDead (stop_joined t).1)
        (λ i. record s { started = sym on i; io_stopped = sym stopped i })
        (refl, λ now. (refl, λ e fuel fresh t. refl))

  -- A started service with nothing in its queue, whose manager implements a list of fewer entries
  -- than there is fuel, stops: the thread runs `stop_service`, the elements are cleared without a
  -- callback, and the service is not started any more; if it is started again, it says that it is
  -- started and the thread does not run what is posted.
  pub stop-Emptied :
      (s : Service E) (spec : Spec E) (fuel fresh now : ℕ)
      → s.started ≡ true
      → s.io_stopped ≡ false
      → s.queue ≡ []
      → Implements s.manager spec
      → length spec.entries < fuel
      → Returns
          (λ s'.
            Emptied s.manager s'.manager (Spec.clear_element spec)
            × ((stop_joined s').1.started ≡ false)
            × IsDead (stop_joined s').1)
          (work fuel fresh now (stop_posts s))
  stop-Emptied s spec fuel fresh now on running idle i enough =
      rw (work-stop s fuel fresh now on running idle) (
        Returns-bind (clear_element-Emptied s.manager spec fuel i enough) λ (_, m) (_, emptied).
          let dead =
            joined-IsDead (record s { manager = m; io_stopped = true; queue = [] }) on refl in
          returns (
            record { rep = emptied.rep; view = emptied.view; stale = emptied.stale },
            dead.0,
            dead.1,
          ))
