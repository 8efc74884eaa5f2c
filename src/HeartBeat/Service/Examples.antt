-- ===== src/HeartBeat/Service/Examples.antt =====
-- A service with a time-out and a limit, for heart_beat_service.h.
use newbee.Base.{ℕ, ◌≡◌, refl, false, none, [], ◌∷◌, arith, nat_eq}
use newbee.Memory.{Run, ok, fault, out_of_fuel, Returns, returns, Returns-ok, holds}
use newbee.HeartBeat.NodeList
use newbee.HeartBeat.NodeList.{Status, success, failure}
use newbee.HeartBeat.ElementMgr
use newbee.HeartBeat.ElementMgr.{Mgr, evict, init, entry}
use newbee.HeartBeat.ElementMgr.Spec
use newbee.HeartBeat.ElementMgr.Clear.{Emptied}
use newbee.HeartBeat.ElementMgr.History.{configured}
use newbee.HeartBeat.ElementMgr.Examples.{two_up_to, two_held, two_Implements, limits}
use newbee.HeartBeat.Service.{
  Service, add_task, update_task, service, start, post, run_task, add_element, update_element, work,
  stop_posts, stop_joined,
}
use newbee.HeartBeat.Service.Runs.{Runs, begun, asked, worked}
use newbee.HeartBeat.Service.Replay.{Runs-replay}
use newbee.HeartBeat.ElementMgr.Implements.{Implements}
use newbee.HeartBeat.Service.Progress.{Supplied, work_on, work_on-done}
use newbee.HeartBeat.Service.Stop.{IsDead, stop-Emptied}

abbrev fresh_service : Service ℕ
fresh_service = record (service false) { manager = configured limits }

abbrev pub idle_service : Service ℕ
idle_service = (start 5 fresh_service).1

abbrev pub two_service : Service ℕ
two_service = record idle_service { manager = two_up_to 2 }

stop-Emptied_example :
    Returns
      (λ s.
        Emptied (two_up_to 2) s.manager (Spec.clear_element two_held)
        × ((stop_joined s).1.started ≡ false)
        × IsDead (stop_joined s).1)
      (work 3 0 9 (stop_posts two_service))
unfolding start service
stop-Emptied_example =
    stop-Emptied two_service two_held 3 0 9 refl refl refl two_Implements (omega arith)

abbrev state_of : Run (Status × Service ℕ) → Service ℕ
state_of (ok r) = r.1
state_of fault = fresh_service
state_of out_of_fuel = fresh_service

-- Element 7 is added, and its beat waits in the queue.
abbrev asked_service : Service ℕ
asked_service = post (update_task 7) (post (add_task 7) idle_service)

abbrev worked_service : Service ℕ
worked_service =
    state_of (run_task 1 1 5 (add_task 7) (record asked_service { queue = update_task 7 ∷ [] }))

service_ran :
    run_task 1 1 5 (add_task 7) (record asked_service { queue = update_task 7 ∷ [] })
    ≡ ok (success, worked_service)
unfolding start service init add_element evict ElementMgr.construct ElementMgr.add_element
    NodeList.push_front NodeList.load NodeList.set_front NodeList.set_next NodeList.write
service_ran = refl

one_unused : (m : Mgr ℕ) → evict idle_service.manager ≡ ok (tt, m) → m.busy_list.heap 1 ≡ none
unfolding evict init start service
one_unused m ran = Returns-ok (λ r. r.1.busy_list.heap 1 ≡ none) _ (tt, m) (returns refl) ran

Runs-replay_example :
    Implements worked_service.manager
      (record { entries = entry 7 5 ∷ []; called = []; config = limits })
    × (add_task 7 ∷ update_task 7 ∷ [] ≡ add_task 7 ∷ worked_service.queue)
    × (worked_service.timer ≡ 15)
unfolding init start service Spec.add_element Spec.evict
Runs-replay_example =
    Runs-replay limits (λ on. omega arith) 5 (add_task 7 ∷ update_task 7 ∷ []) (add_task 7 ∷ [])
      worked_service
      (worked 1 1 (add_task 7)
        (asked (update_task 7) refl (asked (add_task 7) refl (begun 5 false))) refl (omega arith)
        one_unused service_ran)

-- The pool answers with the addresses 1 and 2.
two_answers : Supplied 1 5 (1 ∷ 2 ∷ []) asked_service
unfolding start service init add_element update_element evict ElementMgr.construct
    ElementMgr.add_element ElementMgr.update_element NodeList.push_front NodeList.load
    NodeList.set_front NodeList.set_next NodeList.write NodeList.erase work NodeList.erase_header
    NodeList.erase_behind ElementMgr.set_time
two_answers = (
  one_unused,
  holds (
    (λ m ran. Returns-ok (λ r. r.1.busy_list.heap 2 ≡ none) _ (tt, m) (returns refl) ran),
    holds tt,
  ),
)

work_on-done_example :
    Returns
      (λ s.
        Runs limits 5 (add_task 7 ∷ update_task 7 ∷ []) (add_task 7 ∷ update_task 7 ∷ []) s
        × (s.queue ≡ []))
      (work_on 1 5 (1 ∷ 2 ∷ []) asked_service)
unfolding init start service
work_on-done_example =
    work_on-done limits (λ on. omega arith) 1 5 (1 ∷ 2 ∷ []) (add_task 7 ∷ update_task 7 ∷ []) []
      asked_service (asked (update_task 7) refl (asked (add_task 7) refl (begun 5 false))) refl
      (omega arith) two_answers
