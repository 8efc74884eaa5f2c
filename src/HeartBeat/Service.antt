-- ===== src/HeartBeat/Service.antt =====
-- mylib/heart_beat/heart_beat_service.h: the service that owns an element manager. Its public
-- functions post tasks to `m_io_service`; one thread runs the tasks in the order of the posts, and
-- the handler of the timer between them. The clock, the pool's answer and the fuel of the manager's
-- loops are arguments, as in the model of the manager.
pub mod Examples
pub mod Runs
pub mod Progress
pub mod Replay
pub mod Settings
pub mod Stop
use newbee.Base.{ℕ, ◌+◌, ◌≡◌, Bool, true, false, not, List, [], ◌∷◌, ◌++◌, if◌then◌else◌, Eq}
use newbee.Memory.{Run, ok, and_then}
use newbee.HeartBeat.NodeList.{Ptr, Status, success, failure}
use newbee.HeartBeat.ElementMgr
use newbee.HeartBeat.ElementMgr.{Mgr}

-- `HEART_BEAT_TICKS`.
abbrev pub heart_beat_ticks : ℕ
heart_beat_ticks = 10

-- The functions that are bound and posted.
pub data Task (E : Type 0) : Type 0 where
  add_task : E → Task E
  update_task : E → Task E
  del_task : E → Task E
  get_all_task : Task E
  trigger_task : Task E
  stop_task : Task E

-- `heart_beat_service_t`: `queue` are the tasks that `m_io_service` holds, `io_stopped` says that
-- it was stopped, `timer` is when `m_timer` expires, and `collected` is the caller's vector.
pub record Service (E : Type 0) : Type 0 where
  pub started : Bool
  pub io_stopped : Bool
  pub queue : List (Task E)
  pub timer : ℕ
  pub manager : Mgr E
  pub get_element_flag : Bool
  pub collected : List E

module _ {E : Type 0} where
  -- The constructor. `m_get_element_flag` is not initialized there: `flag` is what it holds.
  unfoldable pub service : ⦃q : Eq E⦄ → (flag : Bool) → Service E
  service flag = record {
    started = false;
    io_stopped = false;
    queue = [];
    timer = 0;
    manager = ElementMgr.init;
    get_element_flag = flag;
    collected = [];
  }

  -- A setter of the manager, which is refused once the service is started.
  abbrev configure : ElementMgr.M E Status → Service E → Run (Status × Service E)
  configure set s =
      if s.started
      then ok (failure, s)
      else and_then (set s.manager) (λ r. ok (r.0, record s { manager = r.1 }))

  unfoldable pub set_callback_function : Bool → Service E → Run (Status × Service E)
  unfolding ElementMgr.set_callback_function
  set_callback_function present = configure (ElementMgr.set_callback_function present)

  unfoldable pub set_timeout : Bool → ℕ → Service E → Run (Status × Service E)
  unfolding ElementMgr.set_timeout
  set_timeout flag seconds = configure (ElementMgr.set_timeout flag seconds)

  unfoldable pub set_max_limit : Bool → ℕ → Service E → Run (Status × Service E)
  unfolding ElementMgr.set_max_limit
  set_max_limit flag limit = configure (ElementMgr.set_max_limit flag limit)

  -- `m_io_service.post`.
  abbrev pub post : Task E → Service E → Service E
  post t s = record s { queue = s.queue ++ t ∷ [] }

  unfoldable pub start : (now : ℕ) → Service E → Status × Service E
  start now s =
      if s.started
      then (success, s)
      else (success, record s { timer = now + heart_beat_ticks; started = true })

  -- `stop` up to the `join` of the thread, and what is behind it.
  unfoldable pub stop_posts : Service E → Service E
  stop_posts s = if not s.started then s else post stop_task s

  unfoldable pub stop_joined : Service E → Status × Service E
  stop_joined s = if not s.started then (success, s) else (success, record s { started = false })

  unfoldable pub async_add_element : E → Service E → Service E
  async_add_element e = post (add_task e)

  unfoldable pub async_update_element : E → Service E → Service E
  async_update_element e = post (update_task e)

  unfoldable pub async_del_element : E → Service E → Service E
  async_del_element e = post (del_task e)

  -- `get_all_element_and_clear` up to its wait for the flag.
  unfoldable pub get_all_posts : Service E → Service E
  get_all_posts s = post get_all_task (record s { get_element_flag = false })

  unfoldable pub trigger_all_timeout : Service E → Service E
  trigger_all_timeout = post trigger_task

  -- Runs a function of the manager.
  abbrev pub on_manager : {A : Type 0} → ElementMgr.M E A → Service E → Run (A × Service E)
  on_manager c s = and_then (c s.manager) λ r. ok (r.0, record s { manager = r.1 })

  unfoldable pub stop_service : (fuel : ℕ) → Service E → Run (Status × Service E)
  unfolding ElementMgr.clear_element
  stop_service fuel s =
      and_then (on_manager (ElementMgr.clear_element fuel) s)
        λ r. ok (success, record (r.1) { io_stopped = true })

  unfoldable pub get_all_element_and_clear_i : (fuel : ℕ) → Service E → Run (Status × Service E)
  unfolding ElementMgr.get_all_element_and_clear
  get_all_element_and_clear_i fuel s =
      and_then (on_manager (ElementMgr.get_all_element_and_clear fuel s.collected) s)
        λ r. ok (success, record (r.1) { collected = r.0.1; get_element_flag = true })

  unfoldable pub trigger_all_timeout_i : (fuel : ℕ) → Service E → Run (Status × Service E)
  unfolding ElementMgr.trigger_all_timeout
  trigger_all_timeout_i fuel s =
      and_then (on_manager (ElementMgr.trigger_all_timeout fuel) s) λ r. ok (success, r.1)

module _ {E : Type 0} ⦃q : Eq E⦄ where
  unfoldable pub add_element : (fresh : Ptr) → (now : ℕ) → E → Service E → Run (Status × Service E)
  unfolding ElementMgr.add_element
  add_element fresh now e = on_manager (ElementMgr.add_element fresh now e)

  unfoldable pub update_element : (now : ℕ) → E → Service E → Run (Status × Service E)
  unfolding ElementMgr.update_element
  update_element now e = on_manager (ElementMgr.update_element now e)

  unfoldable pub del_element : E → Service E → Run (Status × Service E)
  unfolding ElementMgr.del_element
  del_element e = on_manager (ElementMgr.del_element e)

  -- The handler of the timer, which sets it again first; an error is only logged.
  unfoldable pub handle_timeout : (fuel now : ℕ) → Service E → Run (Status × Service E)
  unfolding ElementMgr.handle_timeout
  handle_timeout fuel now s =
      on_manager (ElementMgr.handle_timeout fuel now)
        (record s { timer = s.timer + heart_beat_ticks })

  abbrev pub run_task :
      (fuel : ℕ) → (fresh : Ptr) → (now : ℕ) → Task E → Service E → Run (Status × Service E)
  run_task fuel fresh now (add_task e) = add_element fresh now e
  run_task fuel fresh now (update_task e) = update_element now e
  run_task fuel fresh now (del_task e) = del_element e
  run_task fuel fresh now get_all_task = get_all_element_and_clear_i fuel
  run_task fuel fresh now trigger_task = trigger_all_timeout_i fuel
  run_task fuel fresh now stop_task = stop_service fuel

  -- What the thread does next: a stopped `m_io_service` runs nothing.
  unfoldable pub work : (fuel : ℕ) → (fresh : Ptr) → (now : ℕ) → Service E → Run (Service E)
  unfolding add_element update_element del_element stop_service get_all_element_and_clear_i
      trigger_all_timeout_i
  work fuel fresh now s = if s.io_stopped then ok s else (elim s.queue [
    | [] ↦ ok s
    | k ∷ ks ↦ and_then (run_task fuel fresh now k (record s { queue = ks })) λ r. ok r.1
  ])
