-- ===== src/Rpc/ConnMonitor.antt =====
-- mylib/rpc/rpc_conn_monitor: the heart beat service that watches connections.
-- The callback of the service is `handle_timeout` of the monitor: its calls are those that the
-- element manager records while the thread runs a task or a tick. `asyn_add_element` and its two kin,
-- which the service does not have, are read as its `async_add_element` and so on.
pub mod Closing
mod Examples
use newbee.Base.{
  ℕ, ◌+◌, Bool, true, false, not, List, [], ◌∷◌, ◌++◌, if◌then◌else◌, Eq, length, drop,
}
use newbee.Memory.{Run, ok, and_then}
use newbee.Status.{Status, success, failure}
use newbee.HeartBeat.Service
use newbee.HeartBeat.Service.{Service, service}

-- `heart_beat_setting_t`.
pub record Setting : Type 0 where
  pub timeout_flag : Bool
  pub timeout : ℕ
  pub max_limit_flag : Bool
  pub max_limit : ℕ

-- The setting that `start_monitor` has for NULL.
abbrev pub default_setting : Setting
default_setting = record {
  timeout_flag = false;
  timeout = 86400;
  max_limit_flag = true;
  max_limit = 50000;
}

-- `rpc_conn_monitor_t`; `closed` are the connections whose `close` was called.
pub record ConnMonitor (E : Type 0) : Type 0 where
  pub started : Bool
  pub conn_heart_beat : Service E
  pub closed : List E

module _ {E : Type 0} where
  -- The constructor.
  unfoldable pub conn_monitor : ⦃q : Eq E⦄ → (flag : Bool) → ConnMonitor E
  conn_monitor flag = record { started = false; conn_heart_beat = service flag; closed = [] }

  -- The results of the three setters are not looked at.
  unfoldable pub start : (now : ℕ) → Setting → ConnMonitor E → Run (Status × ConnMonitor E)
  unfolding Service.set_callback_function Service.set_timeout Service.set_max_limit Service.start
  start now setting m =
      if m.started
      then ok (success, m)
      else (and_then (Service.set_callback_function true m.conn_heart_beat) λ a.
          and_then (Service.set_timeout setting.timeout_flag setting.timeout a.1) λ b.
            and_then (Service.set_max_limit setting.max_limit_flag setting.max_limit b.1) λ c.
              let s = Service.start now c.1 in
              elim (s.0) [
                | failure ↦ ok (failure, record m { conn_heart_beat = s.1 })
                | success ↦ ok (success, record m { conn_heart_beat = s.1; started = true })
              ])

  unfoldable pub close_all : ConnMonitor E → ConnMonitor E
  unfolding Service.trigger_all_timeout
  close_all m =
      if not m.started
      then m
      else record m { conn_heart_beat = Service.trigger_all_timeout m.conn_heart_beat }

  unfoldable pub stop : ConnMonitor E → Status × ConnMonitor E
  unfolding close_all
  stop m =
      if not m.started then (success, m) else (success, record (close_all m) { started = false })

  unfoldable pub add : E → ConnMonitor E → ConnMonitor E
  unfolding Service.async_add_element
  add conn m =
      if not m.started
      then m
      else record m { conn_heart_beat = Service.async_add_element conn m.conn_heart_beat }

  unfoldable pub update : E → ConnMonitor E → ConnMonitor E
  unfolding Service.async_update_element
  update conn m =
      if not m.started
      then m
      else record m { conn_heart_beat = Service.async_update_element conn m.conn_heart_beat }

  unfoldable pub del : E → ConnMonitor E → ConnMonitor E
  unfolding Service.async_del_element
  del conn m =
      if not m.started
      then m
      else record m { conn_heart_beat = Service.async_del_element conn m.conn_heart_beat }

  unfoldable pub handle_timeout : E → ConnMonitor E → ConnMonitor E
  handle_timeout conn m = if not m.started then m else record m { closed = m.closed ++ conn ∷ [] }

  -- The calls of the callback, in order.
  abbrev pub handle_all : List E → ConnMonitor E → ConnMonitor E
  handle_all [] m = m
  handle_all (conn ∷ conns) m = handle_all conns (handle_timeout conn m)

  -- The service is now `s`, and the callback was called for what its manager has recorded since.
  abbrev pub called_back : Service E → ConnMonitor E → ConnMonitor E
  called_back s m =
      handle_all (drop (length m.conn_heart_beat.manager.called) s.manager.called)
        (record m { conn_heart_beat = s })

module _ {E : Type 0} ⦃q : Eq E⦄ where
  -- The thread of the service runs its next task, or the handler of its timer.
  unfoldable pub work : (fuel fresh now : ℕ) → ConnMonitor E → Run (ConnMonitor E)
  unfolding Service.work handle_timeout
  work fuel fresh now m =
      and_then (Service.work fuel fresh now m.conn_heart_beat) λ s. ok (called_back s m)

  unfoldable pub tick : (fuel now : ℕ) → ConnMonitor E → Run (ConnMonitor E)
  unfolding Service.handle_timeout handle_timeout
  tick fuel now m =
      and_then (Service.handle_timeout fuel now m.conn_heart_beat) λ r. ok (called_back r.1 m)
