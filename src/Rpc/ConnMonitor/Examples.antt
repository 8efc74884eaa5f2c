-- ===== src/Rpc/ConnMonitor/Examples.antt =====
-- A monitor of two connections, 8 and 7.
use newbee.Base.{ℕ, ◌≡◌, refl, true, [], ◌∷◌, arith, nat_eq}
use newbee.Memory.{Returns}
use newbee.HeartBeat.ElementMgr.{entry}
use newbee.HeartBeat.ElementMgr.Spec
use newbee.HeartBeat.ElementMgr.Implements.{Implements}
use newbee.HeartBeat.ElementMgr.Clear.{Emptied}
use newbee.HeartBeat.ElementMgr.Examples.{two_up_to, two_held, two_Implements}
use newbee.HeartBeat.Service
use newbee.HeartBeat.Service.Examples.{two_service}
use newbee.Rpc.ConnMonitor.{ConnMonitor, stop, work, tick}
use newbee.Rpc.ConnMonitor.Closing.{tick-closes, stop-closes_nothing}

abbrev watching : ConnMonitor ℕ
watching = record { started = true; conn_heart_beat = two_service; closed = [] }

tick-closes_example :
    Returns
      (λ m.
        (m.closed ≡ 7 ∷ [])
        × Implements m.conn_heart_beat.manager
            (record two_held { entries = entry 8 6 ∷ []; called = 7 ∷ [] }))
      (tick 3 15 watching)
tick-closes_example =
    tick-closes watching two_held 3 15 refl two_Implements ((omega arith, tt), (tt, tt)) refl refl
      (omega arith)

stop-closes_nothing_example :
    Returns
      (λ m.
        (m.closed ≡ [])
        × Emptied (two_up_to 2) m.conn_heart_beat.manager (Spec.trigger_all_timeout two_held))
      (work 3 0 9 (stop watching).1)
unfolding Service.start Service.service
stop-closes_nothing_example =
    stop-closes_nothing watching two_held 3 0 9 refl refl refl two_Implements (omega arith)
