-- ===== src/Utility/IoServicePool/Examples.antt =====
-- A pool of three services, and five calls.
use newbee.Base.{◌≡◌, [], ◌∷◌, arith}
use newbee.Memory.{Returns, and_then}
use newbee.Utility.IoServicePool.{io_service_pool, start}
use newbee.Utility.IoServicePool.Turns.{get_services, get_services-turns}

get_services-turns_example :
    Returns
      (λ r. r.0 ≡ 0 ∷ 1 ∷ 2 ∷ 0 ∷ 1 ∷ [])
      (and_then (start 3 io_service_pool) (get_services 5))
get_services-turns_example = get_services-turns 3 5 (omega arith) (omega arith)
