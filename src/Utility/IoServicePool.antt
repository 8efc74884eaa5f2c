-- ===== src/Utility/IoServicePool.antt =====
-- mylib/utility/io_service_pool: the pool of io services, which are given out in turn. An
-- io_service is known by its number; the `work` objects and the threads by the number of the service
-- that they hold or run. An exception and a division by 0 are faults; `size_t` has 64 bits.
mod Examples
pub mod Turns
use newbee.Base.{
  ℕ, zero, suc, ◌+◌, ◌%◌, ◌^◌, Bool, true, false, List, [], ◌∷◌, ◌++◌, ltb, ◌==◌, if◌then◌else◌,
  length,
}
use newbee.Memory.{Run, ok, fault, and_then}

-- `io_service_pool_t`.
pub record IoServicePool : Type 0 where
  pub io_services_set : List ℕ
  pub work_set : List ℕ
  pub next_io_service : ℕ
  pub vt_threads : List ℕ

-- The constructor.
unfoldable pub io_service_pool : IoServicePool
io_service_pool = record {
  io_services_set = [];
  work_set = [];
  next_io_service = 0;
  vt_threads = [];
}

abbrev pub size_mod : ℕ
size_mod = 2 ^ 64

-- `n` numbers from `first` on: the services that the first loop of `start` makes.
abbrev pub numbers : (first n : ℕ) → List ℕ
numbers first zero = []
numbers first (suc n) = first ∷ numbers (suc first) n

-- `set[index]`, which is not checked.
abbrev pub at : List ℕ → ℕ → Run ℕ
at [] index = fault
at (s ∷ set) zero = ok s
at (s ∷ set) (suc index) = at set index

unfoldable pub start : (pool_size : ℕ) → IoServicePool → Run IoServicePool
start pool_size p =
    if pool_size == 0
    then fault
    else (let new = numbers (length p.io_services_set) pool_size in
        let set = p.io_services_set ++ new in
        ok (record p {
          io_services_set = set;
          work_set = p.work_set ++ new;
          vt_threads = p.vt_threads ++ set;
        }))

-- `stop` joins the threads of `vt_threads`, in order, before it forgets them.
unfoldable pub stop : IoServicePool → IoServicePool
stop p = record p { work_set = []; vt_threads = [] }

unfoldable pub get_io_service : IoServicePool → Run (ℕ × IoServicePool)
get_io_service p =
    if length p.io_services_set == 0
    then fault
    else and_then (at p.io_services_set (p.next_io_service % length p.io_services_set))
        λ ret. ok (ret, record p { next_io_service = (p.next_io_service + 1) % size_mod })

unfoldable pub get_io_service_at : (index : ℕ) → IoServicePool → Run ℕ
get_io_service_at index p =
    if ltb index (length p.io_services_set) then at p.io_services_set index else fault

abbrev pub get_io_size : IoServicePool → ℕ
get_io_size p = length p.io_services_set
