-- ===== src/Utility/IoServicePool/Turns.antt =====
-- The services of a started pool are given out in turn, and within bounds.
use newbee.Base.{
  ℕ, zero, suc, ◌+◌, ◌%◌, ◌<◌, ◌≡◌, refl, ap, ◌∙◌, false, List, [], ◌∷◌, ◌==◌, length, arith,
}
use native.Mathlib.Nat.{mod-lt}
use newbee.Memory.{Run, ok, and_then, Returns, returns, Returns-bind}
use newbee.Utility.IoServicePool.{
  IoServicePool, io_service_pool, size_mod, numbers, at, start, get_io_service,
}

-- `k` calls of `get_io_service`.
abbrev pub get_services : (k : ℕ) → IoServicePool → Run (List ℕ × IoServicePool)
get_services zero p = ok ([], p)
get_services (suc k) p =
    and_then (get_io_service p) λ r. and_then (get_services k r.1) λ t. ok (r.0 ∷ t.0, t.1)

-- The turns `first`, `first + 1`, …, each modulo `n`.
abbrev pub turns : (n first k : ℕ) → List ℕ
turns n first zero = []
turns n first (suc k) = first % n ∷ turns n (suc first) k

length-numbers : (first n : ℕ) → length (numbers first n) ≡ n
length-numbers first zero = refl
length-numbers first (suc n) = ap suc (length-numbers (suc first) n)

at-numbers : (first n i : ℕ) → i < n → at (numbers first n) i ≡ ok (first + i)
at-numbers first zero i h = absurd (omega arith)
at-numbers first (suc n) zero h = ap ok (omega arith)
at-numbers first (suc n) (suc i) h = at-numbers (suc first) n i (omega arith) ∙ ap ok (omega arith)

-- A pool of `n` services whose turn is `i`.
pub record Turn (n i : ℕ) (p : IoServicePool) : Type 0 where
  pub services : p.io_services_set ≡ numbers 0 n
  pub next_turn : p.next_io_service ≡ i

pub get_io_service-Turn :
    (n i : ℕ) (p : IoServicePool)
    → 0 < n
    → i + 1 < size_mod
    → Turn n i p
    → Returns (λ r. (r.0 ≡ i % n) × Turn n (suc i) r.1) (get_io_service p)
unfolding get_io_service
get_io_service-Turn n i p some_service bounded t =
    let size : length p.io_services_set ≡ n = ap length t.services ∙ length-numbers 0 n in
    let some_size : (length p.io_services_set == 0) ≡ false = ground arith in
    let here : at p.io_services_set (p.next_io_service % length p.io_services_set) ≡ ok (i % n) =
      (λ j. at (t.services j) (t.next_turn j % size j))
      ∙ at-numbers 0 n (i % n) (mod-lt i some_service)
      ∙ ap ok (omega arith) in
    rw (some_size, here)
      (returns
        (refl, record { services = t.services; next_turn = omega (arith, t.next_turn, bounded) }))

get_services-Turn :
    (k n i : ℕ) (p : IoServicePool)
    → 0 < n
    → i + k < size_mod
    → Turn n i p
    → Returns (λ r. r.0 ≡ turns n i k) (get_services k p)
get_services-Turn zero n i p some_service bounded t = returns refl
get_services-Turn (suc k) n i p some_service bounded t =
    Returns-bind (get_io_service-Turn n i p some_service (omega arith) t) λ (s, p') (e, t').
      Returns-bind (get_services-Turn k n (suc i) p' some_service (omega arith) t')
        λ r es. returns (λ j. e j ∷ es j)

-- A new pool that is started with a service or more gives out its services in turn, and never one
-- that it has not, as long as the counter of the calls does not overflow.
pub get_services-turns :
    (n k : ℕ)
    → 0 < n
    → k < size_mod
    → Returns (λ r. r.0 ≡ turns n 0 k) (and_then (start n io_service_pool) (get_services k))
unfolding start io_service_pool
get_services-turns n k some_service bounded =
    let some_size : (n == 0) ≡ false = ground arith in
    rw some_size (
      get_services-Turn k n 0 _ some_service (omega arith)
        (record { services = refl; next_turn = refl }))
