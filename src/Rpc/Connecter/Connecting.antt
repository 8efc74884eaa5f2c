-- ===== src/Rpc/Connecter/Connecting.antt =====
-- Which end point a connection connects to.
use newbee.Base.{
  ℕ, ◌≡◌, refl, sym, ap, ◌∙◌, Bool, true, false, ◌||◌, some, List, [], ◌∷◌, ◌++◌, append-nil,
  append_assoc, map, if◌then◌else◌, Bool-cases, inl, inr,
}
use newbee.Memory.{ok}
use newbee.Status.{success, failure}
use newbee.Rpc.Connecter.{
  Connecter, Request, connect_to, read_some, request, active, connected, disconnected, async_read,
  connect_loop, sync_connect,
}

-- The end points up to the first that can be connected to.
abbrev pub up_to_first : List (ℕ × Bool) → List ℕ
up_to_first [] = []
up_to_first ((end_point, accepts) ∷ end_points) =
    end_point ∷ (if accepts then [] else up_to_first end_points)

abbrev pub any_accepts : List (ℕ × Bool) → Bool
any_accepts [] = false
any_accepts ((end_point, accepts) ∷ end_points) = accepts || any_accepts end_points

abbrev pub all_tried : List (ℕ × Bool) → List Request
all_tried end_points = map connect_to (up_to_first end_points)

connect_loop-first :
    (end_points : List (ℕ × Bool)) (c : Connecter)
    → connect_loop end_points c
      ≡ (any_accepts end_points, record c { requests = c.requests ++ all_tried end_points })
unfolding connect_loop
connect_loop-first [] c =
    ap (λ rs. (false, record c { requests = rs })) (sym (append-nil c.requests))
connect_loop-first ((end_point, true) ∷ end_points) c = refl
connect_loop-first ((end_point, false) ∷ end_points) c =
    connect_loop-first end_points (request (connect_to end_point) c)
    ∙ ap (λ rs. (any_accepts end_points, record c { requests = rs }))
        (append_assoc c.requests (connect_to end_point ∷ []) (all_tried end_points))

-- For every list of end points that the resolver gives: `sync_connect` tries them in order up to
-- the first that can be connected to, and no further; if there is one it reports success, the
-- connection is active and connected, and one read is asked for behind the attempts; if there is
-- none, it reports a failure and the connection is disconnected.
pub sync_connect-first :
    (end_points : List (ℕ × Bool)) (c : Connecter)
    → sync_connect (some end_points) c
      ≡ ok (
          if any_accepts end_points
          then (
            success,
            record c {
              status = connected;
              connect_type = active;
              requests = c.requests ++ all_tried end_points ++ read_some ∷ [];
            },
          )
          else (
            failure,
            record c { status = disconnected; requests = c.requests ++ all_tried end_points },
          ))
unfolding sync_connect async_read
sync_connect-first end_points c =
    rw (connect_loop-first end_points c)
      (elim (Bool-cases (any_accepts end_points)) [ inl y ↦ rw y refl | inr n ↦ rw n refl ])
