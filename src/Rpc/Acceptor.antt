-- ===== src/Rpc/Acceptor.antt =====
-- mylib/rpc/rpc_acceptor: the acceptor of connections, which takes an io service from the pool for
-- each. A connection is known by the number of its io service; whether the address can be resolved,
-- bound and listened to is an argument, since an exception there is caught.
pub mod Accepts
use newbee.Base.{
  ℕ, ◌+◌, Bool, true, false, not, Option, none, some, List, [], ◌∷◌, ◌++◌, if◌then◌else◌,
}
use newbee.Memory.{Run, ok, and_then}
use newbee.Status.{Status, success}
use newbee.Utility.IoServicePool.{IoServicePool, get_io_service}

-- `rpc_acceptor_t`, with the one pool of the program. `waiting` is the connection of the
-- `async_accept` whose handler is still to come, `is_open` says that the socket listens, and `opened`
-- are the connections whose `remote_open` was called, with its argument.
pub record Acceptor : Type 0 where
  pub pool : IoServicePool
  pub use_monitor : Bool
  pub started : Bool
  pub is_open : Bool
  pub waiting : Option ℕ
  pub opened : List (ℕ × Bool)

-- The constructor.
unfoldable pub acceptor : IoServicePool → Acceptor
acceptor pool = record {
  pool = pool;
  use_monitor = false;
  started = false;
  is_open = false;
  waiting = none;
  opened = [];
}

-- A new connection, and the `async_accept` for it.
unfoldable pub accept_next : Acceptor → Run Acceptor
unfolding get_io_service
accept_next a =
    and_then (get_io_service a.pool) λ r. ok (record a { pool = r.1; waiting = some r.0 })

unfoldable pub sync_start_listen_i : (listens : Bool) → Acceptor → Run Acceptor
unfolding accept_next
sync_start_listen_i listens a =
    if not listens then ok a else accept_next (record a { is_open = true })

unfoldable pub start : (use_monitor listens : Bool) → Acceptor → Run (Status × Acceptor)
unfolding sync_start_listen_i
start use_monitor listens a =
    if a.started
    then ok (success, a)
    else (and_then (sync_start_listen_i listens (record a { use_monitor = use_monitor }))
        λ b. ok (success, record b { started = true }))

unfoldable pub sync_accept_i : (conn : ℕ) → (error : Bool) → Acceptor → Run Acceptor
unfolding accept_next
sync_accept_i conn error a =
    if error
    then ok a
    else (and_then (accept_next a)
        λ b. ok (record b { opened = b.opened ++ (conn, b.use_monitor) ∷ [] }))

-- The handler of the pending `async_accept` comes.
unfoldable pub complete_accept : (error : Bool) → Acceptor → Run Acceptor
unfolding sync_accept_i
complete_accept error a = elim a.waiting [
  | none ↦ ok a
  | some conn ↦ sync_accept_i conn error (record a { waiting = none })
]

-- `cancel` and `close`. The handler of the pending `async_accept` still comes: with an error, or
-- without one if the accept had completed before.
abbrev pub sync_close_i : Acceptor → Acceptor
sync_close_i a = record a { is_open = false }

unfoldable pub stop : Acceptor → Acceptor
stop a = if not a.started then a else sync_close_i (record a { started = false })
