-- ===== src/Rpc/Server.antt =====
-- mylib/rpc/rpc_server.h: the server, which has one acceptor and one io service.
-- The one pool of the program is a field here; the acceptor works on it. A task that is posted to
-- the io service is known by a number. The handlers of the exceptions in `listen` are left out, as
-- `start` of the acceptor throws nothing.
pub mod Calls
pub mod Serving
pub mod Listening
mod Examples
use newbee.Base.{ℕ, ◌%◌, ◌^◌, Bool, Option, none, some, List, [], ◌∷◌, ◌++◌}
use newbee.Memory.{Run, ok, and_then}
use newbee.Status.{Status, success}
use newbee.Utility.IoServicePool.{IoServicePool, get_io_service}
use newbee.Rpc.Message.{Byte, Settings, compress_msg}
use newbee.Rpc.Acceptor.{Acceptor, acceptor, complete_accept}
use newbee.Rpc.Acceptor

-- `rpc_server_t`; `posted` are the tasks of `handle_do` that its io service was given.
pub record Server : Type 0 where
  pub pool : IoServicePool
  pub io : ℕ
  pub acc : Option Acceptor
  pub posted : List ℕ

-- The constructors: with an io service of the pool, and with a given one.
unfoldable pub server : IoServicePool → Run Server
unfolding get_io_service
server pool =
    and_then (get_io_service pool)
      λ r. ok (record { pool = r.1; io = r.0; acc = none; posted = [] })

unfoldable pub server_on : IoServicePool → (io : ℕ) → Server
server_on pool io = record { pool = pool; io = io; acc = none; posted = [] }

-- `m_sp_acc.reset(new rpc_acceptor_t(...))`, unless there is one.
unfoldable pub with_acceptor : Server → Run Acceptor
unfolding get_io_service
with_acceptor s = elim s.acc [
  | some a ↦ ok (record a { pool = s.pool })
  | none ↦ and_then (get_io_service s.pool) λ r. ok (acceptor r.1)
]

abbrev pub keep_acceptor : Acceptor → Server → Server
keep_acceptor a s = record s { pool = a.pool; acc = some a }

unfoldable pub listen : (use_monitor listens : Bool) → Server → Run (Status × Server)
unfolding with_acceptor Acceptor.start
listen use_monitor listens s = and_then (with_acceptor s) λ a.
    and_then {B = Status × Server} (Acceptor.start use_monitor listens a)
      λ r. ok (success, keep_acceptor r.1 s)

-- A connection is accepted, with or without an error.
unfoldable pub accept : (error : Bool) → Server → Run Server
unfolding complete_accept
accept error s = elim s.acc [
  | none ↦ ok s
  | some a ↦
      and_then (complete_accept error (record a { pool = s.pool })) λ b. ok (keep_acceptor b s)
]

unfoldable pub close : Server → Server
unfolding Acceptor.stop
close s = elim s.acc [ none ↦ s | some a ↦ record s { acc = some (Acceptor.stop a) } ]

abbrev pub get_io : Server → ℕ
get_io s = s.io

unfoldable pub async_do : (fun : ℕ) → Server → Server
async_do fun s = record s { posted = s.posted ++ fun ∷ [] }

-- `async_call`: what is given to `async_write` of the connection. `compress_msg` takes the `int` as a
-- `uint16_t`.
unfoldable pub async_call :
    (compress : List Byte → Option (List Byte)) → Settings → (cmd : ℕ) → List Byte → List Byte
unfolding compress_msg
async_call compress settings cmd body = compress_msg compress settings (cmd % 2 ^ 16) body
