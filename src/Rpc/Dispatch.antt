-- ===== src/Rpc/Dispatch.antt =====
-- mylib/rpc/rpc.cpp: the functions that are registered for commands, and what happens to a message
-- that was posted. The unpacking of a message into its type and the virtual functions of the
-- derived class are parameters; the calls are recorded in order.
mod Examples
pub mod Delivery
use newbee.Base.{ℕ, Bool, true, false, Option, none, some, List, [], ◌∷◌, ◌++◌, ◌==◌, if◌then◌else◌}
use newbee.Rpc.Message.{Byte, make_msg}
use newbee.Rpc.Connecter.{Connecter, CloseType, shutdown}

-- A registered function: whether `msg << buff` unpacks these bytes without an exception.
abbrev pub Call : Type 0
Call = List Byte → Bool

-- The calls of the registered functions (`happen`), of the two virtual functions, and the closing of
-- the connection.
pub data Effect : Type 0 where
  called : (cmd : ℕ) (body : List Byte) → Effect
  broken : Effect
  unknown : (cmd : ℕ) (body : List Byte) → Effect
  closed : CloseType → Effect

-- `rpc_t`, where `accepts_unknown` says that `on_unknown_msg` gives 0.
pub record Rpc : Type 0 where
  pub calls : ℕ → Option Call
  pub accepts_unknown : (cmd : ℕ) → List Byte → Bool

-- The constructor.
unfoldable pub rpc : (accepts_unknown : (cmd : ℕ) → List Byte → Bool) → Rpc
rpc accepts_unknown = record { calls = λ cmd. none; accepts_unknown = accepts_unknown }

-- `reg_call`, for a message type with the command `cmd`.
unfoldable pub reg_call : (cmd : ℕ) → Call → Rpc → Rpc
reg_call cmd call r = record r { calls = λ c. if c == cmd then some call else r.calls c }

unfoldable pub happen : Call → (cmd : ℕ) → List Byte → Bool × List Effect
happen unpacks cmd body = if unpacks body then (true, called cmd body ∷ []) else (false, [])

unfoldable pub handle_msg : Rpc → (flag cmd res : ℕ) → List Byte → List Effect
unfolding happen
handle_msg r flag cmd res body = if flag == 0 then broken ∷ [] else (elim (r.calls cmd) [
  | some call ↦
      let (ok, effects) = happen call cmd body in
      if ok then effects else effects ++ closed shutdown ∷ []
  | none ↦
      if r.accepts_unknown cmd body
      then unknown cmd body ∷ []
      else unknown cmd body ∷ closed shutdown ∷ []
])

-- `async_send`: what is given to `async_write` of the connection.
unfoldable pub async_send : (cmd : ℕ) → List Byte → List Byte
unfolding make_msg
async_send cmd body = make_msg cmd body
