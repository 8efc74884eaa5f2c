-- ===== src/Rpc/Connecter.antt =====
-- mylib/rpc/rpc_connecter: the status of a connection and its queue of writes.
-- `set_write_state` and `sync_close_i` are declared and called, but the repository does not define
-- them: both are parameters. What is asked of the socket and of the strategy is recorded in order;
-- an access to the front of an empty queue is a fault.
mod Examples
pub mod Wire
pub mod Writes
pub mod Connecting
use newbee.Base.{
  ℕ, ◌+◌, ◌-◌, ◌%◌, ◌^◌, Bool, true, false, not, Option, none, some, List, [], ◌∷◌, ◌++◌,
  if◌then◌else◌, length,
}
use newbee.Memory.{Run, ok, fault, and_then}
use newbee.Status.{Status, success, failure}
use newbee.Rpc.Message.{Byte}

-- `rpc_status_e`, `rpc_connection_type_e` and `rpc_close_type_e`.
pub data ConnStatus : Type 0 where
  disconnected : ConnStatus
  connecting : ConnStatus
  connected : ConnStatus

pub data ConnType : Type 0 where
  active : ConnType
  passive : ConnType

pub data CloseType : Type 0 where
  close_now : CloseType
  shutdown : CloseType
  kill : CloseType

-- What a connection asks of others: `async_write` and `async_read_some` on the socket, `close` and
-- `connect` on it, a post of `sync_close_i`, the two calls of the strategy, and the two deletions.
pub data Request : Type 0 where
  write_some : List Byte → Request
  read_some : Request
  post_close : CloseType → Request
  tell_open : Request
  tell_read : (size : ℕ) → Request
  connect_to : (end_point : ℕ) → Request
  delete_data : (data_at : ℕ) → Request
  delete_strategy : Request

-- `rpc_connecter_t`.
pub record Connecter : Type 0 where
  pub use_monitor : Bool
  pub write_queue : List (List Byte)
  pub is_writing : Bool
  pub total_wait_write : ℕ
  pub connect_type : ConnType
  pub status : ConnStatus
  pub pdata : Option ℕ
  pub requests : List Request

abbrev pub size_mod : ℕ
size_mod = 2 ^ 64

-- The constructor, with a strategy.
unfoldable pub connecter : Connecter
connecter = record {
  use_monitor = false;
  write_queue = [];
  is_writing = false;
  total_wait_write = 0;
  connect_type = passive;
  status = disconnected;
  pdata = none;
  requests = [];
}

-- An exception where the strategy is NULL.
unfoldable pub new_connecter : (has_strategy : Bool) → Run Connecter
unfolding connecter
new_connecter has_strategy = if not has_strategy then fault else ok connecter

abbrev pub request : Request → Connecter → Connecter
request r c = record c { requests = c.requests ++ r ∷ [] }

abbrev pub is_disconnected : ConnStatus → Bool
is_disconnected disconnected = true
is_disconnected connecting = false
is_disconnected connected = false

unfoldable pub remote_open : (use_monitor : Bool) → Connecter → Connecter
remote_open use_monitor c =
    request tell_open (record c { use_monitor = use_monitor; status = connected })

unfoldable pub close : CloseType → Connecter → Connecter
close type = request (post_close type)

unfoldable pub async_read : Connecter → Connecter
async_read = request read_some

-- The `while` of `sync_connect`, over the end points and whether each can be connected to; the first
-- part of the result says that one was.
unfoldable pub connect_loop : List (ℕ × Bool) → Connecter → Bool × Connecter
connect_loop [] c = (false, c)
connect_loop ((end_point, accepts) ∷ end_points) c =
    let tried = request (connect_to end_point) c in
    let rest = connect_loop end_points tried in if accepts then (true, tried) else rest

-- `sync_connect`, with what the resolver gives; an exception of the resolver is not caught.
unfoldable pub sync_connect : Option (List (ℕ × Bool)) → Connecter → Run (Status × Connecter)
unfolding async_read connect_loop
sync_connect none c = fault
sync_connect (some end_points) c =
    let (reached, tried) = connect_loop end_points c in
    if not reached
    then ok (failure, record tried { status = disconnected })
    else ok (success, async_read (record tried { status = connected; connect_type = active }))

abbrev pub delete_old : Connecter → Connecter
delete_old c = elim c.pdata [ none ↦ c | some data_at ↦ request (delete_data data_at) c ]

unfoldable pub set_data : (pdata : Option ℕ) → Connecter → Connecter
set_data pdata c = let cleared = delete_old c in record cleared { pdata = pdata }

abbrev pub get_data : Connecter → Option ℕ
get_data c = c.pdata

abbrev pub has_monitor : Connecter → Bool
has_monitor c = c.use_monitor

-- The front of the queue.
abbrev begin : List (List Byte) → Run (List Byte)
begin [] = fault
begin (bytes ∷ queue) = ok bytes

abbrev pop_front : List (List Byte) → Run (List (List Byte))
pop_front [] = fault
pop_front (bytes ∷ queue) = ok queue

abbrev pub is_nil : List (List Byte) → Bool
is_nil [] = true
is_nil (bytes ∷ queue) = false

module _ (set_write_state : Bool → Connecter → Connecter)
    (sync_close_i : CloseType → Connecter → Connecter) where
  unfoldable pub start_sending_buffer_i : Connecter → Run Connecter
  start_sending_buffer_i c =
      if is_nil c.write_queue
      then ok c
      else (let c' = set_write_state true c in
          and_then (begin c'.write_queue) λ bytes. ok (request (write_some bytes) c'))

  unfoldable pub sync_write_i : List Byte → Connecter → Run Connecter
  unfolding start_sending_buffer_i
  sync_write_i bytes c =
      let queued = record c {
        total_wait_write = (c.total_wait_write + length bytes) % size_mod;
        write_queue = c.write_queue ++ bytes ∷ [];
      } in
      if not c.is_writing then start_sending_buffer_i queued else ok queued

  unfoldable pub write_complete_i : (error : Bool) → (transferred : ℕ) → Connecter → Run Connecter
  unfolding start_sending_buffer_i
  write_complete_i error transferred c =
      let idle = set_write_state false c in
      and_then (pop_front idle.write_queue) λ queue.
        let popped = record idle {
          total_wait_write = (idle.total_wait_write + size_mod - transferred) % size_mod;
          write_queue = queue;
        } in
        if error
        then ok (if is_disconnected popped.status then popped else sync_close_i close_now popped)
        else start_sending_buffer_i popped

  -- `on_read` of the strategy gives `refused`.
  unfoldable pub read_complete_i :
      (error : Bool) → (transferred : ℕ) → (refused : Bool) → Connecter → Connecter
  unfolding close
  read_complete_i error transferred refused c =
      if error
      then (if is_disconnected c.status then c else sync_close_i close_now c)
      else (let told = request (tell_read transferred) c in
          if refused then close shutdown told else told)

  -- The destructor.
  unfoldable pub destroy : Connecter → Connecter
  destroy c = delete_old (request delete_strategy (sync_close_i close_now c))
