-- ===== src/Rpc/Protocol.antt =====
-- mylib/rpc/rpc_common_conn_protocol: what a connection's protocol object does with the bytes that
-- arrive. Its effects on others (the posts of `handle_msg`, the calls of the connection and of the
-- connection monitor) are recorded in order. `size_t` has 64 bits.
pub mod Reports
pub mod Broken
pub mod Chunks
mod Examples
pub mod Feed
pub mod Rounds
pub mod Loop
pub mod Messages
pub mod Stream
use newbee.Base.{
  ℕ, zero, suc, ◌+◌, ◌-◌, ◌%◌, ◌^◌, Bool, true, false, ◌&&◌, List, [], ◌∷◌, ◌++◌, leb, ltb, ◌==◌,
  min, if◌then◌else◌, length, take, drop,
}
use newbee.Memory.{Run, ok, out_of_fuel, and_then}
use newbee.Rpc.Message.{Byte, Head, head_size, zero_head, head_len, head_cmd, head_res, copy_bytes}

-- What the protocol asks of a connection: `has_conn_type(RPC_PASSIVE)` and `has_monitor()`.
pub record Conn : Type 0 where
  pub passive : Bool
  pub monitored : Bool

-- The effects: `m_io.post(handle_msg(flag, cmd, res, body))`, `conn_->async_read()` and the calls
-- of the connection monitor.
pub data Event : Type 0 where
  post : (flag cmd res : ℕ) (body : List Byte) → Event
  async_read : Event
  monitor_add : Event
  monitor_update : Event
  monitor_del : Event

-- `rpc_common_conn_protocal_t`.
pub record Protocol : Type 0 where
  pub msg_size : ℕ
  pub head : Head
  pub body : List Byte
  pub is_broken : Bool
  pub events : List Event

abbrev pub size_mod : ℕ
size_mod = 2 ^ 64

-- The constructor.
abbrev pub protocol : Protocol
protocol = record { msg_size = 0; head = zero_head; body = []; is_broken = false; events = [] }

abbrev pub emit : Event → Protocol → Protocol
emit e s = record s { events = s.events ++ e ∷ [] }

-- The calls of the monitor, which are made for a passive connection that is monitored.
abbrev pub tell_monitor : Conn → Event → Protocol → Protocol
tell_monitor c e s = if c.passive then (if c.monitored then emit e s else s) else s

unfoldable pub reset : Protocol → Protocol
reset s = record s { msg_size = 0; is_broken = false; body = [] }

unfoldable pub on_remote_open : Conn → Protocol → Protocol
unfolding reset
on_remote_open c s = emit async_read (reset (tell_monitor c monitor_add s))

unfoldable pub post_broken_msg_i : Protocol → Protocol
post_broken_msg_i s =
    if s.is_broken then s else emit (post 0 0 0 []) (record s { is_broken = true })

-- `error` is the error code.
unfoldable pub on_connect : Conn → (error : Bool) → Protocol → Protocol
unfolding reset post_broken_msg_i
on_connect c error s = if error then post_broken_msg_i s else emit async_read (reset s)

unfoldable pub on_closed : Conn → Protocol → Protocol
unfolding post_broken_msg_i
on_closed c s = post_broken_msg_i (tell_monitor c monitor_del s)

unfoldable pub has_read_head_end_i : Protocol → Bool
has_read_head_end_i s = leb head_size s.msg_size

unfoldable pub has_read_body_end_i : Protocol → Bool
has_read_body_end_i s = head_len s.head == length s.body

-- Both give the number of bytes that are taken.
unfoldable pub read_head_i : List Byte → Protocol → ℕ × Protocol
read_head_i bytes s =
    let tmp = min ((head_size + size_mod - s.msg_size) % size_mod) (length bytes) in
    (
      tmp,
      record s {
        head = copy_bytes s.head s.msg_size (take tmp bytes);
        msg_size = (s.msg_size + tmp) % size_mod;
      },
    )

unfoldable pub read_body_i : List Byte → Protocol → ℕ × Protocol
read_body_i bytes s =
    let tmp =
      min ((head_size + head_len s.head + size_mod - s.msg_size) % size_mod) (length bytes) in
    (tmp, record s { body = s.body ++ take tmp bytes; msg_size = (s.msg_size + tmp) % size_mod })

-- The end of a message: the monitor is told, the message is posted, the state is made empty.
unfoldable pub finish : Conn → Protocol → Protocol
finish c s =
    let told = tell_monitor c monitor_update s in
    let posted = emit (post 1 (head_cmd s.head) (head_res s.head) s.body) told in
    record posted { head = zero_head; msg_size = 0; body = [] }

-- One round of the loop of `on_read`: what is left, and the state.
unfoldable pub read_round : Conn → List Byte → Protocol → List Byte × Protocol
unfolding has_read_head_end_i has_read_body_end_i read_head_i read_body_i finish
read_round c bytes s =
    if has_read_head_end_i s
    then (let (tmp, s') = read_body_i bytes s in
        (drop tmp bytes, if has_read_body_end_i s' then finish c s' else s'))
    else (let (tmp, s') = read_head_i bytes s in (drop tmp bytes, s'))

-- The loop; `fuel` bounds the number of rounds.
unfoldable pub read_loop : Conn → (fuel : ℕ) → List Byte → Protocol → Run Protocol
unfolding read_round
read_loop c fuel [] s = ok s
read_loop c zero (b ∷ bs) s = out_of_fuel
read_loop c (suc fuel) (b ∷ bs) s =
    let (rest, s') = read_round c (b ∷ bs) s in read_loop c fuel rest s'

unfoldable pub on_read : Conn → (fuel : ℕ) → List Byte → Protocol → Run Protocol
unfolding read_loop
on_read c fuel bytes s = and_then (read_loop c fuel bytes s) λ s'. ok (emit async_read s')
