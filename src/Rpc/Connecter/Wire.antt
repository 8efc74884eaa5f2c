-- ===== src/Rpc/Connecter/Wire.antt =====
-- What was given to the socket, and what holds between two calls that write.
use newbee.Base.{ℕ, ◌+◌, ◌%◌, ◌≡◌, refl, ap, not, List, [], ◌∷◌, ◌++◌, length, arith}
use newbee.Rpc.Message.{Byte}
use newbee.Rpc.Connecter.{
  Connecter, Request, write_some, read_some, post_close, tell_open, tell_read, connect_to,
  delete_data, delete_strategy, size_mod, is_nil,
}

-- What was given to the socket.
abbrev pub wire : List Request → List (List Byte)
wire [] = []
wire (write_some bytes ∷ rs) = bytes ∷ wire rs
wire (read_some ∷ rs) = wire rs
wire (post_close type ∷ rs) = wire rs
wire (tell_open ∷ rs) = wire rs
wire (tell_read size ∷ rs) = wire rs
wire (connect_to end_point ∷ rs) = wire rs
wire (delete_data data_at ∷ rs) = wire rs
wire (delete_strategy ∷ rs) = wire rs

pub wire-append : (rs ss : List Request) → wire (rs ++ ss) ≡ wire rs ++ wire ss
wire-append [] ss = refl
wire-append (write_some bytes ∷ rs) ss = ap (◌∷◌ bytes) (wire-append rs ss)
wire-append (read_some ∷ rs) ss = wire-append rs ss
wire-append (post_close type ∷ rs) ss = wire-append rs ss
wire-append (tell_open ∷ rs) ss = wire-append rs ss
wire-append (tell_read size ∷ rs) ss = wire-append rs ss
wire-append (connect_to end_point ∷ rs) ss = wire-append rs ss
wire-append (delete_data data_at ∷ rs) ss = wire-append rs ss
wire-append (delete_strategy ∷ rs) ss = wire-append rs ss

-- The front of the queue, as a list, and the number of bytes in it.
abbrev pub front : List (List Byte) → List (List Byte)
front [] = []
front (bytes ∷ queue) = bytes ∷ []

abbrev pub size_of : List (List Byte) → ℕ
size_of [] = 0
size_of (bytes ∷ queue) = length bytes + size_of queue

pub size_of-snoc :
    (queue : List (List Byte)) (bytes : List Byte)
    → size_of (queue ++ bytes ∷ []) ≡ size_of queue + length bytes
size_of-snoc [] bytes = omega arith
size_of-snoc (b ∷ queue) bytes = omega (arith, size_of-snoc queue bytes)

-- What holds between two calls.
pub record Sent (posted completed : List (List Byte)) (c : Connecter) : Type 0 where
  pub in_order : posted ≡ completed ++ c.write_queue
  pub busy : c.is_writing ≡ not (is_nil c.write_queue)
  pub in_flight : wire c.requests ≡ completed ++ front c.write_queue
  pub waiting : c.total_wait_write ≡ size_of c.write_queue % size_mod
