-- ===== src/HeartBeat/NodeList.antt =====
-- mylib/heart_beat/heart_beat_list.h: the doubly linked list over nodes that it does not own.
-- A `NodeList` is the list object together with the memory that its nodes live in. Each operation
-- is a command that follows the C++ statement by statement; an access through a null or dangling
-- pointer is a fault.
pub mod Relink
pub mod Erase
pub mod Foreign
pub mod Examples
pub mod Pop
pub mod Push
pub mod Segment
use newbee.Base.{
  ℕ, ◌≡◌, Bool, true, false, not, ◌&&◌, ◌||◌, Option, none, some, ◌==◌, if◌then◌else◌,
}
pub use newbee.Status.{Status, success, failure}
use newbee.Memory.{Run, ok, fault, and_then}

-- The address of a node; `null` is NULL.
abbrev pub Ptr : Type 0
Ptr = ℕ

abbrev pub null : Ptr
null = 0

-- `heart_beat_list_node_t`.
pub record Node (D : Type 0) : Type 0 where
  pub front : Ptr
  pub next : Ptr
  pub value : D

abbrev pub node : {D : Type 0} → Ptr → Ptr → D → Node D
node f n d = record { front = f; next = n; value = d }

abbrev pub Heap : Type 0 → Type 0
Heap D = Ptr → Option (Node D)

unfoldable pub write : {D : Type 0} → Heap D → Ptr → Option (Node D) → Heap D
write h p c a = if a == p then c else h a

-- `heart_beat_list_t`, and the memory of the nodes.
pub record NodeList (D : Type 0) : Type 0 where
  pub header : Ptr
  pub tail : Ptr
  pub heap : Heap D

abbrev pub Cmd : Type 0 → Type 0 → Type 0
Cmd D A = NodeList D → Run (A × NodeList D)

module _ {D A : Type 0} where
  abbrev pub pure : A → Cmd D A
  pure a l = ok (a, l)

  infixl 5 ◌>>=◌ ◌>>◌
  abbrev pub ◌>>=◌ : {B : Type 0} → Cmd D A → (A → Cmd D B) → Cmd D B
  ◌>>=◌ m k l = and_then (m l) (λ r. k r.0 r.1)

  abbrev pub ◌>>◌ : {B : Type 0} → Cmd D A → Cmd D B → Cmd D B
  m >> k = m >>= λ _. k

module _ {D : Type 0} where
  abbrev pub header : Cmd D Ptr
  header l = ok (l.header, l)

  abbrev pub tail : Cmd D Ptr
  tail l = ok (l.tail, l)

  abbrev pub set_header : Ptr → Cmd D (Unit {0})
  set_header p l = ok (tt, record l { header = p })

  abbrev pub set_tail : Ptr → Cmd D (Unit {0})
  set_tail p l = ok (tt, record l { tail = p })

  -- `*p`.
  unfoldable pub load : Ptr → Cmd D (Node D)
  load p l = if p == null then fault else elim (l.heap p) [ none ↦ fault | some n ↦ ok (n, l) ]

  abbrev pub store : Ptr → Option (Node D) → Cmd D (Unit {0})
  store p c l = ok (tt, record l { heap = write l.heap p c })

  -- `p->front = q`.
  unfoldable pub set_front : Ptr → Ptr → Cmd D (Unit {0})
  set_front p q = do n ← load p; store p (some (record n { front = q }))

  -- `p->next = q`.
  unfoldable pub set_next : Ptr → Ptr → Cmd D (Unit {0})
  set_next p q = do n ← load p; store p (some (record n { next = q }))

  unfoldable pub push_front : Ptr → Cmd D Status
  push_front p = if p == null then pure failure else do
    set_front p null
    set_next p null
    h ← header
    if h == null
        then (do set_header p; set_tail p; pure success)
        else (do set_next p h; set_front h p; set_header p; pure success)

  unfoldable pub push_back : Ptr → Cmd D Status
  push_back p = if p == null then pure failure else do
    set_front p null
    set_next p null
    t ← tail
    if t == null
        then (do set_header p; set_tail p; pure success)
        else (do set_next t p; set_front p t; set_tail p; pure success)

  unfoldable pub pop_front : Cmd D Ptr
  pop_front = do
    h ← header
    t ← tail
    if h == null
        then pure null
        else if h == t
        then (do set_header null; set_tail null; pure h)
        else do
          n ← load h
          set_header n.next
          set_next h null
          h' ← header
          set_front h' null
          pure h

  unfoldable pub pop_back : Cmd D Ptr
  pop_back = do
    h ← header
    t ← tail
    if t == null
        then pure null
        else if h == t
        then (do set_header null; set_tail null; pure t)
        else do n ← load t; set_tail n.front; set_front t null; t' ← tail; set_next t' null; pure t

  -- The first `if` and its `else if`: a node with no predecessor.
  unfoldable pub erase_header : Ptr → Cmd D Status
  erase_header p = do
    n ← load p
    h ← header
    t ← tail
    if (n.front == null) && (n.next == null)
        then (if (h == t) && (h == p)
            then (do set_header null; set_tail null; pure success)
            else pure failure)
        else (if (n.front == null) && not (n.next == null)
            then (if h == p
                then (do
                  m ← load h
                  set_header m.next
                  h' ← header
                  set_front h' null
                  set_next p null
                  pure success)
                else pure failure)
            else pure failure)

  -- The second `if` and its `else if`: a node with a predecessor. `ret` is the result so far.
  unfoldable pub erase_behind : Ptr → Status → Cmd D Status
  erase_behind p ret = do
    n ← load p
    t ← tail
    if not (n.front == null) && (n.next == null)
        then (if t == p
            then (do
              m ← load t
              set_tail m.front
              t' ← tail
              set_next t' null
              set_front p null
              pure success)
            else pure ret)
        else (if not (n.front == null) && not (n.next == null)
            then (do
              set_front p null
              set_next p null
              set_next n.front n.next
              set_front n.next n.front
              pure success)
            else pure ret)

  unfoldable pub erase : Ptr → Cmd D Status
  erase p = do
    h ← header
    if (p == null) || (h == null) then pure failure else do ret ← erase_header p; erase_behind p ret

  -- `front()`, `back()` and `empty()`.
  abbrev pub front : NodeList D → Ptr
  front l = l.header

  abbrev pub back : NodeList D → Ptr
  back l = l.tail

  unfoldable pub is_empty : NodeList D → Bool
  is_empty l = l.header == null

  -- The constructor, over whatever the memory holds.
  unfoldable pub init : Heap D → NodeList D
  init h = record { header = null; tail = null; heap = h }
