-- ===== src/HeartBeat/ElementMgr.antt =====
-- mylib/heart_beat/heart_beat_element_mgr.h: the elements under heart beat, the busy list that
-- orders them by their last beat, and the time-outs.
-- The memory of `m_node_pool` is the heap of the busy list. `m_elements` is a map as a function.
-- The clock (`time(NULL)`) and the address that the pool returns (0 where it has no memory) are
-- arguments; the invocations of the callback are recorded in order. The `while` loops run on fuel.
pub mod Add
pub mod Draining
pub mod Clear
pub mod Delete
pub mod Examples
pub mod Evict
pub mod Expiry
pub mod Constancy
pub mod History
pub mod Implements
pub mod Rep
pub mod Spec
pub mod Trimming
pub mod Timeout
pub mod Unlink
pub mod Update
use newbee.Base.{
  ℕ, zero, suc, ◌+◌, ◌-◌, ◌%◌, ◌^◌, Bool, true, false, ◌&&◌, not, Option, none, some, List, [], ◌∷◌,
  ◌++◌, ltb, leb, ◌==◌, if◌then◌else◌, Eq,
}
use newbee.Memory.{Run, ok, fault, out_of_fuel, and_then}
use newbee.HeartBeat.NodeList
use newbee.HeartBeat.NodeList.{
  Ptr, null, Node, node, NodeList, Status, success, failure, load, store, push_front, pop_front,
  pop_back, erase,
}

-- `element_data_t`.
pub record ElementData (E : Type 0) : Type 0 where
  pub element : E
  pub time : ℕ

abbrev pub entry : {E : Type 0} → E → ℕ → ElementData E
entry e t = record { element = e; time = t }

-- `heart_beat_element_mgr_t`; `called` are the arguments that the callback was given.
pub record Mgr (E : Type 0) : Type 0 where
  pub elements : E → Option Ptr
  pub busy_list : NodeList (ElementData E)
  pub has_callback : Bool
  pub element_count : ℕ
  pub timeout_flag : Bool
  pub timeout : ℕ
  pub max_limit_flag : Bool
  pub max_limit : ℕ
  pub called : List E

abbrev pub M : Type 0 → Type 0 → Type 0
M E A = Mgr E → Run (A × Mgr E)

-- `unsigned long`.
abbrev pub ulong_mod : ℕ
ulong_mod = 2 ^ 64

module _ {E A : Type 0} where
  abbrev pub pure : A → M E A
  pure a m = ok (a, m)

  infixl 5 ◌>>=◌ ◌>>◌
  abbrev pub ◌>>=◌ : {B : Type 0} → M E A → (A → M E B) → M E B
  ◌>>=◌ c k m = and_then (c m) (λ r. k r.0 r.1)

  abbrev pub ◌>>◌ : {B : Type 0} → M E A → M E B → M E B
  c >> k = c >>= λ _. k

  -- A command of the busy list.
  abbrev pub on_list : NodeList.Cmd (ElementData E) A → M E A
  on_list c m = and_then (c m.busy_list) (λ r. ok (r.0, record m { busy_list = r.1 }))

module _ {E : Type 0} where
  -- The constructor, over an empty pool.
  unfoldable pub init : Mgr E
  unfolding NodeList.init
  init = record {
    elements = λ _. none;
    busy_list = NodeList.init (λ _. none);
    has_callback = false;
    element_count = 0;
    timeout_flag = false;
    timeout = 0;
    max_limit_flag = false;
    max_limit = 0;
    called = [];
  }

  unfoldable pub set_callback_function : Bool → M E Status
  set_callback_function present m = ok (success, record m { has_callback = present })

  unfoldable pub set_timeout : Bool → ℕ → M E Status
  set_timeout flag seconds m = ok (success, record m { timeout_flag = flag; timeout = seconds })

  unfoldable pub set_max_limit : Bool → ℕ → M E Status
  set_max_limit flag limit m = ok (success, record m { max_limit_flag = flag; max_limit = limit })

  -- `node->data`.
  unfoldable pub data_of : Ptr → M E (ElementData E)
  data_of p m = and_then (load p m.busy_list) (λ r. ok (r.0.value, m))

  -- `m_callback_function(node->data.element)` where there is a callback, else a warning.
  unfoldable pub notify : Ptr → M E (Unit {0})
  notify p m =
      if m.has_callback
      then and_then (data_of p m) (λ r. ok (tt, record m { called = m.called ++ r.0.element ∷ [] }))
      else ok (tt, m)

  -- `m_node_pool.destroy(node)`.
  unfoldable pub destroy : Ptr → M E (Unit {0})
  destroy p = on_list (λ l. and_then (load p l) (λ r. store p none r.1))

  -- `++m_element_count` and `--m_element_count`.
  abbrev pub count_up : M E (Unit {0})
  count_up m = ok (tt, record m { element_count = (m.element_count + 1) % ulong_mod })

  abbrev pub count_down : M E (Unit {0})
  count_down m = ok (tt, record m { element_count = (m.element_count + ulong_mod - 1) % ulong_mod })

  abbrev pub clear_map : M E (Unit {0})
  clear_map m = ok (tt, record m { elements = λ _. none })

  -- The loops of `clear_element`, `get_all_element_and_clear` and `trigger_all_timeout`.
  unfoldable pub clear_loop : ℕ → M E (Unit {0})
  clear_loop zero = λ _. out_of_fuel
  clear_loop (suc k) = do
    p ← on_list pop_front
    if p == null then pure tt else do destroy p; clear_loop k

  unfoldable pub get_all_loop : ℕ → List E → M E (List E)
  get_all_loop zero element_vt = λ _. out_of_fuel
  get_all_loop (suc k) element_vt = do
    p ← on_list pop_front
    if p == null
        then pure element_vt
        else do d ← data_of p; destroy p; get_all_loop k (element_vt ++ d.element ∷ [])

  unfoldable pub trigger_loop : ℕ → M E (Unit {0})
  trigger_loop zero = λ _. out_of_fuel
  trigger_loop (suc k) = do
    p ← on_list pop_front
    if p == null then pure tt else do notify p; destroy p; trigger_loop k

  unfoldable pub clear_element : ℕ → M E Status
  clear_element fuel = do clear_loop fuel; clear_map; pure success

  -- `element_vt` is the caller's vector, which is added to.
  unfoldable pub get_all_element_and_clear : ℕ → List E → M E (Status × List E)
  get_all_element_and_clear fuel element_vt = do
    vt ← get_all_loop fuel element_vt
    clear_map
    pure (success, vt)

  unfoldable pub trigger_all_timeout : ℕ → M E (Unit {0})
  trigger_all_timeout fuel = do trigger_loop fuel; clear_map

  -- `m_node_pool.construct(element)`, where the pool answers with the address `fresh`.
  unfoldable pub construct : (fresh : Ptr) → E → (now : ℕ) → M E Ptr
  construct fresh e now =
      if fresh == null
      then pure null
      else do on_list (store fresh (some (node null null (entry e now)))); pure fresh

  -- `node->data.time = time(NULL)`.
  unfoldable pub set_time : Ptr → (now : ℕ) → M E (Unit {0})
  set_time p now m =
      and_then (load p m.busy_list)
        (λ r. on_list (store p (some (record r.0 { value = entry r.0.value.element now }))) m)

module _ {E : Type 0} ⦃q : Eq E⦄ where
  abbrev pub find : E → M E (Option Ptr)
  find e m = ok (m.elements e, m)

  -- `m_elements.erase(key)`.
  abbrev pub map_erase : E → M E (Unit {0})
  map_erase e m = ok (tt, record m { elements = λ a. if q.beq a e then none else m.elements a })

  -- `m_elements.insert(make_pair(key, node))`, which keeps an entry that is there.
  abbrev pub map_insert : E → Ptr → M E (Unit {0})
  map_insert e p m = ok (
    tt,
    record m {
      elements =
          λ a. elim (m.elements a) [ some x ↦ some x | none ↦ if q.beq a e then some p else none ];
    },
  )

  -- What the loop of `handle_timeout` and the eviction of `add_element` do behind the pop.
  unfoldable pub drop_node : Ptr → M E (Unit {0})
  unfolding data_of destroy
  drop_node p = do d ← data_of p; map_erase d.element; destroy p; count_down

  unfoldable pub timeout_loop : ℕ → (now timeout : ℕ) → M E Status
  timeout_loop zero now timeout m = out_of_fuel
  timeout_loop (suc k) now timeout m =
      let p = NodeList.back m.busy_list in
      if p == null
      then ok (success, m)
      else and_then (data_of p m) (λ r.
        if leb (r.0.time + timeout) now
        then (do
          notify p
          popped ← on_list pop_back
          if popped == null then pure failure else do drop_node p; timeout_loop k now timeout)
            m
        else ok (success, m))

  unfoldable pub handle_timeout : ℕ → (now : ℕ) → M E Status
  handle_timeout fuel now m =
      if m.timeout_flag then timeout_loop fuel now m.timeout m else ok (success, m)

  -- The check of the limit: the last element gives way.
  unfoldable pub evict : M E (Unit {0})
  evict m =
      if m.max_limit_flag && ltb m.max_limit ((m.element_count + 1) % ulong_mod)
      then (do p ← on_list pop_back; notify p; drop_node p) m
      else ok (tt, m)

  unfoldable pub add_element : (fresh : Ptr) → (now : ℕ) → E → M E Status
  add_element fresh now e = do
    it ← find e
    elim it [
      | some _ ↦ pure failure
      | none ↦ do
        evict
        p ← construct fresh e now
        if p == null
            then pure failure
            else do map_insert e p; on_list (push_front p); count_up; pure success
    ]

  unfoldable pub update_element : (now : ℕ) → E → M E Status
  update_element now e = do
    it ← find e
    elim it [
      | none ↦ pure failure
      | some p ↦ do
        done ← on_list (erase p)
        elim done [
          | failure ↦ pure failure
          | success ↦ do set_time p now; on_list (push_front p); pure success
        ]
    ]

  unfoldable pub del_element : E → M E Status
  del_element e = do
    it ← find e
    elim it [
      | none ↦ pure failure
      | some p ↦ do
        done ← on_list (erase p)
        elim done [
          | failure ↦ pure failure
          | success ↦ do map_erase e; destroy p; count_down; pure success
        ]
    ]
