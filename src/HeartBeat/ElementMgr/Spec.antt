-- ===== src/HeartBeat/ElementMgr/Spec.antt =====
-- What an element manager promises: a list of entries, most recent beat first, without pointers,
-- map or pool. Each operation here is the whole effect of the one with its name.
use newbee.Base.{
  ℕ, ◌+◌, Bool, true, false, ◌&&◌, ◌||◌, List, [], ◌∷◌, ◌++◌, ltb, leb, if◌then◌else◌, Eq, length,
}
use newbee.HeartBeat.NodeList.{Status, success, failure}
use newbee.HeartBeat.ElementMgr.{ElementData, entry}

pub record Config : Type 0 where
  pub has_callback : Bool
  pub timeout_flag : Bool
  pub timeout : ℕ
  pub max_limit_flag : Bool
  pub max_limit : ℕ

-- `called` are the elements that the callback was given, in order.
pub record Spec (E : Type 0) : Type 0 where
  pub entries : List (ElementData E)
  pub called : List E
  pub config : Config

module _ {E : Type 0} where
  abbrev pub is_nil : List (ElementData E) → Bool
  is_nil [] = true
  is_nil (d ∷ ds) = false

  abbrev pub drop_last : List (ElementData E) → List (ElementData E)
  drop_last [] = []
  drop_last (d ∷ ds) = if is_nil ds then [] else d ∷ drop_last ds

  -- The element of the last entry, as a list.
  abbrev pub last_element : List (ElementData E) → List E
  last_element [] = []
  last_element (d ∷ ds) = if is_nil ds then d.element ∷ [] else last_element ds

  -- Without the entries at the end that pass the test.
  abbrev pub trim : (ElementData E → Bool) → List (ElementData E) → List (ElementData E)
  trim over [] = []
  trim over (d ∷ ds) = if is_nil (trim over ds) && over d then [] else d ∷ trim over ds

  -- The elements that `trim` drops, the last one first.
  abbrev pub trimmed : (ElementData E → Bool) → List (ElementData E) → List E
  trimmed over [] = []
  trimmed over (d ∷ ds) =
      if is_nil (trim over ds) && over d then trimmed over ds ++ d.element ∷ [] else trimmed over ds

  abbrev pub elements_of : List (ElementData E) → List E
  elements_of [] = []
  elements_of (d ∷ ds) = d.element ∷ elements_of ds

  abbrev pub is_over : (now timeout : ℕ) → ElementData E → Bool
  is_over now timeout d = leb (d.time + timeout) now

  -- The callback, if there is one, is given each of the elements.
  abbrev pub told : Spec E → List E → List E
  told s es = if s.config.has_callback then s.called ++ es else s.called

  unfoldable pub handle_timeout : (now : ℕ) → Spec E → Spec E
  handle_timeout now s =
      let over = is_over now s.config.timeout in
      if s.config.timeout_flag
      then record s { entries = trim over s.entries; called = told s (trimmed over s.entries) }
      else s

  unfoldable pub evict : Spec E → Spec E
  evict s =
      if s.config.max_limit_flag && ltb s.config.max_limit (length s.entries + 1)
      then record s { entries = drop_last s.entries; called = told s (last_element s.entries) }
      else s

  unfoldable pub clear_element : Spec E → Spec E
  clear_element s = record s { entries = [] }

  unfoldable pub trigger_all_timeout : Spec E → Spec E
  trigger_all_timeout s = record s { entries = []; called = told s (elements_of s.entries) }

module _ {E : Type 0} ⦃q : Eq E⦄ where
  abbrev pub member : E → List (ElementData E) → Bool
  member e [] = false
  member e (d ∷ ds) = q.beq e d.element || member e ds

  abbrev pub remove : E → List (ElementData E) → List (ElementData E)
  remove e [] = []
  remove e (d ∷ ds) = if q.beq e d.element then ds else d ∷ remove e ds

  -- `has_memory` says whether the pool can give a node.
  unfoldable pub add_element : (has_memory : Bool) → (now : ℕ) → E → Spec E → Status × Spec E
  unfolding evict
  add_element has_memory now e s =
      let room = evict s in
      if member e s.entries
      then (failure, s)
      else (if has_memory
          then (success, record room { entries = entry e now ∷ room.entries })
          else (failure, room))

  unfoldable pub update_element : (now : ℕ) → E → Spec E → Status × Spec E
  update_element now e s =
      if member e s.entries
      then (success, record s { entries = entry e now ∷ remove e s.entries })
      else (failure, s)

  unfoldable pub del_element : E → Spec E → Status × Spec E
  del_element e s =
      if member e s.entries
      then (success, record s { entries = remove e s.entries })
      else (failure, s)
