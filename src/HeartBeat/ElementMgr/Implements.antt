-- ===== src/HeartBeat/ElementMgr/Implements.antt =====
-- The relation between an element manager and the list of entries that it implements.
use newbee.Base.{
  ℕ, suc, ◌+◌, ◌-◌, ◌%◌, ◌<◌, ◌≡◌, refl, sym, ◌∙◌, ap, Bool, true, false, Option, none, some, List,
  [], ◌∷◌, ◌++◌, arith, Eq, length, length-append,
}
use newbee.HeartBeat.NodeList.{Ptr}
use newbee.HeartBeat.ElementMgr.{ElementData, Mgr, ulong_mod, init}
use newbee.HeartBeat.ElementMgr.Spec.{Spec, Config, member, remove}
use newbee.HeartBeat.ElementMgr.Rep.{Entries, ptr_of, Rep, beq_refl, init-Rep}

-- `--` on the counter of a list with an element.
pub count_drop : (n : ℕ) → suc n < ulong_mod → (suc n + ulong_mod - 1) % ulong_mod ≡ n
count_drop n h = omega arith

abbrev pub is_found : Option Ptr → Bool
is_found none = false
is_found (some p) = true

module _ {E : Type 0} where
  abbrev pub values : Entries E → List (ElementData E)
  values [] = []
  values ((p, d) ∷ xs) = d ∷ values xs

  abbrev pub config_of : Mgr E → Config
  config_of m = record {
    has_callback = m.has_callback;
    timeout_flag = m.timeout_flag;
    timeout = m.timeout;
    max_limit_flag = m.max_limit_flag;
    max_limit = m.max_limit;
  }

  abbrev pub spec_of : Mgr E → Entries E → Spec E
  spec_of m xs = record { entries = values xs; called = m.called; config = config_of m }

  pub values-append : (xs ys : Entries E) → values (xs ++ ys) ≡ values xs ++ values ys
  values-append [] ys = refl
  values-append ((p, d) ∷ xs) ys = ap (◌∷◌ d) (values-append xs ys)

  pub length-values : (xs : Entries E) → length (values xs) ≡ length xs
  length-values [] = refl
  length-values (x ∷ xs) = ap suc (length-values xs)

  pub length-middle :
      (xs : Entries E) (p : Ptr) (d : ElementData E) (ys : Entries E)
      → length (xs ++ (p, d) ∷ ys) ≡ suc (length (xs ++ ys))
  length-middle xs p d ys = omega (arith, length-append xs ((p, d) ∷ ys), length-append xs ys)

module _ {E : Type 0} ⦃q : Eq E⦄ where
  pub member-values : (e : E) (xs : Entries E) → member e (values xs) ≡ is_found (ptr_of e xs)
  member-values e [] = refl
  member-values e ((p, d) ∷ xs) = ground (arith, member-values e xs)

  pub remove-values :
      (xs : Entries E) (p : Ptr) (d : ElementData E) (ys : Entries E)
      → ptr_of d.element xs ≡ none
      → remove d.element (values (xs ++ (p, d) ∷ ys)) ≡ values (xs ++ ys)
  remove-values [] p d ys h = rw (beq_refl d.element)
  remove-values ((r, c) ∷ xs) p d ys h = ground (arith, remove-values xs p d ys)

  -- The manager `m` implements the entries and the history of `s`.
  pub record Implements (m : Mgr E) (s : Spec E) : Type 0 where
    pub nodes : Entries E
    pub rep : Rep m nodes
    pub counted : m.element_count ≡ length nodes
    pub bounded : length nodes < ulong_mod
    pub view : spec_of m nodes ≡ s

  -- The counter counts the entries.
  pub count_entries : (m : Mgr E) (s : Spec E) → Implements m s → m.element_count ≡ length s.entries
  count_entries m s i =
      i.counted ∙ sym (length-values i.nodes) ∙ ap (λ (t : Spec E). length t.entries) i.view

  -- A new manager implements the empty list.
  pub init-Implements : Implements init (spec_of init [])
  unfolding init
  init-Implements = record {
    nodes = [];
    rep = init-Rep;
    counted = refl;
    bounded = omega arith;
    view = refl;
  }
