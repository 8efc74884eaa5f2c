-- ===== src/HeartBeat/ElementMgr/Constancy.antt =====
-- What the operations of the specification leave as it is: the settings.
use newbee.Base.{ℕ, ◌<◌, ◌≡◌, refl, Bool, true, not, arith, Eq, ◌==◌, inl, inr, Bool-cases}
use newbee.HeartBeat.NodeList.{null}
use newbee.HeartBeat.ElementMgr.Spec
use newbee.HeartBeat.ElementMgr.Spec.{Spec, Config, is_over, told}

-- A limit of at least one, where there is a limit.
abbrev pub HasRoom : Config → Type 0
HasRoom c = c.max_limit_flag ≡ true → 0 < c.max_limit

-- Whether the pool answered with a node.
pub supplied : (fresh : ℕ) → (fresh == null) ≡ not (not (fresh == null))
supplied fresh = elim (Bool-cases (fresh == null)) [ inl y ↦ rw y refl | inr n ↦ rw n refl ]

module _ {E : Type 0} where
  pub handle_timeout-config : (now : ℕ) (s : Spec E) → (Spec.handle_timeout now s).config ≡ s.config
  unfolding Spec.handle_timeout
  handle_timeout-config now s = ground arith

  evict-config : (s : Spec E) → (Spec.evict s).config ≡ s.config
  unfolding Spec.evict
  evict-config s = ground arith

module _ {E : Type 0} ⦃q : Eq E⦄ where
  pub add_element-config :
      (has_memory : Bool) (now : ℕ) (e : E) (s : Spec E)
      → (Spec.add_element has_memory now e s).1.config ≡ s.config
  unfolding Spec.add_element
  add_element-config has_memory now e s = ground (arith, evict-config s)

  pub update_element-config :
      (now : ℕ) (e : E) (s : Spec E) → (Spec.update_element now e s).1.config ≡ s.config
  unfolding Spec.update_element
  update_element-config now e s = ground arith

  pub del_element-config : (e : E) (s : Spec E) → (Spec.del_element e s).1.config ≡ s.config
  unfolding Spec.del_element
  del_element-config e s = ground arith
