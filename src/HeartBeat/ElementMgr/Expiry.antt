-- ===== src/HeartBeat/ElementMgr/Expiry.antt =====
-- Which elements time out: in a list that is ordered by time, exactly those that are over.
use newbee.Base.{
  ℕ, ◌+◌, ◌<◌, ◌≤◌, ◌≡◌, refl, ap, ◌∙◌, sym, Bool, true, List, [], ◌∷◌, ◌++◌, arith, if◌then◌else◌,
  leb, Eq, length, Bool-cases, inl, inr,
}
use newbee.Memory.{Returns}
use newbee.HeartBeat.NodeList.{success}
use newbee.HeartBeat.ElementMgr.{ElementData, Mgr, handle_timeout}
use newbee.HeartBeat.ElementMgr.Spec
use newbee.HeartBeat.ElementMgr.Spec.{Spec, trim, trimmed, is_over, is_nil, told, drop_last, remove}
use newbee.HeartBeat.ElementMgr.Implements.{Implements}
use newbee.HeartBeat.ElementMgr.Timeout.{handle_timeout-Implements}

module _ {E : Type 0} where
  -- No entry is later than `t`.
  abbrev pub UpTo : ℕ → List (ElementData E) → Type 0
  UpTo t [] = Unit {0}
  UpTo t (d ∷ ds) = (d.time ≤ t) × UpTo t ds

  -- The most recent entry first.
  abbrev pub IsOrdered : List (ElementData E) → Type 0
  IsOrdered [] = Unit {0}
  IsOrdered (d ∷ ds) = UpTo d.time ds × IsOrdered ds

  -- The entries that are not over, in order.
  abbrev pub in_time : (ElementData E → Bool) → List (ElementData E) → List (ElementData E)
  in_time over [] = []
  in_time over (d ∷ ds) = if over d then in_time over ds else d ∷ in_time over ds

  -- The elements that are over, the oldest first.
  abbrev pub late : (ElementData E → Bool) → List (ElementData E) → List E
  late over [] = []
  late over (d ∷ ds) = if over d then late over ds ++ d.element ∷ [] else late over ds

  module _ (now timeout : ℕ) where
    abbrev over : ElementData E → Bool
    over = is_over now timeout

    -- Behind an entry that is over there are only such.
    in_time-over :
        (t : ℕ) (ds : List (ElementData E))
        → UpTo t ds
        → leb (t + timeout) now ≡ true
        → in_time over ds ≡ []
    in_time-over t [] u h = refl
    in_time-over t (d ∷ ds) u h = ground (arith, in_time-over t ds u.1 h)

    trim-in_time :
        (ds : List (ElementData E))
        → IsOrdered ds
        → (trim over ds ≡ in_time over ds) × (trimmed over ds ≡ late over ds)
    trim-in_time [] o = (refl, refl)
    trim-in_time (d ∷ ds) o =
        let ih = trim-in_time ds o.1 in
        elim (Bool-cases (over d)) [
          | inl y ↦
              let none_left : trim over ds ≡ [] = ih.0 ∙ in_time-over d.time ds o.0 y in
              (
                rw (y, none_left) (sym (in_time-over d.time ds o.0 y)),
                rw (y, none_left) (ap (λ es. es ++ d.element ∷ []) ih.1),
              )
          | inr n ↦ ground (arith, ih)
        ]

  exactly :
      (now : ℕ) (s : Spec E)
      → IsOrdered s.entries
      → s.config.timeout_flag ≡ true
      → Spec.handle_timeout now s ≡ record s {
        entries = in_time (is_over now s.config.timeout) s.entries;
        called = told s (late (is_over now s.config.timeout) s.entries);
      }
  unfolding Spec.handle_timeout
  exactly now s ordered on = ground (arith, trim-in_time now s.config.timeout s.entries ordered)

  UpTo-mono : (t u : ℕ) (ds : List (ElementData E)) → t ≤ u → UpTo t ds → UpTo u ds
  UpTo-mono t u [] h b = tt
  UpTo-mono t u (d ∷ ds) h b = (omega arith, UpTo-mono t u ds h b.1)

  UpTo-trim :
      (f : ElementData E → Bool) (t : ℕ) (ds : List (ElementData E))
      → UpTo t ds
      → UpTo t (trim f ds)
  UpTo-trim f t [] b = tt
  UpTo-trim f t (d ∷ ds) b = ground (arith, UpTo-trim f t ds b.1)

  IsOrdered-trim :
      (f : ElementData E → Bool) (ds : List (ElementData E)) → IsOrdered ds → IsOrdered (trim f ds)
  IsOrdered-trim f [] o = tt
  IsOrdered-trim f (d ∷ ds) o = ground (arith, IsOrdered-trim f ds o.1, UpTo-trim f d.time ds o.0)

  UpTo-drop_last : (t : ℕ) (ds : List (ElementData E)) → UpTo t ds → UpTo t (drop_last ds)
  UpTo-drop_last t [] b = tt
  UpTo-drop_last t (d ∷ ds) b = ground (arith, UpTo-drop_last t ds b.1)

  IsOrdered-drop_last : (ds : List (ElementData E)) → IsOrdered ds → IsOrdered (drop_last ds)
  IsOrdered-drop_last [] o = tt
  IsOrdered-drop_last (d ∷ ds) o =
      ground (arith, IsOrdered-drop_last ds o.1, UpTo-drop_last d.time ds o.0)

  -- Ordered by time, with no entry later than `t`.
  pub record Timely (t : ℕ) (s : Spec E) : Type 0 where
    pub ordered : IsOrdered s.entries
    pub up_to : UpTo t s.entries

  pub Timely-mono : (t u : ℕ) (s : Spec E) → t ≤ u → Timely t s → Timely u s
  Timely-mono t u s h y = record { ordered = y.ordered; up_to = UpTo-mono t u s.entries h y.up_to }

  pub handle_timeout-Timely :
      (t now : ℕ) (s : Spec E) → Timely t s → Timely t (Spec.handle_timeout now s)
  unfolding Spec.handle_timeout
  handle_timeout-Timely t now s y = elim (Bool-cases s.config.timeout_flag) [
    | inl on ↦ simp on (record {
      ordered = IsOrdered-trim _ s.entries y.ordered;
      up_to = UpTo-trim _ t s.entries y.up_to;
    })
    | inr off ↦ simp off y
  ]

  evict-Timely : (t : ℕ) (s : Spec E) → Timely t s → Timely t (Spec.evict s)
  unfolding Spec.evict
  evict-Timely t s y =
      ground (arith, IsOrdered-drop_last s.entries y.ordered, UpTo-drop_last t s.entries y.up_to)

module _ {E : Type 0} ⦃q : Eq E⦄ where
  UpTo-remove : (e : E) (t : ℕ) (ds : List (ElementData E)) → UpTo t ds → UpTo t (remove e ds)
  UpTo-remove e t [] b = tt
  UpTo-remove e t (d ∷ ds) b = ground (arith, UpTo-remove e t ds b.1)

  IsOrdered-remove : (e : E) (ds : List (ElementData E)) → IsOrdered ds → IsOrdered (remove e ds)
  IsOrdered-remove e [] o = tt
  IsOrdered-remove e (d ∷ ds) o =
      ground (arith, IsOrdered-remove e ds o.1, UpTo-remove e d.time ds o.0)

  -- The operations keep the order when the clock does not run back.
  pub add_element-Timely :
      (now : ℕ) (s : Spec E) (has_memory : Bool) (e : E)
      → Timely now s
      → Timely now (Spec.add_element has_memory now e s).1
  unfolding Spec.add_element
  add_element-Timely now s has_memory e y = ground (arith, evict-Timely now s y)

  pub update_element-Timely :
      (now : ℕ) (s : Spec E) (e : E) → Timely now s → Timely now (Spec.update_element now e s).1
  unfolding Spec.update_element
  update_element-Timely now s e y =
      ground (arith, IsOrdered-remove e s.entries y.ordered, UpTo-remove e now s.entries y.up_to)

  pub del_element-Timely :
      (now : ℕ) (s : Spec E) (e : E) → Timely now s → Timely now (Spec.del_element e s).1
  unfolding Spec.del_element
  del_element-Timely now s e y =
      ground (arith, IsOrdered-remove e s.entries y.ordered, UpTo-remove e now s.entries y.up_to)

  -- For a manager that implements a list of entries that is ordered by time, with a time-out,
  -- `handle_timeout` with more fuel than there are entries returns success, keeps exactly the
  -- entries that are not over, and calls back for exactly the others, the oldest first.
  pub handle_timeout-exact :
      (fuel now : ℕ) (m : Mgr E) (s : Spec E)
      → Implements m s
      → IsOrdered s.entries
      → s.config.timeout_flag ≡ true
      → length s.entries < fuel
      → Returns
          (λ r.
            (r.0 ≡ success)
            × Implements r.1 (record s {
              entries = in_time (is_over now s.config.timeout) s.entries;
              called = told s (late (is_over now s.config.timeout) s.entries);
            }))
          (handle_timeout fuel now m)
  handle_timeout-exact fuel now m s i ordered on enough =
      rw (← exactly now s ordered on) (handle_timeout-Implements fuel now m s i enough)
