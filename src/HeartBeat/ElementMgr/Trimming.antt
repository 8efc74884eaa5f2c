-- ===== src/HeartBeat/ElementMgr/Trimming.antt =====
-- The end of a list that is over, entry by entry.
use newbee.Base.{
  ◌≡◌, refl, Bool, true, false, List, [], ◌∷◌, ◌++◌, arith, if◌then◌else◌, append-nil, append_assoc,
}
use newbee.HeartBeat.ElementMgr.{ElementData, Mgr}
use newbee.HeartBeat.ElementMgr.Spec.{Spec, trim, trimmed, is_nil, told}
use newbee.HeartBeat.ElementMgr.Evict.{noted}
use newbee.HeartBeat.ElementMgr.Implements.{spec_of, config_of}

is_nil-snoc :
    {E : Type 0} (ds : List (ElementData E)) (d : ElementData E) → is_nil (ds ++ d ∷ []) ≡ false
is_nil-snoc [] d = refl
is_nil-snoc (c ∷ ds) d = refl

module _ {E : Type 0} (over : ElementData E → Bool) where
  -- A last entry that is over goes first, and one that is not ends the trimming.
  trim-snoc_over :
      (ds : List (ElementData E)) (d : ElementData E)
      → over d ≡ true
      → (trim over (ds ++ d ∷ []) ≡ trim over ds)
        × (trimmed over (ds ++ d ∷ []) ≡ d.element ∷ trimmed over ds)
  trim-snoc_over [] d h = ground arith
  trim-snoc_over (c ∷ ds) d h =
      let ih = trim-snoc_over ds d h in (rw ih.0, ground (arith, ih.0, ih.1))

  trim-snoc_not :
      (ds : List (ElementData E)) (d : ElementData E)
      → over d ≡ false
      → (trim over (ds ++ d ∷ []) ≡ ds ++ d ∷ []) × (trimmed over (ds ++ d ∷ []) ≡ [])
  trim-snoc_not [] d h = ground arith
  trim-snoc_not (c ∷ ds) d h =
      let ih = trim-snoc_not ds d h in
      let rest : is_nil (ds ++ d ∷ []) ≡ false = is_nil-snoc ds d in
      (rw (ih.0, rest), rw (ih.0, rest, ih.1))

  abbrev pub trims : Spec E → Spec E
  trims s = record s { entries = trim over s.entries; called = told s (trimmed over s.entries) }

  -- Trimming a last entry that is over is telling of it and trimming the rest.
  pub trims-snoc_over :
      (ds : List (ElementData E)) (d : ElementData E) (m : Mgr E)
      → over d ≡ true
      → trims (record (spec_of (noted m d.element) []) { entries = ds })
        ≡ trims (record (spec_of m []) { entries = ds ++ d ∷ [] })
  trims-snoc_over ds d m h =
      rw ((trim-snoc_over ds d h).0, (trim-snoc_over ds d h).1)
        (told_more ds d.element m m.has_callback)
    where
      told_more :
          (cs : List (ElementData E)) (e : E) (n : Mgr E) (b : Bool)
          → ◌≡◌ {A = Spec E}
              (record {
                entries = trim over cs;
                called =
                    if b
                    then (if b then n.called ++ e ∷ [] else n.called) ++ trimmed over cs
                    else (if b then n.called ++ e ∷ [] else n.called);
                config = record (config_of n) { has_callback = b };
              })
              (record {
                entries = trim over cs;
                called = if b then n.called ++ e ∷ trimmed over cs else n.called;
                config = record (config_of n) { has_callback = b };
              })
      told_more cs e n true = rw append_assoc
      told_more cs e n false = refl

  pub trims-snoc_not :
      (ds : List (ElementData E)) (d : ElementData E) (m : Mgr E)
      → over d ≡ false
      → record (spec_of m []) { entries = ds ++ d ∷ [] }
        ≡ trims (record (spec_of m []) { entries = ds ++ d ∷ [] })
  trims-snoc_not ds d m h =
      rw ((trim-snoc_not ds d h).0, (trim-snoc_not ds d h).1) (ground (arith, append-nil m.called))
