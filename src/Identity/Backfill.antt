-- ===== src/Identity/Backfill.antt =====
-- The backfill of src/identity/identity.service.ts after a link.
use pureplay_analytics_inges.Prelude.{
  ◌≡◌, refl, sym, ap, Bool, none, text_eq, text_eq_iff, Option-cases, if◌then◌else◌, true, false,
  some, List, [], ◌∷◌, Text, arith, inl, inr, Bool-cases, update_where,
}
use pureplay_analytics_inges.Domain.Shot.{NormalisedShot, Vendor, vendor_eq, vendor_eq_iff}
use pureplay_analytics_inges.Database.{Database}
use pureplay_analytics_inges.Identity.{lacks_canonical, backfill}

module _ {N : Type 0} (v : Vendor) (u c : Text) where
  abbrev pub given : NormalisedShot N → NormalisedShot N
  given s = record s { canonical_user_id = some c }

  -- One shot before and after: a shot of the vendor's user that has no canonical user gets the linked
  -- one and keeps all else, and any other shot is as it was.
  pub data IsBackfilled (row after : NormalisedShot N) : Type 0 where
    linked :
        row.vendor ≡ v
        → row.vendor_user_id ≡ u
        → row.canonical_user_id ≡ none
        → after ≡ given row
        → IsBackfilled row after
    of_other_vendor : ¬ (row.vendor ≡ v) → after ≡ row → IsBackfilled row after
    of_other_user : ¬ (row.vendor_user_id ≡ u) → after ≡ row → IsBackfilled row after
    has_canonical :
        (d : Text) → row.canonical_user_id ≡ some d → after ≡ row → IsBackfilled row after

  -- Two tables, row by row in one order.
  abbrev pub AreBackfilled : List (NormalisedShot N) → List (NormalisedShot N) → Type 0
  AreBackfilled [] [] = Unit
  AreBackfilled (row ∷ rows) (after ∷ afters) = IsBackfilled row after × AreBackfilled rows afters
  AreBackfilled _ _ = ⊥

  IsBackfilled-row :
      (row : NormalisedShot N)
      → IsBackfilled row (if lacks_canonical v u row then given row else row)
  IsBackfilled-row row = elim (Bool-cases (vendor_eq v row.vendor)) [
    | inr e ↦ rw e (
        IsBackfilled.of_other_vendor (λ h. absurd (cc ((vendor_eq_iff v row.vendor).1 (sym h), e)))
          refl)
    | inl e ↦ elim (Bool-cases (text_eq u row.vendor_user_id)) [
      | inr f ↦
          rw (e, f)
            (IsBackfilled.of_other_user
              (λ h. absurd (cc ((text_eq_iff u row.vendor_user_id).1 (sym h), f))) refl)
      | inl f ↦ elim (Option-cases row.canonical_user_id) [
        | inl g ↦
            IsBackfilled.linked (sym ((vendor_eq_iff v row.vendor).0 e))
              (sym ((text_eq_iff u row.vendor_user_id).0 f)) g
              (chosen true (ground (arith, e, f, g)))
        | inr (d, g) ↦ IsBackfilled.has_canonical d g (chosen false (ground (arith, e, f, g)))
      ]
    ]
  ]
    where
      chosen :
          (b : Bool)
          → lacks_canonical v u row ≡ b
          → (if lacks_canonical v u row then given row else row) ≡ (if b then given row else row)
      chosen b h = ap (λ b. if b then given row else row) h

  update_where-AreBackfilled :
      (rows : List (NormalisedShot N))
      → AreBackfilled rows (update_where (lacks_canonical v u) given rows)
  update_where-AreBackfilled [] = tt
  update_where-AreBackfilled (row ∷ rows) = (IsBackfilled-row row, update_where-AreBackfilled rows)

  -- The backfill of a link gives each shot of its vendor and vendor user that has no canonical
  -- user the linked one and changes nothing else of it, and leaves every shot of another
  -- vendor, of another vendor user or with a canonical user, and every other table, as it was,
  -- in the same order.
  pub backfill_complete :
      (db : Database N)
      → AreBackfilled db.shots (backfill v u c db).shots
        × (backfill v u c db ≡ record db { shots = (backfill v u c db).shots })
  unfolding backfill
  backfill_complete db = (update_where-AreBackfilled db.shots, refl)
