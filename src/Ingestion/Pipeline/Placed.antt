-- ===== src/Ingestion/Pipeline/Placed.antt =====
-- The jobs that the workers of src/ingestion/shot-ingestion.processor.ts have worked off.
use mathlib.Core.Path.{subst}
use pureplay_analytics_inges.Prelude.{◌≡◌, sym, ap, List, [], ◌∷◌, ◌++◌, All-middle, All, All-map}
use pureplay_analytics_inges.Platform.{Number, Platform, Serialiser}
use pureplay_analytics_inges.Ingestion.Pipeline.{Attempt, System, Step, Reach}
use pureplay_analytics_inges.Ingestion.Pipeline.Ledger.{Ledger, LedgerStep, IsConsistent}
use pureplay_analytics_inges.Ingestion.Pipeline.Tables.{ledger_of, ids_of}
use pureplay_analytics_inges.Ingestion.Pipeline.Refines.{Step-LedgerStep, Reach-IsConsistent}
use pureplay_analytics_inges.Ingestion.Pipeline.Stages.{
  IsPlaced, IsPlaced-LedgerStep, advance-IsPlaced,
}

module _ {N : Type 0} ⦃num : Number N⦄ ⦃p : Platform⦄ ⦃ser : Serialiser N⦄ where
  abbrev pub ArePlaced : Ledger → List (Attempt N) → Type 0
  ArePlaced a = All (λ x. IsPlaced a x.job x.stage)

  ArePlaced-LedgerStep :
      (a b : Ledger) (xs : List (Attempt N)) → LedgerStep a b → ArePlaced a xs → ArePlaced b xs
  ArePlaced-LedgerStep a b xs s h =
      All-map _ _ (λ x k. IsPlaced-LedgerStep a b x.job x.stage s k) xs h

  replaced :
      (P : Attempt N → Type 0) (front : List (Attempt N)) (x y : Attempt N)
      (back : List (Attempt N))
      → All P (front ++ x ∷ back)
      → P y
      → All P (front ++ y ∷ back)
  replaced P [] x y back h k = (k, h.1)
  replaced P (z ∷ front) x y back h k = (h.0, replaced P front x y back h.1 k)

  removed :
      (P : Attempt N → Type 0) (front : List (Attempt N)) (x : Attempt N) (back : List (Attempt N))
      → All P (front ++ x ∷ back)
      → All P (front ++ back)
  removed P [] x back h = h.1
  removed P (z ∷ front) x back h = (h.0, removed P front x back h.1)

  Step-ArePlaced :
      (s t : System N)
      → IsConsistent (ledger_of s)
      → Step s t
      → ArePlaced (ledger_of s) s.attempts
      → ArePlaced (ledger_of t) t.attempts
  Step-ArePlaced s t c step h = moved step
    where
      later : ArePlaced (ledger_of t) s.attempts
      later =
          ArePlaced-LedgerStep (ledger_of s) (ledger_of t) s.attempts (Step-LedgerStep s t c step) h

      kept_attempts : t.attempts ≡ s.attempts → ArePlaced (ledger_of t) t.attempts
      kept_attempts e = subst (ArePlaced (ledger_of t)) (sym e) later

      moved : Step s t → ArePlaced (ledger_of t) t.attempts
      moved (Step.taken job e) =
          subst (ArePlaced (ledger_of t)) (sym (ap (λ u. u.attempts) e)) (tt, later)
      moved (Step.worked now front a back stage w split run e) =
          subst (λ u. ArePlaced (ledger_of u) u.attempts) (sym e)
            (replaced _ front a _ back
              (subst (λ u. ArePlaced (ledger_of u) (front ++ a ∷ back)) e
                (subst (ArePlaced (ledger_of t)) split later))
              (advance-IsPlaced now a.job a.stage stage s.world w (ids_of s.emitted) run (
                All-middle (λ x. IsPlaced (ledger_of s) x.job x.stage) front a back
                  (subst (ArePlaced (ledger_of s)) split h))))
      moved (Step.retried front a back split e) =
          subst (ArePlaced (ledger_of t)) (sym (ap (λ u. u.attempts) e))
            (replaced _ front a _ back (subst (ArePlaced (ledger_of t)) split later) tt)
      moved (Step.thrown front a back split e) =
          subst (ArePlaced (ledger_of t)) (sym (ap (λ u. u.attempts) e))
            (replaced _ front a _ back (subst (ArePlaced (ledger_of t)) split later) tt)
      moved (Step.given_up front a back split e) =
          subst (ArePlaced (ledger_of t)) (sym (ap (λ u. u.attempts) e))
            (removed _ front a back (subst (ArePlaced (ledger_of t)) split later))
      moved (Step.published listeners unlocked e) = kept_attempts (ap (λ u. u.attempts) e)
      moved (Step.rolled_back listeners unlocked e) = kept_attempts (ap (λ u. u.attempts) e)
      moved (Step.identified w _ e) = kept_attempts (ap (λ u. u.attempts) e)
      moved (Step.backfilled v u c e) = kept_attempts (ap (λ u. u.attempts) e)

  -- In every state that the system reaches from a consistent one, each job that is behind its
  -- insertion, or finished otherwise than by the clock check, has a stored shot of its vendor
  -- and idempotency key, if that held at the start.
  pub Reach-ArePlaced :
      (s t : System N)
      → IsConsistent (ledger_of s)
      → ArePlaced (ledger_of s) s.attempts
      → Reach s t
      → ArePlaced (ledger_of t) t.attempts
  Reach-ArePlaced s t c h Reach.start = h
  Reach-ArePlaced s t c h (Reach.next {t = u} r step) =
      Step-ArePlaced u t (Reach-IsConsistent s u c r) step (Reach-ArePlaced s u c h r)
