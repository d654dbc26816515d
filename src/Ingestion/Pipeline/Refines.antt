-- ===== src/Ingestion/Pipeline/Refines.antt =====
-- The steps of the pipeline of src/ingestion/ as steps of its ledger.
use mathlib.Core.Path.{subst}
use mathlib.Core.List.{map-append}
use pureplay_analytics_inges.Prelude.{◌≡◌, refl, sym, ap, ◌∙◌, some, List, ◌++◌}
use pureplay_analytics_inges.Platform.{Number, Platform, Serialiser}
use pureplay_analytics_inges.Domain.Shot.{NormalisedShot}
use pureplay_analytics_inges.Database.{Database}
use pureplay_analytics_inges.World.{World}
use pureplay_analytics_inges.Identity.{backfill}
use pureplay_analytics_inges.Ingestion.Queue.{ShotJob}
use pureplay_analytics_inges.Ingestion.Outbox.{publish_pending}
use pureplay_analytics_inges.Ingestion.Processor.{on_failed}
use pureplay_analytics_inges.Ingestion.Pipeline.{System, Step, Reach}
use pureplay_analytics_inges.Ingestion.Pipeline.Ledger.{
  LedgerStep, unchanged, IsConsistent, LedgerStep-IsConsistent,
}
use pureplay_analytics_inges.Ingestion.Pipeline.Tables.{
  ids_of, tables, ledger_of, Keeps-tables, backfill-Keeps, History-Keeps,
}
use pureplay_analytics_inges.Ingestion.Pipeline.Working.{advance-LedgerStep}
use pureplay_analytics_inges.Ingestion.Pipeline.Publishing.{
  published-LedgerStep, rolled_back-LedgerStep,
}

module _ {N : Type 0} ⦃num : Number N⦄ ⦃p : Platform⦄ ⦃ser : Serialiser N⦄ where
  same_on_failed : (job : ShotJob N) (w : World N) → (on_failed (some job) w).db ≡ w.db
  unfolding on_failed
  same_on_failed job w = refl

  emitted-more :
      (s : System N) (more : List (NormalisedShot N)) (db : Database N)
      → tables db (ids_of (s.emitted ++ more)) ≡ tables db (ids_of s.emitted ++ ids_of more)
  emitted-more s more db =
      ap (tables db) (map-append (λ shot. shot.canonical_shot_id) s.emitted more)

  -- A step of the system (a job taken up, worked off up to its next await, failed, retried or
  -- given up, a publishing cycle, one that dies before its commit, an identity route or a
  -- backfill) is, from a state whose ledger is consistent, a step of the ledger. It leaves the
  -- ledger as it is, or stores one shot of a new key and id together with its notice, or
  -- announces shots that wait and drops only notices of shots that it has announced.
  pub Step-LedgerStep :
      (s t : System N)
      → IsConsistent (ledger_of s)
      → Step s t
      → LedgerStep (ledger_of s) (ledger_of t)
  Step-LedgerStep s t h (Step.taken job e) = unchanged (ap ledger_of e)
  Step-LedgerStep s t h (Step.worked now front a back stage w split run e) =
      subst (λ u. LedgerStep (ledger_of s) (ledger_of u)) (sym e)
        (advance-LedgerStep now a.job a.stage stage s.world w (ids_of s.emitted) run)
  Step-LedgerStep s t h (Step.retried front a back split e) = unchanged (ap ledger_of e)
  Step-LedgerStep s t h (Step.given_up front a back split e) =
      unchanged
        (ap ledger_of e ∙ ap (λ d. tables d (ids_of s.emitted)) (same_on_failed a.job s.world))
  Step-LedgerStep s t h (Step.thrown front a back split e) =
      unchanged
        (ap ledger_of e ∙ ap (λ d. tables d (ids_of s.emitted)) (same_on_failed a.job s.world))
  Step-LedgerStep s t h (Step.published listeners unlocked e) =
      subst (λ u. LedgerStep (ledger_of s) (ledger_of u)) (sym e)
        (subst (LedgerStep (ledger_of s))
          (sym (emitted-more s _ (publish_pending listeners unlocked s.world.db).1))
          (published-LedgerStep listeners unlocked s.world.db (ids_of s.emitted) h))
  Step-LedgerStep s t h (Step.rolled_back listeners unlocked e) =
      subst (λ u. LedgerStep (ledger_of s) (ledger_of u)) (sym e)
        (subst (LedgerStep (ledger_of s)) (sym (emitted-more s _ s.world.db))
          (rolled_back-LedgerStep listeners unlocked s.world.db (ids_of s.emitted)))
  Step-LedgerStep s t h (Step.identified w step e) = unchanged (
      ap ledger_of e
      ∙ Keeps-tables s.world.db w.db (ids_of s.emitted) (History-Keeps s.world w step))
  Step-LedgerStep s t h (Step.backfilled v u c e) = unchanged (
      ap ledger_of e
      ∙ Keeps-tables s.world.db (backfill v u c s.world.db) (ids_of s.emitted)
          (backfill-Keeps v u c s.world.db))

  -- In every state that the system reaches from one whose ledger is consistent, by any
  -- interleaving of workers, crashes, retries, publishing cycles and identity routes, the
  -- ledger is consistent. No two stored shots share a vendor and idempotency key, or an id,
  -- each stored shot still waits in the outbox or was announced, and only stored shots wait or
  -- were announced.
  pub Reach-IsConsistent :
      (s t : System N) → IsConsistent (ledger_of s) → Reach s t → IsConsistent (ledger_of t)
  Reach-IsConsistent s t h Reach.start = h
  Reach-IsConsistent s t h (Reach.next {t = u} r step) =
      let so_far = Reach-IsConsistent s u h r in
      LedgerStep-IsConsistent (ledger_of u) (ledger_of t) (Step-LedgerStep u t so_far step) so_far
