-- ===== src/Ingestion/Pipeline/Tables.antt =====
-- The ledger of the tables of src/ingestion/, and the operations that leave it as it is.
use pureplay_analytics_inges.Prelude.{
  ◌≡◌, refl, ap, inl, inr, Bool, Option, none, some, List, [], ◌∷◌, map, Text, ℤ, update_where,
  arith, Bool-cases,
}
use pureplay_analytics_inges.Platform.{Number, Platform}
use pureplay_analytics_inges.Domain.Shot.{NormalisedShot, Vendor}
use pureplay_analytics_inges.Database.{Database, OutboxRow}
use pureplay_analytics_inges.World.{World}
use pureplay_analytics_inges.Identity.{
  backfill, resolve_canonical_user_id, link_identity, link_transaction, unlink_identity,
  list_by_canonical_user,
}
use pureplay_analytics_inges.Identity.History
use pureplay_analytics_inges.Ingestion.Repository.{
  flag, find_origin, check_and_flag_near_duplicates, update_outbox_event_duplicate_of,
}
use pureplay_analytics_inges.Ingestion.Pipeline.{System}
use pureplay_analytics_inges.Ingestion.Pipeline.Ledger.{Key, Notice, Ledger}

map-update_where :
    {A B : Type 0} (g : A → B) (p : A → Bool) (f : A → A) (xs : List A)
    → ((x : A) → g (f x) ≡ g x)
    → map g (update_where p f xs) ≡ map g xs
map-update_where g p f [] h = refl
map-update_where g p f (x ∷ xs) h = elim (Bool-cases (p x)) [
  | inl e ↦ rw (e, h x, map-update_where g p f xs h) refl
  | inr e ↦ rw (e, map-update_where g p f xs h) refl
]

module _ {N : Type 0} where
  abbrev pub key_of : NormalisedShot N → Key
  key_of row = record {
    vendor = row.vendor;
    idempotency_key = row.idempotency_key;
    id = row.canonical_shot_id;
  }

  abbrev pub notice_of : OutboxRow N → Notice
  notice_of row = record {
    number = row.id;
    type = row.event_type;
    id = row.payload.canonical_shot_id;
  }

  abbrev pub ids_of : List (NormalisedShot N) → List Text
  ids_of = map (λ shot. shot.canonical_shot_id)

  abbrev pub tables : Database N → List Text → Ledger
  tables db announced = record {
    stored = map key_of db.shots;
    waiting = map notice_of db.outbox_events;
    next_number = db.next_outbox_id;
    announced = announced;
  }

  -- What the ledger of a system is.
  abbrev pub ledger_of : System N → Ledger
  ledger_of s = tables s.world.db (ids_of s.emitted)

  pub record Keeps (db db' : Database N) : Type 0 where
    pub shots_kept : map key_of db'.shots ≡ map key_of db.shots
    pub outbox_kept : map notice_of db'.outbox_events ≡ map notice_of db.outbox_events
    pub next_kept : db'.next_outbox_id ≡ db.next_outbox_id

  pub Keeps-tables :
      (db db' : Database N) (announced : List Text)
      → Keeps db db'
      → tables db' announced ≡ tables db announced
  Keeps-tables db db' announced k = rw (k.shots_kept, k.outbox_kept, k.next_kept) refl

  pub backfill-Keeps : (v : Vendor) (u c : Text) (db : Database N) → Keeps db (backfill v u c db)
  unfolding backfill
  backfill-Keeps v u c db = record {
    shots_kept = map-update_where key_of _ _ db.shots (λ row. refl);
    outbox_kept = refl;
    next_kept = refl;
  }

  pub update_outbox-Keeps :
      (id origin : Text) (db : Database N)
      → Keeps db (update_outbox_event_duplicate_of id origin db)
  unfolding update_outbox_event_duplicate_of
  update_outbox-Keeps id origin db = record {
    shots_kept = refl;
    outbox_kept = map-update_where notice_of _ _ db.outbox_events (λ row. refl);
    next_kept = refl;
  }

  abbrev pub Same : Database N → Database N → Type 0
  Same db db' =
      (db'.shots ≡ db.shots)
      × (db'.outbox_events ≡ db.outbox_events)
      × (db'.next_outbox_id ≡ db.next_outbox_id)

  pub Keeps-Same : (db db' : Database N) → Same db db' → Keeps db db'
  Keeps-Same db db' (shots, outbox, number) = record {
    shots_kept = ap (map key_of) shots;
    outbox_kept = ap (map notice_of) outbox;
    next_kept = number;
  }

  resolve-Same :
      (vendor u : Text) (w : World N) → Same w.db (resolve_canonical_user_id vendor u w).1.db
  unfolding resolve_canonical_user_id
  resolve-Same vendor u w = ground arith

  link-Same :
      (v : Vendor) (u c actor : Text) (now : ℤ) (w : World N)
      → Same w.db (link_identity v u c actor now w).1.db
  unfolding link_identity link_transaction
  link-Same v u c actor now w = ground arith

  unlink-Same :
      (v : Vendor) (u c actor : Text) (w w' : World N)
      → unlink_identity v u c actor w ≡ some w'
      → Same w.db w'.db
  unfolding unlink_identity
  unlink-Same v u c actor w w' h = ground arith

  list-Same : (c actor : Text) (w : World N) → Same w.db (list_by_canonical_user c actor w).1.db
  unfolding list_by_canonical_user
  list-Same c actor w = ground arith

  pub History-Keeps : (w w' : World N) → History.Step w w' → Keeps w.db w'.db
  History-Keeps w w' (History.resolved vendor u) = Keeps-Same w.db _ (resolve-Same vendor u w)
  History-Keeps w w' (History.linked v u c actor now _) =
      Keeps-Same w.db _ (link-Same v u c actor now w)
  History-Keeps w w' (History.unlinked v u c actor h) =
      Keeps-Same w.db w'.db (unlink-Same v u c actor w w' h)
  History-Keeps w w' (History.listed c actor) = Keeps-Same w.db _ (list-Same c actor w)
  History-Keeps w w' (History.expired keys) = Keeps-Same w.db w.db (refl, refl, refl)

module _ {N : Type 0} ⦃num : Number N⦄ ⦃p : Platform⦄ where
  pub check-Keeps :
      (shot : NormalisedShot N) (db : Database N)
      → Keeps db (check_and_flag_near_duplicates shot db).1
  unfolding check_and_flag_near_duplicates
  check-Keeps shot db = flagged_or_not (find_origin shot db.shots)
    where
      flagged_or_not : (o : Option (NormalisedShot N)) → Keeps db (flag shot db o).1
      flagged_or_not none = Keeps-Same db db (refl, refl, refl)
      flagged_or_not (some origin) = record {
        shots_kept = map-update_where key_of _ _ db.shots (λ row. refl);
        outbox_kept = refl;
        next_kept = refl;
      }
