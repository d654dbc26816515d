-- ===== src/Database.antt =====
-- The tables of migrations/001_init.sql that the service reads and writes, as lists of rows in
-- insertion order, and the statements on them. `src/shared/kysely/types.ts` has the row types.
pub mod Order
pub mod Sorted
use pureplay_analytics_inges.Prelude.{
  ℕ, suc, ◌+◌, Bool, true, false, ◌&&◌, ◌||◌, not, Option, none, some, List, [], ◌∷◌, ◌++◌, Text,
  text_eq, ℤ, find, any, All, ◌<◌, ◌≢◌, if◌then◌else◌,
}
use pureplay_analytics_inges.Platform.{Number}
use pureplay_analytics_inges.Domain.Club.{ClubValue, code, inherited}
use pureplay_analytics_inges.Domain.Shot.{NormalisedShot, Vendor, vendor_eq}

-- `payload` is the shot without its `raw_payload` member, which the row type shows as empty.
pub record OutboxRow (N : Type 0) : Type 0 where
  pub id : ℕ
  pub event_type : Text
  pub payload : NormalisedShot N
  pub created_at : ℤ

pub record FailureRow : Type 0 where
  pub vendor : Vendor
  pub received_at_utc : ℤ
  pub raw_body : Text
  pub http_status : ℕ
  pub error_code : Text
  pub captured_at_utc : ℤ
  pub correlation_id : Text

pub record IdentityRow : Type 0 where
  pub id : ℕ
  pub vendor : Vendor
  pub vendor_user_id : Text
  pub canonical_user_id : Text
  pub created_at : ℤ
  pub updated_at : ℤ

pub data AuditAction : Type 0 where
  identity_link identity_unlink identity_list : AuditAction

pub record AuditRow : Type 0 where
  pub action : AuditAction
  pub actor : Text
  pub canonical_user_id : Text
  pub vendor : Option Vendor
  pub vendor_user_id : Option Text
  pub result_count : Option ℕ

-- The next values of the BIGSERIAL columns stand beside the tables.
pub record Database (N : Type 0) : Type 0 where
  pub shots : List (NormalisedShot N)
  pub outbox_events : List (OutboxRow N)
  pub ingestion_failures : List FailureRow
  pub user_identities : List IdentityRow
  pub audit_log : List AuditRow
  pub next_outbox_id : ℕ
  pub next_identity_id : ℕ

abbrev pub all_of : {N : Type 0} → (N → Bool) → Option N → Bool
all_of p none = true
all_of p (some x) = p x

abbrev pub is_club_code : ClubValue → Bool
is_club_code (code c) = true
is_club_code (inherited name) = false

module _ {N : Type 0} where
  abbrev pub same_key : NormalisedShot N → NormalisedShot N → Bool
  same_key s row = vendor_eq s.vendor row.vendor && text_eq s.idempotency_key row.idempotency_key

  abbrev pub has_id : Text → NormalisedShot N → Bool
  has_id id row = text_eq row.canonical_shot_id id

module _ {N : Type 0} ⦃num : Number N⦄ where
  abbrev in_range : ℕ → ℕ → N → Bool
  in_range low high x = num.le (num.literal low 0) x && num.lt x (num.literal high 0)

  abbrev between : N → N → N → Bool
  between low high x = num.le low x && num.le x high

  -- The column constraints of `shots`: the CHECKs, and the enum of `club_code`.
  unfoldable pub satisfies_checks : NormalisedShot N → Bool
  satisfies_checks s =
      is_club_code s.club_code
      && in_range 0 120 s.ball_speed_mps
      && all_of (in_range 0 100) s.club_head_speed_mps
      && between (num.neg (num.literal 10 0)) (num.literal 70 0) s.launch_angle_deg
      && all_of (in_range 0 15000) s.spin_rpm
      && in_range 0 450 s.carry_m
      && all_of (in_range 0 500) s.total_m
      && between (num.neg (num.literal 200 0)) (num.literal 200 0) s.lateral_m

  -- The foreign key of `duplicate_of`.
  abbrev references_a_shot : NormalisedShot N → List (NormalisedShot N) → Bool
  references_a_shot s rows = all_of (λ id. any (has_id id) rows) s.duplicate_of

-- What `INSERT INTO shots … ON CONFLICT (vendor, idempotency_key) DO NOTHING RETURNING
-- canonical_shot_id` comes to: a constraint violation, no row, or the new row's id.
pub data Insertion : Type 0 where
  rejected : Insertion
  conflict : Insertion
  stored : Text → Insertion

module _ {N : Type 0} ⦃num : Number N⦄ where
  unfoldable pub insert_shot : NormalisedShot N → List (NormalisedShot N) → Insertion
  insert_shot s rows =
      if not (satisfies_checks s)
      then rejected
      else if any (same_key s) rows
      then conflict
      else if any (has_id s.canonical_shot_id) rows || not (references_a_shot s rows)
      then rejected
      else stored s.canonical_shot_id

-- `id BIGSERIAL PRIMARY KEY`: the ids of the outbox are distinct, and the sequence is past them.
abbrev pub IsNumbered : {N : Type 0} → ℕ → List (OutboxRow N) → Type 0
IsNumbered next [] = Unit
IsNumbered next (x ∷ rows) = (x.id < next) × All (λ row. x.id ≢ row.id) rows × IsNumbered next rows
