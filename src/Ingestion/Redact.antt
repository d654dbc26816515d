-- ===== src/Ingestion/Redact.antt =====
-- src/shared/pii-redact.ts
pub mod Clean
use pureplay_analytics_inges.Prelude.{List, [], ◌∷◌, Text, codes, text_eq, if◌then◌else◌}
use pureplay_analytics_inges.Platform.{Serialiser}
use pureplay_analytics_inges.Domain.Json.{Json, object, Members, end, member}

-- A path as its parts, `path.split(".")`.
abbrev pub blocked_paths : List (List Text)
blocked_paths =
    (codes "player" ∷ codes "email" ∷ [])
    ∷ (codes "envelope" ∷ codes "player" ∷ codes "email" ∷ [])
    ∷ (codes "user_token" ∷ [])
    ∷ (codes "data" ∷ codes "user_token" ∷ [])
    ∷ []

module _ {N : Type 0} where
  -- `delete obj[key]`
  unfoldable pub delete_member : Text → Members N → Members N
  delete_member key end = end
  delete_member key (member k v ms) =
      if text_eq k key then delete_member key ms else member k v (delete_member key ms)

  -- `f` applied inside the value of a member, if that is an object.
  abbrev pub inside : (Members N → Members N) → Json N → Json N
  inside f (object ms) = object (f ms)
  inside f v = v

  unfoldable pub within_member : Text → (Members N → Members N) → Members N → Members N
  within_member key f end = end
  within_member key f (member k v ms) =
      member k (if text_eq k key then inside f v else v) (within_member key f ms)

  unfoldable pub delete_nested_path : List Text → Members N → Members N
  unfolding delete_member within_member
  delete_nested_path [] ms = ms
  delete_nested_path (key ∷ []) ms = delete_member key ms
  delete_nested_path (key ∷ next ∷ rest) ms =
      within_member key (delete_nested_path (next ∷ rest)) ms

  unfoldable pub delete_paths : List (List Text) → Members N → Members N
  delete_paths [] ms = ms
  delete_paths (path ∷ rest) ms = delete_paths rest (delete_nested_path path ms)

module _ {N : Type 0} ⦃ser : Serialiser N⦄ where
  -- The deep clone of a JSON value is that value.
  unfoldable pub redact_pii : Members N → Text
  redact_pii payload = ser.scrub_emails (ser.stringify (delete_paths blocked_paths payload))
