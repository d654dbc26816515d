-- ===== src/Ingestion/Redact/Clean.antt =====
-- What src/shared/pii-redact.ts serialises.
use pureplay_analytics_inges.Prelude.{
  ◌≡◌, refl, ap, ◌∙◌, inl, inr, Option, none, some, List, [], ◌∷◌, Text, codes, text_eq,
  text_eq_iff, text_eq_refl, Bool-cases, arith, if◌then◌else◌, All,
}
use pureplay_analytics_inges.Platform.{Serialiser}
use pureplay_analytics_inges.Domain.Json.{Json, object, Members, end, member, get}
use pureplay_analytics_inges.Ingestion.Redact.{
  blocked_paths, delete_member, inside, within_member, delete_nested_path, delete_paths, redact_pii,
}

module _ {N : Type 0} where
  -- The value at the end of a path of object members, if the path leads to one.
  abbrev pub value_at : List Text → Option (Json N) → Option (Json N)
  value_at [] v = v
  value_at (key ∷ rest) (some (object ms)) = value_at rest (get key ms)
  value_at (key ∷ rest) _ = none

  abbrev inside_some : (Members N → Members N) → Option (Json N) → Option (Json N)
  inside_some f none = none
  inside_some f (some v) = some (inside f v)

  get-delete_member :
      (k j : Text) (ms : Members N)
      → get k (delete_member j ms) ≡ (if text_eq j k then none else get k ms)
  unfolding delete_member
  get-delete_member k j end = ground arith
  get-delete_member k j (member i v ms) = elim (Bool-cases (text_eq i j)) [
    | inl e ↦
        let same = (text_eq_iff i j).0 e in
        ground (arith, get-delete_member k j ms, ap (λ t. text_eq t k) same)
    | inr e ↦
        ground (arith, get-delete_member k j ms, text_eq_iff i k, text_eq_iff j k, text_eq_iff i j)
  ]

  get-within_member :
      (k j : Text) (f : Members N → Members N) (ms : Members N)
      → get k (within_member j f ms) ≡ (if text_eq j k then inside_some f (get k ms) else get k ms)
  unfolding within_member
  get-within_member k j f end = ground arith
  get-within_member k j f (member i v ms) =
      ground (arith, get-within_member k j f ms, text_eq_iff i j, text_eq_iff i k, text_eq_iff j k)

  value_at-none : (path : List Text) → value_at path none ≡ none
  value_at-none [] = refl
  value_at-none (key ∷ rest) = refl

  inside_keeps_none :
      (f : Members N → Members N) (path : List Text)
      → ((ms : Members N)
          → value_at path (some (object ms)) ≡ none
          → value_at path (some (object (f ms))) ≡ none)
      → (v : Option (Json N)) → value_at path v ≡ none
      → value_at path (inside_some f v) ≡ none
  inside_keeps_none f path keeps none h = h
  inside_keeps_none f path keeps (some (object ms)) h = keeps ms h
  inside_keeps_none f path keeps (some v) h = h

  -- What a path does not lead to, it does not lead to after a deletion.
  keeps_none :
      (q path : List Text) (ms : Members N)
      → value_at path (some (object ms)) ≡ none
      → value_at path (some (object (delete_nested_path q ms))) ≡ none
  unfolding delete_nested_path
  keeps_none q [] ms h = cc
  keeps_none [] (k ∷ path) ms h = h
  keeps_none (j ∷ []) (k ∷ path) ms h = elim (Bool-cases (text_eq j k)) [
    | inl e ↦ ap (value_at path) (get-delete_member k j ms ∙ rw e refl) ∙ value_at-none path
    | inr e ↦ ap (value_at path) (get-delete_member k j ms ∙ rw e refl) ∙ h
  ]
  keeps_none (j ∷ n ∷ q) (k ∷ path) ms h = elim (Bool-cases (text_eq j k)) [
    | inl e ↦
        ap (value_at path) (get-within_member k j (delete_nested_path (n ∷ q)) ms ∙ rw e refl)
        ∙ inside_keeps_none (delete_nested_path (n ∷ q)) path
            (λ below. keeps_none (n ∷ q) path below) (get k ms) h
    | inr e ↦
        ap (value_at path) (get-within_member k j (delete_nested_path (n ∷ q)) ms ∙ rw e refl) ∙ h
  ]

  inside_removes :
      (f : Members N → Members N) (key : Text) (path : List Text)
      → ((ms : Members N) → value_at (key ∷ path) (some (object (f ms))) ≡ none)
      → (v : Option (Json N)) → value_at (key ∷ path) (inside_some f v) ≡ none
  inside_removes f key path removes none = refl
  inside_removes f key path removes (some (object ms)) = removes ms
  inside_removes f key path removes (some v) = refl

  -- A deletion leaves nothing at the end of its path.
  removes_path :
      (path : List Text) (key : Text) (ms : Members N)
      → value_at (key ∷ path) (some (object (delete_nested_path (key ∷ path) ms))) ≡ none
  unfolding delete_nested_path
  removes_path [] j ms = get-delete_member j j ms ∙ rw (text_eq_refl j) refl
  removes_path (n ∷ path) j ms =
      ap (value_at (n ∷ path))
        (get-within_member j j (delete_nested_path (n ∷ path)) ms ∙ rw (text_eq_refl j) refl)
      ∙ inside_removes (delete_nested_path (n ∷ path)) n path (λ below. removes_path path n below)
          (get j ms)

  delete_paths_keep_none :
      (paths : List (List Text)) (path : List Text) (ms : Members N)
      → value_at path (some (object ms)) ≡ none
      → value_at path (some (object (delete_paths paths ms))) ≡ none
  unfolding delete_paths
  delete_paths_keep_none [] path ms h = h
  delete_paths_keep_none (q ∷ paths) path ms h =
      delete_paths_keep_none paths path (delete_nested_path q ms) (keeps_none q path ms h)

  removed_with :
      (paths : List (List Text)) (key : Text) (path : List Text) (ms : Members N)
      → value_at (key ∷ path) (some (object (delete_paths ((key ∷ path) ∷ paths) ms))) ≡ none
  unfolding delete_paths
  removed_with paths key path ms =
      delete_paths_keep_none paths (key ∷ path) (delete_nested_path (key ∷ path) ms)
        (removes_path path key ms)

  delete_paths-blocked_paths :
      (ms : Members N)
      → All
          (λ path. value_at path (some (object (delete_paths blocked_paths ms))) ≡ none)
          blocked_paths
  unfolding delete_paths
  delete_paths-blocked_paths ms =
      let ms1 = delete_nested_path (codes "player" ∷ codes "email" ∷ []) ms in
      let ms2 = delete_nested_path (codes "envelope" ∷ codes "player" ∷ codes "email" ∷ []) ms1 in
      let ms3 = delete_nested_path (codes "user_token" ∷ []) ms2 in
      let email = codes "email" ∷ [] in
      let token = codes "user_token" ∷ [] in
      let in_data = (codes "data" ∷ token) ∷ [] in
      (
        removed_with ((codes "envelope" ∷ codes "player" ∷ email) ∷ token ∷ in_data)
            (codes "player") email ms,
        (
          removed_with (token ∷ in_data) (codes "envelope") (codes "player" ∷ email) ms1,
          (
            removed_with in_data (codes "user_token") [] ms2,
            (removed_with [] (codes "data") token ms3, tt),
          ),
        ),
      )

module _ {N : Type 0} ⦃ser : Serialiser N⦄ where
  -- What `redactPii` serialises and scrubs is an object in which none of the blocked paths,
  -- followed through members that are objects, leads to a value, whatever the payload.
  pub redact_pii-blocked_paths :
      (payload : Members N)
      → (clean : Members N) × (redact_pii payload ≡ ser.scrub_emails (ser.stringify clean))
        × All (λ path. value_at path (some (object clean)) ≡ none) blocked_paths
  unfolding redact_pii
  redact_pii-blocked_paths payload =
      (delete_paths blocked_paths payload, refl, delete_paths-blocked_paths payload)
