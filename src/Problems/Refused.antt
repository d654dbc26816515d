-- ===== src/Problems/Refused.antt =====
-- The queries that the database refuses, in src/shots/shots.service.ts and src/stats/stats.service.ts.
use pureplay_analytics_inges.Prelude.{
  ◌≡◌, refl, sym, ◌⊎◌, inl, inr, true, Option, none, some, [], Text, codes, truthy, ℤ, negsuc,
  ltb_ℤ, ◌-ℤ◌, arith, ap, ◌∙◌, some-injective, Option-cases, Bool-cases,
}
use pureplay_analytics_inges.Domain.Club.{club_of}
use pureplay_analytics_inges.Shots.Query.{
  sql_instant, sql_text, sql_filter, has_nul, Texts, ShotsQuery, ShotsFilter, Answer, ok, ◌>>=◌,
  invalid_cursor, invalid_date, unknown_vendor, unknown_club_code, database_error, default_window,
  page_limit, window_bound, parse_window_date, cursor_place, decode_cursor, check_club,
}
use pureplay_analytics_inges.Stats.{StatsQuery}

-- A bound of the window whose ISO text the database cannot read.
pub data HasUnreadBound (texts : Texts) (since until : Option Text) (now : ℤ) : Type 0 where
  unread_since :
      (t : ℤ)
      → window_bound texts (truthy since) (codes "since") (now -ℤ default_window) ≡ ok t
      → texts.instant (texts.iso t) ≡ none
      → HasUnreadBound texts since until now
  unread_until :
      (t : ℤ)
      → window_bound texts (truthy until) (codes "until") now ≡ ok t
      → texts.instant (texts.iso t) ≡ none
      → HasUnreadBound texts since until now

-- A cursor that decodes, with a time stamp that the database cannot read or U+0000 in its id.
abbrev pub HasRefusedCursor : Texts → Option Text → Type 0
HasRefusedCursor texts given =
    (cursor captured id : Text) × (truthy given ≡ some cursor)
    × (decode_cursor texts cursor ≡ ok (captured, id))
    × ((texts.instant captured ≡ none) ⊎ (has_nul id ≡ true))

-- Where the database refuses the query for a page of a user.
pub data IsRefusedPage (texts : Texts) (user : Text) (query : ShotsQuery) (now : ℤ) : Type 0 where
  unread_bound :
      HasUnreadBound texts query.since query.until now → IsRefusedPage texts user query now
  nul_in_user : has_nul user ≡ true → IsRefusedPage texts user query now
  refused_cursor : HasRefusedCursor texts query.cursor → IsRefusedPage texts user query now
  negative_limit :
      ltb_ℤ (page_limit query.limit) (negsuc 0) ≡ true → IsRefusedPage texts user query now

-- Where it refuses that for the statistics of a user.
pub data IsRefusedStats (texts : Texts) (user : Text) (query : StatsQuery) (now : ℤ) : Type 0 where
  unread_bound :
      HasUnreadBound texts query.since query.until now → IsRefusedStats texts user query now
  nul_in_user : has_nul user ≡ true → IsRefusedStats texts user query now
  empty_club : query.club ≡ some [] → IsRefusedStats texts user query now

pub ok-answered : {A : Type 0} {a : A} → ¬ (ok a ≡ database_error)
ok-answered h = cc

pub bind-error :
    {A B : Type 0} (a : Answer A) (f : A → Answer B)
    → (a >>= f) ≡ database_error
    → (a ≡ database_error) ⊎ ((x : A) × (a ≡ ok x) × (f x ≡ database_error))
bind-error (ok x) f h = inr (x, refl, h)
bind-error invalid_cursor f h = cc
bind-error (invalid_date field value) f h = cc
bind-error (unknown_vendor vendor) f h = cc
bind-error (unknown_club_code club) f h = cc
bind-error database_error f h = inl refl

-- What cannot be refused by the database.
pub bind-read :
    {A B : Type 0} (a : Answer A) (f : A → Answer B)
    → ¬ (a ≡ database_error)
    → (a >>= f) ≡ database_error
    → (x : A) × (a ≡ ok x) × (f x ≡ database_error)
bind-read a f never h = elim (bind-error a f h) [ inl e ↦ absurd (never e) | inr found ↦ found ]

pub window_bound-answered :
    (texts : Texts) (o : Option Text) (field : Text) (default : ℤ)
    → ¬ (window_bound texts o field default ≡ database_error)
unfolding parse_window_date
window_bound-answered texts none field default h = cc
window_bound-answered texts (some value) field default h = elim (Option-cases (texts.date value)) [
  | inl e ↦ ground (arith, e)
  | inr (t, e) ↦ ground (arith, e)
]

pub check_club-answered : (o : Option Text) → ¬ (check_club o ≡ database_error)
unfolding check_club
check_club-answered none h = cc
check_club-answered (some club) h = elim (Option-cases (club_of club)) [
  | inl e ↦ ground (arith, e)
  | inr (c, e) ↦ ground (arith, e)
]

decode_cursor-answered :
    (texts : Texts) (cursor : Text) → ¬ (decode_cursor texts cursor ≡ database_error)
unfolding decode_cursor
decode_cursor-answered texts cursor h = elim (Option-cases (texts.read_cursor cursor)) [
  | inl e ↦ ground (arith, e)
  | inr ((captured, id), e) ↦ elim (Option-cases (truthy captured)) [
    | inl c ↦ ground (arith, e, c)
    | inr (t, c) ↦ elim (Option-cases (truthy id)) [
      | inl i ↦ ground (arith, e, c, i)
      | inr (u, i) ↦ ground (arith, e, c, i)
    ]
  ]
]

pub sql_instant-error :
    (texts : Texts) (t : Text) → sql_instant texts t ≡ database_error → texts.instant t ≡ none
unfolding sql_instant
sql_instant-error texts t h = elim (Option-cases (texts.instant t)) [
  | inl e ↦ e
  | inr (u, e) ↦ absurd (cc (rw (e, sql_instant) at h))
]

pub sql_text-error :
    (o : Option Text) → sql_text o ≡ database_error → (t : Text) × (o ≡ some t) × (has_nul t ≡ true)
unfolding sql_text
sql_text-error none h = cc
sql_text-error (some t) h = elim (Bool-cases (has_nul t)) [
  | inl e ↦ (t, refl, e)
  | inr e ↦ absurd (cc (rw (e, sql_text) at h))
]

-- Of a filter by one user, with or without a vendor.
pub sql_filter-error :
    (user : Text) (filter : ShotsFilter)
    → (filter.canonical_user_id ≡ some user) ⊎ (filter.canonical_user_id ≡ none)
    → (filter.vendor_user_id ≡ some user) ⊎ (filter.vendor_user_id ≡ none)
    → sql_filter filter ≡ database_error
    → has_nul user ≡ true
unfolding sql_filter
sql_filter-error user filter c v h =
    elim (bind-error (sql_text filter.canonical_user_id)
      (λ u. sql_text filter.vendor_user_id >>= λ w. ok filter) h) [
        | inl e ↦ refused c e
        | inr (_, _, h1) ↦ elim (bind-error (sql_text filter.vendor_user_id) (λ w. ok filter) h1) [
          | inl e ↦ refused v e
          | inr (_, _, e) ↦ absurd (cc e)
        ]
      ]
  where
    refused :
        {o : Option Text}
        → (o ≡ some user) ⊎ (o ≡ none)
        → sql_text o ≡ database_error
        → has_nul user ≡ true
    refused {o} given e =
        let (t, is_t, nul) = sql_text-error o e in
        elim given [
          | inl same ↦ ap has_nul (some-injective (sym same ∙ is_t)) ∙ nul
          | inr missing ↦ absurd (cc (missing, is_t))
        ]

cursor_place-refused :
    (texts : Texts) (given o : Option Text)
    → truthy given ≡ o
    → cursor_place texts o ≡ database_error
    → HasRefusedCursor texts given
unfolding cursor_place
cursor_place-refused texts given none e h = cc
cursor_place-refused texts given (some cursor) e h =
    let last : Text → ℤ → Answer (Option (ℤ × Text)) =
      λ id t. sql_text (some id) >>= λ known. ok (some (t, id)) in
    let place : Text × Text → Answer (Option (ℤ × Text)) =
      λ (captured, id). sql_instant texts captured >>= last id in
    let ((captured, id), is_read, h1) =
      bind-read (decode_cursor texts cursor) place (decode_cursor-answered texts cursor) h in
    elim (bind-error (sql_instant texts captured) (last id) h1) [
      | inl f ↦ (cursor, captured, id, e, is_read, inl (sql_instant-error texts captured f))
      | inr (t, _, h2) ↦ elim (bind-error (sql_text (some id)) (λ known. ok (some (t, id))) h2) [
        | inl f ↦
            let (u, same, nul) = sql_text-error (some id) f in
            (cursor, captured, id, e, is_read, inr (ap has_nul (some-injective same) ∙ nul))
        | inr (_, _, f) ↦ absurd (cc f)
      ]
    ]

pub cursor_place-error :
    (texts : Texts) (given : Option Text)
    → cursor_place texts (truthy given) ≡ database_error
    → HasRefusedCursor texts given
cursor_place-error texts given h = cursor_place-refused texts given (truthy given) refl h
