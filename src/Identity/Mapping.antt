-- ===== src/Identity/Mapping.antt =====
-- The table of identities of src/identity/identity.service.ts as a map from vendor users to canonical
-- users.
use mathlib.Core.Path.{subst₂}
use pureplay_analytics_inges.Prelude.{
  ◌≡◌, refl, Bool, true, false, ◌&&◌, not, none, some, List, [], ◌∷◌, ◌++◌, Text, text_eq,
  text_eq_iff, text_eq_comm, ℤ, arith, inl, inr, Bool-cases, if◌then◌else◌, All, All-append, find,
  keep, any, update_where, Option-cases,
}
use pureplay_analytics_inges.Domain.Shot.{Vendor, vendor_eq, vendor_eq_iff, vendor_eq_comm}
use pureplay_analytics_inges.Database.{IdentityRow, Database}
use pureplay_analytics_inges.Identity.{is_identity, is_link, mapping, link_transaction}

-- `UNIQUE (vendor, vendor_user_id)`
abbrev pub IsKeyed : List IdentityRow → Type 0
IsKeyed [] = Unit
IsKeyed (x ∷ rows) =
    All (λ row. is_identity x.vendor x.vendor_user_id row ≡ false) rows × IsKeyed rows

abbrev pub same_user : Vendor → Text → Vendor → Text → Bool
same_user v u v' u' = vendor_eq v v' && text_eq u u'

-- A row of one user is a row of another exactly if the users are the same.
pub is_identity-same :
    (v v' : Vendor) (u u' : Text) (row : IdentityRow)
    → is_identity v u row ≡ true
    → is_identity v' u' row ≡ same_user v u v' u'
is_identity-same v v' u u' row h = ground (
  arith,
  vendor_eq_iff v row.vendor,
  text_eq_iff u row.vendor_user_id,
  vendor_eq_comm v v',
  text_eq_comm u u',
)

same_user-is_identity :
    (v v' : Vendor) (u u' : Text) (row : IdentityRow)
    → same_user v u v' u' ≡ true
    → is_identity v u row ≡ is_identity v' u' row
same_user-is_identity v v' u u' row h = ground (arith, vendor_eq_iff v v', text_eq_iff u u')

abbrev set_canonical : Text → ℤ → IdentityRow → IdentityRow
set_canonical c now row = record row { canonical_user_id = c; updated_at = now }

mapping-update_where :
    (v v' : Vendor) (u u' c : Text) (now : ℤ) (rows : List IdentityRow)
    → mapping v' u' (update_where (is_identity v u) (set_canonical c now) rows) ≡ (
        if same_user v u v' u'
        then (if any (is_identity v u) rows then some c else none)
        else mapping v' u' rows)
unfolding mapping
mapping-update_where v v' u u' c now [] = ground arith
mapping-update_where v v' u u' c now (x ∷ rows) = elim (Bool-cases (is_identity v u x)) [
  | inl e ↦
      ground (arith, is_identity-same v v' u u' x e, mapping-update_where v v' u u' c now rows)
  | inr e ↦
      ground (arith, same_user-is_identity v v' u u' x, mapping-update_where v v' u u' c now rows)
]

mapping-append :
    (v v' : Vendor) (u u' : Text) (row : IdentityRow) (rows : List IdentityRow)
    → row.vendor ≡ v
    → row.vendor_user_id ≡ u
    → find (is_identity v u) rows ≡ none
    → mapping v' u' (rows ++ row ∷ [])
      ≡ (if same_user v u v' u' then some row.canonical_user_id else mapping v' u' rows)
unfolding mapping
mapping-append v v' u u' row [] hv hu h =
    rw (hv, hu, vendor_eq_comm v' v, text_eq_comm u' u) (ground arith)
mapping-append v v' u u' row (x ∷ rows) hv hu h = elim (Bool-cases (is_identity v u x)) [
  | inl e ↦ ground arith
  | inr e ↦
      ground (arith, same_user-is_identity v v' u u' x, mapping-append v v' u u' row rows hv hu)
]

find-none-any :
    (p : IdentityRow → Bool) (rows : List IdentityRow) (r : IdentityRow)
    → find p rows ≡ some r
    → any p rows ≡ true
find-none-any p [] r h = cc
find-none-any p (x ∷ rows) r h = ground (arith, find-none-any p rows r)

-- After the transaction of a link its vendor user has the new canonical user in the table, and
-- every other vendor user has the one it had.
pub mapping-link_transaction :
    {N : Type 0} (v v' : Vendor) (u u' c actor : Text) (now : ℤ) (db : Database N)
    → mapping v' u' (link_transaction v u c actor now db).1.user_identities
      ≡ (if same_user v u v' u' then some c else mapping v' u' db.user_identities)
unfolding link_transaction
mapping-link_transaction v v' u u' c actor now db =
    elim (Option-cases (find (is_identity v u) db.user_identities)) [
      | inl e ↦ rw e (mapping-append v v' u u' _ db.user_identities refl refl e)
      | inr (row, e) ↦ rw e (
          ground (
            arith,
            find-none-any (is_identity v u) db.user_identities row e,
            mapping-update_where v v' u u' c now db.user_identities,
          ))
    ]

-- A removal of a row of one user leaves the other users as they were.
pub mapping-keep_other :
    (v v' : Vendor) (u u' c : Text) (rows : List IdentityRow)
    → same_user v u v' u' ≡ false
    → mapping v' u' (keep (λ row. not (is_link v u c row)) rows) ≡ mapping v' u' rows
unfolding mapping
mapping-keep_other v v' u u' c [] h = refl
mapping-keep_other v v' u u' c (x ∷ rows) h =
    ground (arith, is_identity-same v v' u u' x, mapping-keep_other v v' u u' c rows h)

mapping-absent :
    (v : Vendor) (u : Text) (rows : List IdentityRow)
    → All (λ row. is_identity v u row ≡ false) rows
    → mapping v u rows ≡ none
unfolding mapping
mapping-absent v u [] h = refl
mapping-absent v u (x ∷ rows) h = rw h.0 (mapping-absent v u rows h.1)

keep-absent :
    (v : Vendor) (u c : Text) (rows : List IdentityRow)
    → All (λ row. is_identity v u row ≡ false) rows
    → All (λ row. is_identity v u row ≡ false) (keep (λ row. not (is_link v u c row)) rows)
keep-absent v u c [] h = tt
keep-absent v u c (x ∷ rows) h = rw h.0 (h.0, keep-absent v u c rows h.1)

any-is_link-absent :
    (v : Vendor) (u c : Text) (rows : List IdentityRow)
    → All (λ row. is_identity v u row ≡ false) rows
    → any (is_link v u c) rows ≡ false
any-is_link-absent v u c [] h = refl
any-is_link-absent v u c (x ∷ rows) h = rw h.0 (any-is_link-absent v u c rows h.1)

pub same_user-mapping :
    (v v' : Vendor) (u u' : Text) (rows : List IdentityRow)
    → same_user v u v' u' ≡ true
    → mapping v u rows ≡ mapping v' u' rows
same_user-mapping v v' u u' rows h =
    let same_v : v ≡ v' = ground (arith, vendor_eq_iff v v') in
    let same_u : u ≡ u' = ground (arith, text_eq_iff u u') in cc

-- With unique users, the removal of the linked row leaves its user with no mapping.
pub mapping-keep_self :
    (v : Vendor) (u c : Text) (rows : List IdentityRow)
    → IsKeyed rows
    → any (is_link v u c) rows ≡ true
    → mapping v u (keep (λ row. not (is_link v u c row)) rows) ≡ none
unfolding mapping
mapping-keep_self v u c [] k h = cc
mapping-keep_self v u c (x ∷ rows) k h = elim (Bool-cases (is_identity v u x)) [
  | inl e ↦
      let same_v : x.vendor ≡ v = ground (arith, vendor_eq_iff v x.vendor) in
      let same_u : x.vendor_user_id ≡ u = ground (arith, text_eq_iff u x.vendor_user_id) in
      let absent : All (λ row. is_identity v u row ≡ false) rows =
        subst₂ (λ a b. All (λ row. is_identity a b row ≡ false) rows) same_v same_u k.0 in
      ground (
        arith,
        any-is_link-absent v u c rows absent,
        mapping-absent v u (keep (λ row. not (is_link v u c row)) rows)
            (keep-absent v u c rows absent),
      )
  | inr e ↦ ground (arith, mapping-keep_self v u c rows k.1)
]

update_where-absent :
    (v : Vendor) (u a c : Text) (w : Vendor) (now : ℤ) (rows : List IdentityRow)
    → All (λ row. is_identity w a row ≡ false) rows
    → All
        (λ row. is_identity w a row ≡ false)
        (update_where (is_identity v u) (set_canonical c now) rows)
update_where-absent v u a c w now [] h = tt
update_where-absent v u a c w now (x ∷ rows) h = elim (Bool-cases (is_identity v u x)) [
  | inl e ↦ rw e (h.0, update_where-absent v u a c w now rows h.1)
  | inr e ↦ rw e (h.0, update_where-absent v u a c w now rows h.1)
]

update_where-IsKeyed :
    (v : Vendor) (u c : Text) (now : ℤ) (rows : List IdentityRow)
    → IsKeyed rows
    → IsKeyed (update_where (is_identity v u) (set_canonical c now) rows)
update_where-IsKeyed v u c now [] k = tt
update_where-IsKeyed v u c now (x ∷ rows) k = elim (Bool-cases (is_identity v u x)) [
  | inl e ↦ rw e (
    update_where-absent v u x.vendor_user_id c x.vendor now rows k.0,
    update_where-IsKeyed v u c now rows k.1,
  )
  | inr e ↦ rw e (
    update_where-absent v u x.vendor_user_id c x.vendor now rows k.0,
    update_where-IsKeyed v u c now rows k.1,
  )
]

append-IsKeyed :
    (row : IdentityRow) (rows : List IdentityRow)
    → find (is_identity row.vendor row.vendor_user_id) rows ≡ none
    → IsKeyed rows
    → IsKeyed (rows ++ row ∷ [])
append-IsKeyed row [] h k = (tt, tt)
append-IsKeyed row (x ∷ rows) h k = (
  All-append (λ r. is_identity x.vendor x.vendor_user_id r ≡ false) rows (row ∷ []) k.0
      (
        ground (
          arith,
          vendor_eq_comm row.vendor x.vendor,
          text_eq_comm row.vendor_user_id x.vendor_user_id,
        ),
        tt,
      ),
  append-IsKeyed row rows (ground arith) k.1,
)

-- The transaction of a link keeps at most one row for each vendor and vendor user.
pub link_transaction-IsKeyed :
    {N : Type 0} (v : Vendor) (u c actor : Text) (now : ℤ) (db : Database N)
    → IsKeyed db.user_identities
    → IsKeyed (link_transaction v u c actor now db).1.user_identities
unfolding link_transaction
link_transaction-IsKeyed v u c actor now db k =
    elim (Option-cases (find (is_identity v u) db.user_identities)) [
      | inl e ↦ rw e (append-IsKeyed _ db.user_identities e k)
      | inr (row, e) ↦ rw e (update_where-IsKeyed v u c now db.user_identities k)
    ]

keep-All-absent :
    (x : IdentityRow) (v : Vendor) (u c : Text) (rows : List IdentityRow)
    → All (λ row. is_identity x.vendor x.vendor_user_id row ≡ false) rows
    → All
        (λ row. is_identity x.vendor x.vendor_user_id row ≡ false)
        (keep (λ row. not (is_link v u c row)) rows)
keep-All-absent x v u c [] h = tt
keep-All-absent x v u c (y ∷ rows) h = elim (Bool-cases (is_link v u c y)) [
  | inl e ↦ rw e (keep-All-absent x v u c rows h.1)
  | inr e ↦ rw e (h.0, keep-All-absent x v u c rows h.1)
]

-- So does an unlink.
pub keep-IsKeyed :
    (v : Vendor) (u c : Text) (rows : List IdentityRow)
    → IsKeyed rows
    → IsKeyed (keep (λ row. not (is_link v u c row)) rows)
keep-IsKeyed v u c [] k = tt
keep-IsKeyed v u c (x ∷ rows) k = elim (Bool-cases (is_link v u c x)) [
  | inl e ↦ rw e (keep-IsKeyed v u c rows k.1)
  | inr e ↦ rw e (keep-All-absent x v u c rows k.0, keep-IsKeyed v u c rows k.1)
]
