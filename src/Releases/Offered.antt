-- ===== src/Releases/Offered.antt =====
-- What app-update/app-update.service.ts offers a device, and how it answers the download.
use ruznamo_backend.Common.{
  Option-cases, ◌⊎◌, or_else, Option, ltb, leb, [], All, select, ==_refl, is_some, ℕ, ◌≡◌, List,
  Bool, some, none, true, false, ok, refl, ◌&&◌, ◌==◌, arith, inl, inr, Bool-cases,
}
use ruznamo_backend.Common.Best.{
  no_first, count-Mem, find-Mem, Mem-select, Mem-first, Mem-sort_by, first-sort_by,
}
use ruznamo_backend.Db.{is_published, Db, Release}
use ruznamo_backend.Releases.{later_version, release_of, latest_published}
use ruznamo_backend.Releases.Updates.{UpdateOffer, changelog_for, check_update, authorize_download}
use ruznamo_backend.Releases.Sound.{Sound}
use mathlib.Core.Path.{sym, subst}
use mathlib.Core.List.{◌∷◌, Memᴰ}

pub Mem-latest_published :
    (db : Db) (r : Release)
    → latest_published db ≡ some r
    → Memᴰ r db.releases × (is_published r.status ≡ true)
unfolding latest_published
Mem-latest_published db r h =
    Mem-select (λ x. is_published x.status) db.releases
      (Mem-sort_by later_version (select (λ x. is_published x.status) db.releases) (Mem-first _ h))

find-latest_published :
    (db : Db) (r : Release) → Sound db → latest_published db ≡ some r → release_of db r.id ≡ some r
unfolding release_of
find-latest_published db r (_, _, unique) h =
    find-Mem (λ x. x.id == r.id) db.releases (Mem-latest_published db r h).0 (==_refl r.id)
      (unique r.id)

live-latest_published :
    (db : Db) (r : Release)
    → Sound db
    → latest_published db ≡ some r
    → is_some r.artifact_deleted_at ≡ false
live-latest_published db r (_, dead, _) h =
    let (m, live) = Mem-latest_published db r h in
    elim (Bool-cases (is_some r.artifact_deleted_at)) [
      | inr there ↦ there
      | inl gone ↦ absurd (
          let k =
            count-Mem (λ x. is_published x.status && is_some x.artifact_deleted_at) db.releases m
              (rw (live, gone) refl) in
          ground arith)
    ]

pub later_version-asymm : (a b : Release) → later_version a b ≡ true → later_version b a ≡ false
later_version-asymm a b h = ground arith

pub later_version-cotrans :
    (a b c : Release)
    → later_version a c ≡ true
    → later_version b c ≡ false
    → later_version a b ≡ true
later_version-cotrans a b c h k = ground arith

-- No published release has a higher version.
abbrev pub NoneNewer : Db → ℕ → Type 0
NoneNewer db code =
    All (λ r. leb r.version_code code ≡ true) (select (λ r. is_published r.status) db.releases)

All-leb :
    (a b : ℕ) (rows : List Release)
    → leb a b ≡ true
    → All (λ r. ltb a r.version_code ≡ false) rows
    → All (λ r. leb r.version_code b ≡ true) rows
All-leb a b [] h all = tt
All-leb a b (r ∷ rows) h (k, all) = (ground arith, All-leb a b rows h all)

latest-NoneNewer :
    (db : Db) (r : Release) (code : ℕ)
    → latest_published db ≡ some r
    → leb r.version_code code ≡ true
    → NoneNewer db code
unfolding latest_published
latest-NoneNewer db r code found h = All-leb r.version_code code _ h (
    first-sort_by later_version later_version-asymm later_version-cotrans
      (select (λ x. is_published x.status) db.releases) found)

missing-NoneNewer : (db : Db) (code : ℕ) → latest_published db ≡ none → NoneNewer db code
unfolding latest_published
missing-NoneNewer db code h =
    subst (All (λ r. leb r.version_code code ≡ true)) (sym (no_first later_version _ h)) tt

-- What a device gets that is told of a release: its download, too.
abbrev pub Offered : Db → (ℕ → Bool) → ℕ → Release → Type 0
Offered db head current r =
    (leb r.version_code current ≡ false)
    × NoneNewer db r.version_code
    × (authorize_download db true head r.id ≡ ok r)

authorised :
    (db : Db) (head : ℕ → Bool) (r : Release)
    → release_of db r.id ≡ some r
    → is_published r.status ≡ true
    → is_some r.artifact_deleted_at ≡ false
    → head r.object_key ≡ true
    → authorize_download db true head r.id ≡ ok r
unfolding authorize_download
authorised db head r found live there stored = rw (found, live, there, stored) refl

offered :
    (db : Db) (is_tajik : Bool) (version_code : Option ℕ) (r : Release)
    → latest_published db ≡ some r
    → leb r.version_code (or_else version_code 0) ≡ false
    → is_some r.artifact_deleted_at ≡ false
    → check_update db true is_tajik version_code
      ≡ ok (
          some (record {
            current_version_code = or_else version_code 0;
            release = r;
            changelog = changelog_for is_tajik r;
          }))
unfolding check_update
offered db is_tajik version_code r found newer there =
    rw (found, check_update) (rw (newer, there) refl)

not_offered :
    (db : Db) (is_tajik : Bool) (version_code : Option ℕ) (r : Release)
    → latest_published db ≡ some r
    → leb r.version_code (or_else version_code 0) ≡ true
    → check_update db true is_tajik version_code ≡ ok none
unfolding check_update
not_offered db is_tajik version_code r found old = rw (found, check_update) (rw old refl)

none_published :
    (db : Db) (is_tajik : Bool) (version_code : Option ℕ)
    → latest_published db ≡ none
    → check_update db true is_tajik version_code ≡ ok none
unfolding check_update
none_published db is_tajik version_code missing = rw (missing, check_update) refl

-- Where the rows of releases are sound, the signer has its key and storage, which is configured, holds
-- the object of each published release, a device is told of no update only if no published release has
-- a version above its own; otherwise it is offered one that is above its own and that no published
-- release is above, and the download under the id of the offer is authorised, for this release.
pub check_update-answers :
    (db : Db) (head : ℕ → Bool) (is_tajik : Bool) (version_code : Option ℕ)
    → Sound db
    → ((r : Release) → Memᴰ r db.releases → is_published r.status ≡ true → head r.object_key ≡ true)
    → ((check_update db true is_tajik version_code ≡ ok none)
        × NoneNewer db (or_else version_code 0))
      ⊎ ((offer : UpdateOffer) × (check_update db true is_tajik version_code ≡ ok (some offer))
          × Offered db head (or_else version_code 0) offer.release)
check_update-answers db head is_tajik version_code sound stored =
    elim (Option-cases (latest_published db)) [
      | inl missing ↦
          inl (none_published db is_tajik version_code missing, missing-NoneNewer db _ missing)
      | inr (r, found) ↦ elim (Bool-cases (leb r.version_code (or_else version_code 0))) [
        | inl old ↦
            inl
              (not_offered db is_tajik version_code r found old, latest-NoneNewer db r _ found old)
        | inr newer ↦
            let there = live-latest_published db r sound found in
            let (m, live) = Mem-latest_published db r found in
            inr (
              _,
              offered db is_tajik version_code r found newer there,
              (
                newer,
                latest-NoneNewer db r r.version_code found (ground arith),
                authorised db head r (find-latest_published db r sound found) live there
                    (stored r m live),
              ),
            )
      ]
    ]
