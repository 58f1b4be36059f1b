-- ===== src/Releases/Sound.antt =====
-- The rows of releases under admin/releases/admin-releases.service.ts: which of them is published, and
-- that its APK is there.
use ruznamo_backend.Common.{
  find_sound, insert, is_some, find, update_where, select, count, ℕ, ◌≤◌, ◌≡◌, List, Option, Bool,
  Result, some, none, true, false, ok, refl, ◌&&◌, ◌==◌, arith,
}
use ruznamo_backend.Common.Counting.{
  count-update_same, count-find_unique, count-find-none, count-insert, count-update_from,
  count-update_shrink, count-select,
}
use ruznamo_backend.Db.{is_published, Db, Release}
use ruznamo_backend.Releases.{update_draft, DraftEdit, release_of, ApkInfo, Policy, finalize_upload}
use ruznamo_backend.Releases.Publishing.{
  set_published, set_archived, is_published_other, swap_published, purge_file, delete_draft,
  archive, publish,
}
use mathlib.Core.Path.{subst}

abbrev is_live : Release → Bool
is_live r = is_published r.status

abbrev is_dead : Release → Bool
is_dead r = is_published r.status && is_some r.artifact_deleted_at

-- At most one row is published, none whose artifact was deleted, and an id names one row.
abbrev pub SoundRows : List Release → Type 0
SoundRows rows =
    (count is_live rows ≤ 1)
    × (count is_dead rows ≡ 0)
    × ((id : ℕ) → count (λ r. r.id == id) rows ≤ 1)

abbrev pub Sound : Db → Type 0
Sound db = SoundRows db.releases

-- What administrators do. A publication may have read tables that others have changed since, except
-- for the row that it publishes; a new id is free.
pub data ReleaseStep : Db → Db → Type 0 where
  upload :
      {db db' : Db} (configured : Bool) (id key : ℕ) (stored : Option ℕ)
      (inspected : Result ApkInfo)
      → release_of db id ≡ none
      → finalize_upload db configured id key stored inspected ≡ ok db'
      → ReleaseStep db db'
  edit_draft :
      {db db' : Db} (id : ℕ) (e : DraftEdit) → update_draft db id e ≡ ok db' → ReleaseStep db db'
  publication :
      {met db' : Db} (policy : Policy) (head : ℕ → Bool) (db : Db) (now version_id admin id : ℕ)
      (r : Release)
      → release_of db id ≡ release_of met id
      → publish policy head db met now version_id admin id ≡ ok (r, db')
      → ReleaseStep met db'
  archival : {db db' : Db} (now id : ℕ) → archive db now id ≡ ok db' → ReleaseStep db db'
  draft_deletion :
      {db db' : Db} (delete_fails : Bool) (id : ℕ)
      → delete_draft db delete_fails id ≡ ok db'
      → ReleaseStep db db'
  purge :
      {db db' : Db} (delete_fails : Bool) (now admin id : ℕ)
      → purge_file db delete_fails now admin id ≡ ok db'
      → ReleaseStep db db'

pub data ReleaseSteps : Db → Db → Type 0 where
  stay : {db : Db} → ReleaseSteps db db
  step : {db db' db'' : Db} → ReleaseStep db db' → ReleaseSteps db' db'' → ReleaseSteps db db''

pub Sound-update :
    (q : Release → Bool) (f : Release → Release) (rows : List Release)
    → ((r : Release) → (f r).id ≡ r.id)
    → ((r : Release) → is_live (f r) ≡ true → is_live r ≡ true)
    → ((r : Release) → is_dead (f r) ≡ true → is_dead r ≡ true)
    → SoundRows rows
    → SoundRows (update_where q f rows)
Sound-update q f rows same live dead (one, none_dead, unique) = (
  omega (arith, count-update_shrink is_live q f rows live),
  omega (arith, count-update_shrink is_dead q f rows dead),
  λ id. omega (
    arith,
    unique id,
    count-update_shrink (λ r. r.id == id) q f rows
        (λ r h. subst (λ n. (n == id) ≡ true) (same r) h),
  ),
)

pub Sound-select :
    (q : Release → Bool) (rows : List Release) → SoundRows rows → SoundRows (select q rows)
Sound-select q rows (one, none_dead, unique) = (
  omega (arith, count-select is_live q rows),
  omega (arith, count-select is_dead q rows),
  λ id. omega (arith, unique id, count-select (λ r. r.id == id) q rows),
)

pub Sound-insert :
    (r : Release) (rows : List Release)
    → is_live r ≡ false
    → find (λ x. x.id == r.id) rows ≡ none
    → SoundRows rows
    → SoundRows (insert r rows)
Sound-insert r rows draft free (one, none_dead, unique) = (
  ground (arith, count-insert is_live r rows),
  ground (arith, count-insert is_dead r rows),
  λ id. ground (arith, count-insert (λ x. x.id == id) r rows, unique id, fresh id),
)
  where
    fresh : (id : ℕ) → (r.id == id) ≡ true → count (λ x. x.id == id) rows ≡ 0
    fresh id h =
        subst (λ n. count (λ x. x.id == n) rows ≡ 0) (ground arith)
          (count-find-none (λ x. x.id == r.id) rows free)

-- The update of the transaction, where the row that it publishes has its APK.
pub Sound-swap :
    (now id : ℕ) (rows : List Release) (r : Release)
    → find (λ x. x.id == id) rows ≡ some r
    → is_some r.artifact_deleted_at ≡ false
    → count is_live (swap_published now id rows) ≡ 1
    → SoundRows rows
    → SoundRows (swap_published now id rows)
unfolding swap_published
Sound-swap now id rows r found there one (_, none_dead, unique) =
    let others = update_where (is_published_other id) (set_archived now) rows in
    let gone = λ (x : Release). x.id == id && is_some x.artifact_deleted_at in
    (
      omega arith,
      omega (
        arith,
        none_dead,
        no_gone,
        count-update_from is_dead (λ x. x.id == id) gone (set_published now) others
            (λ x q h. ground arith),
        count-update_shrink is_dead (is_published_other id) (set_archived now) rows
            (λ x h. ground arith),
        count-update_same gone (is_published_other id) (set_archived now) rows (λ x h. refl),
      ),
      λ k. omega (
        arith,
        unique k,
        count-update_shrink (λ x. x.id == k) (λ x. x.id == id) (set_published now) others
            (λ x h. h),
        count-update_shrink (λ x. x.id == k) (is_published_other id) (set_archived now) rows
            (λ x h. h),
      ),
    )
  where
    no_gone : count (λ x. x.id == id && is_some x.artifact_deleted_at) rows ≡ 0
    no_gone =
        count-find_unique (λ x. x.id == id) (λ x. x.id == id && is_some x.artifact_deleted_at) rows
          r found (unique id) (ground arith) (λ y h. ground arith)

pub release_of-id : (db : Db) (id : ℕ) (r : Release) → release_of db id ≡ some r → r.id ≡ id
unfolding release_of
release_of-id db id r h = let k = find_sound (λ x. x.id == id) db.releases h in ground arith
