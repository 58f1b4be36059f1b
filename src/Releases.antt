-- ===== src/Releases.antt =====
-- admin/releases/admin-releases.service.ts: the uploaded release and its draft; the modules below have
-- its publication and what app-update/app-update.service.ts offers of it. There is one platform.
-- Storage, the APK inspector, the environment and the signer are outside: what they answer is an
-- argument.
pub mod Publishing
pub mod Updates
pub mod Sound
pub mod Kept
pub mod Offered
pub mod Raised
use ruznamo_backend.Common.{
  ℕ, Bool, true, false, not, Option, none, some, List, ◌&&◌, ◌==◌, leb, ltb, or_else, is_nil, trim,
  find, select, first, sort_by, insert, update_where, Result, ok, ◌>>=◌, ◌>>◌, or_throw, throw_if,
  object_storage_not_configured, release_not_found, release_not_draft, apk_file_missing,
  apk_size_mismatch, version_code_not_increasing, version_code_exists,
}
use ruznamo_backend.Db.{Db, Release, ReleaseStatus, is_draft, is_published}

-- What the environment and the signer say; the texts are trimmed, the certificate in lower case.
pub record Policy : Type 0 where
  pub signing_configured : Bool
  pub can_sign : Bool
  pub package_name : List ℕ
  pub signing_certificate : List ℕ

-- What the inspector reads in an APK.
pub record ApkInfo : Type 0 where
  pub version_name : List ℕ
  pub version_code : ℕ
  pub package_name : List ℕ
  pub signing_certificate : List ℕ
  pub file_size : ℕ
  pub sha256 : ℕ

unfoldable pub release_of : Db → ℕ → Option Release
unfolding find
release_of db id = find (λ r. r.id == id) db.releases

abbrev later_version : Release → Release → Bool
later_version a b = ltb b.version_code a.version_code

-- findFirst of the published releases, the highest version first.
unfoldable pub latest_published : Db → Option Release
unfolding select sort_by
latest_published db =
    first (sort_by later_version (select (λ r. is_published r.status) db.releases))

-- `latestPublished && code <= latestPublished.versionCode`
abbrev pub is_outdated : ℕ → Option Release → Bool
is_outdated code none = false
is_outdated code (some latest) = leb code latest.version_code

-- `!text?.trim()`
unfoldable pub is_blank : Option (List ℕ) → Bool
unfolding trim
is_blank none = true
is_blank (some text) = is_nil (trim text)

-- The release that an upload stores under its version.
abbrev pub uploaded : ℕ → ApkInfo → Release → Release
uploaded key apk r = record r {
  version_name = apk.version_name;
  package_name = apk.package_name;
  signing_certificate = apk.signing_certificate;
  object_key = key;
  file_size = apk.file_size;
  sha256 = apk.sha256;
  status = ReleaseStatus.draft;
}

abbrev pub new_release : ℕ → ℕ → ApkInfo → Release
new_release id key apk = record {
  id = id;
  version_name = apk.version_name;
  version_code = apk.version_code;
  package_name = apk.package_name;
  signing_certificate = apk.signing_certificate;
  object_key = key;
  file_size = apk.file_size;
  sha256 = apk.sha256;
  status = ReleaseStatus.draft;
  mandatory = false;
  changelog_ru = none;
  changelog_tg = none;
  published_at = none;
  archived_at = none;
  artifact_deleted_at = none;
}

unfoldable pub release_of_version : Db → ℕ → Option Release
unfolding find
release_of_version db code = find (λ r. r.version_code == code) db.releases

-- The upsert.
unfoldable pub store_upload : Db → ℕ → ℕ → ApkInfo → Db
unfolding update_where
store_upload db id key apk = elim (release_of_version db apk.version_code) [
  | none ↦ record db { releases = insert (new_release id key apk) db.releases }
  | some r ↦ record db {
    releases =
        update_where (λ r. r.version_code == apk.version_code) (uploaded key apk) db.releases;
  }
]

-- A release of the version that is not a draft.
abbrev pub is_taken : Option Release → Bool
is_taken none = false
is_taken (some r) = not (is_draft r.status)

-- finalizeUpload of a given upload id: `key` is its object's, `stored` the size of the object, if it is
-- there, and `inspected` the inspector's answer or what is thrown in its place.
unfoldable pub finalize_upload : Db → Bool → ℕ → ℕ → Option ℕ → Result ApkInfo → Result Db
finalize_upload db configured id key stored inspected = do
  throw_if (not configured) object_storage_not_configured
  size ← or_throw stored apk_file_missing
  apk ← inspected
  throw_if (ltb 0 size && not (size == apk.file_size)) apk_size_mismatch
  throw_if (is_outdated apk.version_code (latest_published db)) version_code_not_increasing
  throw_if (is_taken (release_of_version db apk.version_code)) version_code_exists
  ok (store_upload db id key apk)

-- The fields of an edit, each where it is given.
pub record DraftEdit : Type 0 where
  pub changelog_ru : Option (List ℕ)
  pub changelog_tg : Option (List ℕ)
  pub mandatory : Option Bool

abbrev given_or : Option (List ℕ) → Option (List ℕ) → Option (List ℕ)
given_or none old = old
given_or (some text) old = some text

abbrev pub edit : DraftEdit → Release → Release
edit e r = record r {
  changelog_ru = given_or e.changelog_ru r.changelog_ru;
  changelog_tg = given_or e.changelog_tg r.changelog_tg;
  mandatory = or_else e.mandatory r.mandatory;
}

-- updateDraft
unfoldable pub update_draft : Db → ℕ → DraftEdit → Result Db
unfolding update_where
update_draft db id e = do
  r ← or_throw (release_of db id) release_not_found
  throw_if (not (is_draft r.status)) release_not_draft
  ok (record db { releases = update_where (λ x. x.id == id) (edit e) db.releases })
