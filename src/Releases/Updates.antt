-- ===== src/Releases/Updates.antt =====
-- app-update/app-update.service.ts: what a device is offered, and the download that it asks for.
use ruznamo_backend.Common.{
  apk_file_missing, apk_file_missing, object_storage_not_configured, apk_artifact_deleted,
  release_not_downloadable, manifest_signing_not_configured, not, is_some, throw_if, leb,
  release_not_found, ok, or_throw, ℕ, List, Bool, Option, Result, ◌>>=◌, ◌>>◌, ◌||◌, none, some,
  if◌then◌else◌, false, true, [], or_else,
}
use ruznamo_backend.Db.{is_published, Release, Db}
use ruznamo_backend.Releases.{latest_published, release_of}

-- What `checkUpdate` answers of a release, without its signed manifest.
pub record UpdateOffer : Type 0 where
  pub current_version_code : ℕ
  pub release : Release
  pub changelog : List ℕ

-- `(locale ?? 'ru').toLowerCase() === 'tj'`
unfoldable pub changelog_for : Bool → Release → List ℕ
changelog_for true r = or_else r.changelog_tg []
changelog_for false r = or_else r.changelog_ru []

-- checkUpdate, for a missing version code 0; without a key the signer throws.
unfoldable pub check_update : Db → Bool → Bool → Option ℕ → Result (Option UpdateOffer)
unfolding changelog_for
check_update db can_sign is_tajik version_code =
    let current = or_else version_code 0 in
    elim (latest_published db) [
      | none ↦ ok none
      | some latest ↦
          if leb latest.version_code current || is_some latest.artifact_deleted_at
          then ok none
          else do
            throw_if (not can_sign) manifest_signing_not_configured
            ok (
                some (record {
                  current_version_code = current;
                  release = latest;
                  changelog = changelog_for is_tajik latest;
                }))
    ]

-- authorizeDownload: the release whose object the link is for.
unfoldable pub authorize_download : Db → Bool → (ℕ → Bool) → ℕ → Result Release
authorize_download db configured head id = do
  r ← or_throw (release_of db id) release_not_found
  throw_if (not (is_published r.status)) release_not_downloadable
  throw_if (is_some r.artifact_deleted_at) apk_artifact_deleted
  throw_if (not configured) object_storage_not_configured
  throw_if (not (head r.object_key)) apk_file_missing
  ok r
