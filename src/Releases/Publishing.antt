-- ===== src/Releases/Publishing.antt =====
-- The life of a release in admin/releases/admin-releases.service.ts: publish, archive, deleteDraft and
-- purgeFile.
use ruznamo_backend.Common.{
  apk_file_missing, version_code_not_increasing, changelog_required, apk_signing_mismatch, map,
  is_nil, apk_package_mismatch, same_text, purge_archived_only, cannot_archive_published, ok,
  cannot_purge_published, apk_artifact_deleted, published_invariant_violation, blob_delete_failed,
  first, manifest_signing_not_configured, release_not_draft, record_not_found, release_not_found,
  insert, sort_by, or_throw, signing_policy_not_configured, update_where, is_some, not, ltb, count,
  throw_if, select, ℕ, List, Bool, Option, Result, ◌>>=◌, ◌>>◌, ◌==◌, ◌||◌, ◌&&◌, none, some,
  if◌then◌else◌, true, or_else,
}
use ruznamo_backend.Db.{
  ActorType, is_draft, is_purged, is_published, ReleaseStatus, Release, log, AppVersion, Db,
}
use ruznamo_backend.Licenses.Key.{lower}
use ruznamo_backend.Releases.{latest_published, is_outdated, is_blank, Policy, release_of}

-- The checks of `publish` on the row that it read.
unfoldable pub check_publishable : Policy → (ℕ → Bool) → Db → Release → Result (Unit {0})
check_publishable policy head db r = do
  throw_if (not (is_draft r.status)) release_not_draft
  throw_if (is_some r.artifact_deleted_at) apk_artifact_deleted
  throw_if (not (same_text r.package_name policy.package_name)) apk_package_mismatch
  throw_if
      (is_nil policy.signing_certificate
        || not (same_text (map lower r.signing_certificate) policy.signing_certificate))
      apk_signing_mismatch
  throw_if (is_blank r.changelog_ru || is_blank r.changelog_tg) changelog_required
  throw_if (is_outdated r.version_code (latest_published db)) version_code_not_increasing
  throw_if (not (head r.object_key)) apk_file_missing

abbrev pub set_archived : ℕ → Release → Release
set_archived now r = record r { status = ReleaseStatus.archived; archived_at = some now }

abbrev pub set_published : ℕ → Release → Release
set_published now r = record r { status = ReleaseStatus.published; published_at = some now }

abbrev pub is_published_other : ℕ → Release → Bool
is_published_other id r = is_published r.status && not (r.id == id)

-- The two updates of the transaction.
unfoldable pub swap_published : ℕ → ℕ → List Release → List Release
unfolding update_where
swap_published now id rows =
    update_where (λ r. r.id == id) (set_published now)
      (update_where (is_published_other id) (set_archived now) rows)

-- The transaction of `publish`, on the tables that it meets under its lock.
unfoldable pub publish_tx : Db → ℕ → ℕ → Result (Release × Db)
unfolding swap_published count
publish_tx met now id = do
  found ← or_throw (release_of met id) record_not_found
  let rows = swap_published now id met.releases in
      do
        throw_if (not (count (λ r. is_published r.status) rows == 1)) published_invariant_violation
        ok (set_published now found, record met { releases = rows })

abbrev newer_update : AppVersion → AppVersion → Bool
newer_update a b = ltb b.updated_at a.updated_at

-- The active row of the latest update.
unfoldable pub current_version : Db → Option AppVersion
unfolding select sort_by
current_version db = first (sort_by newer_update (select (λ v. v.is_active) db.versions))

abbrev set_version : ℕ → Release → AppVersion → AppVersion
set_version now r v = record v {
  latest_version = r.version_name;
  force_update = r.mandatory;
  release_notes = r.changelog_ru;
  release_notes_tj = r.changelog_tg;
  updated_at = now;
}

abbrev new_version : ℕ → ℕ → Release → AppVersion
new_version now id r = record {
  id = id;
  latest_version = r.version_name;
  minimum_supported_version = r.version_name;
  force_update = r.mandatory;
  release_notes = r.changelog_ru;
  release_notes_tj = r.changelog_tg;
  is_active = true;
  updated_at = now;
}

-- syncLegacyAppVersion
unfoldable pub sync_legacy_app_version : ℕ → ℕ → Release → Db → Db
unfolding update_where
sync_legacy_app_version now id r db = elim (current_version db) [
  | none ↦ record db { versions = insert (new_version now id r) db.versions }
  | some v ↦ record db {
    versions = update_where (λ w. w.id == v.id) (set_version now r) db.versions;
  }
]

-- `publish` from the row that it found: its checks are made in `db`, and `met` are the tables that its
-- transaction meets.
unfoldable pub publish_found :
    Policy → (ℕ → Bool) → Db → Db → ℕ → ℕ → ℕ → Release → Result (Release × Db)
unfolding log
publish_found policy head db met now version_id admin r =
    if is_published r.status then ok (r, met) else do
      check_publishable policy head db r
      (released, db₁) ← publish_tx met now r.id
      ok (
        released,
        log ActorType.admin admin "release.published" released.id
            (sync_legacy_app_version now version_id released db₁),
      )

-- publish
unfoldable pub publish : Policy → (ℕ → Bool) → Db → Db → ℕ → ℕ → ℕ → ℕ → Result (Release × Db)
unfolding publish_found
publish policy head db met now version_id admin id = do
  throw_if (not policy.signing_configured) signing_policy_not_configured
  throw_if (not policy.can_sign) manifest_signing_not_configured
  r ← or_throw (release_of db id) release_not_found
  publish_found policy head db met now version_id admin r

-- archive
unfoldable pub archive : Db → ℕ → ℕ → Result Db
unfolding update_where
archive db now id = do
  r ← or_throw (release_of db id) release_not_found
  throw_if (is_published r.status) cannot_archive_published
  ok (record db { releases = update_where (λ x. x.id == id) (set_archived now) db.releases })

-- deleteDraft; `delete_fails` says that storage is configured and its deletion throws.
unfoldable pub delete_draft : Db → Bool → ℕ → Result Db
unfolding select
delete_draft db delete_fails id = do
  r ← or_throw (release_of db id) release_not_found
  throw_if (not (is_draft r.status)) release_not_draft
  throw_if delete_fails blob_delete_failed
  ok (record db { releases = select (λ x. not (x.id == r.id)) db.releases })

abbrev pub set_purged : ℕ → Release → Release
set_purged now r = record r {
  status = ReleaseStatus.archived;
  artifact_deleted_at = some now;
  archived_at = some (or_else r.archived_at now);
}

-- isArtifactDeleted
unfoldable pub is_artifact_deleted : Release → Bool
is_artifact_deleted r = is_some r.artifact_deleted_at || is_purged r.status

-- purgeFile
unfoldable pub purge_file : Db → Bool → ℕ → ℕ → ℕ → Result Db
unfolding update_where is_artifact_deleted log
purge_file db delete_fails now admin id = do
  r ← or_throw (release_of db id) release_not_found
  throw_if (is_published r.status) cannot_purge_published
  throw_if (is_draft r.status) purge_archived_only
  if is_artifact_deleted r then ok db else do
    throw_if delete_fails blob_delete_failed
    ok (
        log ActorType.admin admin "release.artifact_deleted" id
          (record db { releases = update_where (λ x. x.id == id) (set_purged now) db.releases }))
