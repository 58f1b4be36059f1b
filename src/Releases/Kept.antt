-- ===== src/Releases/Kept.antt =====
-- Every operation of admin/releases/admin-releases.service.ts keeps the rows of releases sound.
use ruznamo_backend.Common.{
  count, ◌∙◌, manifest_signing_not_configured, apk_artifact_deleted, signing_policy_not_configured,
  [], version_code_exists, purge_archived_only, version_code_not_increasing, release_not_draft,
  cannot_archive_published, apk_size_mismatch, cannot_purge_published, apk_file_missing,
  published_invariant_violation, object_storage_not_configured, record_not_found, not,
  blob_delete_failed, Bool-cases, is_some, release_not_found, Option-cases, or_throw, ℕ, ◌≡◌,
  Option, Bool, Result, some, none, false, ok, refl, ◌==◌, arith, inl, inr, >>=-eq-ok, ok-injective,
  or_throw-eq-ok, >>-eq-ok, Bool-cases, Option-cases, ap, or_throw,
}
use ruznamo_backend.Db.{is_published, log, Db, Release}
use ruznamo_backend.Releases.{
  uploaded, edit, new_release, release_of_version, release_of, DraftEdit, ApkInfo, update_draft,
  store_upload, Policy, finalize_upload,
}
use ruznamo_backend.Releases.Publishing.{
  publish_found, check_publishable, set_purged, set_archived, is_artifact_deleted, current_version,
  publish_tx, purge_file, delete_draft, archive, sync_legacy_app_version, publish,
}
use ruznamo_backend.Releases.Sound.{
  release_of-id, ReleaseSteps, Sound-insert, Sound-update, Sound-select, Sound-swap, Sound,
  SoundRows, ReleaseStep,
}
use mathlib.Core.Path.{sym, ap, subst}

upload-Sound :
    (db : Db) (id key : ℕ) (apk : ApkInfo)
    → release_of db id ≡ none
    → Sound db
    → Sound (store_upload db id key apk)
unfolding store_upload release_of
upload-Sound db id key apk free sound =
    elim (Option-cases (release_of_version db apk.version_code)) [
      | inl new ↦
          rw (new, store_upload) (Sound-insert (new_release id key apk) db.releases refl free sound)
      | inr (r, old) ↦
          rw (old, store_upload)
            (Sound-update (λ r. r.version_code == apk.version_code) (uploaded key apk) db.releases
              (λ r. refl) (λ r h. absurd (cc)) (λ r h. absurd (cc)) sound)
    ]

finalize_upload-Sound :
    (db : Db) (configured : Bool) (id key : ℕ) (stored : Option ℕ) (inspected : Result ApkInfo)
    (db' : Db)
    → release_of db id ≡ none
    → finalize_upload db configured id key stored inspected ≡ ok db'
    → Sound db
    → Sound db'
unfolding finalize_upload
finalize_upload-Sound db configured id key stored inspected db' free h sound =
    let (_, h₁) = >>-eq-ok _ object_storage_not_configured _ h in
    let (_, _, h₂) = >>=-eq-ok (or_throw stored apk_file_missing) _ h₁ in
    let (apk, _, h₃) = >>=-eq-ok inspected _ h₂ in
    let (_, h₄) = >>-eq-ok _ apk_size_mismatch _ h₃ in
    let (_, h₅) = >>-eq-ok _ version_code_not_increasing _ h₄ in
    let (_, h₆) = >>-eq-ok _ version_code_exists _ h₅ in
    subst Sound (ok-injective h₆) (upload-Sound db id key apk free sound)

update_draft-Sound :
    (db : Db) (id : ℕ) (e : DraftEdit) (db' : Db)
    → update_draft db id e ≡ ok db'
    → Sound db
    → Sound db'
unfolding update_draft
update_draft-Sound db id e db' h sound =
    let (_, _, h₁) = >>=-eq-ok (or_throw (release_of db id) release_not_found) _ h in
    let (_, h₂) = >>-eq-ok _ release_not_draft _ h₁ in
    subst Sound (ok-injective h₂)
      (Sound-update (λ r. r.id == id) (edit e) db.releases (λ r. refl) (λ r h. h) (λ r h. h) sound)

archive-Sound :
    (db : Db) (now id : ℕ) (db' : Db) → archive db now id ≡ ok db' → Sound db → Sound db'
unfolding archive
archive-Sound db now id db' h sound =
    let (_, _, h₁) = >>=-eq-ok (or_throw (release_of db id) release_not_found) _ h in
    let (_, h₂) = >>-eq-ok _ cannot_archive_published _ h₁ in
    subst Sound (ok-injective h₂) (
      Sound-update (λ r. r.id == id) (set_archived now) db.releases (λ r. refl) (λ r h. absurd (cc))
        (λ r h. absurd (cc)) sound)

delete_draft-Sound :
    (db : Db) (delete_fails : Bool) (id : ℕ) (db' : Db)
    → delete_draft db delete_fails id ≡ ok db'
    → Sound db
    → Sound db'
unfolding delete_draft
delete_draft-Sound db delete_fails id db' h sound =
    let (r, _, h₁) = >>=-eq-ok (or_throw (release_of db id) release_not_found) _ h in
    let (_, h₂) = >>-eq-ok _ release_not_draft _ h₁ in
    let (_, h₃) = >>-eq-ok _ blob_delete_failed _ h₂ in
    subst Sound (ok-injective h₃) (Sound-select (λ x. not (x.id == r.id)) db.releases sound)

purge_file-Sound :
    (db : Db) (delete_fails : Bool) (now admin id : ℕ) (db' : Db)
    → purge_file db delete_fails now admin id ≡ ok db'
    → Sound db
    → Sound db'
unfolding purge_file log
purge_file-Sound db delete_fails now admin id db' h sound =
    let (r, _, h₁) = >>=-eq-ok (or_throw (release_of db id) release_not_found) _ h in
    elim (Bool-cases (is_artifact_deleted r)) [
      | inl gone ↦
          let (_, h₂) = >>-eq-ok _ cannot_purge_published _ (rw gone at h₁) in
          let (_, h₃) = >>-eq-ok _ purge_archived_only _ h₂ in subst Sound (ok-injective h₃) sound
      | inr there ↦
          let (_, h₂) = >>-eq-ok _ cannot_purge_published _ (rw there at h₁) in
          let (_, h₃) = >>-eq-ok _ purge_archived_only _ h₂ in
          let (_, h₄) = >>-eq-ok _ blob_delete_failed _ h₃ in
          subst Sound (ok-injective h₄) (
            Sound-update (λ x. x.id == id) (set_purged now) db.releases (λ r. refl)
              (λ r h. absurd (cc)) (λ r h. absurd (cc)) sound)
    ]

pub sync-releases :
    (now id : ℕ) (r : Release) (db : Db)
    → (sync_legacy_app_version now id r db).releases ≡ db.releases
unfolding sync_legacy_app_version
sync-releases now id r db = elim (Option-cases (current_version db)) [
  | inl missing ↦ rw (missing, sync_legacy_app_version) refl
  | inr (v, found) ↦ rw (found, sync_legacy_app_version) refl
]

publish_tx-Sound :
    (met : Db) (now id : ℕ) (r released : Release) (db₁ : Db)
    → release_of met id ≡ some r
    → is_some r.artifact_deleted_at ≡ false
    → publish_tx met now id ≡ ok (released, db₁)
    → Sound met
    → Sound db₁
unfolding publish_tx release_of
publish_tx-Sound met now id r released db₁ found there h sound =
    let (_, _, h₁) = >>=-eq-ok (or_throw (release_of met id) record_not_found) _ h in
    let (one, h₂) = >>-eq-ok _ published_invariant_violation _ h₁ in
    let e = ap (λ p. p.1) (ok-injective h₂) in
    subst Sound e (Sound-swap now id met.releases r found there (ground arith) sound)

check_publishable-live :
    (policy : Policy) (head : ℕ → Bool) (db : Db) (r : Release) {u : Unit {0}}
    → check_publishable policy head db r ≡ ok u
    → is_some r.artifact_deleted_at ≡ false
unfolding check_publishable
check_publishable-live policy head db r h =
    let (_, h₁) = >>-eq-ok _ release_not_draft _ h in
    let (there, _) = >>-eq-ok _ apk_artifact_deleted _ h₁ in there

publish_found-Sound :
    (policy : Policy) (head : ℕ → Bool) (db met : Db) (now version_id admin : ℕ)
    (r released : Release) (db' : Db)
    → release_of met r.id ≡ some r
    → publish_found policy head db met now version_id admin r ≡ ok (released, db')
    → Sound met
    → Sound db'
unfolding publish_found log
publish_found-Sound policy head db met now version_id admin r released db' found h sound =
    elim (Bool-cases (is_published r.status)) [
      | inl already ↦
          let left : ◌≡◌ {A = Release × Db} (r, met) (released, db') =
            ok-injective (rw already at h) in
          subst Sound (ap (λ p. p.1) left) sound
      | inr draft ↦
          let (_, checked, h₁) = >>=-eq-ok (check_publishable policy head db r) _ (rw draft at h) in
          let ((done, db₁), went, h₂) = >>=-eq-ok (publish_tx met now r.id) _ h₁ in
          subst Sound (ap (λ p. p.1) (ok-injective h₂)) (
            subst SoundRows (sym (sync-releases now version_id done db₁)) (
              publish_tx-Sound met now r.id r done db₁ found
                (check_publishable-live policy head db r checked) went sound))
    ]

publish-Sound :
    (policy : Policy) (head : ℕ → Bool) (db met : Db) (now version_id admin id : ℕ)
    (released : Release) (db' : Db)
    → release_of db id ≡ release_of met id
    → publish policy head db met now version_id admin id ≡ ok (released, db')
    → Sound met
    → Sound db'
unfolding publish
publish-Sound policy head db met now version_id admin id released db' same h sound =
    let (_, h₁) = >>-eq-ok _ signing_policy_not_configured _ h in
    let (_, h₂) = >>-eq-ok _ manifest_signing_not_configured _ h₁ in
    let (r, e, h₃) = >>=-eq-ok (or_throw (release_of db id) release_not_found) _ h₂ in
    let found : release_of met id ≡ some r = sym same ∙ or_throw-eq-ok _ _ e in
    publish_found-Sound policy head db met now version_id admin r released db'
      (ap (release_of met) (release_of-id met id r found) ∙ found) h₃ sound

step-Sound : {db db' : Db} → ReleaseStep db db' → Sound db → Sound db'
step-Sound {db} {db'} (ReleaseStep.upload configured id key stored inspected free h) sound =
    finalize_upload-Sound db configured id key stored inspected db' free h sound
step-Sound {db} {db'} (ReleaseStep.edit_draft id e h) sound = update_draft-Sound db id e db' h sound
step-Sound {db} {db'} (ReleaseStep.publication policy head seen now version_id admin id r same h)
      sound =
    publish-Sound policy head seen db now version_id admin id r db' same h sound
step-Sound {db} {db'} (ReleaseStep.archival now id h) sound = archive-Sound db now id db' h sound
step-Sound {db} {db'} (ReleaseStep.draft_deletion delete_fails id h) sound =
    delete_draft-Sound db delete_fails id db' h sound
step-Sound {db} {db'} (ReleaseStep.purge delete_fails now admin id h) sound =
    purge_file-Sound db delete_fails now admin id db' h sound

steps-Sound : {db db' : Db} → ReleaseSteps db db' → Sound db → Sound db'
steps-Sound ReleaseSteps.stay sound = sound
steps-Sound (ReleaseSteps.step s rest) sound = steps-Sound rest (step-Sound s sound)

-- From a database without releases, whatever uploads, edits, publications, archivals, draft deletions
-- and purges administrators run, in any order, at most one release is published, it is not one whose
-- APK was deleted, and no two rows share an id. A publication may have made its checks on tables that
-- others have changed since, as long as the row that it publishes is still the one that it read; the id
-- of an upload is free.
pub releases-Sound : {db db' : Db} → db.releases ≡ [] → ReleaseSteps db db' → Sound db'
unfolding count
releases-Sound {db} empty steps =
    steps-Sound steps (subst SoundRows (sym empty) (omega arith, refl, λ id. omega arith))
