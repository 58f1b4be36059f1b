-- ===== src/Tests/Releasing.antt =====
-- A first release that is uploaded, described and published, and a second one.
use ruznamo_backend.Common.{◌⊎◌, arith, ◌+◌, ◌≡◌, refl, true, false, none, some, ok, ℕ, Bool, codes}
use ruznamo_backend.Db.{ReleaseStatus, Db, Release}
use ruznamo_backend.Releases.{
  latest_published, Policy, ApkInfo, DraftEdit, finalize_upload, update_draft, release_of,
}
use ruznamo_backend.Releases.Publishing.{publish, set_published}
use ruznamo_backend.Releases.Updates.{check_update, UpdateOffer}
use ruznamo_backend.Releases.Sound.{Sound, ReleaseStep, ReleaseSteps}
use ruznamo_backend.Releases.Kept.{releases-Sound}
use ruznamo_backend.Releases.Offered.{check_update-answers, NoneNewer, Offered}
use ruznamo_backend.Releases.Raised.{publish-raises, Above}
use ruznamo_backend.Tests.Shop.{shop, runs, value}

abbrev policy : Policy
policy = record {
  signing_configured = true;
  can_sign = true;
  package_name = codes "app";
  signing_certificate = codes "c3";
}

abbrev apk : ℕ → ApkInfo
apk code = record {
  version_name = codes "v";
  version_code = code;
  package_name = codes "app";
  signing_certificate = codes "C3";
  file_size = 9;
  sha256 = 77;
}

abbrev text : DraftEdit
text = record {
  changelog_ru = some (codes "new");
  changelog_tg = some (codes "new");
  mandatory = none;
}

abbrev stored : ℕ → Bool
stored key = true

abbrev first_uploaded : Db
first_uploaded = value shop (finalize_upload shop true 1 501 (some 9) (ok (apk 3)))

abbrev first_edited : Db
first_edited = value first_uploaded (update_draft first_uploaded 1 text)

abbrev draft : ℕ → ℕ → Release
draft id code = record {
  id = id;
  version_name = codes "v";
  version_code = code;
  package_name = codes "app";
  signing_certificate = codes "C3";
  object_key = 500 + id;
  file_size = 9;
  sha256 = 77;
  status = ReleaseStatus.draft;
  mandatory = false;
  changelog_ru = some (codes "new");
  changelog_tg = some (codes "new");
  published_at = none;
  archived_at = none;
  artifact_deleted_at = none;
}

abbrev first_got : Release × Db
first_got =
    value (draft 1 3, first_edited) (publish policy stored first_edited first_edited 2000 90 7 1)

abbrev second_uploaded : Db
second_uploaded = value first_got.1 (finalize_upload first_got.1 true 2 502 (some 9) (ok (apk 5)))

abbrev second_edited : Db
second_edited = value second_uploaded (update_draft second_uploaded 2 text)

abbrev second_got : Release × Db
second_got =
    value (draft 2 5, second_edited) (publish policy stored second_edited second_edited 3000 91 7 2)

uploading : finalize_upload shop true 1 501 (some 9) (ok (apk 3)) ≡ ok first_uploaded
unfolding runs
uploading = refl

free : release_of shop 1 ≡ none
unfolding runs
free = refl

editing : update_draft first_uploaded 1 text ≡ ok first_edited
unfolding runs
editing = refl

publishing :
    publish policy stored first_edited first_edited 2000 90 7 1 ≡ ok (first_got.0, first_got.1)
unfolding runs
publishing = refl

releases-Sound_example : Sound first_got.1
releases-Sound_example = releases-Sound {db = shop} {db' = first_got.1} refl (
    ReleaseSteps.step (ReleaseStep.upload true 1 501 (some 9) (ok (apk 3)) free uploading) (
      ReleaseSteps.step (ReleaseStep.edit_draft 1 text editing) (
        ReleaseSteps.step
          (ReleaseStep.publication policy stored first_edited 2000 90 7 1 first_got.0 refl
            publishing)
          ReleaseSteps.stay)))

once : Sound first_got.1
unfolding runs
once = (omega arith, refl, λ id. ground arith)

check_update-answers_example :
    ((check_update first_got.1 true false (some 2) ≡ ok none) × NoneNewer first_got.1 2)
    ⊎ ((offer : UpdateOffer) × (check_update first_got.1 true false (some 2) ≡ ok (some offer))
        × Offered first_got.1 stored 2 offer.release)
check_update-answers_example =
    check_update-answers first_got.1 stored false (some 2) once (λ r m live. refl)

second :
    publish policy stored second_edited second_edited 3000 91 7 2 ≡ ok (second_got.0, second_got.1)
unfolding runs
second = refl

second_read : release_of second_edited 2 ≡ some (draft 2 5)
unfolding runs
second_read = refl

publish-raises_example :
    (set_published 3000 (draft 2 5) ≡ second_got.0)
    × Above second_edited 5
    × (latest_published second_got.1 ≡ some second_got.0)
publish-raises_example =
    publish-raises policy stored second_edited second_edited 3000 91 7 2 (draft 2 5) second_got.0
      second_got.1 second_read second_read refl second
