-- ===== src/Tests/Informing.antt =====
-- A privacy policy that is drafted and published.
use ruznamo_backend.Common.{◌≡◌, refl, true, false, none, some, ok, codes}
use ruznamo_backend.Db.{Db, PrivacyPolicyRevision, PrivacyPolicyStatus}
use ruznamo_backend.Privacy.{
  PolicyDefaults, PolicyTexts, PublicPolicy, save_draft, publish_policy, get_published,
  ensure_initial_published,
}
use ruznamo_backend.Privacy.One.{One, PolicyStep, PolicySteps, policies-One, is_live, text_of}
use ruznamo_backend.Tests.Shop.{shop, runs, value}
use mathlib.Core.List.{Memᴰ}

abbrev defaults : PolicyDefaults
defaults = record { default_ru = codes "ru"; default_tg = codes "tg" }

abbrev texts : PolicyTexts
texts = record { content_ru = some (codes "second"); content_tg = none }

abbrev started : Db
started = ensure_initial_published defaults shop 1000 1

abbrev drafted : Db
drafted = value started (save_draft started started defaults 2000 2 none texts)

abbrev revision : PrivacyPolicyRevision
revision = record {
  id = 2;
  revision = 2;
  content_ru = codes "second";
  content_tg = codes "tg";
  status = PrivacyPolicyStatus.draft;
  updated_at = 2000;
  published_at = none;
  archived_at = none;
}

abbrev got : PrivacyPolicyRevision × Db
got = value (revision, drafted) (publish_policy drafted drafted 3000 7 2)

saving : save_draft started started defaults 2000 2 none texts ≡ ok drafted
unfolding runs
saving = refl

publishing : publish_policy drafted drafted 3000 7 2 ≡ ok (got.0, got.1)
unfolding runs
publishing = refl

shown_test : get_published defaults got.1 false ≡ PublicPolicy.backend 2 (codes "second")
unfolding runs
shown_test = refl

policies-One_example :
    One got.1
    × ((r : PrivacyPolicyRevision) × Memᴰ r got.1.policies
        × (is_live r ≡ true)
        × (get_published defaults got.1 false ≡ PublicPolicy.backend r.revision (text_of false r)))
policies-One_example = policies-One defaults defaults shop got.1 1000 1 false refl (
    PolicySteps.step (PolicyStep.draft_saved 2000 2 none texts saving) (
      PolicySteps.step (PolicyStep.draft_published drafted 3000 7 2 got.0 publishing)
        PolicySteps.stay))
