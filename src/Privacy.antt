-- ===== src/Privacy.antt =====
-- privacy/privacy-policy.service.ts: drafts and publication of the privacy policy, and what the
-- application is shown. The permissions that the module ensures on start are left out, and so are the
-- patterns of sanitizePrivacyContent: the texts of an edit are those that it answers.
pub mod One
use ruznamo_backend.Common.{
  ℕ, suc, ◌+◌, Bool, true, false, not, Option, none, some, List, [], ◌∷◌, ◌&&◌, ◌||◌, ◌==◌, ltb,
  leb, is_nil, trim, if◌then◌else◌, find, select, count, first, sort_by, insert, update_where,
  Result, ok, err, ◌>>=◌, ◌>>◌, throw_if, or_throw, or_else, privacy_not_found, privacy_not_draft,
  privacy_locale_required, privacy_published_invariant, record_not_found,
}
use ruznamo_backend.Db.{
  Db, PrivacyPolicyRevision, PrivacyPolicyStatus, ActorType, is_policy_draft, is_policy_published,
  log,
}

abbrev later_revision : PrivacyPolicyRevision → PrivacyPolicyRevision → Bool
later_revision a b = ltb b.revision a.revision

abbrev newer_draft : PrivacyPolicyRevision → PrivacyPolicyRevision → Bool
newer_draft a b = ltb b.updated_at a.updated_at

-- The published revision of the highest number.
unfoldable pub published_policy : Db → Option PrivacyPolicyRevision
unfolding select sort_by
published_policy db =
    first (sort_by later_revision (select (λ r. is_policy_published r.status) db.policies))

-- The draft of the latest change.
unfoldable pub current_draft : Db → Option PrivacyPolicyRevision
unfolding select sort_by
current_draft db = first (sort_by newer_draft (select (λ r. is_policy_draft r.status) db.policies))

unfoldable pub policy_of : Db → ℕ → Option PrivacyPolicyRevision
unfolding find
policy_of db id = find (λ r. r.id == id) db.policies

abbrev max_revision : List PrivacyPolicyRevision → ℕ
max_revision [] = 0
max_revision (r ∷ rs) =
    let rest = max_revision rs in if leb rest r.revision then r.revision else rest

-- The two texts of an edit, where they are given.
pub record PolicyTexts : Type 0 where
  pub content_ru : Option (List ℕ)
  pub content_tg : Option (List ℕ)

abbrev pub set_texts : ℕ → PolicyTexts → PrivacyPolicyRevision → PrivacyPolicyRevision
set_texts now texts r = record r {
  content_ru = or_else texts.content_ru r.content_ru;
  content_tg = or_else texts.content_tg r.content_tg;
  updated_at = now;
}

-- The defaults of privacy-policy.defaults.ts.
pub record PolicyDefaults : Type 0 where
  pub default_ru : List ℕ
  pub default_tg : List ℕ

abbrev pub new_draft : Db → PolicyDefaults → ℕ → ℕ → PolicyTexts → PrivacyPolicyRevision
unfolding published_policy
new_draft db defaults now id texts = elim (published_policy db) [
  | none ↦ record {
    id = id;
    revision = max_revision db.policies + 1;
    content_ru = or_else texts.content_ru defaults.default_ru;
    content_tg = or_else texts.content_tg defaults.default_tg;
    status = PrivacyPolicyStatus.draft;
    updated_at = now;
    published_at = none;
    archived_at = none;
  }
  | some base ↦ record {
    id = id;
    revision = max_revision db.policies + 1;
    content_ru = or_else texts.content_ru base.content_ru;
    content_tg = or_else texts.content_tg base.content_tg;
    status = PrivacyPolicyStatus.draft;
    updated_at = now;
    published_at = none;
    archived_at = none;
  }
]

unfoldable pub edit_policy : Db → ℕ → ℕ → PolicyTexts → Db
unfolding update_where
edit_policy db now id texts = record db {
  policies = update_where (λ r. r.id == id) (set_texts now texts) db.policies;
}

-- saveDraft; it reads the tables `db`, and its last statement writes on `met`.
unfoldable pub save_draft : Db → Db → PolicyDefaults → ℕ → ℕ → Option ℕ → PolicyTexts → Result Db
unfolding edit_policy new_draft
save_draft db met defaults now new_id (some id) texts = do
  existing ← or_throw (policy_of db id) privacy_not_found
  throw_if (not (is_policy_draft existing.status)) privacy_not_draft
  ok (edit_policy met now existing.id texts)
save_draft db met defaults now new_id none texts = elim (current_draft db) [
  | some existing ↦ ok (edit_policy met now existing.id texts)
  | none ↦
      ok (record met { policies = insert (new_draft db defaults now new_id texts) met.policies })
]

abbrev pub archive_policy : ℕ → PrivacyPolicyRevision → PrivacyPolicyRevision
archive_policy now r = record r {
  status = PrivacyPolicyStatus.archived;
  archived_at = some now;
  updated_at = now;
}

abbrev pub publish_revision : ℕ → PrivacyPolicyRevision → PrivacyPolicyRevision
publish_revision now r = record r {
  status = PrivacyPolicyStatus.published;
  published_at = some now;
  updated_at = now;
}

abbrev pub is_other_published : ℕ → PrivacyPolicyRevision → Bool
is_other_published id r = is_policy_published r.status && not (r.id == id)

unfoldable pub swap_policy : ℕ → ℕ → List PrivacyPolicyRevision → List PrivacyPolicyRevision
unfolding update_where
swap_policy now id rows =
    update_where (λ r. r.id == id) (publish_revision now)
      (update_where (is_other_published id) (archive_policy now) rows)

-- The transaction of `publish`.
unfoldable pub publish_policy_tx : Db → ℕ → ℕ → Result (PrivacyPolicyRevision × Db)
unfolding swap_policy count
publish_policy_tx met now id = do
  found ← or_throw (policy_of met id) record_not_found
  let rows = swap_policy now id met.policies in
      do
        throw_if (not (count (λ r. is_policy_published r.status) rows == 1))
            privacy_published_invariant
        ok (publish_revision now found, record met { policies = rows })

-- publish: the draft is read in `db`, and `met` are the tables that the transaction meets.
unfoldable pub publish_policy : Db → Db → ℕ → ℕ → ℕ → Result (PrivacyPolicyRevision × Db)
unfolding trim log
publish_policy db met now admin id = do
  draft ← or_throw (policy_of db id) privacy_not_found
  throw_if (not (is_policy_draft draft.status)) privacy_not_draft
  throw_if (is_nil (trim draft.content_ru) || is_nil (trim draft.content_tg))
      privacy_locale_required
  (published, db₁) ← publish_policy_tx met now draft.id
  ok (published, log ActorType.admin admin "privacy.published" published.id db₁)

-- ensureInitialPublished, with the defaults as sanitizePrivacyContent leaves them.
unfoldable pub ensure_initial_published : PolicyDefaults → Db → ℕ → ℕ → Db
ensure_initial_published defaults db now id = elim db.policies [
  | [] ↦ record db {
    policies =
        record {
          id = id;
          revision = 1;
          content_ru = defaults.default_ru;
          content_tg = defaults.default_tg;
          status = PrivacyPolicyStatus.published;
          updated_at = now;
          published_at = some now;
          archived_at = none;
        }
        ∷ [];
  }
  | row ∷ rows ↦ db
]

-- What the application is shown: a stored revision, or the text built in.
pub data PublicPolicy : Type 0 where
  backend : ℕ → List ℕ → PublicPolicy
  builtin_fallback : List ℕ → PublicPolicy

-- getPublished, for a language that begins with tj or not.
unfoldable pub get_published : PolicyDefaults → Db → Bool → PublicPolicy
get_published defaults db is_tj = elim (published_policy db) [
  | none ↦
      PublicPolicy.builtin_fallback (if is_tj then defaults.default_tg else defaults.default_ru)
  | some row ↦ PublicPolicy.backend row.revision (if is_tj then row.content_tg else row.content_ru)
]
