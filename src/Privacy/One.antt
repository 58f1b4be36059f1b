-- ===== src/Privacy/One.antt =====
-- privacy/privacy-policy.service.ts keeps one revision published, which is the one shown, and one draft.
use ruznamo_backend.Common.{
  select, ℕ, ◌≤◌, ◌≡◌, List, [], Option, Bool, some, none, true, false, ok, refl, if◌then◌else◌,
  insert, count, ◌==◌, arith, inl, inr, Option-cases, ap, ◌∙◌, >>=-eq-ok, >>-eq-ok, ok-injective,
  or_throw, update_where, privacy_not_found, privacy_not_draft, privacy_locale_required,
  privacy_published_invariant, record_not_found,
}
use ruznamo_backend.Common.Best.{Mem-select, Mem-first, Mem-sort_by, no_first, count-select_none}
use ruznamo_backend.Common.Counting.{count-insert, count-update_same, count-update_shrink}
use ruznamo_backend.Db.{log, Db, PrivacyPolicyRevision, is_policy_draft, is_policy_published}
use ruznamo_backend.Privacy.{
  archive_policy, is_other_published, newer_draft, set_texts, later_revision, publish_revision,
  publish_policy_tx, published_policy, swap_policy, edit_policy, current_draft, policy_of,
  new_draft, ensure_initial_published, PolicyDefaults, PolicyTexts, PublicPolicy, save_draft,
  publish_policy, get_published,
}
use mathlib.Core.List.{Memᴰ}
use mathlib.Core.Path.{subst}

abbrev pub is_live : PrivacyPolicyRevision → Bool
is_live r = is_policy_published r.status

abbrev is_open : PrivacyPolicyRevision → Bool
is_open r = is_policy_draft r.status

-- One published revision and at most one draft.
abbrev pub OneRows : List PrivacyPolicyRevision → Type 0
OneRows rows = (count is_live rows ≡ 1) × (count is_open rows ≤ 1)

abbrev pub One : Db → Type 0
One db = OneRows db.policies

-- What administrators do; a publication may have read other tables than its transaction meets.
pub data PolicyStep (defaults : PolicyDefaults) : Db → Db → Type 0 where
  draft_saved :
      {db db' : Db} (now new_id : ℕ) (id : Option ℕ) (texts : PolicyTexts)
      → save_draft db db defaults now new_id id texts ≡ ok db'
      → PolicyStep defaults db db'
  draft_published :
      {met db' : Db} (db : Db) (now admin id : ℕ) (r : PrivacyPolicyRevision)
      → publish_policy db met now admin id ≡ ok (r, db')
      → PolicyStep defaults met db'

pub data PolicySteps (defaults : PolicyDefaults) : Db → Db → Type 0 where
  stay : {db : Db} → PolicySteps defaults db db
  step :
      {db db' db'' : Db}
      → PolicyStep defaults db db'
      → PolicySteps defaults db' db''
      → PolicySteps defaults db db''

edit_policy-One :
    (db : Db) (now id : ℕ) (texts : PolicyTexts) → One db → One (edit_policy db now id texts)
unfolding edit_policy
edit_policy-One db now id texts (live, open_rows) = (
  count-update_same is_live (λ r. r.id == id) (set_texts now texts) db.policies (λ r h. refl)
      ∙ live,
  omega (
    arith,
    count-update_same is_open (λ r. r.id == id) (set_texts now texts) db.policies (λ r h. refl),
  ),
)

new_draft-status :
    (db : Db) (defaults : PolicyDefaults) (now id : ℕ) (texts : PolicyTexts)
    → (is_live (new_draft db defaults now id texts) ≡ false)
      × (is_open (new_draft db defaults now id texts) ≡ true)
unfolding new_draft
new_draft-status db defaults now id texts = elim (Option-cases (published_policy db)) [
  | inl missing ↦ (rw (missing, new_draft) refl, rw (missing, new_draft) refl)
  | inr (base, found) ↦ (rw (found, new_draft) refl, rw (found, new_draft) refl)
]

no_draft : (db : Db) → current_draft db ≡ none → count is_open db.policies ≡ 0
unfolding current_draft
no_draft db missing = count-select_none is_open db.policies (no_first newer_draft _ missing)

insert-OneRows :
    (r : PrivacyPolicyRevision) (rows : List PrivacyPolicyRevision)
    → is_live r ≡ false
    → count is_open rows ≡ 0
    → OneRows rows
    → OneRows (insert r rows)
insert-OneRows r rows draft none_open (live, open_rows) =
    (ground (arith, count-insert is_live r rows), ground (arith, count-insert is_open r rows))

save_draft-One :
    (defaults : PolicyDefaults) (db : Db) (now new_id : ℕ) (id : Option ℕ) (texts : PolicyTexts)
    (db' : Db)
    → save_draft db db defaults now new_id id texts ≡ ok db'
    → One db
    → One db'
unfolding save_draft
save_draft-One defaults db now new_id (some id) texts db' h one =
    let (r, _, h₁) = >>=-eq-ok (or_throw (policy_of db id) privacy_not_found) _ h in
    let (_, h₂) = >>-eq-ok _ privacy_not_draft _ h₁ in
    subst One (ok-injective h₂) (edit_policy-One db now r.id texts one)
save_draft-One defaults db now new_id none texts db' h one =
    elim (Option-cases (current_draft db)) [
      | inl missing ↦
          let e = ok-injective (rw (missing, save_draft) at h) in
          subst One e (
            insert-OneRows (new_draft db defaults now new_id texts) db.policies
              (new_draft-status db defaults now new_id texts).0 (no_draft db missing) one)
      | inr (r, found) ↦
          let e = ok-injective (rw (found, save_draft) at h) in
          subst One e (edit_policy-One db now r.id texts one)
    ]

swap_policy-open :
    (now id : ℕ) (rows : List PrivacyPolicyRevision)
    → count is_open (swap_policy now id rows) ≤ count is_open rows
unfolding swap_policy
swap_policy-open now id rows = omega (
  arith,
  count-update_shrink is_open (λ r. r.id == id) (publish_revision now)
      (update_where (is_other_published id) (archive_policy now) rows) (λ r h. absurd (cc)),
  count-update_shrink is_open (is_other_published id) (archive_policy now) rows
      (λ r h. absurd (cc)),
)

publish_policy_tx-One :
    (met : Db) (now id : ℕ) (r : PrivacyPolicyRevision) (db₁ : Db)
    → publish_policy_tx met now id ≡ ok (r, db₁)
    → One met
    → One db₁
unfolding publish_policy_tx
publish_policy_tx-One met now id r db₁ h (live, open_rows) =
    let (_, _, h₁) = >>=-eq-ok (or_throw (policy_of met id) record_not_found) _ h in
    let (one, h₂) = >>-eq-ok _ privacy_published_invariant _ h₁ in
    let rows : OneRows (swap_policy now id met.policies) =
      (ground arith, omega (arith, open_rows, swap_policy-open now id met.policies)) in
    subst One (ap (λ p. p.1) (ok-injective h₂)) rows

publish_policy-One :
    (db met : Db) (now admin id : ℕ) (r : PrivacyPolicyRevision) (db' : Db)
    → publish_policy db met now admin id ≡ ok (r, db')
    → One met
    → One db'
unfolding publish_policy log
publish_policy-One db met now admin id r db' h one =
    let (draft, _, h₁) = >>=-eq-ok (or_throw (policy_of db id) privacy_not_found) _ h in
    let (_, h₂) = >>-eq-ok _ privacy_not_draft _ h₁ in
    let (_, h₃) = >>-eq-ok _ privacy_locale_required _ h₂ in
    let ((done, db₁), went, h₄) = >>=-eq-ok (publish_policy_tx met now draft.id) _ h₃ in
    subst One (ap (λ p. p.1) (ok-injective h₄))
      (publish_policy_tx-One met now draft.id done db₁ went one)

steps-One :
    {defaults : PolicyDefaults} {db db' : Db} → PolicySteps defaults db db' → One db → One db'
steps-One PolicySteps.stay one = one
steps-One {defaults}
      (PolicySteps.step {db} {db'} (PolicyStep.draft_saved now new_id id texts h) rest) one =
    steps-One rest (save_draft-One defaults db now new_id id texts db' h one)
steps-One (PolicySteps.step {db} {db'} (PolicyStep.draft_published seen now admin id r h) rest)
      one =
    steps-One rest (publish_policy-One seen db now admin id r db' h one)

initial-One :
    (defaults : PolicyDefaults) (db : Db) (now id : ℕ)
    → db.policies ≡ []
    → One (ensure_initial_published defaults db now id)
unfolding ensure_initial_published count
initial-One defaults db now id empty = rw (empty, ensure_initial_published) (refl, omega arith)

-- The text of a row in a language.
abbrev pub text_of : Bool → PrivacyPolicyRevision → List ℕ
text_of is_tj r = if is_tj then r.content_tg else r.content_ru

shown :
    (defaults : PolicyDefaults) (db : Db) (is_tj : Bool)
    → One db
    → (r : PrivacyPolicyRevision) × Memᴰ r db.policies
      × (is_live r ≡ true)
      × (get_published defaults db is_tj ≡ PublicPolicy.backend r.revision (text_of is_tj r))
unfolding get_published published_policy
shown defaults db is_tj (live, _) = elim (Option-cases (published_policy db)) [
  | inl missing ↦ absurd (
      let k = count-select_none is_live db.policies (no_first later_revision _ missing) in
      omega arith)
  | inr (r, found) ↦
      let (m, published) =
        Mem-select is_live db.policies
          (Mem-sort_by later_revision (select is_live db.policies) (Mem-first _ found)) in
      (r, m, published, rw (found, get_published) refl)
]

-- Once the module has started on tables without revisions, whatever drafts are saved, each save run alone,
-- and published, exactly one revision is published and at most one is a draft, and the application is shown
-- the stored text of a published revision, never the text built in. A publication may have read its draft
-- in tables that others have changed since.
pub policies-One :
    (defaults cleaned : PolicyDefaults) (db db' : Db) (now id : ℕ) (is_tj : Bool)
    → db.policies ≡ []
    → PolicySteps defaults (ensure_initial_published cleaned db now id) db'
    → One db'
      × ((r : PrivacyPolicyRevision) × Memᴰ r db'.policies
          × (is_live r ≡ true)
          × (get_published defaults db' is_tj ≡ PublicPolicy.backend r.revision (text_of is_tj r)))
policies-One defaults cleaned db db' now id is_tj empty steps =
    let one = steps-One steps (initial-One cleaned db now id empty) in
    (one, shown defaults db' is_tj one)
