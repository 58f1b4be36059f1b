-- ===== src/Releases/Raised.antt =====
-- The release that `publish` of admin/releases/admin-releases.service.ts leaves published.
use ruznamo_backend.Common.{
  manifest_signing_not_configured, >>=-eq-ok, signing_policy_not_configured,
  version_code_not_increasing, changelog_required, apk_signing_mismatch, apk_package_mismatch,
  apk_artifact_deleted, release_not_draft, published_invariant_violation, ltb, find_sound, All, leb,
  update_where, ◌∙◌, [], find, count, select, ◌≤◌, ℕ, ◌≡◌, List, Bool, some, true, false, ok, refl,
  ◌==◌, arith, inl, inr, Option-cases, ap, >>-eq-ok, ok-injective,
}
use ruznamo_backend.Common.Best.{first-sort_by, no_first, Mem-find, select-Mem, unique-Mem}
use ruznamo_backend.Common.Counting.{find-update_where}
use ruznamo_backend.Db.{ActorType, log, is_published, Db, Release}
use ruznamo_backend.Releases.{later_version, is_outdated, Policy, latest_published, release_of}
use ruznamo_backend.Releases.Offered.{
  later_version-cotrans, later_version-asymm, Mem-latest_published,
}
use mathlib.Core.Path.{sym, subst}
use mathlib.Core.List.{◌∷◌, Memᴰ}
use mathlib.Core.List.Memᴰ.{not-nil}
use ruznamo_backend.Releases.Publishing.{
  sync_legacy_app_version, publish_found, publish, publish_tx, check_publishable, set_archived,
  is_published_other, set_published, swap_published,
}
use ruznamo_backend.Releases.Sound.{release_of-id}
use ruznamo_backend.Releases.Kept.{sync-releases}

-- Where one release is published, it is the latest.
latest_unique :
    (db : Db) (r : Release)
    → count (λ x. is_published x.status) db.releases ≤ 1
    → Memᴰ r db.releases
    → is_published r.status ≡ true
    → latest_published db ≡ some r
unfolding latest_published
latest_unique db r one m live = elim (Option-cases (latest_published db)) [
  | inl missing ↦ absurd (
      not-nil (
        subst (Memᴰ r) (no_first later_version _ missing)
          (select-Mem (λ x. is_published x.status) db.releases m live)))
  | inr (latest, found) ↦
      let (n, also) = Mem-latest_published db latest found in
      found ∙ ap some (unique-Mem (λ x. is_published x.status) db.releases one n also m live)
]

find-swap :
    (now id : ℕ) (rows : List Release) (r : Release)
    → find (λ x. x.id == id) rows ≡ some r
    → is_published r.status ≡ false
    → find (λ x. x.id == id) (swap_published now id rows) ≡ some (set_published now r)
unfolding swap_published
find-swap now id rows r found draft =
    let mine : (r.id == id) ≡ true = find_sound (λ x. x.id == id) rows found in
    let e =
      find-update_where (λ x. x.id == id) (is_published_other id) (set_archived now) rows
        (λ x. refl) in
    let f =
      find-update_where (λ x. x.id == id) (λ x. x.id == id) (set_published now)
        (update_where (is_published_other id) (set_archived now) rows) (λ x. refl) in
    f ∙ rw e (rw found (rw draft (rw mine refl)))

publish_tx-latest :
    (met : Db) (now id : ℕ) (r released : Release) (db₁ : Db)
    → release_of met id ≡ some r
    → is_published r.status ≡ false
    → publish_tx met now id ≡ ok (released, db₁)
    → (set_published now r ≡ released) × (latest_published db₁ ≡ some released)
unfolding publish_tx release_of
publish_tx-latest met now id r released db₁ found draft h =
    let (one, h₁) = >>-eq-ok _ published_invariant_violation _ (rw found at h) in
    let left = ok-injective h₁ in
    let done : set_published now r ≡ released = ap (λ p. p.0) left in
    let m = Mem-find (λ x. x.id == id) _ (find-swap now id met.releases r found draft) in
    (
      done,
      subst (λ d. latest_published d ≡ some released) (ap (λ p. p.1) left)
          (latest_unique _ (set_published now r) (ground arith) m refl ∙ ap some done),
    )

All-below :
    (code : ℕ) (latest : Release) (rows : List Release)
    → leb code latest.version_code ≡ false
    → All (λ x. later_version x latest ≡ false) rows
    → All (λ x. ltb x.version_code code ≡ true) rows
All-below code latest [] h all = tt
All-below code latest (x ∷ rows) h (k, all) = (ground arith, All-below code latest rows h all)

-- Every release that is published has a lower version.
abbrev pub Above : Db → ℕ → Type 0
Above db code =
    All (λ x. ltb x.version_code code ≡ true) (select (λ x. is_published x.status) db.releases)

not_outdated-Above :
    (db : Db) (code : ℕ) → is_outdated code (latest_published db) ≡ false → Above db code
unfolding latest_published
not_outdated-Above db code h = elim (Option-cases (latest_published db)) [
  | inl missing ↦
      subst (All (λ x. ltb x.version_code code ≡ true)) (sym (no_first later_version _ missing)) tt
  | inr (latest, found) ↦ All-below code latest _ (rw found at h) (
      first-sort_by later_version later_version-asymm later_version-cotrans
        (select (λ x. is_published x.status) db.releases) found)
]

check_publishable-Above :
    (policy : Policy) (head : ℕ → Bool) (db : Db) (r : Release) {u : Unit {0}}
    → check_publishable policy head db r ≡ ok u
    → Above db r.version_code
unfolding check_publishable
check_publishable-Above policy head db r h =
    let (_, h₁) = >>-eq-ok _ release_not_draft _ h in
    let (_, h₂) = >>-eq-ok _ apk_artifact_deleted _ h₁ in
    let (_, h₃) = >>-eq-ok _ apk_package_mismatch _ h₂ in
    let (_, h₄) = >>-eq-ok _ apk_signing_mismatch _ h₃ in
    let (_, h₅) = >>-eq-ok _ changelog_required _ h₄ in
    let (newer, _) = >>-eq-ok _ version_code_not_increasing _ h₅ in
    not_outdated-Above db r.version_code newer

synced-latest :
    (now version_id admin : ℕ) (r : Release) (db : Db)
    → latest_published (
        log ActorType.admin admin "release.published" r.id
          (sync_legacy_app_version now version_id r db))
      ≡ latest_published db
unfolding latest_published log
synced-latest now version_id admin r db = rw (sync-releases now version_id r db) refl

publish_found-raises :
    (policy : Policy) (head : ℕ → Bool) (db met : Db) (now version_id admin : ℕ)
    (r released : Release) (db' : Db)
    → release_of met r.id ≡ some r
    → is_published r.status ≡ false
    → publish_found policy head db met now version_id admin r ≡ ok (released, db')
    → (set_published now r ≡ released)
      × Above db r.version_code
      × (latest_published db' ≡ some released)
unfolding publish_found
publish_found-raises policy head db met now version_id admin r released db' found draft h =
    let (_, checked, h₁) = >>=-eq-ok (check_publishable policy head db r) _ (rw draft at h) in
    let ((done, db₁), went, h₂) = >>=-eq-ok (publish_tx met now r.id) _ h₁ in
    let (set, latest) = publish_tx-latest met now r.id r done db₁ found draft went in
    let left = ok-injective h₂ in
    let same : done ≡ released = ap (λ p. p.0) left in
    (
      set ∙ same,
      check_publishable-Above policy head db r checked,
      subst (λ d. latest_published d ≡ some released) (ap (λ p. p.1) left)
          (synced-latest now version_id admin done db₁ ∙ latest ∙ ap some same),
    )

-- A publication that succeeds on a release that is not published yet leaves it, and it alone, as what
-- devices are offered: it is the published release of the highest version, unchanged but for its status
-- and time. Every release that was published when the checks were made has a lower version. Other rows
-- may have changed between the checks and the transaction.
pub publish-raises :
    (policy : Policy) (head : ℕ → Bool) (db met : Db) (now version_id admin id : ℕ)
    (r released : Release) (db' : Db)
    → release_of db id ≡ some r
    → release_of met id ≡ some r
    → is_published r.status ≡ false
    → publish policy head db met now version_id admin id ≡ ok (released, db')
    → (set_published now r ≡ released)
      × Above db r.version_code
      × (latest_published db' ≡ some released)
unfolding publish
publish-raises policy head db met now version_id admin id r released db' read found draft h =
    let (_, h₁) = >>-eq-ok _ signing_policy_not_configured _ (rw (read, publish) at h) in
    let (_, h₂) = >>-eq-ok _ manifest_signing_not_configured _ h₁ in
    publish_found-raises policy head db met now version_id admin r released db'
      (ap (release_of met) (release_of-id met id r found) ∙ found) draft h₂
