-- ===== src/Admin/Licenses/Revoked.antt =====
-- A license after `revoke` of admin/licenses/admin-licenses.service.ts.
use ruznamo_backend.Common.{
  Option-cases, ◌⊎◌, ◌≢◌, ℕ, ◌≡◌, refl, true, false, Option, some, List, String, ok, err, ◌==◌, ◌∙◌,
  ◌||◌, ==_refl, arith, Bool-cases, inl, inr, or_throw, or_throw-eq-ok, or_else, >>=-eq-ok,
  ok-injective, license_not_found, license_revoked,
}
use ruznamo_backend.Common.Counting.{find-update_where}
use ruznamo_backend.Db.{
  User, Db, License, LicenseStatus, is_license_revoked, is_license_active, is_license_pending, log,
}
use ruznamo_backend.Licenses.Slots.{assert_license_activatable}
use ruznamo_backend.Licenses.Activate.{MobileJwtPayload, license_of_key, activate_tx}
use ruznamo_backend.Licenses.Replacement.{license_of, create_challenge}
use ruznamo_backend.Entitlements.Pick.{pick_best_active_license, is_candidate}
use ruznamo_backend.Admin.Licenses.{none, ActorType, set_revoked, write_revocation, revoke}
use mathlib.Core.Path.{sym, ap, subst}
use ruznamo_backend.Entitlements.Snapshot.{
  user_of, get_snapshot, candidates, build_snapshot, license_view, active_user_snapshot,
  snapshot_for,
}
use ruznamo_backend.Entitlements.Pick.Best.{picked-IsBest}
use ruznamo_backend.Entitlements.Snapshot.Access.{status_cases}
use ruznamo_backend.Entitlements.Types.{EntitlementSnapshot}

-- The row under the id is there and revoked.
abbrev RevokedRow : Db → ℕ → Type 0
RevokedRow db id =
    (l : License) × (license_of db id ≡ some l) × (is_license_revoked l.status ≡ true)

written-RevokedRow :
    (db : Db) (now id admin : ℕ) (l : License) (reason : String)
    → license_of db id ≡ some l
    → RevokedRow
        (log ActorType.admin admin "admin.license.revoke" id (write_revocation now l reason db))
        id
unfolding license_of write_revocation log
written-RevokedRow db now id admin l reason found = (
  set_revoked now l,
  find-update_where (λ m. m.id == id) (λ m. m.id == l.id) (set_revoked now) db.licenses (λ m. refl)
      ∙ rw found (rw (==_refl l.id) refl),
  refl,
)

revoke-RevokedRow :
    (db : Db) (now id admin : ℕ) (reason : Option String) (db' : Db)
    → revoke db now id admin reason ≡ ok db'
    → RevokedRow db' id
unfolding revoke
revoke-RevokedRow db now id admin reason db' h =
    let (l, e, h₁) = >>=-eq-ok (or_throw (license_of db id) license_not_found) _ h in
    let found = or_throw-eq-ok _ _ e in
    let left = ok-injective h₁ in
    elim (Bool-cases (is_license_revoked l.status)) [
      | inl was ↦
          let same : db ≡ db' = rw was at left in subst (λ d. RevokedRow d id) same (l, found, was)
      | inr live ↦
          let same = rw live at left in
          subst (λ d. RevokedRow d id) same
            (written-RevokedRow db now id admin l (or_else reason "admin_revoke") found)
    ]

not_usable :
    (s : LicenseStatus)
    → is_license_revoked s ≡ true
    → (is_license_active s || is_license_pending s) ≡ false
not_usable s h = ground arith

no_candidate :
    (now : ℕ) (l : License) → is_license_revoked l.status ≡ true → is_candidate now l ≡ false
unfolding is_candidate
no_candidate now l h = rw (not_usable l.status h) refl

activation_refused :
    (hash : List ℕ → ℕ) (db met seen : Db) (now : ℕ) (user : MobileJwtPayload) (key : List ℕ)
    (l : License)
    → license_of_key hash db key ≡ some l
    → is_license_revoked l.status ≡ true
    → activate_tx hash db met seen now user key ≡ err license_revoked
unfolding activate_tx assert_license_activatable
activation_refused hash db met seen now user key l found h = rw (found, h) refl

challenge_refused :
    (hash : List ℕ → ℕ) (db : Db) (now id token : ℕ) (user : MobileJwtPayload) (key : List ℕ)
    (l : License)
    → license_of_key hash db key ≡ some l
    → is_license_revoked l.status ≡ true
    → create_challenge hash db now id token user key ≡ err license_revoked
unfolding create_challenge
challenge_refused hash db now id token user key l found h = rw (found, h) refl

-- A snapshot reports the license that was picked, if it reports one.
reported :
    (db : Db) (now : ℕ) (installation : Option ℕ) (u : User)
    → ((snapshot_for db now installation u).license ≡ none)
      ⊎ ((m : License) × (pick_best_active_license now (candidates db u.id) ≡ some m)
          × ((snapshot_for db now installation u).license ≡ some (license_view m)))
unfolding snapshot_for active_user_snapshot build_snapshot
reported db now installation u = elim (status_cases u.status) [
  | inl active ↦ elim (Option-cases (pick_best_active_license now (candidates db u.id))) [
    | inl missing ↦ inl (ground arith)
    | inr (m, picked) ↦ inr (m, picked, ground arith)
  ]
  | inr (inl suspended) ↦ inl (rw suspended refl)
  | inr (inr deleted) ↦ inl (rw deleted refl)
]

shown_status : (m l : License) → some (license_view m) ≡ some (license_view l) → m.status ≡ l.status
shown_status m l e = ground arith

unreported :
    (db : Db) (now : ℕ) (installation : Option ℕ) (u : User) (l : License)
    → is_license_revoked l.status ≡ true
    → (snapshot_for db now installation u).license ≢ some (license_view l)
unreported db now installation u l revoked e = elim (reported db now installation u) [
  | inl nothing ↦ absurd (cc)
  | inr (m, picked, shown) ↦
      let (member, usable, best) = picked-IsBest now (candidates db u.id) m picked in
      let same_status = shown_status m l (sym shown ∙ e) in
      let no = no_candidate now m (rw same_status revoked) in absurd (cc)
]

unpicked :
    (now : ℕ) (ls : List License) (l : License)
    → is_license_revoked l.status ≡ true
    → pick_best_active_license now ls ≢ some l
unpicked now ls l revoked e =
    let (member, usable, best) = picked-IsBest now ls l e in
    let no = no_candidate now l revoked in absurd (cc)

snapshot-unreported :
    (db : Db) (now user_id : ℕ) (installation : Option ℕ) (s : EntitlementSnapshot) (l : License)
    → is_license_revoked l.status ≡ true
    → get_snapshot db now user_id installation ≡ ok s
    → s.license ≢ some (license_view l)
unfolding get_snapshot
snapshot-unreported db now user_id installation s l revoked asked e =
    elim (Option-cases (user_of db user_id)) [
      | inl missing ↦ absurd (ground arith)
      | inr (u, found) ↦
          let same : snapshot_for db now installation u ≡ s = ground arith in
          unreported db now installation u l revoked
            (ap (λ (z : EntitlementSnapshot). z.license) same ∙ e)
    ]

-- On the tables that the revocation of a license leaves, at any later time, no snapshot that a user is
-- answered picks the license or reports it as the user's, and its key, as long as it finds the row,
-- neither activates a device nor opens the replacement of one: both are refused as revoked.
pub revoke-closes :
    (hash : List ℕ → ℕ) (db : Db) (now id admin : ℕ) (reason : Option String) (db' met seen : Db)
    (later challenge_id token user_id : ℕ) (installation : Option ℕ) (s : EntitlementSnapshot)
    (user : MobileJwtPayload) (key : List ℕ)
    → revoke db now id admin reason ≡ ok db'
    → license_of_key hash db' key ≡ license_of db' id
    → get_snapshot db' later user_id installation ≡ ok s
    → (l : License) × (license_of db' id ≡ some l)
      × (pick_best_active_license later (candidates db' user_id) ≢ some l)
      × (s.license ≢ some (license_view l))
      × (activate_tx hash db' met seen later user key ≡ err license_revoked)
      × (create_challenge hash db' later challenge_id token user key ≡ err license_revoked)
revoke-closes hash db now id admin reason db' met seen later challenge_id token user_id installation
      s user key h of_key asked =
    let (l, found, revoked) = revoke-RevokedRow db now id admin reason db' h in
    (
      l,
      found,
      unpicked later (candidates db' user_id) l revoked,
      snapshot-unreported db' later user_id installation s l revoked asked,
      activation_refused hash db' met seen later user key l (of_key ∙ found) revoked,
      challenge_refused hash db' later challenge_id token user key l (of_key ∙ found) revoked,
    )
