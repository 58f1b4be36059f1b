-- ===== src/Licenses/Recovery/Authority.antt =====
-- Who may activate a license without its key.
use ruznamo_backend.Common.{
  ℕ, ◌≡◌, ◌<◌, refl, false, Option, none, some, ok, arith, ◌==◌, ◌&&◌, leb, not, is_some, is_id,
  find, >>=-eq-ok, or_throw, or_throw-eq-ok, throw_if, throw_if-eq-ok, ok-injective,
  recovery_grant_invalid, recovery_grant_device_mismatch, recovery_grant_used,
  recovery_grant_expired, license_not_found, device_revoked,
}
use ruznamo_backend.Db.{Db, License, RecoveryGrant}
use ruznamo_backend.Licenses.Slots.{assert_license_activatable}
use ruznamo_backend.Licenses.Activate.{MobileJwtPayload, Activated, session_device}
use ruznamo_backend.Licenses.Replacement.{license_of}
use ruznamo_backend.Licenses.Recovery.{
  assert_valid_grant, assert_license_held_by_grant, activate_via_telegram_tx, claim_via_telegram,
}
use mathlib.Core.Path.{ap, subst}

-- A grant that is good for the session at `now`.
abbrev pub IsGood : Db → ℕ → ℕ → MobileJwtPayload → RecoveryGrant → Type 0
IsGood db now grant_id user g =
    (find (λ h. h.id == grant_id) db.grants ≡ some g)
    × (g.mobile_user_id ≡ user.sub)
    × (g.device_id ≡ user.device_id)
    × (g.consumed_at ≡ none)
    × (now < g.expires_at)

pair_if : (a b c d : ℕ) → not (a == b && c == d) ≡ false → (a ≡ b) × (c ≡ d)
pair_if a b c d h = (ground arith, ground arith)

none_if : (o : Option ℕ) → is_some o ≡ false → o ≡ none
none_if none h = refl
none_if (some t) h = absurd (cc)

lt_if : (a b : ℕ) → leb a b ≡ false → b < a
lt_if a b h = ground arith

held_if : (o : Option ℕ) (k : ℕ) → not (is_id o k) ≡ false → o ≡ some k
held_if none k h = absurd (cc)
held_if (some j) k h = ap some (ground arith)

grant-IsGood :
    (db : Db) (now grant_id : ℕ) (user : MobileJwtPayload) (g : RecoveryGrant)
    → assert_valid_grant db now grant_id user ≡ ok g
    → IsGood db now grant_id user g
unfolding assert_valid_grant
grant-IsGood db now grant_id user g h =
    let (g₁, e₁, h₁) =
      >>=-eq-ok (or_throw (find (λ x. x.id == grant_id) db.grants) recovery_grant_invalid) _ h in
    let (u₂, e₂, h₂) =
      >>=-eq-ok
        (throw_if (not (g₁.mobile_user_id == user.sub && g₁.device_id == user.device_id))
          recovery_grant_device_mismatch)
        _ h₁ in
    let (u₃, e₃, h₃) = >>=-eq-ok (throw_if (is_some g₁.consumed_at) recovery_grant_used) _ h₂ in
    let (u₄, e₄, h₄) = >>=-eq-ok (throw_if (leb g₁.expires_at now) recovery_grant_expired) _ h₃ in
    let (same_user, same_device) =
      pair_if g₁.mobile_user_id user.sub g₁.device_id user.device_id (throw_if-eq-ok _ _ e₂) in
    subst (IsGood db now grant_id user) (ok-injective h₄) (
      or_throw-eq-ok _ _ e₁,
      same_user,
      same_device,
      none_if g₁.consumed_at (throw_if-eq-ok _ _ e₃),
      lt_if g₁.expires_at now (throw_if-eq-ok _ _ e₄),
    )

held-holder :
    (db : Db) (g : RecoveryGrant) (license_id : ℕ) (l : License) {u : Unit {0}}
    → license_of db license_id ≡ some l
    → assert_license_held_by_grant db g license_id ≡ ok u
    → l.holder ≡ some g.telegram_account_id
unfolding assert_license_held_by_grant
held-holder db g license_id l found h =
    let (l₁, e₁, h₁) = >>=-eq-ok (or_throw (license_of db license_id) license_not_found) _ h in
    let stored = or_throw-eq-ok (license_of db license_id) license_not_found e₁ in
    let same : l₁ ≡ l = cc (stored, found) in
    subst (λ (m : License). m.holder ≡ some g.telegram_account_id) same
      (held_if l₁.holder g.telegram_account_id (throw_if-eq-ok _ _ h₁))

-- An activation without the key goes through only on a stored grant of this user and device that is
-- neither consumed nor expired, for a license whose holder is the grant's Telegram account and which is
-- neither revoked nor expired.
pub telegram-authorised :
    (db : Db) (now grant_id license_id : ℕ) (user : MobileJwtPayload) (r : Activated) (db' : Db)
    → activate_via_telegram_tx db now grant_id license_id user ≡ ok (r, db')
    → (g : RecoveryGrant) × IsGood db now grant_id user g
      × (license_of db license_id ≡ some r.license)
      × (r.license.holder ≡ some g.telegram_account_id)
      × (assert_license_activatable now r.license ≡ ok tt)
unfolding activate_via_telegram_tx
telegram-authorised db now grant_id license_id user r db' h =
    let (g, e₁, h₁) = >>=-eq-ok (assert_valid_grant db now grant_id user) _ h in
    let (u₂, e₂, h₂) = >>=-eq-ok (assert_license_held_by_grant db g license_id) _ h₁ in
    let (l, e₃, h₃) = >>=-eq-ok (or_throw (license_of db license_id) license_not_found) _ h₂ in
    let (u₄, e₄, h₄) = >>=-eq-ok (assert_license_activatable now l) _ h₃ in
    let (d, e₅, h₅) = >>=-eq-ok (or_throw (session_device db user) device_revoked) _ h₄ in
    let (c, e₆, h₆) = >>=-eq-ok (claim_via_telegram db now l d.id) _ h₅ in
    let found = or_throw-eq-ok _ _ e₃ in
    let same : l ≡ r.license = ap (λ p. p.0.license) (ok-injective h₆) in
    (
      g,
      grant-IsGood db now grant_id user g e₁,
      subst (λ m. license_of db license_id ≡ some m) same found,
      subst (λ m. m.holder ≡ some g.telegram_account_id) same
          (held-holder db g license_id l found e₂),
      subst (λ m. assert_license_activatable now m ≡ ok tt) same e₄,
    )
