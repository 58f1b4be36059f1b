-- ===== src/Telegram/Links/Run.antt =====
-- What a link that went through has checked and written.
use ruznamo_backend.Common.{
  find_sound, arith, ℕ, ◌≡◌, Bool, true, false, not, some, none, ok, ◌==◌, ◌&&◌, any, is_some,
  is_id, ap, or_throw, or_throw-eq-ok, throw_if, throw_if-eq-ok, >>=-eq-ok, ok-injective, arith,
  Bool-cases, inl, inr, device_activation_missing, license_holder_conflict,
  telegram_purchase_owner_required,
}
use ruznamo_backend.Db.{Db, License, LinkChallenge, is_telegram_payment}
use ruznamo_backend.Licenses.Slots.{is_active_slot}
use ruznamo_backend.Licenses.Replacement.{license_of}
use ruznamo_backend.Telegram.Links.{
  link_verified, load_link_challenge, check_sender, load_claimed, assert_license_linkable,
  check_holder, settle_link, settle_verified, confirm_link, Linked,
}
use mathlib.Core.Path.{subst}

-- The account is not the purchaser of a license that was paid for on Telegram.
abbrev pub is_foreign : License → ℕ → Bool
is_foreign l account =
    is_telegram_payment l.issue_source && is_some l.purchaser && not (is_id l.purchaser account)

abbrev pub Claimable : License → ℕ → Type 0
Claimable l account = (l.holder ≡ none) × (is_foreign l account ≡ false)

nobody : (l : License) → is_some l.holder ≡ false → l.holder ≡ none
nobody l h = ground arith

pub check_holder-Claimable :
    (l : License) (account : ℕ) → check_holder l account ≡ ok false → Claimable l account
unfolding check_holder
check_holder-Claimable l account h = elim (Bool-cases (is_id l.holder account)) [
  | inl held ↦ absurd (let e : true ≡ false = ok-injective (rw (held, check_holder) at h) in cc)
  | inr free ↦
      let h₀ = rw (free, check_holder) at h in
      let (u₁, e₁, h₁) = >>=-eq-ok (throw_if (is_some l.holder) license_holder_conflict) _ h₀ in
      let (u₂, e₂, h₂) =
        >>=-eq-ok (throw_if (is_foreign l account) telegram_purchase_owner_required) _ h₁ in
      (nobody l (throw_if-eq-ok _ _ e₁), throw_if-eq-ok _ _ e₂)
]

pub load_claimed-found :
    (db : Db) (license_id device_id : ℕ) (l : License)
    → load_claimed db license_id device_id ≡ ok l
    → license_of db license_id ≡ some l
unfolding load_claimed
load_claimed-found db license_id device_id l h =
    let (m, e₁, h₁) =
      >>=-eq-ok (or_throw (license_of db license_id) device_activation_missing) _ h in
    let (u, e₂, h₂) =
      >>=-eq-ok
        (throw_if
          (not (
            any (λ a. is_active_slot db.devices m.id a && a.device_id == device_id) db.activations))
          device_activation_missing)
        _ h₁ in
    subst (λ x. license_of db license_id ≡ some x) (ok-injective h₂) (or_throw-eq-ok _ _ e₁)

pub license_of-id : (db : Db) (id : ℕ) (l : License) → license_of db id ≡ some l → l.id ≡ id
unfolding license_of
license_of-id db id l h =
    ground (arith, find_sound (λ (x : License). x.id == id) db.licenses {x = l})

pub record Confirmed (db : Db) (now token account sender : ℕ) (r : Linked) (db' : Db) : Type 0 where
  pub challenge : LinkChallenge
  pub license : License
  pub valid : load_link_challenge db now token ≡ ok challenge
  pub found : license_of db challenge.license_id ≡ some license
  pub holder : check_holder license account ≡ ok r.already_linked
  pub written : settle_link db now challenge license account r.already_linked ≡ db'

pub confirm-Confirmed :
    (db : Db) (now token account sender : ℕ) (r : Linked) (db' : Db)
    → confirm_link db db now token account sender ≡ ok (r, db')
    → Confirmed db now token account sender r db'
unfolding confirm_link
confirm-Confirmed db now token account sender r db' h =
    let (c, e₁, h₁) = >>=-eq-ok (load_link_challenge db now token) _ h in
    let (a, e₂, h₂) = >>=-eq-ok (check_sender db account sender) _ h₁ in
    let (l, e₃, h₃) = >>=-eq-ok (load_claimed db c.license_id c.device_id) _ h₂ in
    let (u, e₄, h₄) = >>=-eq-ok (assert_license_linkable now l) _ h₃ in
    let (already, e₅, h₅) = >>=-eq-ok (check_holder l account) _ h₄ in
    let same = ok-injective h₅ in
    let flag : already ≡ r.already_linked = ap (λ p. p.0.already_linked) same in
    record {
      challenge = c;
      license = l;
      valid = e₁;
      found = load_claimed-found db c.license_id c.device_id l e₃;
      holder = subst (λ b. check_holder l account ≡ ok b) flag e₅;
      written = subst (λ b. settle_link db now c l account b ≡ db') flag (ap (λ p. p.1) same);
    }

pub record Verified (db : Db) (now license_id account mobile_user_id : ℕ) (r : Linked) (db' : Db)
    : Type 0 where
  pub license : License
  pub found : license_of db license_id ≡ some license
  pub holder : check_holder license account ≡ ok r.already_linked
  pub written : settle_verified db now license account mobile_user_id r.already_linked ≡ db'

pub Verified-run :
    (db : Db) (now license_id account device_id mobile_user_id : ℕ) (r : Linked) (db' : Db)
    → link_verified db db now license_id account device_id mobile_user_id ≡ ok (r, db')
    → Verified db now license_id account mobile_user_id r db'
unfolding link_verified
Verified-run db now license_id account device_id mobile_user_id r db' h =
    let (l, e₁, h₁) = >>=-eq-ok (load_claimed db license_id device_id) _ h in
    let (u, e₂, h₂) = >>=-eq-ok (assert_license_linkable now l) _ h₁ in
    let (already, e₃, h₃) = >>=-eq-ok (check_holder l account) _ h₂ in
    let same = ok-injective h₃ in
    let flag : already ≡ r.already_linked = ap (λ p. p.0.already_linked) same in
    record {
      license = l;
      found = load_claimed-found db license_id device_id l e₁;
      holder = subst (λ b. check_holder l account ≡ ok b) flag e₃;
      written =
          subst (λ b. settle_verified db now l account mobile_user_id b ≡ db') flag
            (ap (λ p. p.1) same);
    }
