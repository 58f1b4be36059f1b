-- ===== src/Telegram/SignIn/Run.antt =====
-- What verifyOtp of auth/telegram-auth.service.ts has checked when it looks at the code, and what a link
-- after it leaves alone.
use ruznamo_backend.Common.{
  ℕ, ◌≡◌, ◌<◌, refl, Bool, true, false, not, Option, some, none, ok, ◌==◌, ◌&&◌, leb, is_some,
  or_throw, or_throw-eq-ok, throw_if, throw_if-eq-ok, >>=-eq-ok, ok-injective, arith, Result-cases,
  inl, inr, auth_challenge_invalid, auth_challenge_device_mismatch, auth_challenge_used,
  auth_challenge_expired, auth_telegram_pending, auth_otp_locked, auth_otp_expired,
}
use ruznamo_backend.Db.{License, Db, settle, log}
use ruznamo_backend.Licenses.Activate.{MobileJwtPayload}
use ruznamo_backend.Telegram.Links.{link_verified, settle_verified, write_holder}
use ruznamo_backend.Telegram.Links.Run.{Verified-run}
use ruznamo_backend.Telegram.SignIn.{Answerable, challenge_of, check_answerable}
use mathlib.Core.Path.{subst}

-- The challenge is stored, belongs to the session, is neither consumed nor expired, has attempts left,
-- and is bound to the account with a code that is not expired.
pub record Open (db : Db) (now challenge_id : ℕ) (user : MobileJwtPayload) (v : Answerable)
    : Type 0 where
  pub found : challenge_of db challenge_id ≡ some v.challenge
  pub same_user : v.challenge.requesting_mobile_user_id ≡ user.sub
  pub same_device : v.challenge.requesting_device_id ≡ user.device_id
  pub unconsumed : v.challenge.consumed_at ≡ none
  pub unexpired : now < v.challenge.expires_at
  pub bound : v.challenge.telegram_account_id ≡ some v.account
  pub code : v.challenge.otp_hash ≡ some v.code_hash
  pub attempts : v.challenge.attempt_count < v.challenge.max_attempts
  pub code_unexpired : (t : ℕ) × (v.challenge.otp_expires_at ≡ some t) × (now < t)

both : (a b c d : ℕ) → not (a == b && c == d) ≡ false → (a ≡ b) × (c ≡ d)
both a b c d h = (ground arith, ground arith)

unset : (o : Option ℕ) → is_some o ≡ false → o ≡ none
unset o h = ground arith

below : (a b : ℕ) → leb a b ≡ false → b < a
below a b h = ground arith

pub answerable-Open :
    (db : Db) (now challenge_id : ℕ) (user : MobileJwtPayload) (v : Answerable)
    → check_answerable db now challenge_id user ≡ ok v
    → Open db now challenge_id user v
unfolding check_answerable
answerable-Open db now challenge_id user v h =
    let (c, e₁, h₁) =
      >>=-eq-ok (or_throw (challenge_of db challenge_id) auth_challenge_invalid) _ h in
    let (u₂, e₂, h₂) =
      >>=-eq-ok
        (throw_if
          (not
            (c.requesting_mobile_user_id == user.sub && c.requesting_device_id == user.device_id))
          auth_challenge_device_mismatch)
        _ h₁ in
    let (u₃, e₃, h₃) = >>=-eq-ok (throw_if (is_some c.consumed_at) auth_challenge_used) _ h₂ in
    let (u₄, e₄, h₄) = >>=-eq-ok (throw_if (leb c.expires_at now) auth_challenge_expired) _ h₃ in
    let (account, e₅, h₅) = >>=-eq-ok (or_throw c.telegram_account_id auth_telegram_pending) _ h₄ in
    let (code, e₆, h₆) = >>=-eq-ok (or_throw c.otp_hash auth_telegram_pending) _ h₅ in
    let (until, e₇, h₇) = >>=-eq-ok (or_throw c.otp_expires_at auth_telegram_pending) _ h₆ in
    let (u₈, e₈, h₈) =
      >>=-eq-ok (throw_if (leb c.max_attempts c.attempt_count) auth_otp_locked) _ h₇ in
    let (u₉, e₉, h₉) = >>=-eq-ok (throw_if (leb until now) auth_otp_expired) _ h₈ in
    let (same_user, same_device) =
      both c.requesting_mobile_user_id user.sub c.requesting_device_id user.device_id
        (throw_if-eq-ok _ _ e₂) in
    subst (Open db now challenge_id user) (ok-injective h₉) (record {
      found = or_throw-eq-ok _ _ e₁;
      same_user = same_user;
      same_device = same_device;
      unconsumed = unset c.consumed_at (throw_if-eq-ok _ _ e₃);
      unexpired = below c.expires_at now (throw_if-eq-ok _ _ e₄);
      bound = or_throw-eq-ok _ _ e₅;
      code = or_throw-eq-ok _ _ e₆;
      attempts = below c.max_attempts c.attempt_count (throw_if-eq-ok _ _ e₈);
      code_unexpired = (until, or_throw-eq-ok _ _ e₇, below until now (throw_if-eq-ok _ _ e₉));
    })

-- The challenges and grants are those of the tables before.
abbrev pub SameSignIn : Db → Db → Type 0
SameSignIn db db' = (db'.auth_challenges ≡ db.auth_challenges) × (db'.grants ≡ db.grants)

settled_verified-same :
    (db : Db) (now : ℕ) (l : License) (account user : ℕ) (already : Bool)
    → SameSignIn db (settle_verified db now l account user already)
unfolding settle_verified write_holder log
settled_verified-same db now l account user true = (refl, refl)
settled_verified-same db now l account user false = (refl, refl)

pub link-SameSignIn :
    (db : Db) (now license_id account device_id user : ℕ)
    → SameSignIn db (settle db (link_verified db db now license_id account device_id user)).1
link-SameSignIn db now license_id account device_id user =
    elim (Result-cases (link_verified db db now license_id account device_id user)) [
      | inl (e, failed) ↦ rw (failed, settle) (refl, refl)
      | inr (p, went) ↦
          let run = Verified-run db now license_id account device_id user p.0 p.1 went in
          rw (went, settle)
            (subst (SameSignIn db) run.written
              (settled_verified-same db now run.license account user p.0.already_linked))
    ]
