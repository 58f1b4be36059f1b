-- ===== src/Tests/SigningIn.antt =====
-- A challenge that Telegram account 41 bound, answered with the right code and with wrong ones.
use ruznamo_backend.Common.{
  All, ℕ, ◌≡◌, refl, none, some, ok, err, List, [], ◌∷◌, arith, count, codes, insert,
  auth_challenge_used,
}
use ruznamo_backend.Db.{Db, AuthChallenge, AuthPurpose}
use ruznamo_backend.Licenses.Activate.{MobileJwtPayload}
use ruznamo_backend.Telegram.SignIn.{
  Answerable, VerifyAnswer, verify_otp, new_grant, normalize_code,
}
use ruznamo_backend.Telegram.SignIn.Run.{Open}
use ruznamo_backend.Telegram.SignIn.Once.{here, next, answers, OneGrant, one_grant}
use ruznamo_backend.Telegram.SignIn.Authority.{verify-authorised}
use ruznamo_backend.Telegram.SignIn.Lock.{IsWrong, Waiting, guesses, guesses-end}
use ruznamo_backend.Tests.Shop.{shop, runs, weigh}

abbrev visitor : MobileJwtPayload
visitor = record { sub = 1; device_id = 13; installation_id = 23 }

abbrev bound : AuthChallenge
bound = record {
  id = 84;
  token_hash = 5;
  requesting_device_id = 13;
  requesting_mobile_user_id = 1;
  purpose = AuthPurpose.recovery;
  context_license_id = none;
  telegram_account_id = some 41;
  otp_hash = some (weigh (codes "120345"));
  otp_expires_at = some 4000;
  attempt_count = 3;
  max_attempts = 5;
  verified_at = none;
  consumed_at = none;
  expires_at = 9000;
}

abbrev signing : Db
signing = record shop { auth_challenges = bound ∷ []; grants = [] }

abbrev outcome : VerifyAnswer × Db
outcome = (
  record {
    recovery_grant_id = 92;
    expires_at = 601000;
    purpose = AuthPurpose.recovery;
    link = none;
  },
  (verify_otp weigh 1000 92 84 (codes "120 345") visitor signing signing).1,
)

accepted :
    verify_otp weigh 1000 92 84 (codes "120 345") visitor signing signing
    ≡ (ok outcome.0, outcome.1)
unfolding runs
accepted = refl

verify-authorised_example :
    (v : Answerable) × Open signing 1000 84 visitor v
    × (weigh (normalize_code (codes "120 345")) ≡ v.code_hash)
    × (outcome.1.grants ≡ insert (new_grant 1000 92 v) signing.grants)
verify-authorised_example =
    verify-authorised weigh signing signing 1000 92 84 (codes "120 345") visitor outcome.0 outcome.1
      accepted

no_grants : OneGrant signing
unfolding count
no_grants id = omega arith

one_grant_example : OneGrant outcome.1
one_grant_example =
    one_grant weigh signing outcome.1
      (next here (answers signing 1000 92 84 (codes "120 345") visitor)) no_grants

waiting : Waiting signing 84 visitor bound (weigh (codes "120345")) 4000
unfolding runs
waiting = record {
  found = refl;
  same_user = refl;
  same_device = refl;
  unconsumed = refl;
  account = 41;
  bound = refl;
  code = refl;
  code_until = refl;
  in_time = omega arith;
  attempts = omega arith;
}

abbrev tries : List (ℕ × List ℕ)
tries = (1000, codes "000000") ∷ (2000, codes "000001") ∷ []

tries-IsWrong : All (IsWrong weigh 92 84 visitor (weigh (codes "120345")) 4000) tries
unfolding runs
tries-IsWrong = ((refl, omega arith), ((refl, omega arith), tt))

guesses-end_example :
    verify_otp weigh 3000 92 84
      (codes "120345")
      visitor
      (guesses weigh 92 84 visitor tries signing)
      signing
    ≡ (err auth_challenge_used, signing)
guesses-end_example =
    guesses-end weigh signing 92 84 visitor bound (weigh (codes "120345")) 4000 tries signing 3000
      (codes "120345") waiting tries-IsWrong (omega arith)
