-- ===== src/Telegram/SignIn.antt =====
-- auth/telegram-auth.service.ts: a challenge that a device opens, a Telegram account binds and a one-time
-- code answers, and the grant that comes of it. Ids, the opaque token and the code are given; the hashes
-- of node's crypto are the parameters `hash` and `hash_otp`. A session names its device.
pub mod Run
pub mod Authority
pub mod Lock
pub mod Once
use ruznamo_backend.Common.{
  ℕ, ◌+◌, Bool, false, not, Option, none, some, List, [], ◌∷◌, ◌&&◌, ◌||◌, ◌==◌, leb, is_none,
  is_some, is_space, if◌then◌else◌, find, select, insert, update_where, Result, ok, err, ◌>>=◌,
  ◌>>◌, or_throw, throw_if, device_revoked, license_id_required, license_not_active_on_device,
  license_not_linkable, auth_challenge_invalid, auth_challenge_used, auth_challenge_expired,
  auth_challenge_bound, auth_challenge_device_mismatch, auth_telegram_pending, auth_otp_locked,
  auth_otp_expired, auth_otp_invalid,
}
use ruznamo_backend.Db.{
  Db, Activation, AuthChallenge, AuthPurpose, RecoveryGrant, ActorType, Action, settle, and_then,
  is_license_active, is_license_pending, is_license_revoked, is_link_account, log,
}
use ruznamo_backend.Licenses.Key.{drop_spaces}
use ruznamo_backend.Licenses.Slots.{is_past}
use ruznamo_backend.Licenses.Activate.{MobileJwtPayload, session_device}
use ruznamo_backend.Licenses.Replacement.{license_of}
use ruznamo_backend.Telegram.Links.{
  Linked, device_of_user, session_activation, check_sender, link_verified,
}

-- CHALLENGE_TTL_MS, OTP_TTL_MS, GRANT_TTL_MS and MAX_OTP_ATTEMPTS
abbrev pub auth_challenge_ttl : ℕ
auth_challenge_ttl = 900000

abbrev pub otp_ttl : ℕ
otp_ttl = 300000

abbrev pub grant_ttl : ℕ
grant_ttl = 600000

abbrev pub max_otp_attempts : ℕ
max_otp_attempts = 5

abbrev mentions : ℕ → List ℕ → Bool
mentions k [] = false
mentions k (j ∷ js) = j == k || mentions k js

-- `distinct: ['licenseId']`
abbrev distinct_licenses : List Activation → List ℕ
distinct_licenses [] = []
distinct_licenses (a ∷ rows) =
    let rest = distinct_licenses rows in
    if mentions a.license_id rest then rest else a.license_id ∷ rest

-- The license of an activation is active or pending, and not revoked.
unfoldable pub is_usable_license : Db → ℕ → Bool
is_usable_license db license_id = elim (license_of db license_id) [
  | none ↦ false
  | some l ↦ (is_license_active l.status || is_license_pending l.status) && is_none l.revoked_at
]

unfoldable pub licenses_on_device : Db → MobileJwtPayload → List ℕ
unfolding select
licenses_on_device db user = distinct_licenses (
    select
      (λ a.
        a.device_id == user.device_id
        && is_none a.revoked_at
        && device_of_user db.devices a.device_id user.sub
        && is_usable_license db a.license_id)
      db.activations)

abbrev the_only : List ℕ → Option ℕ
the_only [] = none
the_only (k ∷ []) = some k
the_only (k ∷ j ∷ ks) = none

-- The license of a challenge that links an account.
unfoldable pub resolve_license : Db → MobileJwtPayload → Option ℕ → Result ℕ
resolve_license db user (some license_id) = ok license_id
resolve_license db user none = or_throw (the_only (licenses_on_device db user)) license_id_required

unfoldable pub check_link_account : Db → ℕ → MobileJwtPayload → Option ℕ → Result (Option ℕ)
check_link_account db now user given = do
  license_id ← resolve_license db user given
  a ← or_throw (session_activation db user license_id) license_not_active_on_device
  l ← or_throw (license_of db license_id) license_not_active_on_device
  throw_if (is_license_revoked l.status || is_some l.revoked_at || is_past now l.expires_at)
      license_not_linkable
  ok (some license_id)

abbrev pub auth_challenge : ℕ → ℕ → ℕ → MobileJwtPayload → AuthPurpose → Option ℕ → AuthChallenge
auth_challenge now id token_hash user purpose license_id = record {
  id = id;
  token_hash = token_hash;
  requesting_device_id = user.device_id;
  requesting_mobile_user_id = user.sub;
  purpose = purpose;
  context_license_id = license_id;
  telegram_account_id = none;
  otp_hash = none;
  otp_expires_at = none;
  attempt_count = 0;
  max_attempts = max_otp_attempts;
  verified_at = none;
  consumed_at = none;
  expires_at = now + auth_challenge_ttl;
}

-- createChallenge
unfoldable pub create_auth_challenge :
    Db → ℕ → ℕ → ℕ → MobileJwtPayload → AuthPurpose → Option ℕ → Result (AuthChallenge × Db)
create_auth_challenge db now id token_hash user purpose given = do
  d ← or_throw (session_device db user) device_revoked
  context ← if is_link_account purpose then check_link_account db now user given else ok none
  let row = auth_challenge now id token_hash user purpose context
  ok (
    row,
    log ActorType.user user.sub "auth.telegram.challenge_created" id
        (record db { auth_challenges = insert row db.auth_challenges }),
  )

unfoldable pub challenge_of : Db → ℕ → Option AuthChallenge
unfolding find
challenge_of db id = find (λ c. c.id == id) db.auth_challenges

-- telegramAuthChallenge.update
unfoldable pub update_challenge : ℕ → (AuthChallenge → AuthChallenge) → Db → Db
unfolding update_where
update_challenge id f db = record db {
  auth_challenges = update_where (λ c. c.id == id) f db.auth_challenges;
}

abbrev pub bind_account : ℕ → ℕ → ℕ → AuthChallenge → AuthChallenge
bind_account now account otp_hash c = record c {
  telegram_account_id = some account;
  otp_hash = some otp_hash;
  otp_expires_at = some (now + otp_ttl);
  attempt_count = 0;
}

abbrev pub is_other_account : Option ℕ → ℕ → Bool
is_other_account none account = false
is_other_account (some bound) account = not (bound == account)

-- The checks of bindTelegramAndIssueOtp.
unfoldable pub check_bindable : Db → ℕ → ℕ → ℕ → ℕ → Result AuthChallenge
unfolding find
check_bindable db now token_hash account sender = do
  c ← or_throw (find (λ c. c.token_hash == token_hash) db.auth_challenges) auth_challenge_invalid
  throw_if (is_some c.consumed_at) auth_challenge_used
  throw_if (leb c.expires_at now) auth_challenge_expired
  a ← check_sender db account sender
  throw_if (is_other_account c.telegram_account_id account) auth_challenge_bound
  ok c

-- bindTelegramAndIssueOtp, up to the delivery of the code.
unfoldable pub bind_telegram : Db → ℕ → ℕ → ℕ → ℕ → ℕ → Result (Unit {0} × Db)
bind_telegram db now token_hash account sender otp_hash = do
  c ← check_bindable db now token_hash account sender
  ok (
    tt,
    log ActorType.telegram_bot account "auth.telegram.otp_issued" c.id
        (update_challenge c.id (bind_account now account otp_hash) db),
  )

-- A challenge that a code may answer.
pub record Answerable : Type 0 where
  pub challenge : AuthChallenge
  pub account : ℕ
  pub code_hash : ℕ

-- The checks of verifyOtp.
unfoldable pub check_answerable : Db → ℕ → ℕ → MobileJwtPayload → Result Answerable
check_answerable db now challenge_id user = do
  c ← or_throw (challenge_of db challenge_id) auth_challenge_invalid
  throw_if
      (not (c.requesting_mobile_user_id == user.sub && c.requesting_device_id == user.device_id))
      auth_challenge_device_mismatch
  throw_if (is_some c.consumed_at) auth_challenge_used
  throw_if (leb c.expires_at now) auth_challenge_expired
  account ← or_throw c.telegram_account_id auth_telegram_pending
  code_hash ← or_throw c.otp_hash auth_telegram_pending
  code_expires_at ← or_throw c.otp_expires_at auth_telegram_pending
  throw_if (leb c.max_attempts c.attempt_count) auth_otp_locked
  throw_if (leb code_expires_at now) auth_otp_expired
  ok (record { challenge = c; account = account; code_hash = code_hash })

-- The answer of verifyOtp, without the holder's names.
pub record VerifyAnswer : Type 0 where
  pub recovery_grant_id : ℕ
  pub expires_at : ℕ
  pub purpose : AuthPurpose
  pub link : Option Linked

abbrev pub count_attempt : ℕ → AuthChallenge → AuthChallenge
count_attempt n c = record c { attempt_count = n }

abbrev pub close_challenge : ℕ → AuthChallenge → AuthChallenge
close_challenge now c = record c { consumed_at = some now }

-- A wrong code.
unfoldable pub miss : ℕ → AuthChallenge → Action VerifyAnswer
miss now c db =
    let counted = update_challenge c.id (count_attempt (c.attempt_count + 1)) db in
    if leb c.max_attempts (c.attempt_count + 1)
    then (err auth_otp_locked, update_challenge c.id (close_challenge now) counted)
    else (err auth_otp_invalid, counted)

abbrev pub verify_challenge : ℕ → AuthChallenge → AuthChallenge
verify_challenge now c = record c {
  verified_at = some now;
  consumed_at = some now;
  otp_hash = none;
  otp_expires_at = none;
}

abbrev pub new_grant : ℕ → ℕ → Answerable → RecoveryGrant
new_grant now id v = record {
  id = id;
  challenge_id = v.challenge.id;
  telegram_account_id = v.account;
  device_id = v.challenge.requesting_device_id;
  mobile_user_id = v.challenge.requesting_mobile_user_id;
  expires_at = now + grant_ttl;
  consumed_at = none;
}

-- The transaction that spends the challenge and creates the grant, and its audit entry.
unfoldable pub write_grant : ℕ → ℕ → Answerable → ℕ → Db → Db
write_grant now id v user_id db = log ActorType.user user_id "auth.telegram.verified" id (
    let spent = update_challenge v.challenge.id (verify_challenge now) db in
    record spent { grants = insert (new_grant now id v) spent.grants })

abbrev answer : ℕ → ℕ → Answerable → Option Linked → VerifyAnswer
answer now id v link = record {
  recovery_grant_id = id;
  expires_at = now + grant_ttl;
  purpose = v.challenge.purpose;
  link = link;
}

-- `linkHolderFromVerifiedChallenge` and the answer: an exception of it comes after the grant.
abbrev link_and_answer : ℕ → ℕ → Answerable → ℕ → Action VerifyAnswer
link_and_answer now id v license_id db =
    and_then
      (settle db (
        link_verified db db now license_id v.account v.challenge.requesting_device_id
          v.challenge.requesting_mobile_user_id))
      (λ linked met. (ok (answer now id v (some linked)), met))

abbrev pub finish_for : ℕ → ℕ → Answerable → Option ℕ → Action VerifyAnswer
finish_for now id v none db = (ok (answer now id v none), db)
finish_for now id v (some license_id) db = link_and_answer now id v license_id db

-- A right code.
unfoldable pub hit : ℕ → ℕ → Answerable → ℕ → Action VerifyAnswer
hit now id v user_id db =
    finish_for now id v
      (if is_link_account v.challenge.purpose then v.challenge.context_license_id else none)
      (write_grant now id v user_id db)

-- `code.replace(/\s+/g, '').trim()`
unfoldable pub normalize_code : List ℕ → List ℕ
unfolding select is_space
normalize_code code = drop_spaces code

module _ (hash_otp : List ℕ → ℕ) where
  -- What follows the checks of verifyOtp.
  unfoldable pub answer_code : ℕ → ℕ → List ℕ → ℕ → Answerable → Action VerifyAnswer
  answer_code now id code user_id v db =
      if hash_otp (normalize_code code) == v.code_hash
      then hit now id v user_id db
      else miss now v.challenge db

  -- verifyOtp; it reads the tables `db`, and what it writes meets the tables `met`.
  unfoldable pub verify_otp : ℕ → ℕ → ℕ → List ℕ → MobileJwtPayload → Db → Action VerifyAnswer
  verify_otp now id challenge_id code user db met =
      and_then (check_answerable db now challenge_id user, met) (answer_code now id code user.sub)

-- consumeGrant
unfoldable pub consume_grant : ℕ → ℕ → Db → Db
unfolding update_where
consume_grant now id db = record db {
  grants = update_where (λ g. g.id == id) (λ g. record g { consumed_at = some now }) db.grants;
}
