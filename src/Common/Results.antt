-- ===== src/Common/Results.antt =====
-- What a service method answers: a value, or the exception that it throws. A throw inside a
-- transaction rolls it back, so an error carries no new state.
use mathlib.Core.Path.{◌≡◌, refl}
use mathlib.Core.Bool.{Bool, true, false}
use mathlib.Core.Logic.{◌⊎◌, inl, inr}
use mathlib.Core.Option.{Option, none, some}

-- The `code` of each exception; those that the source throws with a bare message are named for it.
pub data Error : Type 0 where
  license_invalid license_revoked license_expired : Error
  device_revoked device_limit_reached device_replacement_required : Error
  license_recovery_required license_activation_limit plan_misconfigured : Error
  license_not_found not_license_holder : Error
  already_activated_on_device replacement_not_required no_active_device : Error
  replacement_cooldown challenge_invalid challenge_used challenge_expired : Error
  new_device_already_activated : Error
  user_not_found user_suspended user_deleted : Error
  plan_not_found plan_not_available : Error
  order_not_found no_eligible_order completed_without_license : Error
  not_eligible_for_approval receipt_required completed_cannot_be_rejected : Error
  record_not_found unique_violation : Error
  maintenance_mode invalid_refresh_token refresh_token_expired : Error
  installation_in_use device_not_found : Error
  recovery_grant_invalid recovery_grant_device_mismatch : Error
  recovery_grant_used recovery_grant_expired : Error
  license_not_active_on_device device_activation_missing : Error
  telegram_identity_mismatch license_holder_conflict telegram_purchase_owner_required : Error
  device_not_active_on_license : Error
  link_challenge_invalid link_challenge_used link_challenge_expired : Error
  license_id_required license_not_linkable : Error
  auth_challenge_invalid auth_challenge_used auth_challenge_expired auth_challenge_bound : Error
  auth_challenge_device_mismatch auth_telegram_pending : Error
  auth_otp_locked auth_otp_expired auth_otp_invalid : Error
  telegram_account_not_found device_activation_not_found : Error
  signing_policy_not_configured manifest_signing_not_configured : Error
  object_storage_not_configured blob_delete_failed : Error
  release_not_found release_not_draft release_not_downloadable : Error
  apk_artifact_deleted apk_package_mismatch apk_signing_mismatch apk_file_missing : Error
  apk_size_mismatch changelog_required : Error
  version_code_not_increasing version_code_exists published_invariant_violation : Error
  cannot_archive_published cannot_purge_published purge_archived_only : Error
  invalid_credentials invalid_or_expired_refresh_token : Error
  admin_account_inactive admin_account_not_found : Error
  display_name_empty new_password_too_short current_password_incorrect : Error
  privacy_not_found privacy_not_draft privacy_locale_required privacy_published_invariant : Error
  foreign_key_violation : Error

pub data Result {ℓ} (A : Type ℓ) : Type ℓ where
  err : Error → Result A
  ok : A → Result A

-- `if (test) throw e`
abbrev pub throw_if : Bool → Error → Result (Unit {0})
throw_if true e = err e
throw_if false e = ok tt

infixl 5 ◌>>=◌ ◌>>◌
-- An `await` whose value the rest of the method uses: an exception skips the rest.
abbrev pub ◌>>=◌ {ℓ κ} :
    {Row : Type ℓ} {Answer : Type κ} → Result Row → (Row → Result Answer) → Result Answer
err thrown >>= rest = err thrown
ok row >>= rest = rest row

abbrev pub ◌>>◌ {ℓ κ} :
    {Row : Type ℓ} {Answer : Type κ} → Result Row → Result Answer → Result Answer
step >> rest = step >>= λ _. rest

pub throw_if-eq-ok : (b : Bool) (e : Error) {u : Unit {0}} → throw_if b e ≡ ok u → b ≡ false
throw_if-eq-ok true e h = cc
throw_if-eq-ok false e h = refl

-- A method that answered passed each of its steps.
pub >>=-eq-ok {ℓ κ} :
    {Row : Type ℓ} {Answer : Type κ} (step : Result Row) (rest : Row → Result Answer)
    {answer : Answer}
    → (step >>= rest) ≡ ok answer
    → (row : Row) × (step ≡ ok row) × (rest row ≡ ok answer)
>>=-eq-ok (err thrown) rest h = cc
>>=-eq-ok (ok row) rest h = (row, refl, h)

-- The rest ran, since the test before it did not throw.
pub >>-eq-ok {ℓ} :
    {A : Type ℓ} (b : Bool) (e : Error) (rest : Result A) {answer : A}
    → (throw_if b e >> rest) ≡ ok answer
    → (b ≡ false) × (rest ≡ ok answer)
>>-eq-ok true e rest h = cc
>>-eq-ok false e rest h = (refl, h)

-- `if (!row) throw e`
abbrev pub or_throw {ℓ} : {A : Type ℓ} → Option A → Error → Result A
or_throw none e = err e
or_throw (some a) e = ok a

pub or_throw-eq-ok {ℓ} :
    {A : Type ℓ} (o : Option A) (e : Error) {a : A} → or_throw o e ≡ ok a → o ≡ some a
or_throw-eq-ok none e h = cc
or_throw-eq-ok (some b) e h = cc

pub Result-cases {ℓ} :
    {A : Type ℓ} (r : Result A) → ((e : Error) × (r ≡ err e)) ⊎ ((a : A) × (r ≡ ok a))
Result-cases (ok a) = inr (a, refl)
Result-cases (err e) = inl (e, refl)

pub ok-injective {ℓ} : {A : Type ℓ} {a b : A} → ok a ≡ ok b → a ≡ b
ok-injective h = cc
