-- ===== src/Tests/Registering.antt =====
-- An installation that registers twice, and a device that its user revokes.
use ruznamo_backend.Common.{
  ℕ, ◌≡◌, refl, false, none, some, ok, err, List, [], ◌∷◌, length, codes, count,
  invalid_refresh_token,
}
use ruznamo_backend.Db.{Db, Device, User, UserStatus, UserCategory, RefreshToken}
use ruznamo_backend.Sessions.{absent, refresh, token_of_hash}
use ruznamo_backend.Devices.Category.{RegisterDeviceDto}
use ruznamo_backend.Devices.Registration.{Drawn, Registered, register_device, in_maintenance}
use ruznamo_backend.Devices.Registration.Trial.{register-again}
use ruznamo_backend.Devices.Revocation.{revoke_device}
use ruznamo_backend.Devices.Revocation.Clear.{on_device, revoke-clears}
use ruznamo_backend.Tests.Shop.{shop, runs, value, session}
use ruznamo_backend.Entitlements.Snapshot.{user_of, trial_of}

abbrev sent : RegisterDeviceDto
sent = record {
  installation_id = 29;
  category = some (codes "STUDENT");
  role_id = none;
  display_name = some (codes " Ann ");
}

abbrev first_draw : Drawn
first_draw = record { user_id = 2; device_id = 19; token_id = 101; raw = 501 }

abbrev second_draw : Drawn
second_draw = record { user_id = 3; device_id = 18; token_id = 102; raw = 502 }

abbrev lifetime : List ℕ
lifetime = codes "30d"

abbrev nobody : User
nobody = record {
  id = 0;
  category = UserCategory.personal;
  status = UserStatus.deleted;
  display_name = none;
}

abbrev no_device : Device
no_device = record { id = 0; user_id = 0; installation_id = 0; last_seen_at = 0; revoked_at = none }

abbrev registered : Registered × Db
registered =
    value (record { token = 0; user = nobody; device = no_device; trial = none }, shop)
      (register_device (λ n. n) shop 1000 lifetime sent first_draw)

registering :
    register_device (λ n. n) shop 1000 lifetime sent first_draw ≡ ok (registered.0, registered.1)
unfolding runs
registering = refl

open_shop : in_maintenance registered.1 ≡ false
unfolding runs
open_shop = refl

fresh_user : user_of shop 2 ≡ none
unfolding runs
fresh_user = refl

fresh_trial : trial_of shop 2 ≡ none
unfolding runs
fresh_trial = refl

register-again_example :
    (r : Registered) × (db : Db) × (register_device
        (λ n. n)
        registered.1
        2000
        lifetime
        sent
        second_draw
      ≡ ok (r, db))
    × (r.user.id ≡ registered.0.user.id)
    × (r.device.id ≡ registered.0.device.id)
    × (r.trial ≡ registered.0.trial)
    × (db.trials ≡ registered.1.trials)
    × (length db.users ≡ length registered.1.users)
register-again_example =
    register-again (λ n. n) shop 1000 lifetime sent first_draw registered.0 registered.1 2000
      lifetime sent second_draw fresh_user fresh_trial registering refl open_shop

abbrev token_row : RefreshToken
token_row = record {
  id = 105;
  user_id = 1;
  device_id = some 11;
  token_hash = 505;
  expires_at = 90000;
  revoked_at = none;
  replaced_by = none;
}

abbrev signed_in : Db
signed_in = record shop { tokens = token_row ∷ [] }

abbrev revoked : Device × Db
revoked = value (no_device, signed_in) (revoke_device signed_in 1000 session 11)

revoking : revoke_device signed_in 1000 session 11 ≡ ok (revoked.0, revoked.1)
unfolding runs
revoking = refl

unblocked : revoked.0.revoked_at ≡ none
unfolding runs
unblocked = refl

stored : token_of_hash revoked.1 505 ≡ some (record token_row { revoked_at = some 1000 })
unfolding runs
stored = refl

revoke-clears_example :
    (count (on_device revoked.1 32 11) revoked.1.activations ≡ 0)
    × (refresh (λ n. n) revoked.1 revoked.1 1500 106 506 lifetime 505 absent
        ≡ err invalid_refresh_token)
revoke-clears_example =
    revoke-clears (λ n. n) signed_in 1000 session 11 revoked.0 revoked.1 revoked.1 32 1500 106 506
      lifetime 505 absent (record token_row { revoked_at = some 1000 }) revoking unblocked stored
      refl
