-- ===== src/Tests/Recovering.antt =====
-- A license that is activated, and a device that is replaced, on a recovery grant.
use ruznamo_backend.Common.{true, ◌≡◌, ◌≤◌, refl, false, none, some, ok, arith, count}
use ruznamo_backend.Db.{Db, RecoveryGrant}
use ruznamo_backend.Licenses.Slots.{active_count, assert_license_activatable}
use ruznamo_backend.Licenses.Activate.{MobileJwtPayload, Activated}
use ruznamo_backend.Licenses.Replacement.{license_of, slot_limit, assert_replacement_cooldown}
use ruznamo_backend.Licenses.Replacement.Slots.{PairsUnique}
use ruznamo_backend.Licenses.Recovery.{activate_via_telegram_tx, replace_device_via_grant}
use ruznamo_backend.Licenses.Recovery.Authority.{IsGood, telegram-authorised}
use ruznamo_backend.Licenses.Recovery.Limit.{telegram-le-limit, grant-no_cooldown}
use ruznamo_backend.Tests.Shop.{shop, runs, value, fresh_license}

abbrev third_phone : MobileJwtPayload
third_phone = record { sub = 1; device_id = 13; installation_id = 23 }

abbrev recovered : Activated × Db
recovered =
    value
      (
        record {
          license = fresh_license;
          device = record {
            id = 0;
            user_id = 0;
            installation_id = 0;
            last_seen_at = 0;
            revoked_at = none;
          };
          idempotent = true;
        },
        shop,
      )
      (activate_via_telegram_tx shop 1000 91 31 third_phone)

recovering : activate_via_telegram_tx shop 1000 91 31 third_phone ≡ ok (recovered.0, recovered.1)
unfolding runs
recovering = refl

new : recovered.0.idempotent ≡ false
unfolding runs
new = refl

pairs : PairsUnique shop.activations
unfolding count
pairs l d = ground arith

telegram-authorised_example :
    (g : RecoveryGrant) × IsGood shop 1000 91 third_phone g
    × (license_of shop 31 ≡ some recovered.0.license)
    × (recovered.0.license.holder ≡ some g.telegram_account_id)
    × (assert_license_activatable 1000 recovered.0.license ≡ ok tt)
telegram-authorised_example =
    telegram-authorised shop 1000 91 31 third_phone recovered.0 recovered.1 recovering

telegram-le-limit_example :
    active_count recovered.1 recovered.0.license.id ≤ slot_limit recovered.0.license
telegram-le-limit_example =
    telegram-le-limit shop 1000 91 31 third_phone recovered.0 recovered.1 pairs recovering new

-- Device 13 takes the slot of device 11 on the full license.
abbrev replaced_once : Db
replaced_once = value shop (replace_device_via_grant shop 1000 91 32 11 third_phone)

replacing : replace_device_via_grant shop 1000 91 32 11 third_phone ≡ ok replaced_once
unfolding runs
replacing = refl

grant-no_cooldown_example :
    (assert_replacement_cooldown replaced_once 2000 32 ≡ ok tt)
    × (replaced_once.grants ≡ shop.grants)
grant-no_cooldown_example =
    grant-no_cooldown shop 1000 91 32 11 third_phone replaced_once 2000 replacing (omega arith)
