-- ===== src/Tests/Replacing.antt =====
-- Replacing a device of a full license.
use ruznamo_backend.Common.{
  ◌≡◌, ◌≤◌, ◌<◌, refl, true, none, some, ok, err, arith, count, is_none, ◌&&◌, is_id, false, [],
  ◌∷◌, replacement_cooldown,
}
use ruznamo_backend.Db.{Db, License, ActorType, LicenseStatus}
use ruznamo_backend.Licenses.Slots.{active_count, device_live, is_pair}
use ruznamo_backend.Licenses.Replacement.{
  license_of, slot_limit, load_valid_challenge, assert_replacement_cooldown, is_active_pair,
  execute_replacement, confirm_replacement,
}
use ruznamo_backend.Licenses.Replacement.Slots.{
  PairsUnique, HoldsSlot, replacement-le-limit, replacement_overflows,
}
use ruznamo_backend.Licenses.Replacement.Rules.{cooldown_after_approval, replacement-reactivates}
use ruznamo_backend.Tests.Shop.{shop, full_license, challenge, value, runs}

-- Device 13 for device 11, which holds a slot, and for device 99, which does not.
abbrev swapped : Db
swapped =
    value shop
      (execute_replacement shop shop 1000 32 13 11 41 ActorType.telegram_bot 41 "holder" none)

abbrev granted : Db
granted =
    value shop
      (execute_replacement shop shop 1000 32 13 99 41 ActorType.telegram_bot 41 "holder" none)

abbrev confirmed : Db
confirmed = value shop (confirm_replacement shop shop 1000 7 41)

found : license_of shop 32 ≡ some full_license
unfolding runs
found = refl

swap :
    execute_replacement shop shop 1000 32 13 11 41 ActorType.telegram_bot 41 "holder" none
    ≡ ok swapped
unfolding runs
swap = refl

grant :
    execute_replacement shop shop 1000 32 13 99 41 ActorType.telegram_bot 41 "holder" none
    ≡ ok granted
unfolding runs
grant = refl

confirm : confirm_replacement shop shop 1000 7 41 ≡ ok confirmed
unfolding runs
confirm = refl

pairs : PairsUnique shop.activations
unfolding count
pairs l d = ground arith

holds : HoldsSlot shop 32 11
unfolding runs
holds = refl

full : active_count shop 32 ≡ slot_limit full_license
unfolding runs
full = refl

loaded : load_valid_challenge shop 1000 7 ≡ ok challenge
unfolding runs
loaded = refl

live : device_live shop.devices 13 ≡ true
unfolding runs
live = refl

no_slot : count (λ a. is_pair 32 99 a && is_none a.revoked_at) shop.activations ≡ 0
unfolding runs
no_slot = refl

replacement-le-limit_example : active_count swapped 32 ≤ slot_limit full_license
replacement-le-limit_example =
    replacement-le-limit shop 1000 32 13 11 41 ActorType.telegram_bot 41 "holder" none swapped
      full_license pairs found holds (omega (arith, full)) swap

replacement_overflows_example : slot_limit full_license < active_count granted 32
replacement_overflows_example =
    replacement_overflows shop 1000 32 13 99 41 ActorType.telegram_bot 41 "holder" none granted
      full_license found no_slot (omega (arith, full)) live grant

-- The limit is two, and three devices hold the license.
overflow_test : (slot_limit full_license ≡ 2) × (active_count granted 32 ≡ 3)
unfolding runs
overflow_test = (refl, refl)

cooldown_after_approval_example :
    execute_replacement confirmed shop 5000 32 11 13 41 ActorType.telegram_bot 41 "holder" none
    ≡ err replacement_cooldown
cooldown_after_approval_example =
    cooldown_after_approval shop 1000 5000 7 41 challenge confirmed shop 11 13
      ActorType.telegram_bot 41 "holder" none loaded confirm (omega arith)

-- The license is revoked after the challenge was created.
abbrev revoked_license : License
revoked_license = record full_license { status = LicenseStatus.revoked; revoked_at = some 900 }

abbrev revoked_shop : Db
revoked_shop = record shop { licenses = revoked_license ∷ [] }

revoked_found : license_of revoked_shop 32 ≡ some revoked_license
unfolding runs
revoked_found = refl

held : is_id revoked_license.holder 41 ≡ true
held = refl

cool : assert_replacement_cooldown revoked_shop 1000 revoked_license.id ≡ ok tt
unfolding runs
cool = refl

inactive : is_active_pair revoked_shop revoked_license.id 13 ≡ false
unfolding runs
inactive = refl

replacement-reactivates_example :
    (db' : Db) × (execute_replacement revoked_shop revoked_shop 1000 32 13 11 41
        ActorType.telegram_bot 41 "holder" none
      ≡ ok db')
    × ((l' : License) × (license_of db' 32 ≡ some l')
        × (l'.status ≡ LicenseStatus.active)
        × (l'.revoked_at ≡ some 900))
replacement-reactivates_example =
    replacement-reactivates revoked_shop 1000 32 13 11 41 ActorType.telegram_bot 41 "holder" none
      revoked_license revoked_found held cool inactive
