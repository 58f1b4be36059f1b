-- ===== src/Telegram/Links/Disconnect.antt =====
-- A device that the holder of a license disconnects: revokeDeviceAsHolder of
-- licenses/telegram-license-link.service.ts.
use ruznamo_backend.Common.{
  leb, ◌∙◌, ◌==◌, replacement_cooldown, err, update_where, ◌+◌, find_sound, count, ◌≤◌, ℕ, ◌≡◌, ◌-◌,
  Bool, true, false, not, some, ok, ◌&&◌, find, is_none, is_id, or_throw, or_throw-eq-ok, throw_if,
  throw_if-eq-ok, >>=-eq-ok, ok-injective, arith, ap, sym, license_not_found, not_license_holder,
  device_not_active_on_license,
}
use ruznamo_backend.Licenses.Replacement.Slots.{PairsUnique}
use ruznamo_backend.Common.Counting.{count-update_drop, count-find-some, count_mono, any-insert}
use ruznamo_backend.Db.{Db, License, Activation, ActorType, log}
use ruznamo_backend.Licenses.Slots.{is_active_slot, is_pair, active_count, device_live}
use ruznamo_backend.Licenses.Replacement.{
  counts_for_cooldown, cooldown, assert_replacement_cooldown, license_of,
}
use ruznamo_backend.Telegram.Links.Run.{license_of-id}
use ruznamo_backend.Telegram.Links.{
  unmoved_event, disconnect, revoke_device_as_holder, write_disconnect, HolderRevoked,
}

pub record Revoked (db : Db) (now account license_id device_id : ℕ) (r : HolderRevoked) (db' : Db)
    : Type 0 where
  pub license : License
  pub slot : Activation
  pub found : license_of db license_id ≡ some license
  pub held : is_id license.holder account ≡ true
  pub active :
      find (λ a. is_pair license_id device_id a && is_none a.revoked_at) db.activations ≡ some slot
  pub live : device_live db.devices slot.device_id ≡ true
  pub after : r.devices_used_after ≡ active_count db license_id - 1
  pub before : r.devices_used_before ≡ active_count db license_id
  pub written :
      log ActorType.telegram_bot account "license.device.revoked_by_holder" license_id
        (write_disconnect now license device_id db)
      ≡ db'

is_true : (b : Bool) → not b ≡ false → b ≡ true
is_true b h = ground arith

revoke-Revoked :
    (db : Db) (now account license_id device_id : ℕ) (r : HolderRevoked) (db' : Db)
    → revoke_device_as_holder db now account license_id device_id ≡ ok (r, db')
    → Revoked db now account license_id device_id r db'
unfolding revoke_device_as_holder
revoke-Revoked db now account license_id device_id r db' h =
    let (l, e₁, h₁) = >>=-eq-ok (or_throw (license_of db license_id) license_not_found) _ h in
    let (u, e₂, h₂) = >>=-eq-ok (throw_if (not (is_id l.holder account)) not_license_holder) _ h₁ in
    let (a, e₃, h₃) =
      >>=-eq-ok
        (or_throw
          (find (λ a. is_pair license_id device_id a && is_none a.revoked_at) db.activations)
          device_not_active_on_license)
        _ h₂ in
    let (v, e₄, h₄) =
      >>=-eq-ok (throw_if (not (device_live db.devices a.device_id)) device_not_active_on_license) _
        h₃ in
    let same = ok-injective h₄ in
    record {
      license = l;
      slot = a;
      found = or_throw-eq-ok _ _ e₁;
      held = is_true _ (throw_if-eq-ok _ _ e₂);
      active = or_throw-eq-ok _ _ e₃;
      live = is_true _ (throw_if-eq-ok _ _ e₄);
      after = sym (ap (λ p. p.0.devices_used_after) same);
      before = sym (ap (λ p. p.0.devices_used_before) same);
      written = ap (λ p. p.1) same;
    }

module _ (db : Db) (license_id device_id : ℕ) (a : Activation) where
  on : Activation → Bool
  on x = is_active_slot db.devices license_id x && is_pair license_id device_id x

  the_slot :
      find (λ x. is_pair license_id device_id x && is_none x.revoked_at) db.activations ≡ some a
      → device_live db.devices a.device_id ≡ true
      → on a ≡ true
  unfolding is_active_slot on
  the_slot found live = ground (
    arith,
    find_sound (λ x. is_pair license_id device_id x && is_none x.revoked_at) db.activations {x = a},
  )

  one_less :
      (now : ℕ)
      → count (is_pair license_id device_id) db.activations ≤ 1
      → find (λ x. is_pair license_id device_id x && is_none x.revoked_at) db.activations ≡ some a
      → device_live db.devices a.device_id ≡ true
      → count
            (is_active_slot db.devices license_id)
            (update_where (is_pair license_id device_id) (disconnect now) db.activations)
          + 1
        ≡ active_count db license_id
  unfolding active_count is_active_slot on
  one_less now unique found live = omega (
    arith,
    count-update_drop (is_active_slot db.devices license_id) (is_pair license_id device_id)
        (disconnect now) db.activations (λ x h. ground arith),
    count-find-some (λ x. is_pair license_id device_id x && is_none x.revoked_at) on db.activations
        a found (the_slot found live),
    count_mono on (is_pair license_id device_id) db.activations (λ x h. ground arith),
    unique,
  )

-- Where the schema's unique pairs hold, a disconnection frees one slot of the license, and the numbers
-- of used devices that it answers are those before and after it.
pub disconnect-frees :
    (db : Db) (now account license_id device_id : ℕ) (r : HolderRevoked) (db' : Db)
    → PairsUnique db.activations
    → revoke_device_as_holder db now account license_id device_id ≡ ok (r, db')
    → (active_count db' license_id + 1 ≡ active_count db license_id)
      × (r.devices_used_before ≡ active_count db license_id)
      × (r.devices_used_after ≡ active_count db' license_id)
unfolding active_count write_disconnect log
disconnect-frees db now account license_id device_id r db' unique h =
    let run = revoke-Revoked db now account license_id device_id r db' h in
    let id = license_of-id db license_id run.license run.found in
    let less =
      one_less db license_id device_id run.slot now (unique license_id device_id) run.active
        run.live in
    let freed : active_count db' license_id + 1 ≡ active_count db license_id =
      rw (← run.written) (rw id less) in
    (freed, run.before, run.after ∙ omega arith)

-- For 24 hours after a holder disconnected a device, the check that every replacement on the license
-- makes refuses.
cooldown_after_disconnect :
    (db : Db) (now later account license_id device_id : ℕ) (r : HolderRevoked) (db' : Db)
    → revoke_device_as_holder db now account license_id device_id ≡ ok (r, db')
    → later ≤ now + cooldown
    → assert_replacement_cooldown db' later license_id ≡ err replacement_cooldown
unfolding assert_replacement_cooldown write_disconnect log
cooldown_after_disconnect db now later account license_id device_id r db' h soon =
    let run = revoke-Revoked db now account license_id device_id r db' h in
    let id = license_of-id db license_id run.license run.found in
    rw (← run.written) (
      rw (
        any-insert
          (λ v.
            v.license_id == license_id
            && counts_for_cooldown v.reason
            && leb (later - cooldown) v.created_at)
          (unmoved_event now run.license "holder_device_revoked") db.events (ground arith)))
