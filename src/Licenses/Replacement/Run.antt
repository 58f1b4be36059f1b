-- ===== src/Licenses/Replacement/Run.antt =====
-- What a replacement that went through has checked and written.
use ruznamo_backend.Common.{
  insert, ℕ, ◌≡◌, refl, true, false, Option, some, arith, ok, String, not, is_id, update_where,
  ◌==◌, >>=-eq-ok, or_throw, or_throw-eq-ok, throw_if, throw_if-eq-ok, license_not_found,
  not_license_holder, new_device_already_activated,
}
use ruznamo_backend.Db.{Db, License, ActorType, log}
use ruznamo_backend.Licenses.Activate.{set_active, mark_active, activation_event}
use ruznamo_backend.Licenses.Replacement.{
  license_of, is_active_pair, assert_replacement_cooldown, replaced, consume, execute_replacement,
}

module _ (db : Db) (now license_id new_device_id old_device_id holder : ℕ) (actor_type : ActorType)
    (actor_id : ℕ) (reason : String) (consumed : Option ℕ) (db' : Db) where
  pub record Replaced : Type 0 where
    pub license : License
    pub found : license_of db license_id ≡ some license
    pub held : is_id license.holder holder ≡ true
    pub cool : assert_replacement_cooldown db now license.id ≡ ok tt
    pub inactive : is_active_pair db license.id new_device_id ≡ false
    pub activations : db'.activations ≡ replaced db now license new_device_id old_device_id
    pub devices : db'.devices ≡ db.devices
    pub licenses :
        db'.licenses ≡ update_where (λ l. l.id == license.id) (mark_active now license) db.licenses
    pub events : db'.events ≡ insert (activation_event now license reason) db.events
    pub challenges : db'.challenges ≡ consume now consumed db.challenges
    pub grants : db'.grants ≡ db.grants

  written :
      (l : License)
      → log actor_type actor_id "license.device.replacement_completed" l.id (
          set_active now l reason (record db {
            activations = replaced db now l new_device_id old_device_id;
            challenges = consume now consumed db.challenges;
          }))
        ≡ db'
      → (db'.activations ≡ replaced db now l new_device_id old_device_id)
        × (db'.devices ≡ db.devices)
        × (db'.licenses ≡ update_where (λ m. m.id == l.id) (mark_active now l) db.licenses)
        × (db'.events ≡ insert (activation_event now l reason) db.events)
        × (db'.challenges ≡ consume now consumed db.challenges)
        × (db'.grants ≡ db.grants)
  unfolding log set_active
  written l h = rw (← h) (refl, refl, refl, refl, refl, refl)

  pub execute_replacement-Replaced :
      execute_replacement db db now license_id new_device_id old_device_id holder actor_type
          actor_id reason consumed
        ≡ ok db'
      → Replaced
  unfolding execute_replacement
  execute_replacement-Replaced h =
      let (l, found, h₁) = >>=-eq-ok (or_throw (license_of db license_id) license_not_found) _ h in
      let (u, held, h₂) =
        >>=-eq-ok (throw_if (not (is_id l.holder holder)) not_license_holder) _ h₁ in
      let (v, cool, h₃) = >>=-eq-ok (assert_replacement_cooldown db now l.id) _ h₂ in
      let (w, inactive, h₄) =
        >>=-eq-ok (throw_if (is_active_pair db l.id new_device_id) new_device_already_activated) _
          h₃ in
      let (activations, devices, licenses, events, challenges, grants) =
        written l (ground (arith, h₄)) in
      let mine = throw_if-eq-ok (not (is_id l.holder holder)) not_license_holder held in
      record {
        license = l;
        found = or_throw-eq-ok _ _ found;
        held = ground arith;
        cool = cool;
        inactive = throw_if-eq-ok _ _ inactive;
        activations = activations;
        devices = devices;
        licenses = licenses;
        events = events;
        challenges = challenges;
        grants = grants;
      }
