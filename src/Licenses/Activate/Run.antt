-- ===== src/Licenses/Activate/Run.antt =====
-- What a transaction that went through has found and written.
use ruznamo_backend.Common.{
  ℕ, ◌≡◌, ◌<◌, true, false, none, some, List, arith, ok, find, insert, is_none, ◌==◌, ◌&&◌,
  >>=-eq-ok, or_throw, or_throw-eq-ok, find_sound, license_invalid, device_revoked,
}
use ruznamo_backend.Common.Counting.{any_of_find}
use ruznamo_backend.Db.{Db, License, Device}
use ruznamo_backend.Licenses.Slots.{
  is_pair, active_count, read_max_devices, assert_license_activatable, device_live,
}
use ruznamo_backend.Licenses.Activate.{
  MobileJwtPayload, Activated, new_activation, set_active, create_activation, after_violation,
  claim_slot, session_device, license_of_key, activate_tx,
}

-- The tables after a new activation.
abbrev pub with_activation : ℕ → License → Device → Db → Db
with_activation now l d met =
    set_active now l "mobile_activation"
      (record met { activations = insert (new_activation now l.id d.id) met.activations })

pub record IsFresh (db met : Db) (now : ℕ) (l : License) (d : Device) (max : ℕ) (db' : Db)
    : Type 0 where
  pub unclaimed : find (is_pair l.id d.id) db.activations ≡ none
  pub room : active_count db l.id < max
  pub unmet : find (is_pair l.id d.id) met.activations ≡ none
  pub written : db' ≡ with_activation now l d met

pub claim-IsFresh :
    (db met seen : Db) (now : ℕ) (l : License) (d : Device) (max : ℕ) (r : Activated) (db' : Db)
    → claim_slot db met seen now l d max ≡ ok (r, db')
    → r.idempotent ≡ false
    → IsFresh db met now l d max db'
unfolding claim_slot create_activation after_violation
claim-IsFresh db met seen now l d max r db' h new = record {
  unclaimed = ground arith;
  room = ground arith;
  unmet = ground arith;
  written = ground arith;
}

pub claim_rows :
    (db met seen : Db) (now : ℕ) (l : License) (d : Device) (max : ℕ) (r : Activated) (db' : Db)
    → claim_slot db met seen now l d max ≡ ok (r, db')
    → (r.license ≡ l) × (r.device ≡ d)
unfolding claim_slot create_activation after_violation
claim_rows db met seen now l d max r db' h = ground arith

pub session_device-live :
    (db : Db) (user : MobileJwtPayload) (d : Device)
    → session_device db user ≡ some d
    → device_live db.devices d.id ≡ true
unfolding session_device device_live
session_device-live db user d h =
    any_of_find (λ e. e.id == user.device_id && e.user_id == user.sub && is_none e.revoked_at)
      (λ e. e.id == d.id && is_none e.revoked_at) db.devices d h
      (ground (
        arith,
        find_sound (λ e. e.id == user.device_id && e.user_id == user.sub && is_none e.revoked_at)
            db.devices {x = d},
      ))

module _ (hash : List ℕ → ℕ) where
  pub record Ran (db met seen : Db) (now : ℕ) (user : MobileJwtPayload) (key : List ℕ)
      (r : Activated) (db' : Db) : Type 0 where
    pub license : License
    pub device : Device
    pub max_devices : ℕ
    pub found : license_of_key hash db key ≡ some license
    pub activatable : assert_license_activatable now license ≡ ok tt
    pub here : session_device db user ≡ some device
    pub limit : read_max_devices license.plan.features ≡ ok max_devices
    pub claimed : claim_slot db met seen now license device max_devices ≡ ok (r, db')
    pub same_license : r.license ≡ license
    pub same_device : r.device ≡ device

  pub activate_tx-Ran :
      (db met seen : Db) (now : ℕ) (user : MobileJwtPayload) (key : List ℕ) (r : Activated)
      (db' : Db)
      → activate_tx hash db met seen now user key ≡ ok (r, db')
      → Ran db met seen now user key r db'
  unfolding activate_tx
  activate_tx-Ran db met seen now user key r db' h =
      let (l, found, h₁) = >>=-eq-ok (or_throw (license_of_key hash db key) license_invalid) _ h in
      let (u, usable, h₂) = >>=-eq-ok (assert_license_activatable now l) _ h₁ in
      let (d, here, h₃) = >>=-eq-ok (or_throw (session_device db user) device_revoked) _ h₂ in
      let (max, limit, h₄) = >>=-eq-ok (read_max_devices l.plan.features) _ h₃ in
      let (same_license, same_device) = claim_rows db met seen now l d max r db' h₄ in
      record {
        license = l;
        device = d;
        max_devices = max;
        found = or_throw-eq-ok _ _ found;
        activatable = usable;
        here = or_throw-eq-ok _ _ here;
        limit = limit;
        claimed = h₄;
        same_license = same_license;
        same_device = same_device;
      }
