-- ===== src/Licenses/Activate/Slot.antt =====
-- The device limit under activation.
use ruznamo_backend.Common.{ap, ◌∙◌, ℕ, ◌≡◌, ◌≤◌, ◌+◌, ◌≢◌, refl, true, false, List, arith, ok}
use ruznamo_backend.Common.Counting.{count-insert}
use ruznamo_backend.Db.{Db, License, Device}
use ruznamo_backend.Licenses.Slots.{active_count, is_active_slot, device_live, read_max_devices}
use ruznamo_backend.Licenses.Activate.{
  MobileJwtPayload, Activated, new_activation, set_active, activate_tx,
}
use ruznamo_backend.Licenses.Activate.Run.{
  with_activation, claim-IsFresh, session_device-live, activate_tx-Ran,
}

pub active_count-with_activation :
    (now : ℕ) (l : License) (d : Device) (met : Db)
    → device_live met.devices d.id ≡ true
    → active_count (with_activation now l d met) l.id ≡ active_count met l.id + 1
unfolding active_count set_active is_active_slot
active_count-with_activation now l d met live = ground (
  arith,
  count-insert (is_active_slot met.devices l.id) (new_activation now l.id d.id) met.activations,
)

pub active_count-with_activation_ne :
    (now : ℕ) (l : License) (d : Device) (met : Db) (other : ℕ)
    → l.id ≢ other
    → active_count (with_activation now l d met) other ≡ active_count met other
unfolding active_count set_active is_active_slot
active_count-with_activation_ne now l d met other ne = ground (
  arith,
  count-insert (is_active_slot met.devices other) (new_activation now l.id d.id) met.activations,
)

active_count-ext :
    (db met : Db)
    → met.activations ≡ db.activations
    → met.devices ≡ db.devices
    → (id : ℕ) → active_count met id ≡ active_count db id
unfolding active_count
active_count-ext db met e f id = rw (e, f) refl

-- Where no other transaction touched the activations or devices in between, an activation that is not
-- a repeat takes exactly one slot of its license, within the plan's limit, and no slot of another
-- license.
pub activate-slots :
    (hash : List ℕ → ℕ) (db met seen : Db) (now : ℕ) (user : MobileJwtPayload) (key : List ℕ)
    (r : Activated) (db' : Db) (max other : ℕ)
    → met.activations ≡ db.activations
    → met.devices ≡ db.devices
    → activate_tx hash db met seen now user key ≡ ok (r, db')
    → r.idempotent ≡ false
    → read_max_devices r.license.plan.features ≡ ok max
    → r.license.id ≢ other
    → (active_count db' r.license.id ≡ active_count db r.license.id + 1)
      × (active_count db' r.license.id ≤ max)
      × (active_count db' other ≡ active_count db other)
activate-slots hash db met seen now user key r db' max other same_activations same_devices h new
      limit ne =
    let ran = activate_tx-Ran hash db met seen now user key r db' h in
    let l = ran.license in
    let d = ran.device in
    let fresh = claim-IsFresh db met seen now l d ran.max_devices r db' ran.claimed new in
    let live = session_device-live db user d ran.here in
    let before = active_count-ext db met same_activations same_devices in
    let max_read : ran.max_devices ≡ max = cc (ran.limit, limit, ran.same_license) in
    rw (ran.same_license, fresh.written)
      (
        active_count-with_activation now l d met (rw same_devices live)
            ∙ ap (λ n. n + 1) (before l.id),
        omega (
          arith,
          active_count-with_activation now l d met (rw same_devices live),
          before l.id,
          fresh.room,
          max_read,
        ),
        active_count-with_activation_ne now l d met other
              (λ e. ne (ap (λ m. m.id) ran.same_license ∙ e))
            ∙ before other,
      )
