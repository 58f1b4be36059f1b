-- ===== src/Licenses/Activate/Retry.antt =====
-- A repeated activation.
use ruznamo_backend.Common.{
  sym, ap, ◌∙◌, ℕ, ◌≡◌, refl, true, List, some, arith, ok, Option-cases, inl, inr, Result-cases,
  Option, Result, err, ok-injective, >>=-eq-ok, String, ap, sym,
}
use ruznamo_backend.Licenses.Activate.Repeat.{Settled, tx_again, activate_tx-Settled}
use ruznamo_backend.Entitlements.Snapshot.{get_snapshot, snapshot_for, user_of}
use ruznamo_backend.Entitlements.Types.{EntitlementSnapshot}
use ruznamo_backend.Db.{User, Db, ActorType, log, License, Device}
use ruznamo_backend.Licenses.Slots.{assert_license_activatable}
use ruznamo_backend.Licenses.Activate.{
  MobileJwtPayload, Activated, session_device, license_of_key, activate_tx, activate, finish,
  respond, ActivateResponse,
}

-- An audit entry is not looked for.
log-Settled :
    (hash : List ℕ → ℕ) (db : Db) (user : MobileJwtPayload) (key : List ℕ) (id : ℕ)
    (actor : ActorType) (actor_id : ℕ) (action : String) (entity : ℕ)
    → Settled hash db user key id
    → Settled hash (log actor actor_id action entity db) user key id
unfolding log license_of_key session_device
log-Settled hash db user key id actor actor_id action entity s = record {
  license = s.license;
  device = s.device;
  max_devices = s.max_devices;
  activation = s.activation;
  found = s.found;
  here = s.here;
  limit = s.limit;
  paired = s.paired;
  live = s.live;
  same_id = s.same_id;
}

user_of-log :
    (db : Db) (user_id : ℕ) (actor : ActorType) (actor_id : ℕ) (action : String) (entity : ℕ)
    → user_of (log actor actor_id action entity db) user_id ≡ user_of db user_id
unfolding user_of log
user_of-log db user_id actor actor_id action entity = refl

snapshot_of_user :
    (db : Db) (now user_id : ℕ) (installation : Option ℕ) (u : User)
    → user_of db user_id ≡ some u
    → get_snapshot db now user_id installation ≡ ok (snapshot_for db now installation u)
unfolding get_snapshot
snapshot_of_user db now user_id installation u found = rw (found, get_snapshot) refl

log-snapshot :
    (db : Db) (now later user_id : ℕ) (installation : Option ℕ) (s : EntitlementSnapshot)
    (actor : ActorType) (actor_id : ℕ) (action : String) (entity : ℕ)
    → get_snapshot db now user_id installation ≡ ok s
    → (s' : EntitlementSnapshot) × (get_snapshot
          (log actor actor_id action entity db)
          later
          user_id
          installation
        ≡ ok s')
unfolding get_snapshot
log-snapshot db now later user_id installation s actor actor_id action entity h =
    elim (Option-cases (user_of db user_id)) [
      | inl missing ↦ absurd (ground arith)
      | inr (u, found) ↦ (
        snapshot_for (log actor actor_id action entity db) later installation u,
        snapshot_of_user (log actor actor_id action entity db) later user_id installation u
            (user_of-log db user_id actor actor_id action entity ∙ found),
      )
    ]

same_row :
    (hash : List ℕ → ℕ) (db : Db) (key : List ℕ) (l m : License)
    → license_of_key hash db key ≡ some l
    → license_of_key hash db key ≡ some m
    → l ≡ m
same_row hash db key l m a b = ground arith

-- What follows the transaction of a method that answers.
finish-parts :
    (now : ℕ) (user : MobileJwtPayload) (r : Activated) (db after : Db)
    (response : ActivateResponse)
    → finish now user r db ≡ (ok response, after)
    → (action : String) × (after ≡ log ActorType.user user.sub action r.license.id db)
      × (response.license_id ≡ r.license.id)
      × ((s : EntitlementSnapshot) × (get_snapshot after now user.sub (some user.installation_id)
            ≡ ok s))
unfolding finish
finish-parts now user r db after response h =
    let logged : (finish now user r db).1 ≡ after =
      ap (λ (p : Result ActivateResponse × Db). p.1) h in
    let (s, taken, answered) =
      >>=-eq-ok (get_snapshot (finish now user r db).1 now user.sub (some user.installation_id)) _
        (ap (λ (p : Result ActivateResponse × Db). p.0) h) in
    let same : respond r.license s ≡ response = ok-injective answered in
    (_, sym logged, ap (λ (a : ActivateResponse). a.license_id) (sym same), (s, rw logged at taken))

activate-parts :
    (hash : List ℕ → ℕ) (db : Db) (now : ℕ) (user : MobileJwtPayload) (key : List ℕ)
    (response : ActivateResponse) (after : Db)
    → activate hash db db db now user key ≡ (ok response, after)
    → Settled hash after user key response.license_id
      × ((s : EntitlementSnapshot) × (get_snapshot after now user.sub (some user.installation_id)
            ≡ ok s))
unfolding activate
activate-parts hash db now user key response after h =
    elim (Result-cases (activate_tx hash db db db now user key)) [
      | inl (e, failed) ↦ absurd (
          let bad : ◌≡◌ {A = Result ActivateResponse × Db} (err e, db) (ok response, after) =
            rw failed at h in
          ground arith)
      | inr (p, went) ↦
          let (action, logged, same_id, snapshot) =
            finish-parts now user p.0 p.1 after response (rw went at h) in
          let settled =
            log-Settled hash p.1 user key p.0.license.id ActorType.user user.sub action
              p.0.license.id (activate_tx-Settled hash db now user key p.0 p.1 went) in
          (rw (logged, same_id) settled, snapshot)
    ]

finish-again :
    (now later : ℕ) (user : MobileJwtPayload) (l : License) (d : Device) (db : Db)
    (s : EntitlementSnapshot)
    → get_snapshot db now user.sub (some user.installation_id) ≡ ok s
    → (s' : EntitlementSnapshot) × (finish later user
          (record { license = l; device = d; idempotent = true })
          db
        ≡ (ok (respond l s'), log ActorType.user user.sub "license.activation.idempotent" l.id db))
unfolding finish
finish-again now later user l d db s h =
    let (s', taken) =
      log-snapshot db now later user.sub (some user.installation_id) s ActorType.user user.sub
        "license.activation.idempotent" l.id h in
    (s', rw taken refl)

-- Where an activation was answered and no other transaction came in between, the same request at any
-- time when the stored license may still be activated is answered again, for the same license and with
-- the stored dates, and only adds an audit entry that says that it was done before.
pub activate-retry :
    (hash : List ℕ → ℕ) (db : Db) (now later : ℕ) (user : MobileJwtPayload) (key : List ℕ)
    (response : ActivateResponse) (after : Db) (l : License)
    → activate hash db db db now user key ≡ (ok response, after)
    → license_of_key hash after key ≡ some l
    → assert_license_activatable later l ≡ ok tt
    → (again : ActivateResponse) × (activate hash after after after later user key ≡ (
      ok again,
      log ActorType.user user.sub "license.activation.idempotent" response.license_id after,
    ))
      × (again.license_id ≡ response.license_id)
      × (again.starts_at ≡ l.starts_at)
      × (again.activated_at ≡ l.activated_at)
unfolding activate
activate-retry hash db now later user key response after l h found usable =
    let (settled, snapshot) = activate-parts hash db now user key response after h in
    let same : settled.license ≡ l =
      same_row hash after key settled.license l settled.found found in
    let (s, taken) = snapshot in
    let (s', answered) = finish-again now later user settled.license settled.device after s taken in
    let went = tx_again hash after later user key response.license_id settled (rw same usable) in
    (
      respond settled.license s',
      rw went (answered ∙ rw settled.same_id refl),
      settled.same_id,
      ap (λ (m : License). m.starts_at) same,
      ap (λ (m : License). m.activated_at) same,
    )
