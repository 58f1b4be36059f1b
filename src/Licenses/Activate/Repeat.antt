-- ===== src/Licenses/Activate/Repeat.antt =====
-- The transaction of an activation that is repeated.
use ruznamo_backend.Common.{
  sym, ap, ◌∙◌, ℕ, ◌≡◌, ◌==◌, refl, true, List, none, some, arith, ok, find, if◌then◌else◌,
  Bool-cases, Option-cases, inl, inr, ==_refl, ap, sym,
}
use mathlib.Core.Path.{subst}
use ruznamo_backend.Common.Counting.{find-insert, find-update_where}
use ruznamo_backend.Db.{Db, License, Device, Activation}
use ruznamo_backend.Licenses.Key.{normalize_key}
use ruznamo_backend.Licenses.Slots.{is_pair, read_max_devices, assert_license_activatable}
use ruznamo_backend.Licenses.Activate.{
  after_violation, create_activation, MobileJwtPayload, Activated, mark_active, new_activation,
  set_active, claim_slot, session_device, license_of_key, activate_tx,
}
use ruznamo_backend.Licenses.Activate.Run.{with_activation, claim-IsFresh, activate_tx-Ran}

-- The license as the first activation leaves it.
marked : ℕ → License → License → License
marked now l m = if m.id == l.id then mark_active now l m else m

pub license_of_key-with_activation :
    (hash : List ℕ → ℕ) (now : ℕ) (l : License) (d : Device) (db : Db) (key : List ℕ)
    → license_of_key hash db key ≡ some l
    → license_of_key hash (with_activation now l d db) key ≡ some (mark_active now l l)
unfolding license_of_key set_active
license_of_key-with_activation hash now l d db key h =
    find-update_where (λ m. m.key_hash == hash (normalize_key key)) (λ m. m.id == l.id)
      (mark_active now l) db.licenses (λ m. refl)
    ∙ rw h (rw (==_refl l.id))

still_activatable :
    (now later : ℕ) (l : License)
    → assert_license_activatable later l ≡ ok tt
    → assert_license_activatable later (mark_active now l l) ≡ ok tt
unfolding assert_license_activatable
still_activatable now later l h = ground arith

-- The steps before the slot is claimed.
activate_tx-claim :
    (hash : List ℕ → ℕ) (db : Db) (now : ℕ) (user : MobileJwtPayload) (key : List ℕ) (l : License)
    (d : Device) (max : ℕ)
    → license_of_key hash db key ≡ some l
    → assert_license_activatable now l ≡ ok tt
    → session_device db user ≡ some d
    → read_max_devices l.plan.features ≡ ok max
    → activate_tx hash db db db now user key ≡ claim_slot db db db now l d max
unfolding activate_tx
activate_tx-claim hash db now user key l d max found usable here limit =
    rw found (rw usable (rw here (rw limit)))

claim_again :
    (db : Db) (now : ℕ) (l : License) (d : Device) (max : ℕ) (a : Activation)
    → find (is_pair l.id d.id) db.activations ≡ some a
    → a.revoked_at ≡ none
    → claim_slot db db db now l d max
      ≡ ok (record { license = l; device = d; idempotent = true }, db)
unfolding claim_slot
claim_again db now l d max a found live = ground arith

-- A repeat leaves the tables and has found an activation that is not revoked.
claim_repeat :
    (db : Db) (now : ℕ) (l : License) (d : Device) (max : ℕ) (r : Activated) (db' : Db)
    → claim_slot db db db now l d max ≡ ok (r, db')
    → r.idempotent ≡ true
    → (db' ≡ db)
      × ((a : Activation) × (find (is_pair l.id d.id) db.activations ≡ some a)
          × (a.revoked_at ≡ none))
unfolding claim_slot create_activation after_violation
claim_repeat db now l d max r db' h old =
    elim (Option-cases (find (is_pair l.id d.id) db.activations)) [
      | inl missing ↦ absurd (ground arith)
      | inr (a, found) ↦ (ground arith, (a, found, ground arith))
    ]

new_pair :
    (now : ℕ) (l : License) (d : Device) (db : Db)
    → find (is_pair l.id d.id) db.activations ≡ none
    → find (is_pair l.id d.id) (with_activation now l d db).activations
      ≡ some (new_activation now l.id d.id)
unfolding set_active
new_pair now l d db h =
    find-insert (is_pair l.id d.id) (new_activation now l.id d.id) db.activations h (ground arith)

session_device-with_activation :
    (now : ℕ) (l : License) (d : Device) (db : Db) (user : MobileJwtPayload)
    → session_device (with_activation now l d db) user ≡ session_device db user
unfolding session_device set_active
session_device-with_activation now l d db user = refl

-- The tables have all that a repeat of the request looks for.
pub record Settled (hash : List ℕ → ℕ) (db : Db) (user : MobileJwtPayload) (key : List ℕ) (id : ℕ)
    : Type 0 where
  pub license : License
  pub device : Device
  pub max_devices : ℕ
  pub activation : Activation
  pub found : license_of_key hash db key ≡ some license
  pub here : session_device db user ≡ some device
  pub limit : read_max_devices license.plan.features ≡ ok max_devices
  pub paired : find (is_pair license.id device.id) db.activations ≡ some activation
  pub live : activation.revoked_at ≡ none
  pub same_id : license.id ≡ id

pub tx_again :
    (hash : List ℕ → ℕ) (db : Db) (later : ℕ) (user : MobileJwtPayload) (key : List ℕ) (id : ℕ)
    (s : Settled hash db user key id)
    → assert_license_activatable later s.license ≡ ok tt
    → activate_tx hash db db db later user key
      ≡ ok (record { license = s.license; device = s.device; idempotent = true }, db)
tx_again hash db later user key id s usable =
    activate_tx-claim hash db later user key s.license s.device s.max_devices s.found usable s.here
      s.limit
    ∙ claim_again db later s.license s.device s.max_devices s.activation s.paired s.live

pub activate_tx-Settled :
    (hash : List ℕ → ℕ) (db : Db) (now : ℕ) (user : MobileJwtPayload) (key : List ℕ) (r : Activated)
    (db' : Db)
    → activate_tx hash db db db now user key ≡ ok (r, db')
    → Settled hash db' user key r.license.id
activate_tx-Settled hash db now user key r db' h =
    let ran = activate_tx-Ran hash db db db now user key r db' h in
    let l = ran.license in
    let d = ran.device in
    let same_id : l.id ≡ r.license.id = ap (λ (m : License). m.id) (sym ran.same_license) in
    elim (Bool-cases r.idempotent) [
      | inl old ↦
          let (same, existing) = claim_repeat db now l d ran.max_devices r db' ran.claimed old in
          let (a, found, live) = existing in
          subst (λ e. Settled hash e user key r.license.id) (sym same)
            (record {
              license = l;
              device = d;
              max_devices = ran.max_devices;
              activation = a;
              found = ran.found;
              here = ran.here;
              limit = ran.limit;
              paired = found;
              live = live;
              same_id = same_id;
            })
      | inr new ↦
          let fresh = claim-IsFresh db db db now l d ran.max_devices r db' ran.claimed new in
          subst (λ e. Settled hash e user key r.license.id) (sym fresh.written)
            (record {
              license = mark_active now l l;
              device = d;
              max_devices = ran.max_devices;
              activation = new_activation now l.id d.id;
              found = license_of_key-with_activation hash now l d db key ran.found;
              here = session_device-with_activation now l d db user ∙ ran.here;
              limit = ran.limit;
              paired = new_pair now l d db fresh.unclaimed;
              live = refl;
              same_id = same_id;
            })
    ]
