-- ===== src/Licenses/Activate/Response.antt =====
-- What the answer of an activation says about the license, against what is stored.
use ruznamo_backend.Common.{◌∙◌, ℕ, ◌≡◌, false, List, none, some, arith, ok}
use ruznamo_backend.Db.{log, Db, License}
use ruznamo_backend.Licenses.Activate.{
  MobileJwtPayload, Activated, mark_active, ActivateResponse, activate_tx, activate, finish,
  license_of_key,
}
use ruznamo_backend.Licenses.Activate.Run.{claim-IsFresh, activate_tx-Ran}
use ruznamo_backend.Licenses.Activate.Repeat.{license_of_key-with_activation}

answered :
    (now : ℕ) (user : MobileJwtPayload) (r : Activated) (db after : Db)
    (response : ActivateResponse)
    → finish now user r db ≡ (ok response, after)
    → (response.starts_at ≡ r.license.starts_at)
      × (response.activated_at ≡ r.license.activated_at)
      × (after.licenses ≡ db.licenses)
unfolding finish log
answered now user r db after response h = ground arith

license_of_key-ext :
    (hash : List ℕ → ℕ) (a b : Db) (key : List ℕ)
    → a.licenses ≡ b.licenses
    → license_of_key hash a key ≡ license_of_key hash b key
unfolding license_of_key
license_of_key-ext hash a b key h = rw h

-- The answer to the first activation of a license that was not started carries no start and no
-- activation date, while the row that the same request stored starts and is activated now.
pub activate-stale_dates :
    (hash : List ℕ → ℕ) (db : Db) (now : ℕ) (user : MobileJwtPayload) (key : List ℕ) (r : Activated)
    (db' : Db) (response : ActivateResponse) (after : Db)
    → activate_tx hash db db db now user key ≡ ok (r, db')
    → r.idempotent ≡ false
    → r.license.starts_at ≡ none
    → r.license.activated_at ≡ none
    → activate hash db db db now user key ≡ (ok response, after)
    → (response.starts_at ≡ none)
      × (response.activated_at ≡ none)
      × ((stored : License) × (license_of_key hash after key ≡ some stored)
          × (stored.starts_at ≡ some now)
          × (stored.activated_at ≡ some now))
unfolding activate
activate-stale_dates hash db now user key r db' response after h new unstarted unactivated a =
    let ran = activate_tx-Ran hash db db db now user key r db' h in
    let l = ran.license in
    let fresh = claim-IsFresh db db db now l ran.device ran.max_devices r db' ran.claimed new in
    let (start, active, licenses) = answered now user r db' after response (rw h at a) in
    let stored = license_of_key-with_activation hash now l ran.device db key ran.found in
    (
      start ∙ unstarted,
      active ∙ unactivated,
      (
        mark_active now l l,
        license_of_key-ext hash after db' key licenses ∙ rw fresh.written stored,
        cc (unstarted, ran.same_license),
        cc (unactivated, ran.same_license),
      ),
    )
