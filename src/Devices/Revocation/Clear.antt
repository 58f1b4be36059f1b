-- ===== src/Devices/Revocation/Clear.antt =====
-- What `revoke` of devices/devices.service.ts leaves of a device.
use ruznamo_backend.Common.{
  ℕ, ◌≡◌, refl, Bool, true, false, Option, some, none, List, [], ◌∷◌, ok, err, ◌==◌, ◌&&◌, ◌∙◌, sym,
  ap, find, count, is_some, is_none, is_id, if◌then◌else◌, arith, Option-cases, Bool-cases, inl,
  inr, or_throw, or_throw-eq-ok, >>=-eq-ok, ok-injective, find_sound, update_where,
  device_not_found, invalid_refresh_token,
}
use ruznamo_backend.Common.Counting.{find-update_where}
use ruznamo_backend.Db.{ActorType, Db, Device, Activation, RefreshToken, log}
use ruznamo_backend.Licenses.Slots.{is_active_slot}
use ruznamo_backend.Licenses.Activate.{MobileJwtPayload}
use ruznamo_backend.Sessions.{Telemetry, refresh, token_of_hash}
use ruznamo_backend.Sessions.Live.{revoked_refused, refused}
use ruznamo_backend.Devices.Revocation.{
  end_activation, end_token, end_sessions, clear_device, revoke_device,
}
use mathlib.Core.Path.{subst}

-- An active slot of the license on the device.
abbrev pub on_device : Db → ℕ → ℕ → Activation → Bool
on_device db license_id device_id a =
    is_active_slot db.devices license_id a && a.device_id == device_id

no_slot :
    (devices : List Device) (now license_id device_id : ℕ) (xs : List Activation)
    → count
        (λ a. is_active_slot devices license_id a && a.device_id == device_id)
        (update_where
          (λ a. a.device_id == device_id && is_none a.revoked_at)
          (end_activation now)
          xs)
      ≡ 0
unfolding count update_where is_active_slot
no_slot devices now license_id device_id [] = refl
no_slot devices now license_id device_id (a ∷ rest) =
    ground (arith, no_slot devices now license_id device_id rest)

dead : (b : Bool) (o : Option ℕ) → b ≡ true → (b && is_none o) ≡ false → is_some o ≡ true
dead b o on miss = ground arith

ended :
    (now device_id : ℕ) (t : RefreshToken)
    → is_id t.device_id device_id ≡ true
    → is_some
        (if is_id t.device_id device_id && is_none t.revoked_at
          then end_token now t
          else t).revoked_at
      ≡ true
ended now device_id t on = elim (Bool-cases (is_id t.device_id device_id && is_none t.revoked_at)) [
  | inl hit ↦ rw hit refl
  | inr miss ↦ rw miss (dead (is_id t.device_id device_id) t.revoked_at on miss)
]

same_device :
    (now device_id : ℕ) (t : RefreshToken)
    → (if is_id t.device_id device_id && is_none t.revoked_at then end_token now t else t).device_id
      ≡ t.device_id
same_device now device_id t =
    elim (Bool-cases (is_id t.device_id device_id && is_none t.revoked_at)) [
      | inl hit ↦ rw hit refl
      | inr miss ↦ rw miss refl
    ]

token_ended :
    (db : Db) (now device_id token_hash : ℕ) (s : RefreshToken)
    → token_of_hash (end_sessions now device_id db) token_hash ≡ some s
    → is_id s.device_id device_id ≡ true
    → is_some s.revoked_at ≡ true
unfolding token_of_hash end_sessions
token_ended db now device_id token_hash s found on =
    let step =
      find-update_where (λ t. t.token_hash == token_hash)
        (λ t. is_id t.device_id device_id && is_none t.revoked_at) (end_token now) db.tokens
        (λ t. refl) in
    elim (Option-cases (find (λ t. t.token_hash == token_hash) db.tokens)) [
      | inl missing ↦ absurd (let e : some s ≡ none = sym found ∙ step ∙ rw missing refl in cc)
      | inr (t, there) ↦
          let s_t : some s
              ≡ some (
                  if is_id t.device_id device_id && is_none t.revoked_at
                  then end_token now t
                  else t) =
            sym found ∙ step ∙ rw there refl in
          let same : s ≡ (
              if is_id t.device_id device_id && is_none t.revoked_at then end_token now t else t) =
            cc in
          let on_t : is_id t.device_id device_id ≡ true =
            rw (← same_device now device_id t) (rw (← same) on) in
          rw same (ended now device_id t on_t)
    ]

abbrev Cleared : (ℕ → ℕ) → Db → ℕ → Db → Type 0
Cleared hash db device_id db' =
    ((license_id : ℕ) → count (on_device db' license_id device_id) db'.activations ≡ 0)
    × ((token : ℕ) (s : RefreshToken)
        → token_of_hash db' (hash token) ≡ some s
        → is_id s.device_id device_id ≡ true
        → is_some s.revoked_at ≡ true)

clear-Cleared :
    (hash : ℕ → ℕ) (db : Db) (now user_id device_id : ℕ)
    → Cleared hash db device_id (
        log ActorType.user user_id "device.slots_cleared" device_id (clear_device now device_id db))
unfolding clear_device end_sessions log token_of_hash
clear-Cleared hash db now user_id device_id = (
  λ license_id. no_slot db.devices now license_id device_id db.activations,
  λ token s found on. token_ended db now device_id (hash token) s found on,
)

revoke-Cleared :
    (hash : ℕ → ℕ) (db : Db) (now : ℕ) (user : MobileJwtPayload) (device_id : ℕ) (d : Device)
    (db' : Db)
    → revoke_device db now user device_id ≡ ok (d, db')
    → d.revoked_at ≡ none
    → Cleared hash db device_id db'
unfolding revoke_device
revoke-Cleared hash db now user device_id d db' h live =
    let (d₁, e₁, h₁) =
      >>=-eq-ok
        (or_throw (find (λ d. d.id == device_id && d.user_id == user.sub) db.devices)
          device_not_found)
        _ h in
    let same : d₁ ≡ d = ap (λ p. p.0) (ok-injective h₁) in
    let unblocked : is_some d₁.revoked_at ≡ false = rw same (rw live refl) in
    let id : d₁.id ≡ device_id = ground (
      arith,
      find_sound (λ (x : Device). x.id == device_id && x.user_id == user.sub) db.devices {x = d₁},
      or_throw-eq-ok _ _ e₁,
    ) in
    let left = ap (λ p. p.1) (ok-injective h₁) in
    let written : log ActorType.user user.sub "device.slots_cleared" device_id
          (clear_device now device_id db)
        ≡ db' =
      rw (← id) (rw unblocked at left) in
    subst (Cleared hash db device_id) written (clear-Cleared hash db now user.sub device_id)

-- Where a session's own device is not blocked, its revocation clears it: it holds no active slot of any
-- license, and every refresh with one of its tokens is refused as invalid.
pub revoke-clears :
    (hash : ℕ → ℕ) (db : Db) (now : ℕ) (user : MobileJwtPayload) (device_id : ℕ) (d : Device)
    (db' met : Db) (license_id later id raw : ℕ) (lifetime : List ℕ) (token : ℕ)
    (telemetry : Telemetry) (s : RefreshToken)
    → revoke_device db now user device_id ≡ ok (d, db')
    → d.revoked_at ≡ none
    → token_of_hash db' (hash token) ≡ some s
    → is_id s.device_id device_id ≡ true
    → (count (on_device db' license_id device_id) db'.activations ≡ 0)
      × (refresh hash db' met later id raw lifetime token telemetry ≡ err invalid_refresh_token)
revoke-clears hash db now user device_id d db' met license_id later id raw lifetime token telemetry
      s h live found on =
    let (slots, tokens) = revoke-Cleared hash db now user device_id d db' h live in
    (
      slots license_id,
      refused hash db' met later id raw lifetime token telemetry (
          revoked_refused db' later (token_of_hash db' (hash token)) s found
            (tokens token s found on)),
    )
