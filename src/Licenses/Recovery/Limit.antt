-- ===== src/Licenses/Recovery/Limit.antt =====
-- The device limit under an activation without the key, and the cooldown after a replacement on a grant.
use ruznamo_backend.Common.{
  arith, ℕ, ◌≡◌, ◌≤◌, ◌-◌, ◌∙◌, refl, Bool, true, false, none, some, List, [], ◌∷◌, ok, ◌==◌, ◌&&◌,
  leb, any, insert, find_sound, >>=-eq-ok, or_throw, throw_if-eq-ok, ok-injective, Bool-cases, inl,
  inr, license_not_found, device_revoked,
}
use ruznamo_backend.Db.{Db, License, LicenseEvent, ActorType, log}
use ruznamo_backend.Licenses.Slots.{active_count, assert_license_activatable}
use ruznamo_backend.Licenses.Activate.{
  MobileJwtPayload, Activated, session_device, set_active, activation_event,
}
use ruznamo_backend.Licenses.Replacement.{
  license_of, slot_limit, is_active_pair, cooldown, counts_for_cooldown,
  assert_replacement_cooldown, execute_replacement,
}
use ruznamo_backend.Licenses.Replacement.Run.{execute_replacement-Replaced}
use ruznamo_backend.Licenses.Replacement.Slots.{PairsUnique, count-occupy_le}
use ruznamo_backend.Licenses.Recovery.{
  assert_valid_grant, assert_license_held_by_grant, activate_via_telegram_tx, claim_via_telegram,
  replace_device_via_grant,
}
use mathlib.Core.Path.{ap, subst, sym}

claim-le-limit :
    (db : Db) (now : ℕ) (l : License) (device_id : ℕ) (db' : Db)
    → PairsUnique db.activations
    → claim_via_telegram db now l device_id ≡ ok (false, db')
    → active_count db' l.id ≤ slot_limit l
unfolding claim_via_telegram active_count set_active
claim-le-limit db now l device_id db' unique h =
    elim (Bool-cases (is_active_pair db l.id device_id)) [
      | inl there ↦ absurd (ground arith)
      | inr free ↦ elim (Bool-cases (leb (slot_limit l) (active_count db l.id))) [
        | inl full ↦ absurd (ground arith)
        | inr room ↦ ground (
          arith,
          count-occupy_le db.devices now l.id device_id db.activations (unique l.id device_id),
        )
      ]
    ]

-- Where the schema's unique pairs hold, an activation without the key that is not a repeat leaves the
-- license within its plan's limit.
pub telegram-le-limit :
    (db : Db) (now grant_id license_id : ℕ) (user : MobileJwtPayload) (r : Activated) (db' : Db)
    → PairsUnique db.activations
    → activate_via_telegram_tx db now grant_id license_id user ≡ ok (r, db')
    → r.idempotent ≡ false
    → active_count db' r.license.id ≤ slot_limit r.license
unfolding activate_via_telegram_tx
telegram-le-limit db now grant_id license_id user r db' unique h new =
    let (g, e₁, h₁) = >>=-eq-ok (assert_valid_grant db now grant_id user) _ h in
    let (u₂, e₂, h₂) = >>=-eq-ok (assert_license_held_by_grant db g license_id) _ h₁ in
    let (l, e₃, h₃) = >>=-eq-ok (or_throw (license_of db license_id) license_not_found) _ h₂ in
    let (u₄, e₄, h₄) = >>=-eq-ok (assert_license_activatable now l) _ h₃ in
    let (d, e₅, h₅) = >>=-eq-ok (or_throw (session_device db user) device_revoked) _ h₄ in
    let (c, e₆, h₆) = >>=-eq-ok (claim_via_telegram db now l d.id) _ h₅ in
    let same = ok-injective h₆ in
    let claimed : claim_via_telegram db now l d.id ≡ ok (false, db') =
      subst (λ b. claim_via_telegram db now l d.id ≡ ok (b, db'))
        (ap (λ p. p.0.idempotent) same ∙ new)
        (subst (λ x. claim_via_telegram db now l d.id ≡ ok (c.0, x)) (ap (λ p. p.1) same) e₆) in
    subst (λ m. active_count db' m.id ≤ slot_limit m) (ap (λ p. p.0.license) same)
      (claim-le-limit db now l d.id db' unique claimed)

any_later :
    (p q : LicenseEvent → Bool) (x : LicenseEvent) (xs : List LicenseEvent)
    → any p xs ≡ false
    → ((e : LicenseEvent) → q e ≡ true → p e ≡ true)
    → q x ≡ false
    → any q (insert x xs) ≡ false
unfolding any
any_later p q x [] h sub k = ground arith
any_later p q x (y ∷ ys) h sub k = ground (arith, any_later p q x ys, sub y)

still_cool :
    (db db' : Db) (now later k : ℕ) (e : LicenseEvent)
    → assert_replacement_cooldown db now k ≡ ok tt
    → now ≤ later
    → db'.events ≡ insert e db.events
    → counts_for_cooldown e.reason ≡ false
    → assert_replacement_cooldown db' later k ≡ ok tt
unfolding assert_replacement_cooldown
still_cool db db' now later k e cool order events uncounted = rw events (
    rw
      (any_later
        (λ x.
          x.license_id == k && counts_for_cooldown x.reason && leb (now - cooldown) x.created_at)
        (λ x.
          x.license_id == k && counts_for_cooldown x.reason && leb (later - cooldown) x.created_at)
        e db.events (throw_if-eq-ok _ _ cool) (λ x h. ground arith) (ground arith))
      refl)

license_of-id : (db : Db) (k : ℕ) (l : License) → license_of db k ≡ some l → l.id ≡ k
unfolding license_of
license_of-id db k l h = let at' = find_sound (λ m. m.id == k) db.licenses {x = l} h in ground arith

-- A replacement on a grant starts no cooldown and uses up no grant: right after it, and at any later time
-- with no other event, the cooldown is passed as before, and every grant is as it was.
pub grant-no_cooldown :
    (db : Db) (now grant_id license_id old_device_id : ℕ) (user : MobileJwtPayload) (db' : Db)
    (later : ℕ)
    → replace_device_via_grant db now grant_id license_id old_device_id user ≡ ok db'
    → now ≤ later
    → (assert_replacement_cooldown db' later license_id ≡ ok tt) × (db'.grants ≡ db.grants)
unfolding replace_device_via_grant log
grant-no_cooldown db now grant_id license_id old_device_id user db' later h order =
    let (g, e₁, h₁) = >>=-eq-ok (assert_valid_grant db now grant_id user) _ h in
    let (u₂, e₂, h₂) = >>=-eq-ok (assert_license_held_by_grant db g license_id) _ h₁ in
    let (after, e₃, h₃) =
      >>=-eq-ok
        (execute_replacement db db now license_id user.device_id old_device_id g.telegram_account_id
          ActorType.user user.sub "telegram_grant_device_replacement" none)
        _ h₂ in
    let ran =
      execute_replacement-Replaced db now license_id user.device_id old_device_id
        g.telegram_account_id ActorType.user user.sub "telegram_grant_device_replacement" none after
        e₃ in
    let logged = ok-injective h₃ in
    (
      still_cool db db' now later license_id
          (activation_event now ran.license "telegram_grant_device_replacement")
          (subst (λ k. assert_replacement_cooldown db now k ≡ ok tt)
            (license_of-id db license_id ran.license ran.found) ran.cool)
          order (ap (λ x. x.events) (sym logged) ∙ ran.events) refl,
      ap (λ x. x.grants) (sym logged) ∙ ran.grants,
    )
