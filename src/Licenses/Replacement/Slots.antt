-- ===== src/Licenses/Replacement/Slots.antt =====
-- The device limit under replacement.
use ruznamo_backend.Common.{
  if◌then◌else◌, none, ◌<◌, find_sound, not, false, ℕ, ◌≡◌, ◌≤◌, ◌+◌, refl, true, Option, some,
  List, arith, ok, String, ◌&&◌, ltb, count, any, find, is_none, Option-cases, Bool-cases, inl, inr,
}
use ruznamo_backend.Common.Counting.{
  find-update_where, count_mono, count-find-some, count-update_gain, count-insert,
  count-update_drop, count-update_same, count-update_le, count-any,
}
use ruznamo_backend.Db.{Db, License, Device, Activation, ActorType}
use ruznamo_backend.Licenses.Slots.{is_pair, is_active_slot, active_count}
use ruznamo_backend.Licenses.Activate.{new_activation}
use ruznamo_backend.Licenses.Replacement.{
  is_active_pair, device_live, license_of, revive, retire, occupy, vacate, replaced, slot_limit,
  execute_replacement,
}
use ruznamo_backend.Licenses.Replacement.Run.{execute_replacement-Replaced}

-- At most one row for each license and device (`@@unique([licenseId, deviceId])`).
abbrev pub PairsUnique : List Activation → Type 0
PairsUnique activations = (l d : ℕ) → count (is_pair l d) activations ≤ 1

module _ (devices : List Device) (now l : ℕ) where
  pub count-occupy_le :
      (d : ℕ) (xs : List Activation)
      → count (is_pair l d) xs ≤ 1
      → count (is_active_slot devices l) (occupy now l d xs)
        ≤ count (is_active_slot devices l) xs + 1
  unfolding occupy
  count-occupy_le d xs unique = elim (Option-cases (find (is_pair l d) xs)) [
    | inl missing ↦
        rw (missing, occupy)
          (ground (arith, count-insert (is_active_slot devices l) (new_activation now l d) xs))
    | inr (a, found) ↦
        rw (found, occupy)
          (omega (arith, count-update_le (is_active_slot devices l) (is_pair l d) revive xs))
  ]

  count-vacate :
      (old : ℕ) (xs : List Activation)
      → count (is_active_slot devices l) (vacate now l old xs)
          + count (λ a. is_active_slot devices l a && (is_pair l old a && is_none a.revoked_at)) xs
        ≡ count (is_active_slot devices l) xs
  unfolding vacate is_active_slot
  count-vacate old xs =
      count-update_drop (is_active_slot devices l) (λ a. is_pair l old a && is_none a.revoked_at)
        (retire now) xs (λ a h. ground arith)

  pairs-vacate :
      (old d : ℕ) (xs : List Activation)
      → count (is_pair l d) (vacate now l old xs) ≡ count (is_pair l d) xs
  unfolding vacate
  pairs-vacate old d xs =
      count-update_same (is_pair l d) (λ a. is_pair l old a && is_none a.revoked_at) (retire now) xs
        (λ a h. refl)

-- The old device holds an active slot of the license.
abbrev pub HoldsSlot : Db → ℕ → ℕ → Type 0
HoldsSlot db l old =
    any (λ a. is_active_slot db.devices l a && (is_pair l old a && is_none a.revoked_at))
      db.activations
    ≡ true

replaced-le :
    (db : Db) (now : ℕ) (l : License) (new_device_id old_device_id : ℕ)
    → PairsUnique db.activations
    → HoldsSlot db l.id old_device_id
    → active_count db l.id ≤ slot_limit l
    → count (is_active_slot db.devices l.id) (replaced db now l new_device_id old_device_id)
      ≤ slot_limit l
unfolding replaced active_count
replaced-le db now l d old unique holds fits =
    let p = is_active_slot db.devices l.id in
    elim (Bool-cases (ltb (count p db.activations) (slot_limit l))) [
      | inl room ↦
          rw room
            (ground (arith, count-occupy_le db.devices now l.id d db.activations (unique l.id d)))
      | inr full ↦ rw full (
          omega (
            arith,
            count-occupy_le db.devices now l.id d (vacate now l.id old db.activations)
                (rw (pairs-vacate db.devices now l.id old d db.activations) (unique l.id d)),
            count-vacate db.devices now l.id old db.activations,
            count-any
                (λ a.
                  is_active_slot db.devices l.id a && (is_pair l.id old a && is_none a.revoked_at))
                db.activations holds,
          ))
    ]

-- Where the schema's unique pairs hold, the license is within its plan's limit and the old device
-- holds a slot of it, a replacement leaves the license within the limit.
pub replacement-le-limit :
    (db : Db) (now license_id new_device_id old_device_id holder : ℕ) (actor_type : ActorType)
    (actor_id : ℕ) (reason : String) (consumed : Option ℕ) (db' : Db) (l : License)
    → PairsUnique db.activations
    → license_of db license_id ≡ some l
    → HoldsSlot db l.id old_device_id
    → active_count db l.id ≤ slot_limit l
    → execute_replacement db db now license_id new_device_id old_device_id holder actor_type
        actor_id reason consumed
      ≡ ok db'
    → active_count db' l.id ≤ slot_limit l
unfolding active_count
replacement-le-limit db now license_id new_device_id old_device_id holder actor_type actor_id reason
      consumed db' l unique found holds fits h =
    let run =
      execute_replacement-Replaced db now license_id new_device_id old_device_id holder actor_type
        actor_id reason consumed db' h in
    let same : run.license ≡ l = ground (arith, run.found) in
    rw (run.devices, run.activations, same)
      (replaced-le db now l new_device_id old_device_id unique holds fits)

-- The new device's slot is one more, when it holds none yet and is not blocked.
occupy-grows :
    (devices : List Device) (now l d : ℕ) (xs : List Activation)
    → device_live devices d ≡ true
    → ((a : Activation) → find (is_pair l d) xs ≡ some a → is_none a.revoked_at ≡ false)
    → count (is_active_slot devices l) xs + 1 ≤ count (is_active_slot devices l) (occupy now l d xs)
unfolding is_active_slot occupy
occupy-grows devices now l d xs live inactive = elim (Option-cases (find (is_pair l d) xs)) [
  | inl missing ↦
      rw (missing, occupy)
        (ground (arith, count-insert (is_active_slot devices l) (new_activation now l d) xs))
  | inr (a, found) ↦
      rw (found, occupy)
        (omega (
          arith,
          count-update_gain (is_active_slot devices l) (is_pair l d) revive xs
              (λ b h. ground arith),
          count-find-some (is_pair l d) (λ b. not (is_active_slot devices l b) && is_pair l d b) xs
              a found (ground (arith, find_sound (is_pair l d) xs {x = a}, inactive a found)),
        ))
]

count-vacate_none :
    (devices : List Device) (now l old : ℕ) (xs : List Activation)
    → count (λ a. is_pair l old a && is_none a.revoked_at) xs ≡ 0
    → count (is_active_slot devices l) (vacate now l old xs) ≡ count (is_active_slot devices l) xs
count-vacate_none devices now l old xs empty = omega (
  arith,
  count-vacate devices now l old xs,
  count_mono (λ a. is_active_slot devices l a && (is_pair l old a && is_none a.revoked_at))
      (λ a. is_pair l old a && is_none a.revoked_at) xs (λ a h. ground arith),
  empty,
)

find-vacate :
    (now l old d : ℕ) (xs : List Activation)
    → find (is_pair l d) (vacate now l old xs) ≡ elim (find (is_pair l d) xs) [
      | none ↦ none
      | some a ↦ some (if is_pair l old a && is_none a.revoked_at then retire now a else a)
    ]
unfolding vacate
find-vacate now l old d xs =
    find-update_where (is_pair l d) (λ a. is_pair l old a && is_none a.revoked_at) (retire now) xs
      (λ a. refl)

-- What `is_active_pair` said of the new device still holds after the old one is vacated.
stays_inactive :
    (db : Db) (now l old d : ℕ)
    → device_live db.devices d ≡ true
    → is_active_pair db l d ≡ false
    → (a : Activation) → find (is_pair l d) (vacate now l old db.activations) ≡ some a
    → is_none a.revoked_at ≡ false
stays_inactive db now l old d live inactive a found =
    elim (Option-cases (find (is_pair l d) db.activations)) [
      | inl missing ↦ absurd (cc (find-vacate now l old d db.activations, missing))
      | inr (b, there) ↦ ground (arith, find-vacate now l old d db.activations)
    ]

-- A license that is full goes over its plan's limit when it gets a new device that is not revoked
-- in place of one that holds no unrevoked activation of it: nothing is given up, and the new
-- device gets a slot all the same.
pub replacement_overflows :
    (db : Db) (now license_id new_device_id old_device_id holder : ℕ) (actor_type : ActorType)
    (actor_id : ℕ) (reason : String) (consumed : Option ℕ) (db' : Db) (l : License)
    → license_of db license_id ≡ some l
    → count (λ a. is_pair l.id old_device_id a && is_none a.revoked_at) db.activations ≡ 0
    → slot_limit l ≤ active_count db l.id
    → device_live db.devices new_device_id ≡ true
    → execute_replacement db db now license_id new_device_id old_device_id holder actor_type
        actor_id reason consumed
      ≡ ok db'
    → slot_limit l < active_count db' l.id
unfolding active_count replaced
replacement_overflows db now license_id new_device_id old_device_id holder actor_type actor_id
      reason consumed db' l found empty full live h =
    let run =
      execute_replacement-Replaced db now license_id new_device_id old_device_id holder actor_type
        actor_id reason consumed db' h in
    let same : run.license ≡ l = ground (arith, run.found) in
    let p = is_active_slot db.devices l.id in
    let inactive : is_active_pair db l.id new_device_id ≡ false = rw (← same) run.inactive in
    let no_room : ltb (count p db.activations) (slot_limit l) ≡ false = ground arith in
    rw (run.devices, run.activations, same)
      (rw (no_room, replaced)
        (omega (
          arith,
          full,
          count-vacate_none db.devices now l.id old_device_id db.activations empty,
          occupy-grows db.devices now l.id new_device_id
              (vacate now l.id old_device_id db.activations) live
              (stays_inactive db now l.id old_device_id new_device_id live inactive),
        )))
