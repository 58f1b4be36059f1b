-- ===== src/Tests/Access.antt =====
-- Access to the application.
use mathlib.Core.List.{Memᴰ}
use ruznamo_backend.Common.{false, ◌≡◌, ◌≤◌, ◌<◌, ◌⊎◌, ◌↔◌, refl, true, some, [], ◌∷◌, ok}
use ruznamo_backend.Db.{License, User, LicenseStatus, Db, plan_code_rank}
use ruznamo_backend.Entitlements.Types.{EntitlementSnapshot}
use ruznamo_backend.Entitlements.Pick.{is_candidate, expiry_time, pick_best_active_license}
use ruznamo_backend.Entitlements.Pick.Best.{pick_best-max}
use ruznamo_backend.Entitlements.Snapshot.{get_snapshot, snapshot_for, user_of}
use ruznamo_backend.Entitlements.Snapshot.Access.{Grounds, access_iff}
use ruznamo_backend.Tests.Shop.{shop, license, owner, runs}

abbrev early : License
early = record (license 91 0 LicenseStatus.active) { expires_at = some 3000 }

abbrev late : License
late = record (license 92 0 LicenseStatus.active) { expires_at = some 4000 }

picked : pick_best_active_license 1000 (early ∷ late ∷ []) ≡ some late
unfolding runs
picked = refl

early_usable : is_candidate 1000 early ≡ true
unfolding runs
early_usable = refl

pick_best-max_example :
    Memᴰ late (early ∷ late ∷ [])
    × (is_candidate 1000 late ≡ true)
    × ((plan_code_rank early.plan.code < plan_code_rank late.plan.code)
        ⊎ ((plan_code_rank early.plan.code ≡ plan_code_rank late.plan.code)
            × (expiry_time early.expires_at ≤ expiry_time late.expires_at)))
pick_best-max_example =
    pick_best-max 1000 (early ∷ late ∷ []) late early picked (Memᴰ.head refl) early_usable

-- With no license.
abbrev trial_shop : Db
trial_shop = record shop { licenses = [] }

abbrev on_trial : EntitlementSnapshot
on_trial = snapshot_for trial_shop 1000 (some 21) owner

snapshot : get_snapshot trial_shop 1000 1 (some 21) ≡ ok on_trial
unfolding runs
snapshot = refl

-- The trial gives access on a device of the user, and ends.
trial_tests :
    (on_trial.access ≡ true)
    × ((snapshot_for trial_shop 9000 (some 21) owner).access ≡ false)
    × ((snapshot_for trial_shop 1000 (some 99) owner).access ≡ false)
unfolding runs
trial_tests = (refl, refl, refl)

access_iff_example :
    (on_trial.access ≡ true)
    ↔ ((u : User) × (user_of trial_shop 1 ≡ some u) × Grounds trial_shop 1000 (some 21) u)
access_iff_example = access_iff trial_shop 1000 1 (some 21) on_trial snapshot
