-- ===== src/Entitlements/Snapshot/Access.antt =====
-- What access rests on.
use mathlib.Core.Path.{subst}
use ruznamo_backend.Common.{
  ℕ, ◌≡◌, ◌<◌, ◌↔◌, ◌⊎◌, refl, true, false, Option, none, some, arith, ok, Option-cases, inl, inr,
}
use ruznamo_backend.Db.{Db, User, UserStatus, License, TrialGrant, TrialStatus}
use ruznamo_backend.Entitlements.Types.{EntitlementSnapshot}
use ruznamo_backend.Entitlements.Pick.{is_candidate, pick_best_active_license}
use ruznamo_backend.Entitlements.Pick.Best.{picked-IsBest}
use ruznamo_backend.Entitlements.Queries.{
  current_device_has_activation, current_device, is_revoked_device, is_live_device,
}
use ruznamo_backend.Entitlements.Snapshot.{
  candidates, snapshot_for, active_user_snapshot, build_snapshot, get_snapshot, entitled_on,
  user_of, trial_of,
}

module _ (db : Db) (now : ℕ) (installation : Option ℕ) where
  -- The license picked has an activation on this installation that is not revoked.
  abbrev pub OnLicense : ℕ → License → Type 0
  OnLicense user_id l =
      (pick_best_active_license now (candidates db user_id) ≡ some l)
      × (is_candidate now l ≡ true)
      × ((i : ℕ) × (installation ≡ some i)
          × (current_device_has_activation db user_id i l.id ≡ true))

  -- No license is usable, the trial has not ended, and the installation, if one is named, is a
  -- device of the user.
  abbrev pub OnTrial : ℕ → TrialGrant → Type 0
  OnTrial user_id t =
      (pick_best_active_license now (candidates db user_id) ≡ none)
      × (trial_of db user_id ≡ some t)
      × (t.status ≡ TrialStatus.active)
      × (now < t.expires_at)
      × ((installation ≡ none) ⊎ (is_live_device (current_device db user_id installation) ≡ true))

  abbrev pub Grounds : User → Type 0
  Grounds u =
      (u.status ≡ UserStatus.active)
      × (is_revoked_device (current_device db u.id installation) ≡ false)
      × (((l : License) × OnLicense u.id l) ⊎ ((t : TrialGrant) × OnTrial u.id t))

license_access :
    (db : Db) (now user_id : ℕ) (installation : Option ℕ) (l : License)
    → (active_user_snapshot db now user_id installation (some l)).access ≡ true
    → (is_revoked_device (current_device db user_id installation) ≡ false)
      × ((i : ℕ) × (installation ≡ some i)
          × (current_device_has_activation db user_id i l.id ≡ true))
unfolding active_user_snapshot build_snapshot entitled_on
license_access db now user_id none l h = absurd (ground arith)
license_access db now user_id (some i) l h = (ground arith, (i, refl, ground arith))

trial_access :
    (db : Db) (now user_id : ℕ) (installation : Option ℕ)
    → pick_best_active_license now (candidates db user_id) ≡ none
    → (active_user_snapshot db now user_id installation none).access ≡ true
    → (is_revoked_device (current_device db user_id installation) ≡ false)
      × ((t : TrialGrant) × OnTrial db now installation user_id t)
unfolding active_user_snapshot build_snapshot
trial_access db now user_id installation unlicensed h = elim (Option-cases (trial_of db user_id)) [
  | inl missing ↦ absurd (ground arith)
  | inr (t, found) ↦
      (ground arith, (t, (unlicensed, found, ground arith, ground arith, ground arith)))
]

pub status_cases :
    (s : UserStatus)
    → (s ≡ UserStatus.active) ⊎ ((s ≡ UserStatus.suspended) ⊎ (s ≡ UserStatus.deleted))
status_cases UserStatus.active = inl refl
status_cases UserStatus.suspended = inr (inl refl)
status_cases UserStatus.deleted = inr (inr refl)

snapshot_access :
    (db : Db) (now : ℕ) (installation : Option ℕ) (u : User)
    → (snapshot_for db now installation u).access ≡ true
    → Grounds db now installation u
unfolding snapshot_for build_snapshot
snapshot_access db now installation u h = elim (status_cases u.status) [
  | inr refused ↦ absurd (ground arith)
  | inl active ↦ elim (Option-cases (pick_best_active_license now (candidates db u.id))) [
    | inl unlicensed ↦
        let (live, trial) = trial_access db now u.id installation unlicensed (ground arith) in
        (active, live, inr trial)
    | inr (l, picked) ↦
        let (live, on) = license_access db now u.id installation l (ground arith) in
        (active, live, inl (l, (picked, (picked-IsBest now (candidates db u.id) l picked).1, on)))
  ]
]

Grounds-access :
    (db : Db) (now : ℕ) (installation : Option ℕ) (u : User)
    → Grounds db now installation u
    → (snapshot_for db now installation u).access ≡ true
unfolding snapshot_for active_user_snapshot build_snapshot entitled_on
Grounds-access db now installation u (active, live, inl (l, (picked, usable, (i, here, on)))) =
    ground arith
Grounds-access db now installation u (active, live, inr (t, (none', found, status, later, here))) =
    ground arith

-- Access is granted exactly when the user is active, the installation is not revoked, and either the
-- license that is picked is usable and has an unrevoked activation on this installation, or no
-- license is usable, the trial is active and has not ended, and the installation, if one is named,
-- is a live device of the user.
pub access_iff :
    (db : Db) (now user_id : ℕ) (installation : Option ℕ) (s : EntitlementSnapshot)
    → get_snapshot db now user_id installation ≡ ok s
    → (s.access ≡ true)
      ↔ ((u : User) × (user_of db user_id ≡ some u) × Grounds db now installation u)
unfolding get_snapshot
access_iff db now user_id installation s h = elim (Option-cases (user_of db user_id)) [
  | inl missing ↦ absurd (ground arith)
  | inr (u, found) ↦
      let same : snapshot_for db now installation u ≡ s = ground arith in
      (
        λ a. (u, found, snapshot_access db now installation u (rw same a)),
        λ (v, found', g).
            let e : v ≡ u = ground arith in
            rw (← same)
              (Grounds-access db now installation u (subst (Grounds db now installation) e g)),
      )
]
