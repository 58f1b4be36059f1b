-- ===== src/Devices/Registration/Trial.antt =====
-- One account and one trial for an installation: registerDevice of auth/auth.service.ts, again.
use ruznamo_backend.Common.{
  inr, inl, Option-cases, maintenance_mode, or_throw-eq-ok, throw_if-eq-ok, user_not_found,
  or_throw, unique_violation, device_revoked, any, sym, throw_if, ok-injective, >>=-eq-ok, [], suc,
  ◌∷◌, length, update_where, ℕ, ◌≡◌, refl, Bool, false, Option, some, none, List, ok, ◌==◌, ◌∙◌, ap,
  is_some, arith, ==_refl, find_sound,
}
use ruznamo_backend.Common.Counting.{find-insert, find-insert, find-update_where}
use ruznamo_backend.Db.{ActorType, Db, User, Device, TrialGrant, UserStatus, log}
use ruznamo_backend.Entitlements.Snapshot.{user_of, trial_of}
use ruznamo_backend.Sessions.{issue_token_pair, seen_at}
use ruznamo_backend.Devices.Category.{RegisterDeviceDto, patch_profile}
use ruznamo_backend.Devices.Registration.{
  in_maintenance, register_device, new_user, trial_duration_hours, new_trial, new_device,
  create_account, register_new, Drawn, Registered, installation_of, check_usable, note_return,
  register_known,
}
use mathlib.Core.Path.{subst}

-- The installation is known: its device is not revoked, and its user is active and has this trial.
pub record Known (db : Db) (installation_id : ℕ) (d : Device) (u : User) (trial : Option TrialGrant)
    : Type 0 where
  pub on_device : installation_of db installation_id ≡ some d
  pub unrevoked : d.revoked_at ≡ none
  pub owned : user_of db d.user_id ≡ some u
  pub active : u.status ≡ UserStatus.active
  pub with_trial : trial_of db d.user_id ≡ trial

patch_id : (dto : RegisterDeviceDto) (u : User) → (patch_profile dto u).id ≡ u.id
unfolding patch_profile
patch_id dto u = refl

patch_status : (dto : RegisterDeviceDto) (u : User) → (patch_profile dto u).status ≡ u.status
unfolding patch_profile
patch_status dto u = refl

-- The tables after a return, as far as they decide the next one.
return-Known :
    (db : Db) (now : ℕ) (dto : RegisterDeviceDto) (d : Device) (u : User)
    (trial : Option TrialGrant)
    → Known db dto.installation_id d u trial
    → Known
        (note_return now dto d.user_id d.id db)
        dto.installation_id
        (seen_at now d)
        (patch_profile dto u)
        trial
unfolding note_return installation_of user_of trial_of
return-Known db now dto d u trial k =
    let u_id : u.id ≡ d.user_id =
      ground (arith, find_sound (λ (x : User). x.id == d.user_id) db.users {x = u}, k.owned) in
    record {
      on_device =
          find-update_where (λ x. x.installation_id == dto.installation_id) (λ x. x.id == d.id)
            (seen_at now) db.devices (λ x. refl)
          ∙ rw k.on_device (rw (==_refl d.id) refl);
      unrevoked = k.unrevoked;
      owned =
          find-update_where (λ x. x.id == d.user_id) (λ x. x.id == d.user_id) (patch_profile dto)
            db.users (λ x. rw (patch_id dto x) refl)
          ∙ rw k.owned (rw (u_id, ==_refl d.user_id) refl);
      active = patch_status dto u ∙ k.active;
      with_trial = k.with_trial;
    }

-- The rows that a token pair and the log leave alone.
issued-Known :
    (db db' : Db) (installation_id : ℕ) (d : Device) (u : User) (trial : Option TrialGrant)
    → Known db installation_id d u trial
    → db'.users ≡ db.users
    → db'.devices ≡ db.devices
    → db'.trials ≡ db.trials
    → Known db' installation_id d u trial
unfolding installation_of user_of trial_of
issued-Known db db' installation_id d u trial k users devices trials = record {
  on_device = rw devices k.on_device;
  unrevoked = k.unrevoked;
  owned = rw users k.owned;
  active = k.active;
  with_trial = rw trials k.with_trial;
}

length-update_where :
    {A : Type 0} (p : A → Bool) (f : A → A) (xs : List A) → length (update_where p f xs) ≡ length xs
unfolding update_where
length-update_where p f [] = refl
length-update_where p f (x ∷ xs) = ap suc (length-update_where p f xs)

module _ (hash : ℕ → ℕ) (db : Db) (now : ℕ) (lifetime : List ℕ) (dto : RegisterDeviceDto)
    (drawn : Drawn) where
  -- What a registration of a known installation answers and leaves.
  abbrev Returned : Device → User → Option TrialGrant → Registered → Db → Type 0
  Returned d u trial r db' =
      (r.user.id ≡ u.id)
      × (r.device.id ≡ d.id)
      × (r.trial ≡ trial)
      × (db'.trials ≡ db.trials)
      × (length db'.users ≡ length db.users)
      × Known db' dto.installation_id r.device r.user r.trial

  Known-register :
      (d : Device) (u : User) (trial : Option TrialGrant)
      → Known db dto.installation_id d u trial
      → (r : Registered) × (db' : Db) × (register_known hash db now lifetime dto drawn d
          ≡ ok (r, db'))
        × Returned d u trial r db'
  unfolding register_known issue_token_pair log note_return
  Known-register d u trial k =
      let live : is_some d.revoked_at ≡ false = rw k.unrevoked refl in
      let usable : check_usable u.status ≡ ok tt = rw k.active refl in
      let noted = note_return now dto d.user_id d.id db in
      let after = return-Known db now dto d u trial k in
      let left =
        log ActorType.user d.user_id "mobile.login" d.id (
          issue_token_pair noted now drawn.token_id d.user_id d.id (hash drawn.raw) lifetime
            none) in
      let r : Registered = (record {
        token = drawn.raw;
        user = patch_profile dto u;
        device = seen_at now d;
        trial = trial;
      }) in
      (
        r,
        left,
        rw (live, k.owned, usable, after.owned, after.with_trial) refl,
        (
          patch_id dto u,
          refl,
          refl,
          refl,
          length-update_where (λ x. x.id == d.user_id) (patch_profile dto) db.users,
          issued-Known noted left dto.installation_id (seen_at now d) (patch_profile dto u) trial
              after refl refl refl,
        ),
      )

  unset : (o : Option ℕ) → is_some o ≡ false → o ≡ none
  unset o h = ground arith

  usable_active : (s : UserStatus) → check_usable s ≡ ok tt → s ≡ UserStatus.active
  usable_active UserStatus.active h = refl
  usable_active UserStatus.suspended h = absurd (cc)
  usable_active UserStatus.deleted h = absurd (cc)

  -- A return that went through was to a known installation.
  register_known-Known :
      (d : Device) (r : Registered) (db' : Db)
      → installation_of db dto.installation_id ≡ some d
      → register_known hash db now lifetime dto drawn d ≡ ok (r, db')
      → (u : User) × Known db dto.installation_id d u (trial_of db d.user_id)
  unfolding register_known
  register_known-Known d r db' found h =
      let (u₁, e₁, h₁) = >>=-eq-ok (throw_if (is_some d.revoked_at) device_revoked) _ h in
      let (u, e₂, h₂) = >>=-eq-ok (or_throw (user_of db d.user_id) user_not_found) _ h₁ in
      let (u₃, e₃, h₃) = >>=-eq-ok (check_usable u.status) _ h₂ in
      (
        u,
        record {
          on_device = found;
          unrevoked = unset d.revoked_at (throw_if-eq-ok _ _ e₁);
          owned = or_throw-eq-ok _ _ e₂;
          active = usable_active u.status e₃;
          with_trial = refl;
        },
      )

  returned-Known :
      (d : Device) (r : Registered) (db' : Db)
      → installation_of db dto.installation_id ≡ some d
      → register_known hash db now lifetime dto drawn d ≡ ok (r, db')
      → Known db' dto.installation_id r.device r.user r.trial
  returned-Known d r db' found h =
      let (u, k) = register_known-Known d r db' found h in
      let (r₁, db₁, went, facts) = Known-register d u (trial_of db d.user_id) k in
      let same = ok-injective (sym went ∙ h) in
      let (same_user, same_device, same_trial, trials, users, known) = facts in
      subst (λ p. Known p.1 dto.installation_id p.0.device p.0.user p.0.trial) same known

  new-Known :
      (r : Registered) (db' : Db)
      → installation_of db dto.installation_id ≡ none
      → user_of db drawn.user_id ≡ none
      → trial_of db drawn.user_id ≡ none
      → register_new hash db now lifetime dto drawn ≡ ok (r, db')
      → Known db' dto.installation_id r.device r.user r.trial
  unfolding register_new create_account issue_token_pair log installation_of user_of trial_of
  new-Known r db' missing fresh untried h =
      let (made, e₁, h₁) = >>=-eq-ok (create_account db now dto drawn) _ h in
      let (u₂, e₂, h₂) =
        >>=-eq-ok
          (throw_if (any (λ t. t.installation_id == dto.installation_id) db.trials)
            unique_violation)
          _ e₁ in
      let device = new_device now drawn.device_id drawn.user_id dto.installation_id in
      let trial = new_trial now (trial_duration_hours db) drawn.user_id dto.installation_id in
      let start : Known made dto.installation_id device (new_user dto drawn.user_id) (some trial) =
        subst (λ m. Known m dto.installation_id device (new_user dto drawn.user_id) (some trial))
          (ok-injective h₂)
          (record {
            on_device =
                find-insert (λ x. x.installation_id == dto.installation_id) device db.devices
                  missing (==_refl dto.installation_id);
            unrevoked = refl;
            owned =
                find-insert (λ x. x.id == drawn.user_id) (new_user dto drawn.user_id) db.users fresh
                  (==_refl drawn.user_id);
            active = refl;
            with_trial =
                find-insert (λ x. x.user_id == drawn.user_id) trial db.trials untried
                  (==_refl drawn.user_id);
          }) in
      subst (λ p. Known p.1 dto.installation_id p.0.device p.0.user p.0.trial) (ok-injective h₁)
        (issued-Known made _ dto.installation_id device (new_user dto drawn.user_id) (some trial)
          start refl refl refl)

registered-Known :
    (hash : ℕ → ℕ) (db : Db) (now : ℕ) (lifetime : List ℕ) (dto : RegisterDeviceDto) (drawn : Drawn)
    (r : Registered) (db' : Db)
    → user_of db drawn.user_id ≡ none
    → trial_of db drawn.user_id ≡ none
    → register_device hash db now lifetime dto drawn ≡ ok (r, db')
    → Known db' dto.installation_id r.device r.user r.trial
unfolding register_device
registered-Known hash db now lifetime dto drawn r db' fresh untried h =
    let (u, e, h₁) = >>=-eq-ok (throw_if (in_maintenance db) maintenance_mode) _ h in
    elim (Option-cases (installation_of db dto.installation_id)) [
      | inl missing ↦
          new-Known hash db now lifetime dto drawn r db' missing fresh untried (rw missing at h₁)
      | inr (d, found) ↦
          returned-Known hash db now lifetime dto drawn d r db' found (rw found at h₁)
    ]

-- Where the user's id that a registration draws is new, an installation that was registered stays with its
-- account: on the tables that the registration leaves, so that neither the user nor the device was refused
-- since, and while there is no maintenance, a second registration of it at any time goes through and
-- answers the same user, device and trial, and creates no user and no trial.
pub register-again :
    (hash : ℕ → ℕ) (db : Db) (now : ℕ) (lifetime : List ℕ) (dto : RegisterDeviceDto) (drawn : Drawn)
    (r : Registered) (db' : Db) (later : ℕ) (lifetime' : List ℕ) (dto' : RegisterDeviceDto)
    (drawn' : Drawn)
    → user_of db drawn.user_id ≡ none
    → trial_of db drawn.user_id ≡ none
    → register_device hash db now lifetime dto drawn ≡ ok (r, db')
    → dto'.installation_id ≡ dto.installation_id
    → in_maintenance db' ≡ false
    → (r' : Registered) × (db'' : Db) × (register_device hash db' later lifetime' dto' drawn'
        ≡ ok (r', db''))
      × (r'.user.id ≡ r.user.id)
      × (r'.device.id ≡ r.device.id)
      × (r'.trial ≡ r.trial)
      × (db''.trials ≡ db'.trials)
      × (length db''.users ≡ length db'.users)
unfolding register_device
register-again hash db now lifetime dto drawn r db' later lifetime' dto' drawn' fresh untried h same
      open' =
    let k = registered-Known hash db now lifetime dto drawn r db' fresh untried h in
    let k' : Known db' dto'.installation_id r.device r.user r.trial = rw same k in
    let (r', db'', went, facts) =
      Known-register hash db' later lifetime' dto' drawn' r.device r.user r.trial k' in
    let (same_user, same_device, same_trial, trials, users, known) = facts in
    (r', db'', rw (open', k'.on_device) went, same_user, same_device, same_trial, trials, users)
