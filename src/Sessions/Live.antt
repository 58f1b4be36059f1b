-- ===== src/Sessions/Live.antt =====
-- What a refresh that went through has read and written.
use ruznamo_backend.Common.{
  arith, ℕ, ◌≡◌, ◌≤◌, refl, Bool, true, false, Option, none, some, List, [], ◌∷◌, ◌==◌, ◌∙◌, ◌&&◌,
  find, insert, update_where, is_none, is_some, ltb, not, ok, err, >>=-eq-ok, or_throw, throw_if,
  or_throw-eq-ok, throw_if-eq-ok, ok-injective, ==_refl, find_sound, Bool-cases, inl, inr,
  invalid_refresh_token, refresh_token_expired, user_not_found, user_suspended, device_revoked,
}
use ruznamo_backend.Common.Counting.{find-update_where, find-insert}
use ruznamo_backend.Db.{Db, User, Device, RefreshToken, ActorType, log}
use ruznamo_backend.Entitlements.Snapshot.{user_of}
use ruznamo_backend.Sessions.{
  Telemetry, absent, given, seen_at, touch_last_seen, sync_by_installation_id, note_seen, new_token,
  rotate, issue_token_pair, token_of_hash, is_user_active, device_of, check_session, refresh,
  parse_expires_in_seconds,
}
use mathlib.Core.Path.{sym, ap, subst}

-- What the checks of a refresh find.
pub record Live (db : Db) (now : ℕ) (s : RefreshToken) (d : Device) : Type 0 where
  pub user : User
  pub unrevoked : s.revoked_at ≡ none
  pub unexpired : now ≤ s.expires_at
  pub owned : user_of db s.user_id ≡ some user
  pub active : is_user_active user.status ≡ true
  pub on_device : device_of db s.device_id ≡ some d
  pub device_unrevoked : d.revoked_at ≡ none

pub unrevoked_if : (o : Option ℕ) → is_some o ≡ false → o ≡ none
unrevoked_if none h = refl
unrevoked_if (some t) h = absurd (cc)

pub le_if : (a b : ℕ) → ltb a b ≡ false → b ≤ a
le_if a b h = ground arith

pub ltb-false : (a b : ℕ) → b ≤ a → ltb a b ≡ false
ltb-false a b h = ground arith

pub eq_if : (a b : ℕ) → (a == b) ≡ true → a ≡ b
eq_if a b h = ground arith

pub ==_swap : (a b : ℕ) → (a == b) ≡ false → (b == a) ≡ false
==_swap a b h = ground arith

pub true_if : (b : Bool) → not b ≡ false → b ≡ true
true_if true h = refl
true_if false h = absurd (cc)

pub check-Live :
    (db : Db) (now : ℕ) (found : Option RefreshToken) (s : RefreshToken) (d : Device)
    → check_session db now found ≡ ok (s, d)
    → (found ≡ some s) × Live db now s d
unfolding check_session
check-Live db now found s d h =
    let (s₁, e₁, h₁) = >>=-eq-ok (or_throw found invalid_refresh_token) _ h in
    let (u₂, e₂, h₂) = >>=-eq-ok (throw_if (is_some s₁.revoked_at) invalid_refresh_token) _ h₁ in
    let (u₃, e₃, h₃) = >>=-eq-ok (throw_if (ltb s₁.expires_at now) refresh_token_expired) _ h₂ in
    let (u, e₄, h₄) = >>=-eq-ok (or_throw (user_of db s₁.user_id) user_not_found) _ h₃ in
    let (u₅, e₅, h₅) = >>=-eq-ok (throw_if (not (is_user_active u.status)) user_suspended) _ h₄ in
    let (d₁, e₆, h₆) = >>=-eq-ok (or_throw (device_of db s₁.device_id) device_revoked) _ h₅ in
    let (u₇, e₇, h₇) = >>=-eq-ok (throw_if (is_some d₁.revoked_at) device_revoked) _ h₆ in
    subst (λ p. (found ≡ some p.0) × Live db now p.0 p.1) (ok-injective h₇)
      (
        or_throw-eq-ok _ _ e₁,
        record {
          user = u;
          unrevoked = unrevoked_if s₁.revoked_at (throw_if-eq-ok _ _ e₂);
          unexpired = le_if s₁.expires_at now (throw_if-eq-ok _ _ e₃);
          owned = or_throw-eq-ok _ _ e₄;
          active = true_if (is_user_active u.status) (throw_if-eq-ok _ _ e₅);
          on_device = or_throw-eq-ok _ _ e₆;
          device_unrevoked = unrevoked_if d₁.revoked_at (throw_if-eq-ok _ _ e₇);
        },
      )

pub Live-check :
    (db : Db) (now : ℕ) (s : RefreshToken) (d : Device)
    → Live db now s d
    → check_session db now (some s) ≡ ok (s, d)
unfolding check_session
Live-check db now s d live = rw live.unrevoked (
    rw (ltb-false s.expires_at now live.unexpired)
      (rw live.owned (rw live.active (rw live.on_device (rw live.device_unrevoked refl)))))

-- A refresh that went through.
pub refresh-ran :
    (hash : ℕ → ℕ) (db met : Db) (now id raw : ℕ) (lifetime : List ℕ) (token : ℕ)
    (telemetry : Telemetry) (t : ℕ) (db' : Db)
    → refresh hash db met now id raw lifetime token telemetry ≡ ok (t, db')
    → (s : RefreshToken) × (d : Device) × (token_of_hash db (hash token) ≡ some s)
      × Live db now s d
      × (t ≡ raw)
      × (db'.tokens
          ≡ update_where
              (λ r. r.id == s.id)
              (rotate now id)
              (insert
                (new_token now id s.user_id d.id (hash raw) (parse_expires_in_seconds lifetime))
                (note_seen met now d telemetry).tokens))
      × (db'.users ≡ (note_seen met now d telemetry).users)
      × (db'.devices ≡ (note_seen met now d telemetry).devices)
unfolding refresh log issue_token_pair
refresh-ran hash db met now id raw lifetime token telemetry t db' h =
    let (p, e, h₁) = >>=-eq-ok (check_session db now (token_of_hash db (hash token))) _ h in
    let (found, live) = check-Live db now (token_of_hash db (hash token)) p.0 p.1 e in
    let same = ok-injective h₁ in
    (
      p.0,
      p.1,
      found,
      live,
      ap (λ q. q.0) (sym same),
      ap (λ q. q.1.tokens) (sym same),
      ap (λ q. q.1.users) (sym same),
      ap (λ q. q.1.devices) (sym same),
    )

pub seen_frame :
    (db : Db) (now : ℕ) (d : Device) (telemetry : Telemetry)
    → ((note_seen db now d telemetry).tokens ≡ db.tokens)
      × ((note_seen db now d telemetry).users ≡ db.users)
unfolding touch_last_seen sync_by_installation_id
seen_frame db now d absent = (refl, refl)
seen_frame db now d (given b) = elim (Bool-cases b) [
  | inl e ↦ rw e (refl, refl)
  | inr e ↦ rw e (refl, refl)
]

pub seen_device :
    (q : Device → Bool) (now k : ℕ) (ds : List Device) (d : Device)
    → find (λ x. x.id == k) ds ≡ some d
    → d.revoked_at ≡ none
    → (e : Device) × (find (λ x. x.id == k) (update_where q (seen_at now) ds) ≡ some e)
      × (e.id ≡ d.id)
      × (e.revoked_at ≡ none)
seen_device q now k ds d found live =
    let after = find-update_where (λ x. x.id == k) q (seen_at now) ds (λ x. refl) in
    elim (Bool-cases (q d)) [
      | inl touched ↦ (seen_at now d, after ∙ rw found (rw touched refl), refl, live)
      | inr untouched ↦ (d, after ∙ rw found (rw untouched refl), refl, live)
    ]

-- The device of a session is still there after it is seen.
pub seen_device_of :
    (db db' : Db) (now k : ℕ) (d : Device) (telemetry : Telemetry)
    → db'.devices ≡ (note_seen db now d telemetry).devices
    → device_of db (some k) ≡ some d
    → d.revoked_at ≡ none
    → (e : Device) × (device_of db' (some k) ≡ some e) × (e.revoked_at ≡ none)
unfolding device_of touch_last_seen sync_by_installation_id
seen_device_of db db' now k d absent same found live =
    let (e, at', same_id, unrevoked) =
      seen_device (λ x. x.id == d.id && is_none x.revoked_at) now k db.devices d found live in
    (e, rw same at', unrevoked)
seen_device_of db db' now k d (given b) same found live = elim (Bool-cases b) [
  | inl yes' ↦
      let (e, at', same_id, unrevoked) =
        seen_device (λ x. x.installation_id == d.installation_id && is_none x.revoked_at) now k
          db.devices d found live in
      (e, rw same (rw yes' at'), unrevoked)
  | inr no' ↦ (d, rw same (rw no' found), live)
]

pub revoked_refused :
    (db : Db) (now : ℕ) (found : Option RefreshToken) (s : RefreshToken)
    → found ≡ some s
    → is_some s.revoked_at ≡ true
    → check_session db now found ≡ err invalid_refresh_token
unfolding check_session
revoked_refused db now found s e h = rw e (rw h refl)

pub refused :
    (hash : ℕ → ℕ) (db met : Db) (now id raw : ℕ) (lifetime : List ℕ) (token : ℕ)
    (telemetry : Telemetry)
    → check_session db now (token_of_hash db (hash token)) ≡ err invalid_refresh_token
    → refresh hash db met now id raw lifetime token telemetry ≡ err invalid_refresh_token
unfolding refresh
refused hash db met now id raw lifetime token telemetry h = rw h refl

pub found_other :
    (p q : RefreshToken → Bool) (xs : List RefreshToken) (x : RefreshToken)
    → find p xs ≡ some x
    → find q xs ≡ none
    → q x ≡ false
unfolding find
found_other p q [] x h k = absurd (cc)
found_other p q (y ∷ ys) x h k = ground (arith, found_other p q ys x)

pub device_by_id :
    (db : Db) (o : Option ℕ) (d : Device)
    → device_of db o ≡ some d
    → device_of db (some d.id) ≡ some d
unfolding device_of
device_by_id db none d h = absurd (cc)
device_by_id db (some k) d h =
    let same : d.id ≡ k = eq_if d.id k (find_sound (λ x. x.id == k) db.devices {x = d} h) in
    subst (λ n. find (λ x. x.id == n) db.devices ≡ some d) (sym same) h

pub user_of-ext : (a b : Db) (k : ℕ) → a.users ≡ b.users → user_of a k ≡ user_of b k
unfolding user_of
user_of-ext a b k h = rw h

pub accepted :
    (hash : ℕ → ℕ) (db met : Db) (now id raw : ℕ) (lifetime : List ℕ) (token : ℕ)
    (telemetry : Telemetry) (s : RefreshToken) (d : Device)
    → token_of_hash db (hash token) ≡ some s
    → Live db now s d
    → (next : ℕ × Db) × (refresh hash db met now id raw lifetime token telemetry ≡ ok next)
unfolding refresh
accepted hash db met now id raw lifetime token telemetry s d found live = (
  (
    raw,
    log ActorType.user s.user_id "mobile.refresh" s.id (
        issue_token_pair (note_seen met now d telemetry) now id s.user_id d.id (hash raw) lifetime
          (some s.id)),
  ),
  rw found (rw (Live-check db now s d live) refl),
)

pub new_found :
    (now id s_id key : ℕ) (new : RefreshToken) (ts : List RefreshToken)
    → new.token_hash ≡ key
    → (new.id == s_id) ≡ false
    → find (λ r. r.token_hash == key) ts ≡ none
    → find
        (λ r. r.token_hash == key)
        (update_where (λ r. r.id == s_id) (rotate now id) (insert new ts))
      ≡ some new
new_found now id s_id key new ts same other free =
    find-update_where (λ r. r.token_hash == key) (λ r. r.id == s_id) (rotate now id) (insert new ts)
      (λ r. refl)
    ∙ rw (find-insert (λ r. r.token_hash == key) new ts free (rw same (==_refl key)))
        (rw other refl)
