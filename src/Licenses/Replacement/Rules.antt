-- ===== src/Licenses/Replacement/Rules.antt =====
-- Who may replace a device, how often, and what becomes of a challenge and of the license.
use ruznamo_backend.Common.{
  false, is_some, ap, ◌-◌, leb, not, license_not_found, ◌&&◌, ◌∙◌, ℕ, ◌≡◌, ◌≤◌, ◌+◌, refl, true,
  Option, some, List, arith, ok, err, String, ◌==◌, find, insert, or_throw, throw_if, >>=-eq-ok,
  is_id, challenge_used, replacement_cooldown, not_license_holder, ==_refl,
}
use ruznamo_backend.Common.Counting.{find-update_where, any-insert}
use ruznamo_backend.Db.{
  log, Db, License, LicenseStatus, LicenseEvent, ReplacementChallenge, ActorType,
}
use ruznamo_backend.Licenses.Activate.{set_active, mark_active, activation_event}
use ruznamo_backend.Licenses.Replacement.{
  replaced, is_active_pair, consume, counts_for_cooldown, license_of, cooldown,
  assert_replacement_cooldown, load_valid_challenge, execute_replacement, confirm_replacement,
}
use ruznamo_backend.Licenses.Replacement.Run.{Replaced, execute_replacement-Replaced}
use mathlib.Core.Path.{sym, subst}

cooldown-blocks :
    (db' : Db) (now later : ℕ) (l : License) (reason : String) (events : List LicenseEvent)
    → db'.events ≡ insert (activation_event now l reason) events
    → counts_for_cooldown reason ≡ true
    → later ≤ now + cooldown
    → assert_replacement_cooldown db' later l.id ≡ err replacement_cooldown
unfolding assert_replacement_cooldown
cooldown-blocks db' now later l reason events e counts soon = rw e (
    rw (
      any-insert
        (λ (v : LicenseEvent).
          v.license_id == l.id
          && counts_for_cooldown v.reason
          && leb (later - cooldown) v.created_at)
        (activation_event now l reason) events (ground arith)))

blocked :
    (db met : Db) (now license_id new_device_id old_device_id holder : ℕ) (actor_type : ActorType)
    (actor_id : ℕ) (reason : String) (consumed : Option ℕ) (l : License)
    → license_of db license_id ≡ some l
    → is_id l.holder holder ≡ true
    → assert_replacement_cooldown db now l.id ≡ err replacement_cooldown
    → execute_replacement db met now license_id new_device_id old_device_id holder actor_type
        actor_id reason consumed
      ≡ err replacement_cooldown
unfolding execute_replacement
blocked db met now license_id new_device_id old_device_id holder actor_type actor_id reason consumed
      l found held cool =
    rw found (rw held (rw cool))

used :
    (db : Db) (now token holder : ℕ) (c : ReplacementChallenge)
    → find (λ d. d.token == token) db.challenges ≡ some c
    → is_some c.consumed_at ≡ true
    → confirm_replacement db db now token holder ≡ err challenge_used
unfolding confirm_replacement load_valid_challenge
used db now token holder c found consumed = rw found (rw consumed)

load_valid_challenge-found :
    (db : Db) (now token : ℕ) (c : ReplacementChallenge)
    → load_valid_challenge db now token ≡ ok c
    → find (λ d. d.token == token) db.challenges ≡ some c
unfolding load_valid_challenge
load_valid_challenge-found db now token c h = ground arith

consumed-found :
    (now token id : ℕ) (c : ReplacementChallenge) (cs : List ReplacementChallenge)
    → find (λ d. d.token == token) cs ≡ some c
    → c.id ≡ id
    → find (λ d. d.token == token) (consume now (some id) cs)
      ≡ some (record c { consumed_at = some now })
consumed-found now token id c cs h e =
    find-update_where (λ d. d.token == token) (λ d. d.id == id)
      (λ d. record d { consumed_at = some now }) cs (λ d. refl)
    ∙ rw h (ground arith)

-- The row of the license after a replacement.
license_of-after :
    (db : Db) (now license_id new_device_id old_device_id holder : ℕ) (actor_type : ActorType)
    (actor_id : ℕ) (reason : String) (consumed : Option ℕ) (db' : Db)
    → (run : Replaced db now license_id new_device_id old_device_id holder actor_type actor_id
        reason consumed db')
    → license_of db' license_id ≡ some (mark_active now run.license run.license)
unfolding license_of
license_of-after db now license_id new_device_id old_device_id holder actor_type actor_id reason
      consumed db' run =
    rw run.licenses (
      find-update_where (λ l. l.id == license_id) (λ l. l.id == run.license.id)
        (mark_active now run.license) db.licenses (λ l. refl)
      ∙ rw run.found (rw (==_refl run.license.id)))

confirmed :
    (db : Db) (now token holder : ℕ) (db' : Db)
    → confirm_replacement db db now token holder ≡ ok db'
    → (c : ReplacementChallenge) × (load_valid_challenge db now token ≡ ok c)
      × (execute_replacement db db now c.license_id c.new_device_id c.old_device_id holder
            ActorType.telegram_bot holder "device_replacement_approved"
            (some c.id)
          ≡ ok db')
unfolding confirm_replacement
confirmed db now token holder db' h =
    let (c, valid, h₁) = >>=-eq-ok (load_valid_challenge db now token) _ h in
    let (l, found, h₂) = >>=-eq-ok (or_throw (license_of db c.license_id) license_not_found) _ h₁ in
    let (u, held, h₃) =
      >>=-eq-ok (throw_if (not (is_id l.holder holder)) not_license_holder) _ h₂ in
    (c, valid, h₃)

-- Where no other transaction comes in between a holder's confirmation of a valid challenge, a replacement
-- of the same holder on the challenge's license that reads the tables which it leaves is refused for 24
-- hours, whatever devices it names, whoever runs it, and whatever tables its writes would meet.
pub cooldown_after_approval :
    (db : Db) (now later token holder : ℕ) (c : ReplacementChallenge) (db' met : Db)
    (new_device_id old_device_id : ℕ) (actor_type : ActorType) (actor_id : ℕ) (reason : String)
    (consumed : Option ℕ)
    → load_valid_challenge db now token ≡ ok c
    → confirm_replacement db db now token holder ≡ ok db'
    → later ≤ now + cooldown
    → execute_replacement db' met later c.license_id new_device_id old_device_id holder actor_type
        actor_id reason consumed
      ≡ err replacement_cooldown
cooldown_after_approval db now later token holder c db' met new_device_id old_device_id actor_type
      actor_id reason consumed valid h soon =
    let (c', valid', h') = confirmed db now token holder db' h in
    let same : c'.license_id ≡ c.license_id = ground arith in
    let run =
      execute_replacement-Replaced db now c'.license_id c'.new_device_id c'.old_device_id holder
        ActorType.telegram_bot holder "device_replacement_approved" (some c'.id) db' h' in
    let l = run.license in
    let after =
      license_of-after db now c'.license_id c'.new_device_id c'.old_device_id holder
        ActorType.telegram_bot holder "device_replacement_approved" (some c'.id) db' run in
    blocked db' met later c.license_id new_device_id old_device_id holder actor_type actor_id reason
      consumed (mark_active now l l)
      (subst (λ k. license_of db' k ≡ some (mark_active now l l)) same after) run.held
      (cooldown-blocks db' now later l "device_replacement_approved" db.events run.events refl soon)

-- On the tables that a confirmation leaves, another one with its token is refused as used.
challenge-once :
    (db : Db) (now later token holder other : ℕ) (db' : Db)
    → confirm_replacement db db now token holder ≡ ok db'
    → confirm_replacement db' db' later token other ≡ err challenge_used
challenge-once db now later token holder other db' h =
    let (c, valid, h') = confirmed db now token holder db' h in
    let run =
      execute_replacement-Replaced db now c.license_id c.new_device_id c.old_device_id holder
        ActorType.telegram_bot holder "device_replacement_approved" (some c.id) db' h' in
    used db' later token other (record c { consumed_at = some now })
      (ap (find (λ d. d.token == token)) run.challenges
        ∙ consumed-found now token c.id c db.challenges
            (load_valid_challenge-found db now token c valid) refl)
      refl

some_injective : {a b : License} → ◌≡◌ {A = Option License} (some a) (some b) → a ≡ b
some_injective h = ground arith

goes_through :
    (db : Db) (now license_id new_device_id old_device_id holder : ℕ) (actor_type : ActorType)
    (actor_id : ℕ) (reason : String) (consumed : Option ℕ) (l : License)
    → license_of db license_id ≡ some l
    → is_id l.holder holder ≡ true
    → assert_replacement_cooldown db now l.id ≡ ok tt
    → is_active_pair db l.id new_device_id ≡ false
    → (db' : Db) × (execute_replacement db db now license_id new_device_id old_device_id holder
          actor_type actor_id reason consumed
        ≡ ok db')
unfolding execute_replacement
goes_through db now license_id new_device_id old_device_id holder actor_type actor_id reason
      consumed l found held cool inactive =
    (
      log actor_type actor_id "license.device.replacement_completed" l.id (
          set_active now l reason (record db {
            activations = replaced db now l new_device_id old_device_id;
            challenges = consume now consumed db.challenges;
          })),
      rw found (rw held (rw cool (rw inactive refl))),
    )

-- A replacement by the holder goes through whatever status the license has, be it revoked, suspended or
-- expired, where no cooldown runs and the new device is not active on it yet; and it leaves the license
-- active, with the same date of revocation.
pub replacement-reactivates :
    (db : Db) (now license_id new_device_id old_device_id holder : ℕ) (actor_type : ActorType)
    (actor_id : ℕ) (reason : String) (consumed : Option ℕ) (l : License)
    → license_of db license_id ≡ some l
    → is_id l.holder holder ≡ true
    → assert_replacement_cooldown db now l.id ≡ ok tt
    → is_active_pair db l.id new_device_id ≡ false
    → (db' : Db) × (execute_replacement db db now license_id new_device_id old_device_id holder
          actor_type actor_id reason consumed
        ≡ ok db')
      × ((l' : License) × (license_of db' license_id ≡ some l')
          × (l'.status ≡ LicenseStatus.active)
          × (l'.revoked_at ≡ l.revoked_at))
replacement-reactivates db now license_id new_device_id old_device_id holder actor_type actor_id
      reason consumed l found held cool inactive =
    let (db', went) =
      goes_through db now license_id new_device_id old_device_id holder actor_type actor_id reason
        consumed l found held cool inactive in
    let run =
      execute_replacement-Replaced db now license_id new_device_id old_device_id holder actor_type
        actor_id reason consumed db' went in
    let same : run.license ≡ l = some_injective (sym run.found ∙ found) in
    (
      db',
      went,
      (
        mark_active now run.license run.license,
        license_of-after db now license_id new_device_id old_device_id holder actor_type actor_id
            reason consumed db' run,
        refl,
        ap (λ (m : License). m.revoked_at) same,
      ),
    )
