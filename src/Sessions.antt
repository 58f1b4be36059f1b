-- ===== src/Sessions.antt =====
-- auth/auth.service.ts, without the registration of a device: refresh tokens, their rotation and
-- logout. A token is a number; sha256 of node's crypto is the parameter `hash`.
pub mod Live
pub mod Rotation
pub mod Logout
use ruznamo_backend.Common.{
  ℕ, ◌+◌, ◌*◌, Bool, true, false, not, Option, none, some, List, [], ◌∷◌, ◌&&◌, ◌==◌, ltb, is_none,
  is_some, is_nil, is_digit, read_digits, trim, or_else, if◌then◌else◌, find, insert, update_where,
  Result, ok, ◌>>=◌, ◌>>◌, throw_if, or_throw, invalid_refresh_token, refresh_token_expired,
  user_not_found, user_suspended, device_revoked,
}
use ruznamo_backend.Db.{Db, Device, RefreshToken, UserStatus, ActorType, log}
use ruznamo_backend.Entitlements.Snapshot.{user_of}

abbrev split_last : List ℕ → Option (List ℕ × ℕ)
split_last [] = none
split_last (c ∷ cs) = elim (split_last cs) [ none ↦ some ([], c) | some (ds, d) ↦ some (c ∷ ds, d) ]

abbrev all_digits : List ℕ → Bool
all_digits [] = true
all_digits (c ∷ cs) = is_digit c && all_digits cs

-- The seconds of the units s, m, h and d.
abbrev unit_seconds : ℕ → Option ℕ
unit_seconds c =
    if c == 115
    then some 1
    else if c == 109
    then some 60
    else if c == 104
    then some 3600
    else if c == 100
    then some 86400
    else none

abbrev amount_of : List ℕ → Option ℕ → ℕ
amount_of digits none = 900
amount_of digits (some seconds) =
    if all_digits digits && not (is_nil digits)
    then or_else (read_digits none digits) 0 * seconds
    else 900

-- parseExpiresInSeconds
unfoldable pub parse_expires_in_seconds : List ℕ → ℕ
unfolding trim read_digits
parse_expires_in_seconds value = elim (split_last (trim value)) [
  | none ↦ 900
  | some (digits, unit) ↦ amount_of digits (unit_seconds unit)
]

-- The telemetry of a refresh: none, or whether any of its fields is set.
pub data Telemetry : Type 0 where
  absent : Telemetry
  given : Bool → Telemetry

abbrev pub seen_at : ℕ → Device → Device
seen_at now d = record d { last_seen_at = now }

-- touchLastSeen
unfoldable pub touch_last_seen : Db → ℕ → ℕ → Db
unfolding update_where
touch_last_seen db now id = record db {
  devices = update_where (λ d. d.id == id && is_none d.revoked_at) (seen_at now) db.devices;
}

-- syncByInstallationId: of the columns it writes, the date.
unfoldable pub sync_by_installation_id : Db → ℕ → ℕ → Bool → Db
unfolding update_where
sync_by_installation_id db now installation_id has_updates =
    if has_updates
    then record db {
      devices =
          update_where (λ d. d.installation_id == installation_id && is_none d.revoked_at)
            (seen_at now) db.devices;
    }
    else db

abbrev pub note_seen : Db → ℕ → Device → Telemetry → Db
note_seen db now d absent = touch_last_seen db now d.id
note_seen db now d (given has_updates) =
    sync_by_installation_id db now d.installation_id has_updates

abbrev pub new_token : ℕ → ℕ → ℕ → ℕ → ℕ → ℕ → RefreshToken
new_token now id user_id device_id token_hash seconds = record {
  id = id;
  user_id = user_id;
  device_id = some device_id;
  token_hash = token_hash;
  expires_at = now + seconds * 1000;
  revoked_at = none;
  replaced_by = none;
}

abbrev pub rotate : ℕ → ℕ → RefreshToken → RefreshToken
rotate now id t = record t { revoked_at = some now; replaced_by = some id }

-- `if (replaceTokenId)`
abbrev pub replace_token : ℕ → ℕ → Option ℕ → List RefreshToken → List RefreshToken
replace_token now id none ts = ts
replace_token now id (some old) ts = update_where (λ t. t.id == old) (rotate now id) ts

-- The rows that issueTokenPair writes, for the hash of the token that it draws; signing the access
-- token is a library's.
unfoldable pub issue_token_pair : Db → ℕ → ℕ → ℕ → ℕ → ℕ → List ℕ → Option ℕ → Db
unfolding update_where
issue_token_pair db now id user_id device_id token_hash lifetime replaced = record db {
  tokens = replace_token now id replaced (
      insert (new_token now id user_id device_id token_hash (parse_expires_in_seconds lifetime))
        db.tokens);
}

unfoldable pub token_of_hash : Db → ℕ → Option RefreshToken
unfolding find
token_of_hash db token_hash = find (λ t. t.token_hash == token_hash) db.tokens

abbrev pub is_user_active : UserStatus → Bool
is_user_active UserStatus.active = true
is_user_active _ = false

-- The row of a token's device.
unfoldable pub device_of : Db → Option ℕ → Option Device
unfolding find
device_of db none = none
device_of db (some id) = find (λ d. d.id == id) db.devices

-- The checks of `refresh` on the row of the token, and what it goes on with.
unfoldable pub check_session : Db → ℕ → Option RefreshToken → Result (RefreshToken × Device)
check_session db now found = do
  stored ← or_throw found invalid_refresh_token
  throw_if (is_some stored.revoked_at) invalid_refresh_token
  throw_if (ltb stored.expires_at now) refresh_token_expired
  user ← or_throw (user_of db stored.user_id) user_not_found
  throw_if (not (is_user_active user.status)) user_suspended
  device ← or_throw (device_of db stored.device_id) device_revoked
  throw_if (is_some device.revoked_at) device_revoked
  ok (stored, device)

unfoldable pub revoke_tokens : ℕ → (RefreshToken → Bool) → Db → Db
unfolding update_where
revoke_tokens now which db = record db {
  tokens =
      update_where (λ t. which t && is_none t.revoked_at) (λ t. record t { revoked_at = some now })
        db.tokens;
}

module _ (hash : ℕ → ℕ) where
  -- refresh. The token is read in `db`; `met` are the tables that the writes meet. The new token's `id`
  -- and the random `raw` are given; a user is a row, by the foreign key.
  unfoldable pub refresh : Db → Db → ℕ → ℕ → ℕ → List ℕ → ℕ → Telemetry → Result (ℕ × Db)
  refresh db met now id raw lifetime token telemetry = do
    (stored, device) ← check_session db now (token_of_hash db (hash token))
    ok (
      raw,
      log ActorType.user stored.user_id "mobile.refresh" stored.id (
          issue_token_pair (note_seen met now device telemetry) now id stored.user_id device.id
            (hash raw) lifetime (some stored.id)),
    )

  -- logout
  unfoldable pub logout : Db → ℕ → ℕ → Option ℕ → Db
  logout db now user_id token = log ActorType.user user_id "mobile.logout" user_id (elim token [
    | none ↦ db
    | some t ↦ revoke_tokens now (λ r. r.user_id == user_id && r.token_hash == hash t) db
  ])

-- logoutAll
unfoldable pub logout_all : Db → ℕ → ℕ → Db
logout_all db now user_id =
    log ActorType.user user_id "mobile.logout_all" user_id
      (revoke_tokens now (λ r. r.user_id == user_id) db)
