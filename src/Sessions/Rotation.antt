-- ===== src/Sessions/Rotation.antt =====
-- The rotation of refresh tokens.
use ruznamo_backend.Common.{
  ℕ, ◌≡◌, ◌≤◌, ◌+◌, ◌*◌, refl, Bool, none, some, List, ◌==◌, ◌∙◌, find, insert, ok, err, ==_refl,
  invalid_refresh_token,
}
use ruznamo_backend.Common.Counting.{find-update_where, find-insert_old}
use ruznamo_backend.Db.{Db, RefreshToken}
use ruznamo_backend.Sessions.{
  Telemetry, new_token, rotate, token_of_hash, refresh, parse_expires_in_seconds,
}
use mathlib.Core.Path.{ap}
use ruznamo_backend.Sessions.Live.{
  ==_swap, refresh-ran, seen_frame, seen_device_of, revoked_refused, refused, found_other,
  device_by_id, user_of-ext, accepted, new_found,
}

-- A token that was refreshed is spent: a refresh with it that reads the tables which the first one left
-- is refused as invalid, whenever it is sent.
pub refresh-once :
    (hash : ℕ → ℕ) (db : Db) (now id raw : ℕ) (lifetime : List ℕ) (token : ℕ)
    (telemetry : Telemetry) (t : ℕ) (db' met : Db) (later id' raw' : ℕ) (lifetime' : List ℕ)
    (telemetry' : Telemetry)
    → refresh hash db db now id raw lifetime token telemetry ≡ ok (t, db')
    → refresh hash db' met later id' raw' lifetime' token telemetry' ≡ err invalid_refresh_token
unfolding token_of_hash
refresh-once hash db now id raw lifetime token telemetry t db' met later id' raw' lifetime'
      telemetry' h =
    let (s, d, found, live, same_raw, tokens, users, devices) =
      refresh-ran hash db db now id raw lifetime token telemetry t db' h in
    let p : RefreshToken → Bool = (λ r. r.token_hash == hash token) in
    let new = new_token now id s.user_id d.id (hash raw) (parse_expires_in_seconds lifetime) in
    let kept = find-insert_old p new db.tokens s found in
    let spent : token_of_hash db' (hash token) ≡ some (rotate now id s) = rw tokens (
      rw (seen_frame db now d telemetry).0 (
        find-update_where p (λ r. r.id == s.id) (rotate now id) (insert new db.tokens) (λ r. refl)
        ∙ rw kept (rw (==_refl s.id) refl))) in
    refused hash db' met later id' raw' lifetime' token telemetry'
      (revoked_refused db' later (token_of_hash db' (hash token)) (rotate now id s) spent refl)

-- Where the token that a refresh draws, and its row's id, are new, the session can go on: a refresh that
-- reads the tables which the first one left, so that no logout, revocation or suspension came in between,
-- goes through with the new token at any time until its lifetime is over, whatever tables it writes to.
pub refresh-next :
    (hash : ℕ → ℕ) (db : Db) (now id raw : ℕ) (lifetime : List ℕ) (token : ℕ)
    (telemetry : Telemetry) (t : ℕ) (db' met : Db) (later id' raw' : ℕ) (lifetime' : List ℕ)
    (telemetry' : Telemetry)
    → refresh hash db db now id raw lifetime token telemetry ≡ ok (t, db')
    → token_of_hash db (hash raw) ≡ none
    → find (λ r. r.id == id) db.tokens ≡ none
    → later ≤ now + parse_expires_in_seconds lifetime * 1000
    → (next : ℕ × Db) × (refresh hash db' met later id' raw' lifetime' t telemetry' ≡ ok next)
unfolding token_of_hash
refresh-next hash db now id raw lifetime token telemetry t db' met later id' raw' lifetime'
      telemetry' h fresh unused in_time =
    let (s, d, found, live, same_raw, tokens, users, devices) =
      refresh-ran hash db db now id raw lifetime token telemetry t db' h in
    let new = new_token now id s.user_id d.id (hash raw) (parse_expires_in_seconds lifetime) in
    let (tokens_kept, users_kept) = seen_frame db now d telemetry in
    let other =
      found_other (λ r. r.token_hash == hash token) (λ r. r.id == id) db.tokens s found unused in
    let (e, on_device, unrevoked) =
      seen_device_of db db' now d.id d telemetry devices
        (device_by_id db s.device_id d live.on_device) live.device_unrevoked in
    let there : token_of_hash db' (hash raw) ≡ some new = rw tokens (
      rw tokens_kept
        (new_found now id s.id (hash raw) new db.tokens refl (==_swap s.id id other) fresh)) in
    accepted hash db' met later id' raw' lifetime' t telemetry' new e (rw same_raw there) (record {
      user = live.user;
      unrevoked = refl;
      unexpired = in_time;
      owned = user_of-ext db' db s.user_id (users ∙ users_kept) ∙ live.owned;
      active = live.active;
      on_device = on_device;
      device_unrevoked = unrevoked;
    })

-- Two refreshes with one token that both read before either writes both go through, each with a token of
-- its own: the second is accepted whatever the first has written.
pub refresh-race :
    (hash : ℕ → ℕ) (db : Db) (now id id' raw raw' : ℕ) (lifetime : List ℕ) (token : ℕ)
    (telemetry : Telemetry) (t : ℕ) (db' : Db)
    → refresh hash db db now id raw lifetime token telemetry ≡ ok (t, db')
    → (db'' : Db) × (refresh hash db db' now id' raw' lifetime token telemetry ≡ ok (raw', db''))
refresh-race hash db now id id' raw raw' lifetime token telemetry t db' h =
    let (s, d, found, live, same, tokens, users, devices) =
      refresh-ran hash db db now id raw lifetime token telemetry t db' h in
    let (next, e) = accepted hash db db' now id' raw' lifetime token telemetry s d found live in
    let (s', d', found', live', same_raw, tokens', users', devices') =
      refresh-ran hash db db' now id' raw' lifetime token telemetry next.0 next.1 e in
    (next.1, e ∙ ap (λ n. ok (n, next.1)) same_raw)
