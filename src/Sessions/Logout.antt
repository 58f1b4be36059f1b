-- ===== src/Sessions/Logout.antt =====
-- What logout and logout everywhere leave of a user's tokens.
use ruznamo_backend.Common.{
  ℕ, ◌≡◌, refl, Bool, true, some, List, ◌==◌, ◌∙◌, ◌&&◌, find, update_where, is_none, is_some, err,
  ==_refl, find_sound, Option-cases, inl, inr, invalid_refresh_token,
}
use ruznamo_backend.Common.Counting.{find-update_where}
use ruznamo_backend.Db.{Db, RefreshToken, log}
use ruznamo_backend.Sessions.{Telemetry, token_of_hash, refresh, revoke_tokens, logout, logout_all}
use ruznamo_backend.Sessions.Live.{refused, revoked_refused}

-- The row of a token after some are revoked.
revoked_row :
    (now key : ℕ) (which : RefreshToken → Bool) (ts : List RefreshToken) (s : RefreshToken)
    → find (λ r. r.token_hash == key) ts ≡ some s
    → which s ≡ true
    → (s' : RefreshToken) × (find
          (λ r. r.token_hash == key)
          (update_where
            (λ r. which r && is_none r.revoked_at)
            (λ r. record r { revoked_at = some now })
            ts)
        ≡ some s')
      × (is_some s'.revoked_at ≡ true)
revoked_row now key which ts s found chosen =
    let after =
      find-update_where (λ r. r.token_hash == key) (λ r. which r && is_none r.revoked_at)
        (λ r. record r { revoked_at = some now }) ts (λ r. refl) in
    elim (Option-cases s.revoked_at) [
      | inl unrevoked ↦ (
        record s { revoked_at = some now },
        after ∙ rw found (rw chosen (rw unrevoked refl)),
        refl,
      )
      | inr (t, revoked) ↦ (s, after ∙ rw found (rw chosen (rw revoked refl)), rw revoked refl)
    ]

-- After a user logs out everywhere, no refresh with a token of that user goes through.
logout_all-ends :
    (hash : ℕ → ℕ) (db met : Db) (now user_id later id raw : ℕ) (lifetime : List ℕ) (token : ℕ)
    (telemetry : Telemetry) (s : RefreshToken)
    → token_of_hash db (hash token) ≡ some s
    → s.user_id ≡ user_id
    → refresh hash (logout_all db now user_id) met later id raw lifetime token telemetry
      ≡ err invalid_refresh_token
unfolding token_of_hash logout_all log revoke_tokens
logout_all-ends hash db met now user_id later id raw lifetime token telemetry s found its =
    let (s', there, revoked) =
      revoked_row now (hash token) (λ r. r.user_id == user_id) db.tokens s found
        (rw its (==_refl user_id)) in
    refused hash (logout_all db now user_id) met later id raw lifetime token telemetry (
      revoked_refused (logout_all db now user_id) later
        (token_of_hash (logout_all db now user_id) (hash token)) s' there revoked)

-- After a user logs out with a token of theirs, no refresh with it goes through.
logout-ends :
    (hash : ℕ → ℕ) (db met : Db) (now user_id later id raw : ℕ) (lifetime : List ℕ) (token : ℕ)
    (telemetry : Telemetry) (s : RefreshToken)
    → token_of_hash db (hash token) ≡ some s
    → s.user_id ≡ user_id
    → refresh hash
        (logout hash db now user_id (some token))
        met
        later
        id
        raw
        lifetime
        token
        telemetry
      ≡ err invalid_refresh_token
unfolding token_of_hash logout log revoke_tokens
logout-ends hash db met now user_id later id raw lifetime token telemetry s found its =
    let mine = find_sound (λ r. r.token_hash == hash token) db.tokens {x = s} found in
    let (s', there, revoked) =
      revoked_row now (hash token) (λ r. r.user_id == user_id && r.token_hash == hash token)
        db.tokens s found (rw its (rw (==_refl user_id) mine)) in
    refused hash (logout hash db now user_id (some token)) met later id raw lifetime token telemetry
      (revoked_refused (logout hash db now user_id (some token)) later
        (token_of_hash (logout hash db now user_id (some token)) (hash token)) s' there revoked)
