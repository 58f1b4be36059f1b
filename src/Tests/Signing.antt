-- ===== src/Tests/Signing.antt =====
-- A session that is refreshed and ended.
use ruznamo_backend.Common.{
  ◌≤◌, ℕ, ◌≡◌, ◌+◌, ◌*◌, refl, none, some, List, [], ◌∷◌, codes, ok, err, arith, find, ◌==◌,
  invalid_refresh_token,
}
use ruznamo_backend.Db.{Db, RefreshToken}
use ruznamo_backend.Sessions.{absent, refresh, token_of_hash, parse_expires_in_seconds}
use ruznamo_backend.Sessions.Rotation.{refresh-once, refresh-next, refresh-race}
use ruznamo_backend.Tests.Shop.{shop, runs, value}

-- A hash of tokens.
abbrev digest : ℕ → ℕ
digest n = n * 7 + 1

abbrev first_token : RefreshToken
first_token = record {
  id = 81;
  user_id = 1;
  device_id = some 11;
  token_hash = digest 5;
  expires_at = 9000;
  revoked_at = none;
  replaced_by = none;
}

abbrev signed_in : Db
signed_in = record shop { tokens = first_token ∷ [] }

abbrev month : List ℕ
month = codes "30d"

abbrev refreshed : ℕ × Db
refreshed = value (0, shop) (refresh digest signed_in signed_in 1000 82 6 month 5 absent)

refreshing :
    refresh digest signed_in signed_in 1000 82 6 month 5 absent ≡ ok (refreshed.0, refreshed.1)
unfolding runs
refreshing = refl

parse_expires_in_seconds_tests :
    (parse_expires_in_seconds (codes " 15m ") ≡ 900)
    × (parse_expires_in_seconds (codes "30d") ≡ 2592000)
    × (parse_expires_in_seconds (codes "2 h") ≡ 900)
    × (parse_expires_in_seconds (codes "d") ≡ 900)
unfolding runs
parse_expires_in_seconds_tests = (refl, refl, refl, refl)

refresh-once_example :
    refresh digest refreshed.1 shop 2000 83 7 month 5 absent ≡ err invalid_refresh_token
refresh-once_example =
    refresh-once digest signed_in 1000 82 6 month 5 absent refreshed.0 refreshed.1 shop 2000 83 7
      month absent refreshing

fresh : token_of_hash signed_in (digest 6) ≡ none
unfolding runs
fresh = refl

unused : find (λ (r : RefreshToken). r.id == 82) signed_in.tokens ≡ none
unfolding runs
unused = refl

in_time : 5000 ≤ 1000 + parse_expires_in_seconds month * 1000
unfolding runs
in_time = omega arith

refresh-next_example :
    (next : ℕ × Db) × (refresh digest refreshed.1 shop 5000 83 7 month refreshed.0 absent ≡ ok next)
refresh-next_example =
    refresh-next digest signed_in 1000 82 6 month 5 absent refreshed.0 refreshed.1 shop 5000 83 7
      month absent refreshing fresh unused in_time

refresh-race_example :
    (db'' : Db) × (refresh digest signed_in refreshed.1 1000 83 7 month 5 absent ≡ ok (7, db''))
refresh-race_example =
    refresh-race digest signed_in 1000 82 83 6 7 month 5 absent refreshed.0 refreshed.1 refreshing

stored : token_of_hash signed_in (digest 5) ≡ some first_token
unfolding runs
stored = refl
