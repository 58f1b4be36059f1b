-- ===== src/Tests/Managing.antt =====
-- An administrator who logs in, changes the password and revokes other sessions.
use ruznamo_backend.Common.{
  invalid_credentials, invalid_or_expired_refresh_token, ◌≡◌, refl, true, false, none, some, ok,
  err, List, [], ◌∷◌, ℕ, Bool, codes, ◌==◌, map, trim, ◌⊎◌, ◌+◌,
}
use ruznamo_backend.Db.{Db, AdminUser, AdminRefreshToken}
use ruznamo_backend.Admin.Auth.{
  AdminDrawn, login, refresh_admin, list_sessions, admin_token_of, admin_of_email,
  revoke_other_sessions, is_kept, extract_roles_and_permissions,
}
use ruznamo_backend.Admin.Auth.Account.{change_password}
use ruznamo_backend.Admin.Auth.Changed.{change_password-closes, revoke_other_sessions-keeps}
use ruznamo_backend.Tests.Shop.{shop, runs, value, weigh, admin}
use ruznamo_backend.Licenses.Key.{lower}

abbrev verify : List ℕ → ℕ → Bool
verify password stored = weigh password == stored

abbrev hash : ℕ → ℕ
hash token = token + 1

abbrev drawn : ℕ → ℕ → AdminDrawn
drawn id raw = record {
  access_expires_in = codes "15m";
  refresh_expires_in = codes "30d";
  id = id;
  raw = raw;
}

permissions_test :
    extract_roles_and_permissions admin ≡ (codes "ADMIN" ∷ [], codes "a" ∷ codes "b" ∷ [])
unfolding runs
permissions_test = refl

abbrev entered : Db
entered =
    (login hash verify shop 1000 (drawn 1 600) (codes " Root@r.tj ") (codes "first password")).1

abbrev stored : AdminRefreshToken
stored = record {
  id = 1;
  admin_user_id = 9;
  token_hash = 601;
  created_at = 1000;
  expires_at = 1000 + 2592000000;
  revoked_at = none;
  replaced_by = none;
}

abbrev seen : AdminUser
seen = record admin { last_login_at = some 1000 }

entered_test : admin_token_of entered (hash 600) ≡ some stored
unfolding runs
entered_test = refl

abbrev after : Db
after =
    value entered (
      change_password verify weigh entered 2000 9 (codes "first password")
        (codes "second password"))

changing :
    change_password verify weigh entered 2000 9 (codes "first password") (codes "second password")
    ≡ ok after
unfolding runs
changing = refl

named : admin_of_email entered (map lower (trim (codes "root@r.tj"))) ≡ some seen
unfolding runs
named = refl

change_password-closes_example :
    (list_sessions hash after 3000 9 (some 600) ≡ [])
    × (refresh_admin hash after after 3000 (drawn 2 700) 600 ≡ err invalid_or_expired_refresh_token)
    × ((login hash verify after 3000 (drawn 2 700) (codes "root@r.tj") (codes "first password")).0
        ≡ err invalid_credentials)
change_password-closes_example =
    change_password-closes verify weigh hash entered after 2000 9 (codes "first password")
      (codes "second password") after 3000 (drawn 2 700) 600 stored (some 600) (codes "root@r.tj")
      (codes "first password") seen changing entered_test refl named refl refl

revoke_other_sessions-keeps_example :
    ((is_kept hash (some 650) stored ≡ true)
      × (admin_token_of (revoke_other_sessions hash entered 2000 9 (some 650)).1 (hash 600)
          ≡ some stored))
    ⊎ ((is_kept hash (some 650) stored ≡ false)
        × (refresh_admin hash
              (revoke_other_sessions hash entered 2000 9 (some 650)).1
              entered
              3000
              (drawn 2 700)
              600
            ≡ err invalid_or_expired_refresh_token))
revoke_other_sessions-keeps_example =
    revoke_other_sessions-keeps hash entered entered 2000 9 (some 650) 3000 (drawn 2 700) 600 stored
      entered_test refl
