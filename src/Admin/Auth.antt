-- ===== src/Admin/Auth.antt =====
-- admin/auth/admin-auth.service.ts. A token is a number, of which sha256 is the parameter `hash`; bcrypt
-- is the parameters `verify` and `hash_password`. Signing the access token is a library's: its payload
-- stands for it. The log of a failure without an administrator, or of many rows, names the id 0.
pub mod Account
pub mod Changed
use ruznamo_backend.Common.{
  admin_account_inactive, current_password_incorrect, admin_account_not_found, display_name_empty,
  new_password_too_short, invalid_credentials, invalid_or_expired_refresh_token, ℕ, ◌+◌, ◌*◌, Bool,
  true, false, not, Option, none, some, List, [], ◌∷◌, ◌&&◌, ◌||◌, ◌==◌, ltb, map, is_none, is_some,
  is_nil, length, trim, same_text, if◌then◌else◌, find, any, insert, update_where, select, count,
  sort_by, Result, ok, err, ◌>>=◌, ◌>>◌, throw_if, or_throw, or_else,
}
use ruznamo_backend.Db.{ActorType, Db, AdminUser, AdminRole, AdminRefreshToken, log}
use ruznamo_backend.Licenses.Key.{lower}
use ruznamo_backend.Sessions.{parse_expires_in_seconds}

pub record AdminJwtPayload : Type 0 where
  pub sub : ℕ
  pub email : List ℕ
  pub roles : List (List ℕ)
  pub permissions : List (List ℕ)

pub record AdminAuthTokens : Type 0 where
  pub access_token : AdminJwtPayload
  pub refresh_token : ℕ
  pub expires_in : ℕ

pub record AdminProfile : Type 0 where
  pub id : ℕ
  pub email : List ℕ
  pub display_name : Option (List ℕ)
  pub roles : List (List ℕ)
  pub permissions : List (List ℕ)
  pub is_active : Bool
  pub created_at : ℕ
  pub last_login_at : Option ℕ
  pub telegram_connected : Bool

-- What the configuration and the random source give a pair of tokens.
pub record AdminDrawn : Type 0 where
  pub access_expires_in : List ℕ
  pub refresh_expires_in : List ℕ
  pub id : ℕ
  pub raw : ℕ

-- Set.add
unfoldable pub add_new : List ℕ → List (List ℕ) → List (List ℕ)
unfolding same_text any
add_new code codes = if any (same_text code) codes then codes else insert code codes

abbrev add_all : List (List ℕ) → List (List ℕ) → List (List ℕ)
unfolding add_new
add_all [] set = set
add_all (code ∷ codes) set = add_all codes (add_new code set)

abbrev collect : List AdminRole → List (List ℕ) → List (List ℕ)
unfolding add_new
collect [] set = set
collect (role ∷ roles) set = collect roles (add_all role.permissions set)

-- The order of texts by their UTF-16 units, as `sort()` has it.
abbrev text_before : List ℕ → List ℕ → Bool
text_before [] [] = false
text_before [] (d ∷ ds) = true
text_before (c ∷ cs) [] = false
text_before (c ∷ cs) (d ∷ ds) = ltb c d || (c == d && text_before cs ds)

-- extractRolesAndPermissions
unfoldable pub extract_roles_and_permissions : AdminUser → List (List ℕ) × List (List ℕ)
unfolding sort_by add_new
extract_roles_and_permissions admin =
    (map (λ r. r.code) admin.roles, sort_by text_before (collect admin.roles []))

-- toProfile, with the roles and permissions of the same row.
unfoldable pub to_profile : AdminUser → AdminProfile
unfolding extract_roles_and_permissions
to_profile admin = record {
  id = admin.id;
  email = admin.email;
  display_name = admin.display_name;
  roles = (extract_roles_and_permissions admin).0;
  permissions = (extract_roles_and_permissions admin).1;
  is_active = admin.is_active;
  created_at = admin.created_at;
  last_login_at = admin.last_login_at;
  telegram_connected = or_else admin.telegram_verified false;
}

abbrev pub new_admin_token : ℕ → ℕ → ℕ → ℕ → ℕ → AdminRefreshToken
new_admin_token now id admin_user_id token_hash seconds = record {
  id = id;
  admin_user_id = admin_user_id;
  token_hash = token_hash;
  created_at = now;
  expires_at = now + seconds * 1000;
  revoked_at = none;
  replaced_by = none;
}

abbrev pub revoke_token : ℕ → AdminRefreshToken → AdminRefreshToken
revoke_token now t = record t { revoked_at = some now }

abbrev pub rotate_token : ℕ → ℕ → AdminRefreshToken → AdminRefreshToken
rotate_token now id t = record t { revoked_at = some now; replaced_by = some id }

abbrev pub replace_admin_token : ℕ → ℕ → Option ℕ → List AdminRefreshToken → List AdminRefreshToken
replace_admin_token now id none ts = ts
replace_admin_token now id (some old) ts = update_where (λ t. t.id == old) (rotate_token now id) ts

unfoldable pub admin_of_email : Db → List ℕ → Option AdminUser
unfolding find same_text
admin_of_email db email = find (λ a. same_text a.email email) db.admins

unfoldable pub admin_of : Db → ℕ → Option AdminUser
unfolding find
admin_of db id = find (λ a. a.id == id) db.admins

-- `!admin || !admin.isActive`
unfoldable pub active_admin : Option AdminUser → Option AdminUser
active_admin none = none
active_admin (some a) = if a.is_active then some a else none

unfoldable pub admin_token_of : Db → ℕ → Option AdminRefreshToken
unfolding find
admin_token_of db token_hash = find (λ t. t.token_hash == token_hash) db.admin_tokens

-- The update of the unrevoked tokens of an administrator.
unfoldable pub revoke_admin_tokens : ℕ → ℕ → (AdminRefreshToken → Bool) → Db → Db
unfolding update_where
revoke_admin_tokens now admin_id which db = record db {
  admin_tokens =
      update_where (λ t. t.admin_user_id == admin_id && is_none t.revoked_at && which t)
        (revoke_token now) db.admin_tokens;
}

module _ (hash : ℕ → ℕ) where
  -- issueTokenPair
  unfoldable pub issue_admin_tokens :
      Db → ℕ → AdminDrawn → AdminUser → Option ℕ → AdminAuthTokens × Db
  unfolding update_where extract_roles_and_permissions
  issue_admin_tokens db now drawn admin replaced = (
    record {
      access_token = record {
        sub = admin.id;
        email = admin.email;
        roles = (extract_roles_and_permissions admin).0;
        permissions = (extract_roles_and_permissions admin).1;
      };
      refresh_token = drawn.raw;
      expires_in = parse_expires_in_seconds drawn.access_expires_in;
    },
    record db {
      admin_tokens = replace_admin_token now drawn.id replaced (
          insert
            (new_admin_token now drawn.id admin.id (hash drawn.raw)
              (parse_expires_in_seconds drawn.refresh_expires_in))
            db.admin_tokens);
    },
  )

  abbrev set_last_login : ℕ → AdminUser → AdminUser
  set_last_login now a = record a { last_login_at = some now }

  -- `login` once the password is right.
  unfoldable pub logged_in : Db → ℕ → AdminDrawn → AdminUser → (AdminAuthTokens × AdminProfile) × Db
  unfolding update_where log
  logged_in db now drawn admin =
      let (tokens, db₁) = issue_admin_tokens db now drawn admin none in
      (
        (tokens, to_profile admin),
        log ActorType.admin admin.id "admin.login.success" admin.id (record db₁ {
          admins = update_where (λ a. a.id == admin.id) (set_last_login now) db₁.admins;
        }),
      )

  -- login; a failure is logged before it is thrown.
  unfoldable pub login :
      (List ℕ → ℕ → Bool)
      → Db
      → ℕ
      → AdminDrawn
      → List ℕ
      → List ℕ
      → Result (AdminAuthTokens × AdminProfile) × Db
  unfolding logged_in log
  login verify db now drawn username password =
      elim (active_admin (admin_of_email db (map lower (trim username)))) [
        | none ↦ (err invalid_credentials, log ActorType.admin 0 "admin.login.failed" 0 db)
        | some admin ↦
            if verify password admin.password_hash
            then (ok (logged_in db now drawn admin).0, (logged_in db now drawn admin).1)
            else (
              err invalid_credentials,
              log ActorType.admin admin.id "admin.login.failed" admin.id db,
            )
      ]

  -- `!stored || stored.revokedAt || stored.expiresAt < new Date()`
  unfoldable pub check_admin_session : Db → ℕ → ℕ → Result (AdminRefreshToken × AdminUser)
  check_admin_session db now token_hash = do
    stored ← or_throw (admin_token_of db token_hash) invalid_or_expired_refresh_token
    throw_if (is_some stored.revoked_at || ltb stored.expires_at now)
        invalid_or_expired_refresh_token
    admin ← or_throw (admin_of db stored.admin_user_id) invalid_or_expired_refresh_token
    throw_if (not admin.is_active) admin_account_inactive
    ok (stored, admin)

  -- refresh: the token is read in `db`, and `met` are the tables that the writes meet.
  unfoldable pub refresh_admin : Db → Db → ℕ → AdminDrawn → ℕ → Result (AdminAuthTokens × Db)
  unfolding log
  refresh_admin db met now drawn token = do
    (stored, admin) ← check_admin_session db now (hash token)
    ok (
      (issue_admin_tokens met now drawn admin (some stored.id)).0,
      log ActorType.admin admin.id "admin.token.refresh" stored.id
          (issue_admin_tokens met now drawn admin (some stored.id)).1,
    )

  -- logout
  unfoldable pub logout_admin : Db → ℕ → ℕ → Option ℕ → Db
  unfolding log revoke_admin_tokens
  logout_admin db now admin_id token =
      log ActorType.admin admin_id "admin.logout" admin_id (elim token [
        | none ↦ db
        | some t ↦ revoke_admin_tokens now admin_id (λ r. r.token_hash == hash t) db
      ])

  -- listSessions: the rows, each with `isCurrent`.
  unfoldable pub list_sessions : Db → ℕ → ℕ → Option ℕ → List (AdminRefreshToken × Bool)
  unfolding select sort_by
  list_sessions db now admin_id current =
      map (λ t. (t, elim current [ none ↦ false | some c ↦ t.token_hash == hash c ]))
        (sort_by (λ a b. ltb b.created_at a.created_at)
          (select (λ t. t.admin_user_id == admin_id && is_none t.revoked_at && ltb now t.expires_at)
            db.admin_tokens))

  abbrev pub is_kept : Option ℕ → AdminRefreshToken → Bool
  is_kept none t = false
  is_kept (some current) t = t.token_hash == hash current

  -- revokeOtherSessions: the number of the rows and the tables.
  unfoldable pub revoke_other_sessions : Db → ℕ → ℕ → Option ℕ → ℕ × Db
  unfolding log revoke_admin_tokens count
  revoke_other_sessions db now admin_id current = (
    count (λ t. t.admin_user_id == admin_id && is_none t.revoked_at && not (is_kept current t))
        db.admin_tokens,
    log ActorType.admin admin_id "admin.sessions.revoked_others" 0
        (revoke_admin_tokens now admin_id (λ t. not (is_kept current t)) db),
  )
