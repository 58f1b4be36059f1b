-- ===== src/Admin/Auth/Account.antt =====
-- The account of an administrator in admin/auth/admin-auth.service.ts: the profile and the password.
use ruznamo_backend.Common.{
  ℕ, Bool, true, false, not, Option, none, some, List, ◌==◌, ltb, is_nil, length, trim,
  update_where, Result, ok, ◌>>=◌, ◌>>◌, throw_if, or_throw, display_name_empty,
  admin_account_not_found, new_password_too_short, current_password_incorrect,
}
use ruznamo_backend.Db.{ActorType, Db, AdminUser, log}
use ruznamo_backend.Admin.Auth.{
  AdminProfile, to_profile, active_admin, admin_of, revoke_admin_tokens,
}

-- getProfile
unfoldable pub get_profile : Db → ℕ → Result AdminProfile
get_profile db id = do
  admin ← or_throw (active_admin (admin_of db id)) admin_account_not_found
  ok (to_profile admin)

abbrev set_display_name : List ℕ → AdminUser → AdminUser
set_display_name name a = record a { display_name = some name }

abbrev is_empty_name : Option (List ℕ) → Bool
is_empty_name none = false
is_empty_name (some name) = is_nil (trim name)

-- updateProfile
unfoldable pub update_profile : Db → ℕ → Option (List ℕ) → Result (AdminProfile × Db)
unfolding update_where log trim
update_profile db id name = do
  throw_if (is_empty_name name) display_name_empty
  admin ← or_throw (active_admin (admin_of db id)) admin_account_not_found
  elim name [
    | none ↦ ok (to_profile admin, db)
    | some given ↦ ok (
      to_profile (set_display_name (trim given) admin),
      log ActorType.admin id "admin.profile.updated" id (record db {
        admins = update_where (λ a. a.id == id) (set_display_name (trim given)) db.admins;
      }),
    )
  ]

abbrev pub set_password : ℕ → AdminUser → AdminUser
set_password password_hash a = record a { password_hash = password_hash }

unfoldable pub with_password : ℕ → ℕ → ℕ → Db → Db
unfolding update_where
with_password now id password_hash db = record db {
  admins = update_where (λ a. a.id == id) (set_password password_hash) db.admins;
}

-- The transaction of `changePassword`: every session ends.
unfoldable pub write_password : ℕ → ℕ → ℕ → Db → Db
unfolding with_password revoke_admin_tokens
write_password now id password_hash db =
    revoke_admin_tokens now id (λ t. true) (with_password now id password_hash db)

-- changePassword
unfoldable pub change_password :
    (List ℕ → ℕ → Bool) → (List ℕ → ℕ) → Db → ℕ → ℕ → List ℕ → List ℕ → Result Db
unfolding write_password log
change_password verify hash_password db now id current_password new_password = do
  throw_if (ltb (length new_password) 12) new_password_too_short
  admin ← or_throw (active_admin (admin_of db id)) admin_account_not_found
  throw_if (not (verify current_password admin.password_hash)) current_password_incorrect
  ok (
      log ActorType.admin id "admin.password.changed" id
        (write_password now id (hash_password new_password) db))
