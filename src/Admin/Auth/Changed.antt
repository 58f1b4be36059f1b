-- ===== src/Admin/Auth/Changed.antt =====
-- What ends when an administrator changes the password or revokes the other sessions, in
-- admin/auth/admin-auth.service.ts.
use ruznamo_backend.Licenses.Key.{lower}
use ruznamo_backend.Common.{
  ◌⊎◌, admin_account_not_found, current_password_incorrect, invalid_credentials,
  invalid_or_expired_refresh_token, ltb, new_password_too_short, same_text, ℕ, ◌≡◌, refl, Bool,
  true, false, not, Option, some, List, [], ◌∷◌, ◌==◌, ◌&&◌, ◌∙◌, arith, ok, err, inl, inr,
  Bool-cases, ==_refl, >>=-eq-ok, >>-eq-ok, ok-injective, or_throw, is_some, is_none, select,
  update_where, map, trim,
}
use ruznamo_backend.Common.Counting.{find-update_where}
use ruznamo_backend.Db.{ActorType, log, Db, AdminUser, AdminRefreshToken}
use ruznamo_backend.Admin.Auth.{
  is_kept, revoke_other_sessions, admin_of, revoke_token, check_admin_session, active_admin,
  admin_of_email, refresh_admin, revoke_admin_tokens, admin_token_of, login, list_sessions,
  AdminDrawn,
}
use ruznamo_backend.Admin.Auth.Account.{
  with_password, change_password, set_password, write_password,
}
use mathlib.Core.Path.{subst}

-- A token that is stored as revoked is refused.
revoked_refused :
    (hash : ℕ → ℕ) (db met : Db) (later : ℕ) (drawn : AdminDrawn) (token : ℕ)
    (t : AdminRefreshToken)
    → admin_token_of db (hash token) ≡ some t
    → is_some t.revoked_at ≡ true
    → refresh_admin hash db met later drawn token ≡ err invalid_or_expired_refresh_token
unfolding refresh_admin check_admin_session
revoked_refused hash db met later drawn token t found revoked = rw found (rw revoked refl)

abbrev RevokedToken : Db → ℕ → Type 0
RevokedToken db token_hash =
    (t : AdminRefreshToken) × (admin_token_of db token_hash ≡ some t)
    × (is_some t.revoked_at ≡ true)

revoke-RevokedToken :
    (db : Db) (now id token_hash : ℕ) (which : AdminRefreshToken → Bool) (s : AdminRefreshToken)
    → admin_token_of db token_hash ≡ some s
    → s.admin_user_id ≡ id
    → which s ≡ true
    → RevokedToken (revoke_admin_tokens now id which db) token_hash
unfolding revoke_admin_tokens admin_token_of
revoke-RevokedToken db now id token_hash which s found mine chosen =
    let after =
      find-update_where (λ t. t.token_hash == token_hash)
        (λ t. t.admin_user_id == id && is_none t.revoked_at && which t) (revoke_token now)
        db.admin_tokens (λ t. refl) in
    let here : (s.admin_user_id == id) ≡ true = rw mine (==_refl id) in
    elim (Bool-cases (is_none s.revoked_at)) [
      | inl unrevoked ↦
          (revoke_token now s, after ∙ rw found (rw (here, unrevoked, chosen) refl), refl)
      | inr revoked ↦ (s, after ∙ rw found (rw (here, revoked) refl), ground arith)
    ]

select-update_none :
    {A : Type 0} (p q : A → Bool) (f : A → A) (xs : List A)
    → ((x : A) → p x ≡ true → q x ≡ true)
    → ((x : A) → p (f x) ≡ false)
    → select p (update_where q f xs) ≡ []
unfolding select update_where
select-update_none p q f [] sub gone = refl
select-update_none p q f (x ∷ xs) sub gone =
    ground (arith, select-update_none p q f xs sub gone, sub x, gone x)

no_sessions :
    (hash : ℕ → ℕ) (db : Db) (now later id : ℕ) (current : Option ℕ)
    → list_sessions hash (revoke_admin_tokens now id (λ t. true) db) later id current ≡ []
unfolding list_sessions revoke_admin_tokens
no_sessions hash db now later id current =
    let e =
      select-update_none
        (λ (t : AdminRefreshToken).
          t.admin_user_id == id && is_none t.revoked_at && ltb later t.expires_at)
        (λ t. t.admin_user_id == id && is_none t.revoked_at && true) (revoke_token now)
        db.admin_tokens (λ t h. ground arith) (λ t. ground arith) in
    rw e refl

login_refused :
    (verify : List ℕ → ℕ → Bool) (hash : ℕ → ℕ) (db : Db) (now : ℕ) (drawn : AdminDrawn)
    (username password : List ℕ) (a : AdminUser)
    → admin_of_email db (map lower (trim username)) ≡ some a
    → verify password a.password_hash ≡ false
    → (login hash verify db now drawn username password).0 ≡ err invalid_credentials
unfolding login active_admin
login_refused verify hash db now drawn username password a found wrong =
    elim (Bool-cases a.is_active) [
      | inl active ↦ rw (found, login) (rw active (rw wrong refl))
      | inr inactive ↦ rw (found, login) (rw inactive refl)
    ]

found_changed :
    (db : Db) (now id password_hash : ℕ) (email : List ℕ) (a : AdminUser)
    → admin_of_email db email ≡ some a
    → a.id ≡ id
    → admin_of_email (write_password now id password_hash db) email
      ≡ some (set_password password_hash a)
unfolding admin_of_email write_password revoke_admin_tokens
found_changed db now id password_hash email a found mine =
    let after =
      find-update_where (λ b. same_text b.email email) (λ b. b.id == id)
        (set_password password_hash) db.admins (λ b. refl) in
    let here : (a.id == id) ≡ true = rw mine (==_refl id) in after ∙ rw found (rw here refl)

change_password-ran :
    (verify : List ℕ → ℕ → Bool) (hash_password : List ℕ → ℕ) (db : Db) (now id : ℕ)
    (current_password new_password : List ℕ) (db' : Db)
    → change_password verify hash_password db now id current_password new_password ≡ ok db'
    → log ActorType.admin id "admin.password.changed" id
        (write_password now id (hash_password new_password) db)
      ≡ db'
unfolding change_password
change_password-ran verify hash_password db now id current_password new_password db' h =
    let (_, h₁) = >>-eq-ok _ new_password_too_short _ h in
    let (_, _, h₂) =
      >>=-eq-ok (or_throw (active_admin (admin_of db id)) admin_account_not_found) _ h₁ in
    let (_, h₃) = >>-eq-ok _ current_password_incorrect _ h₂ in ok-injective h₃

-- After an administrator changes the password no session of theirs is listed, no refresh with a token
-- that they held then goes through, and no login under their email with a password that bcrypt does not
-- match with the new one.
pub change_password-closes :
    (verify : List ℕ → ℕ → Bool) (hash_password : List ℕ → ℕ) (hash : ℕ → ℕ) (db met : Db)
    (now id : ℕ) (current_password new_password : List ℕ) (db' : Db) (later : ℕ)
    (drawn : AdminDrawn) (token : ℕ) (s : AdminRefreshToken) (current : Option ℕ)
    (username password : List ℕ) (a : AdminUser)
    → change_password verify hash_password db now id current_password new_password ≡ ok db'
    → admin_token_of db (hash token) ≡ some s
    → s.admin_user_id ≡ id
    → admin_of_email db (map lower (trim username)) ≡ some a
    → a.id ≡ id
    → verify password (hash_password new_password) ≡ false
    → (list_sessions hash db' later id current ≡ [])
      × (refresh_admin hash db' met later drawn token ≡ err invalid_or_expired_refresh_token)
      × ((login hash verify db' later drawn username password).0 ≡ err invalid_credentials)
unfolding log write_password with_password admin_token_of admin_of_email list_sessions
change_password-closes verify hash_password hash db met now id current_password new_password db'
      later drawn token s current username password a h held its named mine wrong =
    let ran =
      change_password-ran verify hash_password db now id current_password new_password db' h in
    let (t, there, revoked) =
      revoke-RevokedToken (with_password now id (hash_password new_password) db) now id (hash token)
        (λ u. true) s held its refl in
    (
      subst (λ d. list_sessions hash d later id current ≡ []) ran
          (no_sessions hash (with_password now id (hash_password new_password) db) now later id
            current),
      subst (λ d. refresh_admin hash d met later drawn token ≡ err invalid_or_expired_refresh_token)
          ran (revoked_refused hash _ met later drawn token t there revoked),
      subst (λ d. (login hash verify d later drawn username password).0 ≡ err invalid_credentials)
          ran
          (login_refused verify hash _ later drawn username password (set_password _ a)
            (found_changed db now id (hash_password new_password) _ a named mine) wrong),
    )

kept_token :
    (hash : ℕ → ℕ) (db : Db) (now id : ℕ) (current : Option ℕ) (token_hash : ℕ)
    (s : AdminRefreshToken)
    → admin_token_of db token_hash ≡ some s
    → is_kept hash current s ≡ true
    → admin_token_of (revoke_other_sessions hash db now id current).1 token_hash ≡ some s
unfolding revoke_other_sessions revoke_admin_tokens admin_token_of log
kept_token hash db now id current token_hash s found kept =
    find-update_where (λ t. t.token_hash == token_hash)
      (λ t. t.admin_user_id == id && is_none t.revoked_at && not (is_kept hash current t))
      (revoke_token now) db.admin_tokens (λ t. refl)
    ∙ rw found (rw kept (ground arith))

-- After an administrator revokes the other sessions, a token of theirs is stored as it was if it is the
-- current one, by its hash, and no refresh with it goes through if it is another, or if no current one
-- was given.
pub revoke_other_sessions-keeps :
    (hash : ℕ → ℕ) (db met : Db) (now id : ℕ) (current : Option ℕ) (later : ℕ) (drawn : AdminDrawn)
    (token : ℕ) (s : AdminRefreshToken)
    → admin_token_of db (hash token) ≡ some s
    → s.admin_user_id ≡ id
    → ((is_kept hash current s ≡ true)
        × (admin_token_of (revoke_other_sessions hash db now id current).1 (hash token) ≡ some s))
      ⊎ ((is_kept hash current s ≡ false)
          × (refresh_admin hash
                (revoke_other_sessions hash db now id current).1
                met
                later
                drawn
                token
              ≡ err invalid_or_expired_refresh_token))
unfolding revoke_other_sessions log admin_token_of
revoke_other_sessions-keeps hash db met now id current later drawn token s found mine =
    elim (Bool-cases (is_kept hash current s)) [
      | inl kept ↦ inl (kept, kept_token hash db now id current (hash token) s found kept)
      | inr other ↦
          let (t, there, revoked) =
            revoke-RevokedToken db now id (hash token) (λ u. not (is_kept hash current u)) s found
              mine (rw other refl) in
          inr (
            other,
            revoked_refused hash (revoke_other_sessions hash db now id current).1 met later drawn
                token t there revoked,
          )
    ]
