-- ===== src/Telegram/SignIn/Once.antt =====
-- One grant for each challenge of auth/telegram-auth.service.ts.
use ruznamo_backend.Common.{
  ok, leb, Option-cases, ==_refl, ◌∙◌, refl, ◌+◌, ◌+◌, inr, Bool-cases, inl, find_sound,
  Result-cases, ℕ, ◌≡◌, ◌≤◌, Bool, true, false, Option, some, none, List, [], ◌∷◌, ◌==◌, find,
  count, insert, update_where, is_some, if◌then◌else◌, arith,
}
use ruznamo_backend.Db.{
  and_then, settle, is_link_account, log, Db, AuthChallenge, AuthPurpose, RecoveryGrant, kept,
}
use ruznamo_backend.Licenses.Activate.{session_device, MobileJwtPayload}
use ruznamo_backend.Telegram.SignIn.{
  auth_challenge, close_challenge, normalize_code, check_link_account, bind_account, count_attempt,
  check_answerable, check_bindable, miss, answer_code, link_verified, verify_challenge, new_grant,
  finish_for, write_grant, Answerable, update_challenge, hit, create_auth_challenge, bind_telegram,
  verify_otp, consume_grant, challenge_of,
}
use ruznamo_backend.Telegram.SignIn.Run.{answerable-Open, link-SameSignIn, Open, SameSignIn}
use ruznamo_backend.Common.Counting.{count-update_same, find-update_where, count-insert}
use ruznamo_backend.Telegram.Links.{link_verified}

-- One method.
pub data SignStep (hash_otp : List ℕ → ℕ) : Db → Db → Type 0 where
  opens :
      (db : Db) (now id token_hash : ℕ) (user : MobileJwtPayload) (purpose : AuthPurpose)
      (given : Option ℕ)
      → SignStep hash_otp db
          (kept db (create_auth_challenge db now id token_hash user purpose given))
  binds :
      (db : Db) (now token_hash account sender otp_hash : ℕ)
      → SignStep hash_otp db (kept db (bind_telegram db now token_hash account sender otp_hash))
  answers :
      (db : Db) (now id challenge_id : ℕ) (code : List ℕ) (user : MobileJwtPayload)
      → SignStep hash_otp db (verify_otp hash_otp now id challenge_id code user db db).1
  consumes : (db : Db) (now id : ℕ) → SignStep hash_otp db (consume_grant now id db)

pub data SignReach (hash_otp : List ℕ → ℕ) (db : Db) : Db → Type 0 where
  here : SignReach hash_otp db db
  next :
      {mid db' : Db}
      → SignReach hash_otp db mid
      → SignStep hash_otp mid db'
      → SignReach hash_otp db db'

abbrev pub of_challenge : ℕ → RecoveryGrant → Bool
of_challenge id g = g.challenge_id == id

-- The grants that a challenge may have: one once it is consumed.
abbrev pub spent : Option AuthChallenge → ℕ
spent none = 0
spent (some c) = if is_some c.consumed_at then 1 else 0

abbrev pub OneGrant : Db → Type 0
OneGrant db = (id : ℕ) → count (of_challenge id) db.grants ≤ spent (challenge_of db id)

spent-insert :
    (id : ℕ) (c : AuthChallenge) (cs : List AuthChallenge)
    → is_some c.consumed_at ≡ false
    → spent (find (λ x. x.id == id) (insert c cs)) ≡ spent (find (λ x. x.id == id) cs)
unfolding find
spent-insert id c [] h = ground arith
spent-insert id c (d ∷ ds) h = ground (arith, spent-insert id c ds h)

-- An update that takes no date of use away.
spent-update :
    (id k : ℕ) (f : AuthChallenge → AuthChallenge) (cs : List AuthChallenge)
    → ((c : AuthChallenge) → (f c).id ≡ c.id)
    → ((c : AuthChallenge) → is_some c.consumed_at ≡ true → is_some (f c).consumed_at ≡ true)
    → spent (find (λ x. x.id == id) cs)
      ≤ spent (find (λ x. x.id == id) (update_where (λ x. x.id == k) f cs))
unfolding find update_where
spent-update id k f [] same keeps = omega arith
spent-update id k f (c ∷ cs) same keeps =
    ground (arith, spent-update id k f cs same keeps, same c, keeps c)

-- The tables after a right code, as far as a challenge's grants go.
finish-SameSignIn :
    (now id : ℕ) (v : Answerable) (context : Option ℕ) (db : Db)
    → SameSignIn db (finish_for now id v context db).1
finish-SameSignIn now id v none db = (refl, refl)
finish-SameSignIn now id v (some license_id) db =
    let d = v.challenge.requesting_device_id in
    let u = v.challenge.requesting_mobile_user_id in
    let same = link-SameSignIn db now license_id v.account d u in
    elim (Result-cases (link_verified db db now license_id v.account d u)) [
      | inl (e, failed) ↦ rw (failed, settle, and_then) (refl, refl)
      | inr (p, went) ↦ rw (went, settle, and_then) (rw (went, settle) at same)
    ]

pub hit-SameSignIn :
    (now id : ℕ) (v : Answerable) (user_id : ℕ) (db : Db)
    → SameSignIn (write_grant now id v user_id db) (hit now id v user_id db).1
unfolding hit
hit-SameSignIn now id v user_id db =
    finish-SameSignIn now id v
      (if is_link_account v.challenge.purpose then v.challenge.context_license_id else none)
      (write_grant now id v user_id db)

same-OneGrant : (db db' : Db) → SameSignIn db db' → OneGrant db → OneGrant db'
unfolding challenge_of
same-OneGrant db db' same one id = rw (same.0, same.1) (one id)

-- The update of a challenge takes no date of use away.
abbrev Keeps : (AuthChallenge → AuthChallenge) → Type 0
Keeps f =
    ((c : AuthChallenge) → (f c).id ≡ c.id)
    × ((c : AuthChallenge) → is_some c.consumed_at ≡ true → is_some (f c).consumed_at ≡ true)

update-OneGrant :
    (k : ℕ) (f : AuthChallenge → AuthChallenge) (db : Db)
    → Keeps f
    → OneGrant db
    → OneGrant (update_challenge k f db)
unfolding challenge_of update_challenge
update-OneGrant k f db keeps one id =
    omega (arith, one id, spent-update id k f db.auth_challenges keeps.0 keeps.1)

write_grant-OneGrant :
    (now id challenge_id : ℕ) (v : Answerable) (user : MobileJwtPayload) (db : Db)
    → Open db now challenge_id user v
    → OneGrant db
    → OneGrant (write_grant now id v user.sub db)
unfolding write_grant update_challenge log challenge_of
write_grant-OneGrant now id challenge_id v user db run one k =
    let kept_count = count-insert (of_challenge k) (new_grant now id v) db.grants in
    let more =
      spent-update k v.challenge.id (verify_challenge now) db.auth_challenges (λ c. refl)
        (λ c h. refl) in
    let c_id : v.challenge.id ≡ challenge_id = ground (
      arith,
      find_sound (λ (x : AuthChallenge). x.id == challenge_id) db.auth_challenges {x = v.challenge},
      run.found,
    ) in
    let after =
      find-update_where (λ c. c.id == k) (λ c. c.id == v.challenge.id) (verify_challenge now)
        db.auth_challenges (λ c. refl) in
    elim (Bool-cases (v.challenge.id == k)) [
      | inr other ↦ omega (
        arith,
        one k,
        more,
        let e : count (of_challenge k) (insert (new_grant now id v) db.grants)
                ≡ count (of_challenge k) db.grants + 0 =
              rw other at kept_count in
            e,
      )
      | inl this ↦
          let k_id : k ≡ challenge_id = ground arith in
          let found : find (λ c. c.id == k) db.auth_challenges ≡ some v.challenge =
            rw k_id run.found in
          let empty : count (of_challenge k) db.grants ≤ 0 =
            let at_k = one k in rw (found, run.unconsumed) at at_k in
          let now_found : find (λ c. c.id == k)
                (update_where (λ c. c.id == v.challenge.id) (verify_challenge now)
                  db.auth_challenges)
              ≡ some (verify_challenge now v.challenge) =
            after ∙ rw found (rw (==_refl v.challenge.id) refl) in
          rw now_found (
            omega (
              arith,
              empty,
              let e : count (of_challenge k) (insert (new_grant now id v) db.grants)
                      ≡ count (of_challenge k) db.grants + 1 =
                    rw this at kept_count in
                  e,
            ))
    ]

open-OneGrant :
    (db : Db) (now id token_hash : ℕ) (user : MobileJwtPayload) (purpose : AuthPurpose)
    (given : Option ℕ)
    → OneGrant db
    → OneGrant (kept db (create_auth_challenge db now id token_hash user purpose given))
unfolding create_auth_challenge log challenge_of
open-OneGrant db now id token_hash user purpose given one k =
    elim (Option-cases (session_device db user)) [
      | inl missing ↦ rw missing (one k)
      | inr (d, live) ↦
          rw live
            (elim (Result-cases
              (if is_link_account purpose then check_link_account db now user given else ok none)) [
                | inl (e, failed) ↦ rw failed (one k)
                | inr (context, fine) ↦ rw fine (
                    omega (
                      arith,
                      one k,
                      spent-insert k (auth_challenge now id token_hash user purpose context)
                          db.auth_challenges refl,
                    ))
              ])
    ]

bind-OneGrant :
    (db : Db) (now token_hash account sender otp_hash : ℕ)
    → OneGrant db
    → OneGrant (kept db (bind_telegram db now token_hash account sender otp_hash))
unfolding bind_telegram log challenge_of update_challenge
bind-OneGrant db now token_hash account sender otp_hash one =
    elim (Result-cases (check_bindable db now token_hash account sender)) [
      | inl (e, failed) ↦ rw failed one
      | inr (c, fine) ↦
          rw fine
            (update-OneGrant c.id (bind_account now account otp_hash) db (λ x. refl, λ x h. h) one)
    ]

miss-OneGrant : (now : ℕ) (c : AuthChallenge) (db : Db) → OneGrant db → OneGrant (miss now c db).1
unfolding miss
miss-OneGrant now c db one =
    let counted =
      update-OneGrant c.id (count_attempt (c.attempt_count + 1)) db (λ x. refl, λ x h. h) one in
    elim (Bool-cases (leb c.max_attempts (c.attempt_count + 1))) [
      | inr more ↦ rw more counted
      | inl last ↦ rw last (
          update-OneGrant c.id (close_challenge now)
            (update_challenge c.id (count_attempt (c.attempt_count + 1)) db)
            (λ x. refl, λ x h. refl) counted)
    ]

verify-OneGrant :
    (hash_otp : List ℕ → ℕ) (db : Db) (now id challenge_id : ℕ) (code : List ℕ)
    (user : MobileJwtPayload)
    → OneGrant db
    → OneGrant (verify_otp hash_otp now id challenge_id code user db db).1
unfolding verify_otp answer_code
verify-OneGrant hash_otp db now id challenge_id code user one =
    elim (Result-cases (check_answerable db now challenge_id user)) [
      | inl (e, failed) ↦ rw (failed, and_then) one
      | inr (v, fine) ↦
          rw (fine, and_then)
            (elim (Bool-cases (hash_otp (normalize_code code) == v.code_hash)) [
              | inl right ↦ rw right (
                  same-OneGrant (write_grant now id v user.sub db) _
                    (hit-SameSignIn now id v user.sub db)
                    (write_grant-OneGrant now id challenge_id v user db
                      (answerable-Open db now challenge_id user v fine) one))
              | inr wrong ↦ rw wrong (miss-OneGrant now v.challenge db one)
            ])
    ]

consume-OneGrant : (db : Db) (now id : ℕ) → OneGrant db → OneGrant (consume_grant now id db)
unfolding consume_grant challenge_of
consume-OneGrant db now id one k =
    rw
      (count-update_same (of_challenge k) (λ g. g.id == id)
        (λ g. record g { consumed_at = some now }) db.grants (λ g h. refl))
      (one k)

Step-OneGrant :
    (hash_otp : List ℕ → ℕ) (db db' : Db) → SignStep hash_otp db db' → OneGrant db → OneGrant db'
Step-OneGrant hash_otp db db' (opens d now id token_hash user purpose given) one =
    open-OneGrant d now id token_hash user purpose given one
Step-OneGrant hash_otp db db' (binds d now token_hash account sender otp_hash) one =
    bind-OneGrant d now token_hash account sender otp_hash one
Step-OneGrant hash_otp db db' (answers d now id challenge_id code user) one =
    verify-OneGrant hash_otp d now id challenge_id code user one
Step-OneGrant hash_otp db db' (consumes d now id) one = consume-OneGrant d now id one

-- Whatever methods on challenges and grants follow, each run alone, also those that end in an exception,
-- a challenge has at most one grant, and none as long as it is not consumed.
pub one_grant :
    (hash_otp : List ℕ → ℕ) (db db' : Db) → SignReach hash_otp db db' → OneGrant db → OneGrant db'
one_grant hash_otp db db' here one = one
one_grant hash_otp db db' (next {mid} r st) one =
    Step-OneGrant hash_otp mid db' st (one_grant hash_otp db mid r one)
