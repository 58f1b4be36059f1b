-- ===== src/Telegram/SignIn/Lock.antt =====
-- How many codes a challenge of auth/telegram-auth.service.ts takes.
use ruznamo_backend.Common.{
  [], inr, inl, Bool-cases, length, ◌+◌, All, ◌∷◌, is_some, ℕ, ◌≡◌, ◌≤◌, ◌<◌, refl, true, false,
  some, none, List, ok, err, ◌==◌, ◌∙◌, leb, ==_refl, arith, auth_challenge_used,
}
use ruznamo_backend.Common.Counting.{find-update_where}
use ruznamo_backend.Db.{and_then, Db, AuthChallenge}
use ruznamo_backend.Licenses.Activate.{MobileJwtPayload}
use ruznamo_backend.Telegram.SignIn.{
  close_challenge, count_attempt, answer_code, normalize_code, miss, challenge_of, update_challenge,
  check_answerable, verify_otp,
}

-- A challenge of the session that waits for its code.
pub record Waiting (db : Db) (challenge_id : ℕ) (user : MobileJwtPayload) (c : AuthChallenge)
    (code_hash until : ℕ) : Type 0 where
  pub found : challenge_of db challenge_id ≡ some c
  pub same_user : c.requesting_mobile_user_id ≡ user.sub
  pub same_device : c.requesting_device_id ≡ user.device_id
  pub unconsumed : c.consumed_at ≡ none
  pub account : ℕ
  pub bound : c.telegram_account_id ≡ some account
  pub code : c.otp_hash ≡ some code_hash
  pub code_until : c.otp_expires_at ≡ some until
  pub in_time : until ≤ c.expires_at
  pub attempts : c.attempt_count < c.max_attempts

-- It is spent.
pub record Spent (db : Db) (challenge_id : ℕ) (user : MobileJwtPayload) : Type 0 where
  pub challenge : AuthChallenge
  pub found : challenge_of db challenge_id ≡ some challenge
  pub same_user : challenge.requesting_mobile_user_id ≡ user.sub
  pub same_device : challenge.requesting_device_id ≡ user.device_id
  pub consumed : is_some challenge.consumed_at ≡ true

updated_found :
    (db : Db) (id : ℕ) (f : AuthChallenge → AuthChallenge) (c : AuthChallenge)
    → ((x : AuthChallenge) → (f x).id ≡ x.id)
    → challenge_of db id ≡ some c
    → challenge_of (update_challenge c.id f db) id ≡ some (f c)
unfolding challenge_of update_challenge
updated_found db id f c same found =
    find-update_where (λ x. x.id == id) (λ x. x.id == c.id) f db.auth_challenges
      (λ x. rw (same x) refl)
    ∙ rw found (rw (==_refl c.id) refl)

Waiting-answerable :
    (db : Db) (now challenge_id : ℕ) (user : MobileJwtPayload) (c : AuthChallenge)
    (code_hash until : ℕ)
    → (w : Waiting db challenge_id user c code_hash until) → now < until
    → check_answerable db now challenge_id user
      ≡ ok (record { challenge = c; account = w.account; code_hash = code_hash })
unfolding check_answerable
Waiting-answerable db now challenge_id user c code_hash until w early =
    let early_code : leb until now ≡ false = ground arith in
    let in_time : leb c.expires_at now ≡ false = ground (arith, w.in_time) in
    let left : leb c.max_attempts c.attempt_count ≡ false = ground (arith, w.attempts) in
    rw
      (
        w.found,
        w.same_user,
        w.same_device,
        ==_refl user.sub,
        ==_refl user.device_id,
        w.unconsumed,
        in_time,
        w.bound,
        w.code,
        w.code_until,
        left,
        early_code,
      )
      refl

Spent-refused :
    (hash_otp : List ℕ → ℕ) (db met : Db) (now id challenge_id : ℕ) (code : List ℕ)
    (user : MobileJwtPayload)
    → Spent db challenge_id user
    → verify_otp hash_otp now id challenge_id code user db met ≡ (err auth_challenge_used, met)
unfolding verify_otp check_answerable
Spent-refused hash_otp db met now id challenge_id code user s =
    rw (s.found, s.same_user, s.same_device, ==_refl user.sub, ==_refl user.device_id, s.consumed)
      refl

module _ (hash_otp : List ℕ → ℕ) (id challenge_id : ℕ) (user : MobileJwtPayload) where
  -- Codes that are sent one after the other, each with its time.
  pub guesses : List (ℕ × List ℕ) → Db → Db
  guesses [] db = db
  guesses (g ∷ gs) db = guesses gs (verify_otp hash_otp g.0 id challenge_id g.1 user db db).1

  -- A wrong code within the lifetime of the right one.
  abbrev pub IsWrong : ℕ → ℕ → ℕ × List ℕ → Type 0
  IsWrong code_hash until g = ((hash_otp (normalize_code g.1) == code_hash) ≡ false) × (g.0 < until)

  miss_waits :
      (now : ℕ) (c : AuthChallenge) (code_hash until : ℕ) (db : Db)
      → Waiting db challenge_id user c code_hash until
      → c.attempt_count + 1 < c.max_attempts
      → Waiting
          (miss now c db).1
          challenge_id
          user
          (count_attempt (c.attempt_count + 1) c)
          code_hash
          until
  unfolding miss
  miss_waits now c code_hash until db w left =
      let more : leb c.max_attempts (c.attempt_count + 1) ≡ false = ground arith in
      rw more (record {
        found =
            updated_found db challenge_id (count_attempt (c.attempt_count + 1)) c (λ x. refl)
              w.found;
        same_user = w.same_user;
        same_device = w.same_device;
        unconsumed = w.unconsumed;
        account = w.account;
        bound = w.bound;
        code = w.code;
        code_until = w.code_until;
        in_time = w.in_time;
        attempts = left;
      })

  miss_spends :
      (now : ℕ) (c : AuthChallenge) (code_hash until : ℕ) (db : Db)
      → Waiting db challenge_id user c code_hash until
      → c.max_attempts ≤ c.attempt_count + 1
      → Spent (miss now c db).1 challenge_id user
  unfolding miss
  miss_spends now c code_hash until db w full =
      let last : leb c.max_attempts (c.attempt_count + 1) ≡ true = ground arith in
      let counted = count_attempt (c.attempt_count + 1) c in
      let one =
        updated_found db challenge_id (count_attempt (c.attempt_count + 1)) c (λ x. refl) w.found in
      rw last (record {
        challenge = close_challenge now counted;
        found =
            updated_found (update_challenge c.id (count_attempt (c.attempt_count + 1)) db)
              challenge_id (close_challenge now) counted (λ x. refl) one;
        same_user = w.same_user;
        same_device = w.same_device;
        consumed = refl;
      })

  wrong_misses :
      (c : AuthChallenge) (code_hash until : ℕ) (g : ℕ × List ℕ) (db : Db)
      → Waiting db challenge_id user c code_hash until
      → IsWrong code_hash until g
      → verify_otp hash_otp g.0 id challenge_id g.1 user db db ≡ miss g.0 c db
  unfolding verify_otp answer_code
  wrong_misses c code_hash until g db w wrong =
      rw (Waiting-answerable db g.0 challenge_id user c code_hash until w wrong.1, and_then)
        (rw wrong.0 refl)

  Spent-stays :
      (gs : List (ℕ × List ℕ)) (db : Db)
      → Spent db challenge_id user
      → Spent (guesses gs db) challenge_id user
  unfolding guesses
  Spent-stays [] db s = s
  Spent-stays (g ∷ gs) db s =
      rw (Spent-refused hash_otp db db g.0 id challenge_id g.1 user s) (Spent-stays gs db s)

  guesses-Spent :
      (gs : List (ℕ × List ℕ)) (db : Db) (c : AuthChallenge) (code_hash until : ℕ)
      → Waiting db challenge_id user c code_hash until
      → All (IsWrong code_hash until) gs
      → c.max_attempts ≤ c.attempt_count + length gs
      → Spent (guesses gs db) challenge_id user
  unfolding guesses
  guesses-Spent [] db c code_hash until w wrong enough = absurd (omega (arith, w.attempts, enough))
  guesses-Spent (g ∷ gs) db c code_hash until w wrong enough =
      rw (wrong_misses c code_hash until g db w wrong.0)
        (elim (Bool-cases (leb c.max_attempts (c.attempt_count + 1))) [
          | inl last ↦
              Spent-stays gs (miss g.0 c db).1
                (miss_spends g.0 c code_hash until db w (ground arith))
          | inr more ↦
              guesses-Spent gs (miss g.0 c db).1 (count_attempt (c.attempt_count + 1) c) code_hash
                until (miss_waits g.0 c code_hash until db w (ground arith)) wrong.1 (omega arith)
        ])

-- Guessing ends where the codes of one session are tried one after another, each try run alone, and
-- nothing else happens in between, above all no new code is issued: once as many wrong codes were sent in
-- time as a waiting challenge has attempts left, it is spent, and the next code that reads the tables which
-- they leave is refused as used, the right one too, with nothing written in the tables that it meets.
pub guesses-end :
    (hash_otp : List ℕ → ℕ) (db : Db) (id challenge_id : ℕ) (user : MobileJwtPayload)
    (c : AuthChallenge) (code_hash until : ℕ) (gs : List (ℕ × List ℕ)) (met : Db) (later : ℕ)
    (code : List ℕ)
    → Waiting db challenge_id user c code_hash until
    → All (IsWrong hash_otp id challenge_id user code_hash until) gs
    → c.max_attempts ≤ c.attempt_count + length gs
    → verify_otp hash_otp later id challenge_id code user
        (guesses hash_otp id challenge_id user gs db)
        met
      ≡ (err auth_challenge_used, met)
guesses-end hash_otp db id challenge_id user c code_hash until gs met later code w wrong enough =
    Spent-refused hash_otp _ met later id challenge_id code user
      (guesses-Spent hash_otp id challenge_id user gs db c code_hash until w wrong enough)
