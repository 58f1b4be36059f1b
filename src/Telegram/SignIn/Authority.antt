-- ===== src/Telegram/SignIn/Authority.antt =====
-- Whose code a challenge of auth/telegram-auth.service.ts accepts.
use ruznamo_backend.Common.{
  ◌+◌, ap, arith, leb, true, insert, ℕ, ◌≡◌, List, ok, ◌==◌, Bool-cases, Result-cases, inl, inr,
}
use ruznamo_backend.Db.{log, Db, AuthChallenge, and_then}
use ruznamo_backend.Licenses.Activate.{MobileJwtPayload}
use ruznamo_backend.Telegram.SignIn.{
  update_challenge, Answerable, VerifyAnswer, check_answerable, verify_otp, answer_code, miss, hit,
  write_grant, new_grant, normalize_code,
}
use ruznamo_backend.Telegram.SignIn.Run.{Open, answerable-Open}
use ruznamo_backend.Telegram.SignIn.Once.{hit-SameSignIn}
use mathlib.Core.Path.{subst}

hash_eq : (a b : ℕ) → (a == b) ≡ true → a ≡ b
hash_eq a b h = ground arith

miss_fails :
    (now : ℕ) (c : AuthChallenge) (db db' : Db) (r : VerifyAnswer) → miss now c db ≡ (ok r, db') → ⊥
unfolding miss
miss_fails now c db db' r h = elim (Bool-cases (leb c.max_attempts (c.attempt_count + 1))) [
  | inl last ↦ let e = ap (λ p. p.0) (rw last at h) in cc
  | inr more ↦ let e = ap (λ p. p.0) (rw more at h) in cc
]

hit-grants :
    (now id : ℕ) (v : Answerable) (user_id : ℕ) (db : Db)
    → (hit now id v user_id db).1.grants ≡ insert (new_grant now id v) db.grants
unfolding write_grant update_challenge log
hit-grants now id v user_id db = (hit-SameSignIn now id v user_id db).1

-- A code is accepted only on a stored challenge of this user and device that is neither consumed nor
-- expired and has attempts left, within the code's own lifetime, and only where its hash, spaces left
-- out, is the one that was stored for the bound account, all this in the tables that are read. The grant
-- that comes of it is a new row for this account, device and user in the tables `met` that the writes meet.
pub verify-authorised :
    (hash_otp : List ℕ → ℕ) (db met : Db) (now id challenge_id : ℕ) (code : List ℕ)
    (user : MobileJwtPayload) (r : VerifyAnswer) (db' : Db)
    → verify_otp hash_otp now id challenge_id code user db met ≡ (ok r, db')
    → (v : Answerable) × Open db now challenge_id user v
      × (hash_otp (normalize_code code) ≡ v.code_hash)
      × (db'.grants ≡ insert (new_grant now id v) met.grants)
unfolding verify_otp answer_code
verify-authorised hash_otp db met now id challenge_id code user r db' h =
    elim (Result-cases (check_answerable db now challenge_id user)) [
      | inl (e, failed) ↦ absurd (let f = ap (λ p. p.0) (rw (failed, and_then) at h) in cc)
      | inr (v, fine) ↦
          let h₁ = rw (fine, and_then) at h in
          elim (Bool-cases (hash_otp (normalize_code code) == v.code_hash)) [
            | inr wrong ↦ absurd (miss_fails now v.challenge met db' r (rw wrong at h₁))
            | inl right ↦
                let went : hit now id v user.sub met ≡ (ok r, db') = rw right at h₁ in
                (
                  v,
                  answerable-Open db now challenge_id user v fine,
                  hash_eq _ _ right,
                  subst (λ d. d.grants ≡ insert (new_grant now id v) met.grants)
                      (ap (λ p. p.1) went) (hit-grants now id v user.sub met),
                )
          ]
    ]
