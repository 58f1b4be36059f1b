-- ===== src/Telegram/Links/Once.antt =====
-- A link challenge of licenses/telegram-license-link.service.ts is good once.
use ruznamo_backend.Common.{
  ℕ, ◌≡◌, refl, Bool, true, false, some, ok, err, ◌==◌, ◌∙◌, find, is_some, ==_refl, arith,
  link_challenge_used,
}
use ruznamo_backend.Common.Counting.{find-update_where}
use ruznamo_backend.Db.{Db, License, LinkChallenge, log}
use ruznamo_backend.Telegram.Links.{
  load_link_challenge, confirm_link, settle_link, consume_link_challenge, write_holder, Linked,
}
use ruznamo_backend.Telegram.Links.Run.{confirm-Confirmed}
use mathlib.Core.Path.{subst}

load_link_challenge-found :
    (db : Db) (now token : ℕ) (c : LinkChallenge)
    → load_link_challenge db now token ≡ ok c
    → find (λ d. d.token == token) db.link_challenges ≡ some c
unfolding load_link_challenge
load_link_challenge-found db now token c h = ground arith

spent :
    (db : Db) (now token : ℕ) (c : LinkChallenge) (l : License) (account : ℕ) (already : Bool)
    → find (λ d. d.token == token) db.link_challenges ≡ some c
    → find (λ d. d.token == token) (settle_link db now c l account already).link_challenges
      ≡ some (record c { consumed_at = some now })
unfolding settle_link consume_link_challenge write_holder log
spent db now token c l account true found =
    find-update_where (λ d. d.token == token) (λ d. d.id == c.id)
      (λ d. record d { consumed_at = some now }) db.link_challenges (λ d. refl)
    ∙ rw found (rw (==_refl c.id) refl)
spent db now token c l account false found =
    find-update_where (λ d. d.token == token) (λ d. d.id == c.id)
      (λ d. record d { consumed_at = some now }) db.link_challenges (λ d. refl)
    ∙ rw found (rw (==_refl c.id) refl)

refused :
    (db met : Db) (now token account sender : ℕ) (c : LinkChallenge)
    → find (λ d. d.token == token) db.link_challenges ≡ some c
    → is_some c.consumed_at ≡ true
    → confirm_link db met now token account sender ≡ err link_challenge_used
unfolding confirm_link load_link_challenge
refused db met now token account sender c found consumed = rw found (rw consumed refl)

-- A link challenge is good once where no other transaction comes in between a confirmation: every later
-- confirmation with its token that reads the tables which the first leaves, also where that found the
-- account to be the holder already, is refused as used, whoever sends it, whenever, and whatever tables its
-- writes would meet.
pub link-once :
    (db : Db) (now token account sender : ℕ) (r : Linked) (db' met : Db)
    (later account' sender' : ℕ)
    → confirm_link db db now token account sender ≡ ok (r, db')
    → confirm_link db' met later token account' sender' ≡ err link_challenge_used
link-once db now token account sender r db' met later account' sender' h =
    let run = confirm-Confirmed db now token account sender r db' h in
    let c = run.challenge in
    let after =
      spent db now token c run.license account r.already_linked
        (load_link_challenge-found db now token c run.valid) in
    refused db' met later token account' sender' (record c { consumed_at = some now })
      (subst
        (λ d.
          find (λ x. x.token == token) d.link_challenges
          ≡ some (record c { consumed_at = some now }))
        run.written after)
      refl
