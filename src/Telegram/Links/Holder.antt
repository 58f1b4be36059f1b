-- ===== src/Telegram/Links/Holder.antt =====
-- Who becomes the holder of a license, under the methods of licenses/telegram-license-link.service.ts.
use ruznamo_backend.Common.{
  true, false, is_none, ◌&&◌, ok, find, is_id, Option-cases, Bool, Result-cases, ℕ, ◌≡◌, refl, some,
  String, ◌==◌, ◌∙◌, arith, Bool-cases, inl, inr,
}
use ruznamo_backend.Common.Counting.{find-update_where}
use ruznamo_backend.Db.{LinkChallenge, log, Db, License, ActorType, kept}
use ruznamo_backend.Licenses.Activate.{MobileJwtPayload}
use ruznamo_backend.Licenses.Replacement.{license_of}
use ruznamo_backend.Telegram.Links.{
  device_live, is_pair, assert_license_linkable, check_holder, session_activation,
  consume_link_challenge, settle_verified, write_disconnect, settle_link, create_link_challenge,
  confirm_link, link_verified, revoke_device_as_holder, write_holder, link_holder,
}
use ruznamo_backend.Telegram.Links.Run.{
  license_of-id, check_holder-Claimable, Verified-run, confirm-Confirmed, Claimable,
}
use mathlib.Core.Path.{subst}

-- One method.
pub data LinkStep : Db → Db → Type 0 where
  creates :
      (db : Db) (now id token : ℕ) (user : MobileJwtPayload) (license_id : ℕ)
      → LinkStep db (kept db (create_link_challenge db now id token user license_id))
  confirms :
      (db : Db) (now token account sender : ℕ)
      → LinkStep db (kept db (confirm_link db db now token account sender))
  verifies :
      (db : Db) (now license_id account device_id mobile_user_id : ℕ)
      → LinkStep db (kept db (link_verified db db now license_id account device_id mobile_user_id))
  disconnects :
      (db : Db) (now account license_id device_id : ℕ)
      → LinkStep db (kept db (revoke_device_as_holder db now account license_id device_id))

pub data LinkReach (db : Db) : Db → Type 0 where
  here : LinkReach db db
  next : {mid db' : Db} → LinkReach db mid → LinkStep mid db' → LinkReach db db'

-- What becomes of the holder of a license.
pub data HolderMoves (l m : License) : Type 0 where
  stays : m.holder ≡ l.holder → HolderMoves l m
  claimed : (account : ℕ) → Claimable l account → m.holder ≡ some account → HolderMoves l m

abbrev Moved : Db → ℕ → License → Type 0
Moved db' k m = (m' : License) × (license_of db' k ≡ some m') × HolderMoves m m'

unmoved :
    (db' db : Db) (k : ℕ) (m : License)
    → db'.licenses ≡ db.licenses
    → license_of db k ≡ some m
    → Moved db' k m
unfolding license_of
unmoved db' db k m same found = (m, rw same found, stays refl)

-- The license that was read under the id `j` gets the holder, every other one stays.
written_moves :
    (db : Db) (now : ℕ) (l : License) (account : ℕ) (history event : String) (actor : ActorType)
    (actor_id j k : ℕ) (m : License)
    → license_of db j ≡ some l
    → Claimable l account
    → license_of db k ≡ some m
    → Moved (write_holder now l account history event actor actor_id db) k m
unfolding license_of write_holder
written_moves db now l account history event actor actor_id j k m read free found =
    let after =
      find-update_where (λ x. x.id == k) (λ x. x.id == l.id) (link_holder now account) db.licenses
        (λ x. refl) in
    let m_k = license_of-id db k m found in
    let l_j = license_of-id db j l read in
    elim (Bool-cases (m.id == l.id)) [
      | inl same ↦
          let k_j : k ≡ j = ground arith in
          let m_l : m ≡ l = cc (found, read, k_j) in
          (
            link_holder now account m,
            after ∙ rw found (rw same refl),
            claimed account (rw m_l free) refl,
          )
      | inr other ↦ (m, after ∙ rw found (rw other refl), stays refl)
    ]

settled_moves :
    (db : Db) (now : ℕ) (c : LinkChallenge) (l : License) (account : ℕ) (already : Bool) (j k : ℕ)
    (m : License)
    → license_of db j ≡ some l
    → check_holder l account ≡ ok already
    → license_of db k ≡ some m
    → Moved (settle_link db now c l account already) k m
unfolding settle_link consume_link_challenge log license_of
settled_moves db now c l account true j k m read free found = (m, found, stays refl)
settled_moves db now c l account false j k m read free found =
    written_moves db now l account _ "telegram_holder_linked" ActorType.telegram_bot account j k m
      read (check_holder-Claimable l account free) found

verified_moves :
    (db : Db) (now : ℕ) (l : License) (account user : ℕ) (already : Bool) (j k : ℕ) (m : License)
    → license_of db j ≡ some l
    → check_holder l account ≡ ok already
    → license_of db k ≡ some m
    → Moved (settle_verified db now l account user already) k m
unfolding settle_verified log license_of
verified_moves db now l account user true j k m read free found = (m, found, stays refl)
verified_moves db now l account user false j k m read free found =
    written_moves db now l account "TELEGRAM_OTP_LINK_ACCOUNT" "telegram_holder_linked_via_otp"
      ActorType.user user j k m read (check_holder-Claimable l account free) found

create_link-licenses :
    (db : Db) (now id token : ℕ) (user : MobileJwtPayload) (license_id : ℕ)
    → (kept db (create_link_challenge db now id token user license_id)).licenses ≡ db.licenses
unfolding create_link_challenge log
create_link-licenses db now id token user license_id =
    elim (Option-cases (session_activation db user license_id)) [
      | inl missing ↦ rw missing refl
      | inr (a, active) ↦ rw active (elim (Option-cases (license_of db license_id)) [
        | inl missing ↦ rw missing refl
        | inr (l, found) ↦ rw found (elim (Result-cases (assert_license_linkable now l)) [
          | inl (e, failed) ↦ rw failed refl
          | inr (u, fine) ↦ rw fine refl
        ])
      ])
    ]

revoke-licenses :
    (db : Db) (now account license_id device_id : ℕ)
    → (kept db (revoke_device_as_holder db now account license_id device_id)).licenses ≡ db.licenses
unfolding revoke_device_as_holder write_disconnect log
revoke-licenses db now account license_id device_id =
    elim (Option-cases (license_of db license_id)) [
      | inl missing ↦ rw missing refl
      | inr (l, found) ↦ rw found (elim (Bool-cases (is_id l.holder account)) [
        | inr other ↦ rw other refl
        | inl held ↦
            rw held
              (elim (Option-cases (
                find (λ a. is_pair license_id device_id a && is_none a.revoked_at)
                  db.activations)) [
                    | inl missing ↦ rw missing refl
                    | inr (a, active) ↦
                        rw active (elim (Bool-cases (device_live db.devices a.device_id)) [
                          | inl live ↦ rw live refl
                          | inr blocked ↦ rw blocked refl
                        ])
                  ])
      ])
    ]

-- The methods on license links, each run alone, lose no license, and change the holder of one only from
-- nobody to an account that is not kept out by another Telegram purchaser of it.
pub LinkStep-HolderMoves :
    (db db' : Db) (k : ℕ) (m : License)
    → LinkStep db db'
    → license_of db k ≡ some m
    → (m' : License) × (license_of db' k ≡ some m') × HolderMoves m m'
LinkStep-HolderMoves db db' k m (creates d now id token user license_id) found =
    unmoved _ d k m (create_link-licenses d now id token user license_id) found
LinkStep-HolderMoves db db' k m (confirms d now token account sender) found =
    elim (Result-cases (confirm_link d d now token account sender)) [
      | inl (e, failed) ↦ rw (failed, kept) (m, found, stays refl)
      | inr (p, went) ↦
          let run = confirm-Confirmed d now token account sender p.0 p.1 went in
          rw (went, kept)
            (subst (λ d'. Moved d' k m) run.written
              (settled_moves d now run.challenge run.license account p.0.already_linked
                run.challenge.license_id k m run.found run.holder found))
    ]
LinkStep-HolderMoves db db' k m (verifies d now license_id account device_id user) found =
    elim (Result-cases (link_verified d d now license_id account device_id user)) [
      | inl (e, failed) ↦ rw (failed, kept) (m, found, stays refl)
      | inr (p, went) ↦
          let run = Verified-run d now license_id account device_id user p.0 p.1 went in
          rw (went, kept)
            (subst (λ d'. Moved d' k m) run.written
              (verified_moves d now run.license account user p.0.already_linked license_id k m
                run.found run.holder found))
    ]
LinkStep-HolderMoves db db' k m (disconnects d now account license_id device_id) found =
    unmoved _ d k m (revoke-licenses d now account license_id device_id) found

HolderMoves-keeps :
    (l m : License) (account : ℕ)
    → HolderMoves l m
    → l.holder ≡ some account
    → m.holder ≡ some account
HolderMoves-keeps l m account (stays same) held = same ∙ held
HolderMoves-keeps l m account (claimed other free now) held = absurd (cc (free.0, held))

-- Whatever of these methods follow, each run alone, a license that has a holder keeps this holder.
keeps_holder :
    (db db' : Db) (k : ℕ) (l : License) (account : ℕ)
    → LinkReach db db'
    → license_of db k ≡ some l
    → l.holder ≡ some account
    → (l' : License) × (license_of db' k ≡ some l') × (l'.holder ≡ some account)
keeps_holder db db' k l account here found held = (l, found, held)
keeps_holder db db' k l account (next {mid} r st) found held =
    let (m, found₁, held₁) = keeps_holder db mid k l account r found held in
    let (m', found₂, moves) = LinkStep-HolderMoves mid db' k m st found₁ in
    (m', found₂, HolderMoves-keeps m m' account moves held₁)
