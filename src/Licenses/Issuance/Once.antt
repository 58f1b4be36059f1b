-- ===== src/Licenses/Issuance/Once.antt =====
-- An order is given one license.
use ruznamo_backend.Common.{
  find_sound, ◌∙◌, ◌||◌, ◌==◌, ℕ, ◌≡◌, ◌≤◌, refl, Bool, true, false, none, some, List, [], ◌∷◌,
  arith, ok, is_id, any, count, find, insert, inl, inr, Bool-cases, Option-cases,
}
use ruznamo_backend.Common.Counting.{find-insert, count-find-some, count-insert}
use ruznamo_backend.Db.{Db, License}
use ruznamo_backend.Licenses.Key.{normalize_key}
use ruznamo_backend.Licenses.Issuance.{
  IssueLicenseInput, IssuedLicense, issue_license, create_license, raced_license, existing_license,
  license_of_order, new_license, issue_event, violates,
}
use mathlib.Core.Path.{sym, ap, subst}

-- At most one license for each order (`orderId` is unique).
abbrev pub OncePerOrder : List License → Type 0
OncePerOrder licenses = (k : ℕ) → count (λ l. is_id l.order_id k) licenses ≤ 1

-- What an issue that went through has written: nothing, or one new license.
pub data Wrote (db : Db) (key_hash now id : ℕ) (key : List ℕ) (input : IssueLicenseInput)
    (r : IssuedLicense) (after : Db) : Type 0 where
  nothing :
      (l : License) (k : ℕ)
      → input.order_id ≡ some k
      → license_of_order db k ≡ some l
      → r.license_id ≡ l.id
      → r.already_existed ≡ true
      → after ≡ db
      → Wrote db key_hash now id key input r after
  one :
      violates db (new_license now id key_hash key input) ≡ false
      → r.license_id ≡ id
      → r.already_existed ≡ false
      → r.license_key ≡ key
      → after ≡ record db {
        licenses = insert (new_license now id key_hash key input) db.licenses;
        events = insert (issue_event now (new_license now id key_hash key input) input) db.events;
      }
      → Wrote db key_hash now id key input r after

create-Wrote :
    (db : Db) (key_hash now id : ℕ) (key : List ℕ) (input : IssueLicenseInput) (r : IssuedLicense)
    (after : Db)
    → create_license db now (new_license now id key_hash key input) key input ≡ ok (r, after)
    → Wrote db key_hash now id key input r after
unfolding create_license raced_license existing_license
create-Wrote db key_hash now id key input r after h =
    elim (Bool-cases (violates db (new_license now id key_hash key input))) [
      | inr fits ↦ one fits (ground arith) (ground arith) (ground arith) (ground arith)
      | inl clash ↦ elim (Option-cases input.order_id) [
        | inl no_order ↦ absurd (ground arith)
        | inr (k, at') ↦ elim (Option-cases (license_of_order db k)) [
          | inl missing ↦ absurd (ground arith)
          | inr (l, there) ↦ nothing l k at' there (ground arith) (ground arith) (ground arith)
        ]
      ]
    ]

pub issue-Wrote :
    (hash : List ℕ → ℕ) (db : Db) (now id : ℕ) (raw : List ℕ) (input : IssueLicenseInput)
    (r : IssuedLicense) (after : Db)
    → issue_license hash db db now id raw input ≡ ok (r, after)
    → Wrote db (hash (normalize_key raw)) now id (normalize_key raw) input r after
unfolding issue_license existing_license
issue-Wrote hash db now id raw input r after h = elim (Option-cases input.order_id) [
  | inl no_order ↦ create-Wrote db _ now id (normalize_key raw) input r after (ground arith)
  | inr (k, at') ↦ elim (Option-cases (license_of_order db k)) [
    | inl missing ↦ create-Wrote db _ now id (normalize_key raw) input r after (ground arith)
    | inr (l, there) ↦ nothing l k at' there (ground arith) (ground arith) (ground arith)
  ]
]

count-any_none : (p : License → Bool) (ls : List License) → any p ls ≡ false → count p ls ≡ 0
unfolding any count
count-any_none p [] h = refl
count-any_none p (l ∷ ls) h = ground (arith, count-any_none p ls)

any-weaken :
    (p q : License → Bool) (ls : List License)
    → ((l : License) → q l ≡ true → p l ≡ true)
    → any p ls ≡ false
    → any q ls ≡ false
unfolding any
any-weaken p q [] sub h = refl
any-weaken p q (l ∷ ls) sub h = ground (arith, any-weaken p q ls sub, sub l)

-- No license of the order is there when one is created.
fits_alone :
    (db : Db) (l : License) (k : ℕ)
    → violates db l ≡ false
    → l.order_id ≡ some k
    → count (λ m. is_id m.order_id k) db.licenses ≡ 0
fits_alone db l k fits at' =
    count-any_none (λ m. is_id m.order_id k) db.licenses
      (any-weaken
        (λ m.
          m.key_hash == l.key_hash
          || elim l.order_id [ none ↦ false | some o ↦ is_id m.order_id o ])
        (λ m. is_id m.order_id k) db.licenses (λ m h. ground arith) fits)

insert-OncePerOrder :
    (db : Db) (l : License) (k : ℕ)
    → violates db l ≡ false
    → OncePerOrder db.licenses
    → count (λ m. is_id m.order_id k) (insert l db.licenses) ≤ 1
insert-OncePerOrder db l k fits once =
    let grown = count-insert (λ m. is_id m.order_id k) l db.licenses in
    elim (Bool-cases (is_id l.order_id k)) [
      | inr not_its ↦ ground (arith, grown, once k)
      | inl its ↦ elim (Option-cases l.order_id) [
        | inl no_order ↦ absurd (ground arith)
        | inr (j, at') ↦
            let e : j ≡ k = ground arith in
            ground (arith, grown, fits_alone db l k fits (at' ∙ ap some e))
      ]
    ]

Wrote-OncePerOrder :
    (db : Db) (key_hash now id : ℕ) (key : List ℕ) (input : IssueLicenseInput) (r : IssuedLicense)
    (after : Db)
    → Wrote db key_hash now id key input r after
    → OncePerOrder db.licenses
    → OncePerOrder after.licenses
Wrote-OncePerOrder db key_hash now id key input r after (nothing l k at' there same_id old same)
      once =
    rw same once
Wrote-OncePerOrder db key_hash now id key input r after (one fits new_id new same_key written)
      once =
    rw written (λ k. insert-OncePerOrder db (new_license now id key_hash key input) k fits once)

pub Wrote-license :
    (db : Db) (key_hash now id : ℕ) (key : List ℕ) (input : IssueLicenseInput) (r : IssuedLicense)
    (after : Db) (k : ℕ)
    → input.order_id ≡ some k
    → license_of_order db k ≡ none
    → Wrote db key_hash now id key input r after
    → license_of_order after k ≡ some (new_license now id key_hash key input)
unfolding license_of_order
Wrote-license db key_hash now id key input r after k at' free
      (nothing l j at'' there same_id old same) =
    absurd (ground arith)
Wrote-license db key_hash now id key input r after k at' free
      (one fits new_id new same_key written) =
    rw written (
      find-insert (λ l. is_id l.order_id k) (new_license now id key_hash key input) db.licenses free
        (ground arith))

license_of_order-find :
    (db : Db) (k : ℕ) (l : License)
    → license_of_order db k ≡ some l
    → find (λ m. is_id m.order_id k) db.licenses ≡ some l
unfolding license_of_order
license_of_order-find db k l h = h

Wrote-answer :
    (db : Db) (key_hash now id : ℕ) (key : List ℕ) (input : IssueLicenseInput) (r : IssuedLicense)
    (after : Db) (k : ℕ)
    → input.order_id ≡ some k
    → Wrote db key_hash now id key input r after
    → (l : License) × (license_of_order after k ≡ some l) × (l.id ≡ r.license_id)
Wrote-answer db key_hash now id key input r after k at' (nothing l j at'' there same_id old same) =
    let e : j ≡ k = ground arith in
    (l, rw same (subst (λ n. license_of_order db n ≡ some l) e there), sym same_id)
Wrote-answer db key_hash now id key input r after k at' (one fits new_id new same_key written) =
    elim (Option-cases (license_of_order db k)) [
      | inl free ↦ (
        new_license now id key_hash key input,
        Wrote-license db key_hash now id key input r after k at' free
            (one fits new_id new same_key written),
        sym new_id,
      )
      | inr (l, there) ↦ absurd (
          omega (
            arith,
            fits_alone db (new_license now id key_hash key input) k fits at',
            count-find-some (λ m. is_id m.order_id k) (λ m. is_id m.order_id k) db.licenses l
                (license_of_order-find db k l there)
                (find_sound (λ m. is_id m.order_id k) db.licenses {x = l}
                  (license_of_order-find db k l there)),
          ))
    ]

-- Where no order has two licenses and no other transaction commits in between, issuing for an
-- order leaves no order with two licenses, and answers the id of the license that the order then
-- has.
pub issue-once :
    (hash : List ℕ → ℕ) (db : Db) (now id : ℕ) (raw : List ℕ) (input : IssueLicenseInput)
    (r : IssuedLicense) (after : Db) (k : ℕ)
    → OncePerOrder db.licenses
    → input.order_id ≡ some k
    → issue_license hash db db now id raw input ≡ ok (r, after)
    → OncePerOrder after.licenses
      × ((l : License) × (license_of_order after k ≡ some l) × (l.id ≡ r.license_id))
issue-once hash db now id raw input r after k once at' h =
    let wrote = issue-Wrote hash db now id raw input r after h in
    (
      Wrote-OncePerOrder db _ now id (normalize_key raw) input r after wrote once,
      Wrote-answer db _ now id (normalize_key raw) input r after k at' wrote,
    )

-- Issuing leaves orders, receipts, the outbox and plans alone.
pub Wrote-frame :
    (db : Db) (key_hash now id : ℕ) (key : List ℕ) (input : IssueLicenseInput) (r : IssuedLicense)
    (after : Db)
    → Wrote db key_hash now id key input r after
    → (after.orders ≡ db.orders)
      × (after.receipts ≡ db.receipts)
      × (after.outbox ≡ db.outbox)
      × (after.plans ≡ db.plans)
Wrote-frame db key_hash now id key input r after (nothing l k at' there same_id old same) =
    rw same (refl, refl, refl, refl)
Wrote-frame db key_hash now id key input r after (one fits new_id new same_key written) =
    rw written (refl, refl, refl, refl)

-- For an order with no license yet, the new license's id and key are answered.
pub Wrote-new :
    (db : Db) (key_hash now id : ℕ) (key : List ℕ) (input : IssueLicenseInput) (r : IssuedLicense)
    (after : Db) (k : ℕ)
    → input.order_id ≡ some k
    → license_of_order db k ≡ none
    → Wrote db key_hash now id key input r after
    → (r.license_id ≡ id) × (r.license_key ≡ key) × (r.already_existed ≡ false)
Wrote-new db key_hash now id key input r after k at' free
      (nothing l j at'' there same_id old same) =
    absurd (ground arith)
Wrote-new db key_hash now id key input r after k at' free (one fits new_id new same_key written) =
    (new_id, same_key, new)
