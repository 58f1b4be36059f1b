-- ===== src/Licenses/Issuance.antt =====
-- licenses/license-issuance.service.ts
pub mod Once
use ruznamo_backend.Common.{
  ℕ, ◌+◌, ◌*◌, ltb, Bool, true, false, not, Option, none, some, List, [], ◌∷◌, ◌&&◌, ◌||◌, ◌==◌,
  is_none, is_some, is_id, or_else, if◌then◌else◌, find, any, insert, select, count, first, sort_by,
  Result, ok, err, ◌>>=◌, String, codes, unique_violation, record_not_found, or_throw,
}
use ruznamo_backend.Db.{
  Db, License, LicenseEvent, LicenseStatus, IssueSource, BillingPeriod, Plan, Outbox,
}
use ruznamo_backend.Licenses.Key.{normalize_key, prefix}

-- The reason code and the activity of the input are those that the callers pass.
pub record IssueLicenseInput : Type 0 where
  pub plan : Plan
  pub user_id : Option ℕ
  pub order_id : Option ℕ
  pub issue_source : IssueSource
  pub billing_period : BillingPeriod
  pub purchaser : Option ℕ
  pub holder : Option ℕ
  pub event_reason : String
  pub activate_now : Bool

pub record IssuedLicense : Type 0 where
  pub license_id : ℕ
  pub license_key : List ℕ
  pub key_prefix : List ℕ
  pub expires_at : ℕ
  pub already_existed : Bool

abbrev pub day : ℕ
day = 24 * 60 * 60 * 1000

abbrev pub period_days : BillingPeriod → ℕ
period_days BillingPeriod.yearly = 365
period_days BillingPeriod.monthly = 30

-- calculateExpiresAt, where days have 24 hours (UTC)
unfoldable pub calculate_expires_at : ℕ → BillingPeriod → ℕ
calculate_expires_at start period = start + period_days period * day

abbrev newer : Outbox → Outbox → Bool
newer a b = ltb b.created_at a.created_at

-- findStoredKey: the newest row.
unfoldable pub find_stored_key : Db → ℕ → Option (List ℕ)
unfolding select sort_by
find_stored_key db license_id =
    elim (first (sort_by newer (select (λ o. o.license_id == license_id) db.outbox))) [
      | none ↦ none
      | some o ↦ some o.license_key
    ]

abbrev pub already_delivered : List ℕ
already_delivered = codes "[already-delivered]"

-- The license of an order.
unfoldable pub license_of_order : Db → ℕ → Option License
unfolding find
license_of_order db order_id = find (λ l. is_id l.order_id order_id) db.licenses

unfoldable pub existing_license : Db → ℕ → License → IssuedLicense
existing_license db fallback l = record {
  license_id = l.id;
  license_key = or_else (find_stored_key db l.id) already_delivered;
  key_prefix = l.key_prefix;
  expires_at = or_else l.expires_at fallback;
  already_existed = true;
}

-- `if (flag) value`
abbrev pub when {ℓ} : {A : Type ℓ} → Bool → A → Option A
when b a = if b then some a else none

abbrev pub new_license : ℕ → ℕ → ℕ → List ℕ → IssueLicenseInput → License
new_license now id key_hash key input = record {
  id = id;
  plan = input.plan;
  user_id = input.user_id;
  order_id = input.order_id;
  key_hash = key_hash;
  key_prefix = prefix 8 key;
  status = if input.activate_now then LicenseStatus.active else LicenseStatus.pending;
  issue_source = some input.issue_source;
  purchaser = input.purchaser;
  holder = input.holder;
  holder_linked_at = when (is_some input.holder) now;
  starts_at = when input.activate_now now;
  expires_at = some (calculate_expires_at now input.billing_period);
  activated_at = when input.activate_now now;
  revoked_at = none;
}

abbrev pub issue_event : ℕ → License → IssueLicenseInput → LicenseEvent
issue_event now l input = record {
  license_id = l.id;
  from_status = LicenseStatus.pending;
  to_status = l.status;
  reason = input.event_reason;
  created_at = now;
}

-- A license of the same order, or with the same key, makes the create fail.
abbrev pub violates : Db → License → Bool
violates db l =
    any
      (λ m.
        m.key_hash == l.key_hash || elim l.order_id [ none ↦ false | some o ↦ is_id m.order_id o ])
      db.licenses

-- The catch of a unique violation.
unfoldable pub raced_license : Db → ℕ → Option ℕ → Result (IssuedLicense × Db)
raced_license db fallback none = err unique_violation
raced_license db fallback (some order_id) = elim (license_of_order db order_id) [
  | none ↦ err unique_violation
  | some dup ↦ ok (existing_license db fallback dup, db)
]

-- The transaction and what follows it, in the tables `db`.
unfoldable pub create_license :
    Db → ℕ → License → List ℕ → IssueLicenseInput → Result (IssuedLicense × Db)
unfolding any
create_license db now l key input =
    if violates db l
    then raced_license db (calculate_expires_at now input.billing_period) input.order_id
    else ok (
      record {
        license_id = l.id;
        license_key = key;
        key_prefix = l.key_prefix;
        expires_at = calculate_expires_at now input.billing_period;
        already_existed = false;
      },
      record db {
        licenses = insert l db.licenses;
        events = insert (issue_event now l input) db.events;
      },
    )

-- issueLicense. `met` are the tables that the create meets; `id` and the random `raw` key are given.
-- The source's last test, for a second license of the order, cannot hold under the unique key.
module _ (hash : List ℕ → ℕ) where
  unfoldable pub issue_license :
      Db → Db → ℕ → ℕ → List ℕ → IssueLicenseInput → Result (IssuedLicense × Db)
  issue_license db met now id raw input =
      let key = normalize_key raw in
      let created = create_license met now (new_license now id (hash key) key input) key input in
      elim input.order_id [
        | none ↦ created
        | some order_id ↦ elim (license_of_order db order_id) [
          | none ↦ created
          | some l ↦ ok (existing_license db now l, db)
        ]
      ]
