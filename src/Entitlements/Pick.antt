-- ===== src/Entitlements/Pick.antt =====
-- The choice of the license that a user's access rests on: `collectActivatedLicenses`,
-- `mergeLicenseCandidates` and `pickBestActiveLicense` of entitlements/entitlement.service.ts.
pub mod Best
use ruznamo_backend.Common.{
  ℕ, Bool, true, Option, none, some, List, [], ◌∷◌, ◌++◌, ◌&&◌, ◌||◌, ltb, ◌==◌, is_none, any,
  select, if◌then◌else◌, find, first, sort_by,
}
use ruznamo_backend.Db.{
  License, Device, Activation, is_license_active, is_license_pending, plan_code_rank,
}

-- Number.MAX_SAFE_INTEGER
abbrev pub max_safe_integer : ℕ
max_safe_integer = 9007199254740991

-- `map.set` on a Map from ids: a new value keeps the place of the old one.
unfoldable pub map_set : License → List License → List License
map_set l [] = l ∷ []
map_set l (m ∷ ms) = let rest = map_set l ms in if m.id == l.id then l ∷ ms else m ∷ rest

unfoldable pub merge_into : List License → List License → List License
unfolding map_set
merge_into acc [] = acc
merge_into acc (l ∷ ls) = merge_into (map_set l acc) ls

-- mergeLicenseCandidates
unfoldable pub merge_license_candidates : List License → List License → List License
unfolding merge_into
merge_license_candidates owned activated = merge_into [] (owned ++ activated)

-- `if (!map.has(id)) map.set(id, license)`
unfoldable pub set_once : License → List License → List License
unfolding any
set_once l acc = if any (λ m. m.id == l.id) acc then acc else acc ++ l ∷ []

-- The licenses of a device's activations that are not revoked.
unfoldable pub collect_from : List License → List Activation → List License → List License
unfolding set_once find
collect_from licenses [] acc = acc
collect_from licenses (a ∷ as') acc =
    collect_from licenses as'
      (elim (find (λ l. l.id == a.license_id) licenses) [ none ↦ acc | some l ↦ set_once l acc ])

-- collectActivatedLicenses, over the user's devices that are not revoked
unfoldable pub collect_activated_licenses :
    List License → List Activation → List Device → List License → List License
unfolding collect_from select
collect_activated_licenses licenses activations [] acc = acc
collect_activated_licenses licenses activations (d ∷ ds) acc =
    collect_activated_licenses licenses activations ds (
      collect_from licenses (select (λ a. a.device_id == d.id && is_none a.revoked_at) activations)
        acc)

-- `!license.expiresAt || license.expiresAt > now`
abbrev pub not_past : ℕ → Option ℕ → Bool
not_past now none = true
not_past now (some t) = ltb now t

-- The filter of pickBestActiveLicense.
unfoldable pub is_candidate : ℕ → License → Bool
is_candidate now l =
    (is_license_active l.status || is_license_pending l.status)
    && is_none l.revoked_at
    && not_past now l.expires_at

abbrev pub expiry_time : Option ℕ → ℕ
expiry_time none = max_safe_integer
expiry_time (some t) = t

-- The comparator answers a negative number.
unfoldable pub is_better : License → License → Bool
is_better l r =
    ltb (plan_code_rank r.plan.code) (plan_code_rank l.plan.code)
    || (plan_code_rank l.plan.code == plan_code_rank r.plan.code
        && ltb (expiry_time r.expires_at) (expiry_time l.expires_at))

-- pickBestActiveLicense
unfoldable pub pick_best_active_license : ℕ → List License → Option License
unfolding select sort_by is_candidate is_better
pick_best_active_license now licenses =
    first (sort_by is_better (select (is_candidate now) licenses))
