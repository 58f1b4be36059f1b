-- ===== src/Entitlements/Features.antt =====
-- `parsePlanFeatures` and DEFAULT_FEATURES of entitlements/entitlement.service.ts. A limit is what
-- `parseInt` answers, `none` for NaN.
use ruznamo_backend.Common.{
  String, Bool, false, Option, none, some, List, [], ◌∷◌, str_eq, if◌then◌else◌, or_else,
  first_some, ℤ, pos, parse_int, codes,
}
use ruznamo_backend.Db.{Feature}

pub record Features : Type 0 where
  pub planning_horizon_days : Option ℤ
  pub max_devices : Option ℤ
  pub cloud_sync : Bool
  pub advanced_analytics : Bool

abbrev pub default_features : Features
default_features = record {
  planning_horizon_days = some (pos 28);
  max_devices = some (pos 1);
  cloud_sync = false;
  advanced_analytics = false;
}

-- `new Map(…).get(key)`: the last of several entries with one key.
unfoldable pub feature_value : String → List Feature → Option String
feature_value key [] = none
feature_value key (f ∷ fs) =
    let rest = feature_value key fs in
    first_some rest (if str_eq f.key key then some f.value else none)

abbrev is_true : Option String → Bool
is_true none = false
is_true (some v) = str_eq v "true"

unfoldable pub parse_plan_features : List Feature → Features
unfolding feature_value parse_int
parse_plan_features fs = record {
  planning_horizon_days =
      parse_int (codes (or_else (feature_value "planning_horizon_days" fs) "28"));
  max_devices = parse_int (codes (or_else (feature_value "max_devices" fs) "1"));
  cloud_sync = is_true (feature_value "cloud_sync" fs);
  advanced_analytics = is_true (feature_value "advanced_analytics" fs);
}
