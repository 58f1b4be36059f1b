-- ===== src/Licenses/Slots/Laws.antt =====
-- The two readers of a plan's device limit against each other.
use ruznamo_backend.Common.{
  ◌||◌, parse_int, codes, ◌↔◌, ℕ, ◌≡◌, refl, ◌≢◌, List, [], ◌∷◌, arith, All, Option, none, some,
  str_eq, find, ok, eq_iff,
}
use ruznamo_backend.Db.{Feature}
use ruznamo_backend.Licenses.Slots.{
  limit_or_throw, parsed_limit, value_or, feature_limit, read_max_devices,
  read_max_devices_from_features,
}

find_no_limit :
    (fs : List Feature)
    → All (λ f. f.key ≢ "device_limit") fs
    → find (λ f. str_eq f.key "max_devices" || str_eq f.key "device_limit") fs
      ≡ find (λ f. str_eq f.key "max_devices") fs
unfolding find
find_no_limit [] h = refl
find_no_limit (f ∷ fs) h =
    ground (arith, find_no_limit fs, eq_iff f.key "device_limit", eq_iff f.key "max_devices")

agree_at :
    (o : Option Feature) (n : ℕ)
    → (limit_or_throw (parsed_limit (parse_int (codes (value_or "1" o)))) ≡ ok n)
      ↔ (feature_limit o ≡ some n)
unfolding parse_int
agree_at none n = ground arith
agree_at (some f) n = ground arith

-- On a plan with no `device_limit` feature the two readers agree: activation reads the limit n
-- exactly when replacement and recovery read n.
readers_agree :
    (fs : List Feature) (n : ℕ)
    → All (λ f. f.key ≢ "device_limit") fs
    → (read_max_devices fs ≡ ok n) ↔ (read_max_devices_from_features fs ≡ some n)
unfolding read_max_devices read_max_devices_from_features
readers_agree fs n h =
    rw (find_no_limit fs h) (agree_at (find (λ f. str_eq f.key "max_devices") fs) n)
