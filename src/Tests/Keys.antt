-- ===== src/Tests/Keys.antt =====
-- Keys, plan limits and rejection reasons.
use ruznamo_backend.Common.{
  trim_start, true, is_space, select, ◌≡◌, ◌≤◌, ◌↔◌, refl, some, codes, ok, map, trim, upper,
  length,
}
use ruznamo_backend.Licenses.Key.{normalize_key}
use ruznamo_backend.Licenses.Slots.{read_max_devices}
use ruznamo_backend.Payments.Rejection.{
  RejectionCode, parse_code, code_name, sanitize_custom_rejection_reason,
}
use ruznamo_backend.Payments.Rejection.Laws.{parse_code_iff, sanitize-bounds}
use ruznamo_backend.Tests.Shop.{pro_plan}

normalize_key_test : normalize_key (codes " AB 12 ") ≡ codes "ab12"
unfolding normalize_key select is_space trim_start
normalize_key_test = refl

space : is_space 32 ≡ true
unfolding is_space
space = refl

read_max_devices_test : read_max_devices pro_plan.features ≡ ok 2
unfolding read_max_devices
read_max_devices_test = refl

parse_code_iff_example :
    (parse_code (codes " amount_mismatch ") ≡ some RejectionCode.amount_mismatch) ↔ (
      map upper (trim (codes " amount_mismatch "))
      ≡ codes (code_name RejectionCode.amount_mismatch))
parse_code_iff_example = parse_code_iff (codes " amount_mismatch ") RejectionCode.amount_mismatch

typed : sanitize_custom_rejection_reason (codes " wrong   sum") ≡ some (codes "wrong sum")
unfolding sanitize_custom_rejection_reason
typed = refl

sanitize-bounds_example : (5 ≤ length (codes "wrong sum")) × (length (codes "wrong sum") ≤ 500)
sanitize-bounds_example = sanitize-bounds (codes " wrong   sum") (codes "wrong sum") typed
