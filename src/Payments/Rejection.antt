-- ===== src/Payments/Rejection.antt =====
-- payments/rejection-reason.ts, and `normalizeRejectReason` of payments/payment-approval.service.ts.
pub mod Laws
use ruznamo_backend.Common.{
  ℕ, ltb, Bool, true, false, Option, none, some, List, [], ◌∷◌, ◌&&◌, ◌==◌, if◌then◌else◌, find,
  String, codes, trim, upper, map, same_text, is_nil, is_space, length,
}
use ruznamo_backend.Licenses.Key.{prefix}

pub data RejectionCode : Type 0 where
  receipt_unreadable payment_not_found amount_mismatch wrong_recipient : RejectionCode
  receipt_data_mismatch duplicate_receipt payment_cancelled incomplete_receipt : RejectionCode
  wrong_payment_method payment_pending receipt_suspicious other : RejectionCode

abbrev pub code_name : RejectionCode → String
code_name receipt_unreadable = "RECEIPT_UNREADABLE"
code_name payment_not_found = "PAYMENT_NOT_FOUND"
code_name amount_mismatch = "AMOUNT_MISMATCH"
code_name wrong_recipient = "WRONG_RECIPIENT"
code_name receipt_data_mismatch = "RECEIPT_DATA_MISMATCH"
code_name duplicate_receipt = "DUPLICATE_RECEIPT"
code_name payment_cancelled = "PAYMENT_CANCELLED"
code_name incomplete_receipt = "INCOMPLETE_RECEIPT"
code_name wrong_payment_method = "WRONG_PAYMENT_METHOD"
code_name payment_pending = "PAYMENT_PENDING"
code_name receipt_suspicious = "RECEIPT_SUSPICIOUS"
code_name other = "OTHER"

abbrev pub rejection_codes : List RejectionCode
rejection_codes =
    receipt_unreadable ∷ payment_not_found ∷ amount_mismatch ∷ wrong_recipient
    ∷ receipt_data_mismatch ∷ duplicate_receipt ∷ payment_cancelled ∷ incomplete_receipt
    ∷ wrong_payment_method ∷ payment_pending ∷ receipt_suspicious ∷ other ∷ []

abbrev pub label_ru : RejectionCode → String
label_ru receipt_unreadable = "Чек плохо читается"
label_ru payment_not_found = "Оплата не найдена"
label_ru amount_mismatch = "Неверная сумма"
label_ru wrong_recipient = "Оплата на другие реквизиты"
label_ru receipt_data_mismatch = "Данные чека не совпадают"
label_ru duplicate_receipt = "Этот чек уже использован"
label_ru payment_cancelled = "Платёж отменён или возвращён"
label_ru incomplete_receipt = "На чеке недостаточно данных"
label_ru wrong_payment_method = "Неверный способ оплаты"
label_ru payment_pending = "Оплата ещё не подтверждена"
label_ru receipt_suspicious = "Не удалось подтвердить подлинность чека"
label_ru other = "Другая причина"

-- parsePaymentRejectionReasonCode of a text
unfoldable pub parse_code : List ℕ → Option RejectionCode
unfolding find trim same_text
parse_code value =
    let normalized = map upper (trim value) in
    find (λ c. same_text (codes (code_name c)) normalized) rejection_codes

-- A reason is a text, or a code and a text that may be missing.
pub data RejectReasonInput : Type 0 where
  text : List ℕ → RejectReasonInput
  coded : Option (List ℕ) → Option (List ℕ) → RejectReasonInput

pub record RejectReason : Type 0 where
  pub code : RejectionCode
  pub text : List ℕ

-- `a || b` on texts
abbrev pub or_text : List ℕ → List ℕ → List ℕ
or_text a b = if is_nil a then b else a

abbrev label : RejectionCode → List ℕ
label c = codes (label_ru c)

abbrev from_text : List ℕ → Option RejectionCode → RejectReason
from_text raw none = record { code = other; text = or_text (trim raw) (codes "admin_rejected") }
from_text raw (some other) = record {
  code = other;
  text = or_text (trim raw) (codes "admin_rejected");
}
from_text raw (some c) = record { code = c; text = label c }

abbrev parse_optional : Option (List ℕ) → Option RejectionCode
parse_optional none = none
parse_optional (some value) = parse_code value

abbrev trim_optional : Option (List ℕ) → List ℕ
trim_optional none = []
trim_optional (some raw) = trim raw

abbrev from_code : Option RejectionCode → List ℕ → RejectReason
from_code none custom = record { code = other; text = or_text custom (label other) }
from_code (some c) custom = record { code = c; text = or_text custom (label c) }

-- normalizeRejectReason
unfoldable pub normalize_reject_reason : RejectReasonInput → RejectReason
unfolding parse_code
normalize_reject_reason (text raw) = from_text raw (parse_code raw)
normalize_reject_reason (coded code custom) = from_code (parse_optional code) (trim_optional custom)

-- `replace(/\s+/g, ' ')`; the flag says that the last character was a space.
unfoldable pub collapse_spaces : Bool → List ℕ → List ℕ
unfolding is_space
collapse_spaces after_space [] = []
collapse_spaces after_space (c ∷ cs) =
    let rest = collapse_spaces (is_space c) cs in
    if is_space c then (if after_space then rest else 32 ∷ rest) else c ∷ rest

-- sanitizeCustomRejectionReason
unfoldable pub sanitize_custom_rejection_reason : List ℕ → Option (List ℕ)
unfolding collapse_spaces trim prefix
sanitize_custom_rejection_reason raw =
    let trimmed = trim (collapse_spaces false raw) in
    if ltb (length trimmed) 5
    then none
    else some (if ltb 500 (length trimmed) then prefix 500 trimmed else trimmed)
