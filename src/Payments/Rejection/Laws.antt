-- ===== src/Payments/Rejection/Laws.antt =====
-- Reading a rejection code, and the length of a reason that an administrator types.
use ruznamo_backend.Common.{
  suc, find, arith, ℕ, zero, suc, ◌≡◌, ◌↔◌, ◌≤◌, refl, true, false, some, List, [], ◌∷◌, find_sound,
  codes, trim, upper, map, same_text, length,
}
use ruznamo_backend.Licenses.Key.{prefix}
use ruznamo_backend.Payments.Rejection.{
  RejectionCode, receipt_unreadable, payment_not_found, amount_mismatch, wrong_recipient,
  receipt_data_mismatch, duplicate_receipt, payment_cancelled, incomplete_receipt,
  wrong_payment_method, payment_pending, receipt_suspicious, other, code_name, rejection_codes,
  parse_code, sanitize_custom_rejection_reason, collapse_spaces,
}
use mathlib.Core.Path.{sym}

same_text_sound : (a b : List ℕ) → same_text a b ≡ true → a ≡ b
unfolding same_text
same_text_sound [] [] h = refl
same_text_sound [] (d ∷ ds) h = absurd (cc)
same_text_sound (c ∷ cs) [] h = absurd (cc)
same_text_sound (c ∷ cs) (d ∷ ds) h =
    let same : c ≡ d = ground arith in rw (same, same_text_sound cs ds (ground arith)) refl

code_found :
    (c : RejectionCode)
    → find (λ d. same_text (codes (code_name d)) (codes (code_name c))) rejection_codes ≡ some c
unfolding find same_text
code_found receipt_unreadable = refl
code_found payment_not_found = refl
code_found amount_mismatch = refl
code_found wrong_recipient = refl
code_found receipt_data_mismatch = refl
code_found duplicate_receipt = refl
code_found payment_cancelled = refl
code_found incomplete_receipt = refl
code_found wrong_payment_method = refl
code_found payment_pending = refl
code_found receipt_suspicious = refl
code_found other = refl

-- A text is read as a rejection code exactly if, trimmed and in upper case, it is the code's name.
pub parse_code_iff :
    (raw : List ℕ) (c : RejectionCode)
    → (parse_code raw ≡ some c) ↔ (map upper (trim raw) ≡ codes (code_name c))
unfolding parse_code
parse_code_iff raw c = (
  λ h. sym (
      same_text_sound _ _ (
        find_sound (λ d. same_text (codes (code_name d)) (map upper (trim raw))) rejection_codes
          {x = c} h)),
  λ e. rw e (code_found c),
)

length-prefix : (n : ℕ) (cs : List ℕ) → n ≤ length cs → length (prefix n cs) ≡ n
unfolding prefix length
length-prefix zero [] h = refl
length-prefix zero (c ∷ cs) h = refl
length-prefix (suc n) [] h = absurd (omega arith)
length-prefix (suc n) (c ∷ cs) h = ground (arith, length-prefix n cs)

-- A typed reason that is accepted has between 5 and 500 characters.
pub sanitize-bounds :
    (raw t : List ℕ)
    → sanitize_custom_rejection_reason raw ≡ some t
    → (5 ≤ length t) × (length t ≤ 500)
unfolding sanitize_custom_rejection_reason
sanitize-bounds raw t h =
    let cut = length-prefix 500 (trim (collapse_spaces false raw)) in ground (arith, cut)
