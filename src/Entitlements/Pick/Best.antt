-- ===== src/Entitlements/Pick/Best.antt =====
-- Which license `pickBestActiveLicense` answers.
use mathlib.Core.List.{Memᴰ}
use ruznamo_backend.Common.{
  Bool-cases, ℕ, ◌≡◌, ◌<◌, ◌≤◌, ◌⊎◌, true, false, some, List, [], ◌∷◌, arith, inl, inr, Bool-cases,
  All, select, sort_by,
}
use ruznamo_backend.Common.Best.{All-Mem, Mem-select, Mem-first, Mem-sort_by, first-sort_by}
use ruznamo_backend.Db.{License, plan_code_rank}
use ruznamo_backend.Entitlements.Pick.{
  is_candidate, is_better, expiry_time, pick_best_active_license,
}

is_better-asymm : (l m : License) → is_better l m ≡ true → is_better m l ≡ false
unfolding is_better
is_better-asymm l m h = ground arith

is_better-cotrans :
    (l m n : License) → is_better l n ≡ true → is_better m n ≡ false → is_better l m ≡ true
unfolding is_better
is_better-cotrans l m n h k = ground arith

-- No candidate is of a higher plan, nor of the same plan and a later expiry.
abbrev pub IsBest : ℕ → License → List License → Type 0
IsBest now l = All (λ m.
    is_candidate now m ≡ true
    → (plan_code_rank m.plan.code < plan_code_rank l.plan.code)
      ⊎ ((plan_code_rank m.plan.code ≡ plan_code_rank l.plan.code)
          × (expiry_time m.expires_at ≤ expiry_time l.expires_at)))

not_better :
    (l m : License)
    → is_better m l ≡ false
    → (plan_code_rank m.plan.code < plan_code_rank l.plan.code)
      ⊎ ((plan_code_rank m.plan.code ≡ plan_code_rank l.plan.code)
          × (expiry_time m.expires_at ≤ expiry_time l.expires_at))
unfolding is_better
not_better l m h = ground arith

IsBest-of_select :
    (now : ℕ) (l : License) (ls : List License)
    → All (λ m. is_better m l ≡ false) (select (is_candidate now) ls)
    → IsBest now l ls
unfolding select
IsBest-of_select now l [] a = tt
IsBest-of_select now l (m ∷ ms) a = elim (Bool-cases (is_candidate now m)) [
  | inl yes' ↦
      let (h, rest) = rw (yes', select) at a in
      ((λ _. not_better l m h), IsBest-of_select now l ms rest)
  | inr no' ↦ ((λ c. absurd (cc)), IsBest-of_select now l ms (rw (no', select) at a))
]

pub picked-IsBest :
    (now : ℕ) (ls : List License) (l : License)
    → pick_best_active_license now ls ≡ some l
    → Memᴰ l ls × (is_candidate now l ≡ true) × IsBest now l ls
unfolding pick_best_active_license
picked-IsBest now ls l h =
    let usable = select (is_candidate now) ls in
    let (m, c) =
      Mem-select (is_candidate now) ls
        (Mem-sort_by is_better usable (Mem-first (sort_by is_better usable) h)) in
    (
      m,
      c,
      IsBest-of_select now l ls
          (first-sort_by is_better is_better-asymm is_better-cotrans usable h),
    )

-- The license picked is one of those given and usable at `now`, and every other usable one among them
-- is of a lower plan, or of the same plan and expires no later.
pub pick_best-max :
    (now : ℕ) (ls : List License) (l m : License)
    → pick_best_active_license now ls ≡ some l
    → Memᴰ m ls
    → is_candidate now m ≡ true
    → Memᴰ l ls
      × (is_candidate now l ≡ true)
      × ((plan_code_rank m.plan.code < plan_code_rank l.plan.code)
          ⊎ ((plan_code_rank m.plan.code ≡ plan_code_rank l.plan.code)
              × (expiry_time m.expires_at ≤ expiry_time l.expires_at)))
pick_best-max now ls l m h there usable =
    let (member, candidate, best) = picked-IsBest now ls l h in
    (member, candidate, All-Mem _ ls {x = m} best there usable)
