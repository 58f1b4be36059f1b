-- ===== src/Common/Best.antt =====
-- The row that a sort puts first is one of the rows, and no row comes before it.
use mathlib.Core.Path.{subst, ◌≡◌, refl}
use mathlib.Core.Logic.{◌⊎◌, inl, inr}
use mathlib.Core.Bool.{Bool, true, false}
use mathlib.Core.Option.{none, some}
use mathlib.Core.List.{List, [], ◌∷◌, Memᴰ}
use mathlib.Core.List.Memᴰ.{not-nil}
use Prim.Native.Nat.{◌≤◌}
use native.Mathlib.Omega.{arith}
use ruznamo_backend.Common.Tests.{Option-cases, if◌then◌else◌, Bool-cases}
use ruznamo_backend.Common.Tables.{count, find, All, select}
use ruznamo_backend.Common.Sorting.{first, place, sort_by}

module _ {ℓ} {A : Type ℓ} where
  Mem-cons : {x y : A} (xs : List A) → Memᴰ x (y ∷ xs) → (x ≡ y) ⊎ Memᴰ x xs
  Mem-cons xs (Memᴰ.head e) = inl e
  Mem-cons xs (Memᴰ.tail m) = inr m

  kept_row :
      (p : A → Bool) (ys : List A) {x y : A}
      → p y ≡ true
      → (x ≡ y) ⊎ (Memᴰ x ys × (p x ≡ true))
      → Memᴰ x (y ∷ ys) × (p x ≡ true)
  kept_row p ys kept (inl e) = (Memᴰ.head e, rw e kept)
  kept_row p ys kept (inr (m, h)) = (Memᴰ.tail m, h)

  -- The rows that a query answers.
  pub Mem-select :
      (p : A → Bool) (xs : List A) {x : A} → Memᴰ x (select p xs) → Memᴰ x xs × (p x ≡ true)
  unfolding select
  Mem-select p [] m = absurd (not-nil m)
  Mem-select p (y ∷ ys) {x} m = elim (Bool-cases (p y)) [
    | inl kept ↦ kept_row p ys kept (elim (Mem-cons (select p ys) (rw (kept, select) at m)) [
      | inl e ↦ inl e
      | inr n ↦ inr (Mem-select p ys n)
    ])
    | inr dropped ↦
        let (n, h) = Mem-select p ys {x = x} (rw (dropped, select) at m) in (Memᴰ.tail n, h)
  ]

  pub Mem-first : (xs : List A) {x : A} → first xs ≡ some x → Memᴰ x xs
  Mem-first [] h = absurd (cc)
  Mem-first (y ∷ ys) h = Memᴰ.head (ground arith)

  pub All-Mem {κ} : (P : A → Type κ) (xs : List A) {x : A} → All P xs → Memᴰ x xs → P x
  All-Mem P [] a m = absurd (not-nil m)
  All-Mem P (y ∷ ys) (h, a) (Memᴰ.head e) = rw e h
  All-Mem P (y ∷ ys) (h, a) (Memᴰ.tail m) = All-Mem P ys a m

  pub count-Mem : (p : A → Bool) (xs : List A) {x : A} → Memᴰ x xs → p x ≡ true → 1 ≤ count p xs
  unfolding count
  count-Mem p [] m h = absurd (not-nil m)
  count-Mem p (y ∷ ys) (Memᴰ.head e) h = let k = rw e at h in ground arith
  count-Mem p (y ∷ ys) (Memᴰ.tail m) h = ground (arith, count-Mem p ys m h)

  -- A row that alone meets a test is the one found.
  pub find-Mem :
      (p : A → Bool) (xs : List A) {x : A}
      → Memᴰ x xs
      → p x ≡ true
      → count p xs ≤ 1
      → find p xs ≡ some x
  unfolding find count
  find-Mem p [] m h u = absurd (not-nil m)
  find-Mem p (y ∷ ys) {x} (Memᴰ.head e) h u = rw (← e) (rw h refl)
  find-Mem p (y ∷ ys) {x} (Memᴰ.tail m) h u =
      ground (arith, count-Mem p ys m h, find-Mem p ys {x = x} m h)

  pub Mem-find : (p : A → Bool) (xs : List A) {x : A} → find p xs ≡ some x → Memᴰ x xs
  unfolding find
  Mem-find p [] h = absurd (cc)
  Mem-find p (y ∷ ys) {x} h = elim (Bool-cases (p y)) [
    | inl here ↦ let e : some y ≡ some x = rw here at h in Memᴰ.head (ground arith)
    | inr later ↦ Memᴰ.tail (Mem-find p ys {x = x} (rw later at h))
  ]

  -- Two rows that meet a test that at most one row meets are the same.
  pub unique-Mem :
      (p : A → Bool) (xs : List A) {x y : A}
      → count p xs ≤ 1
      → Memᴰ x xs
      → p x ≡ true
      → Memᴰ y xs
      → p y ≡ true
      → x ≡ y
  unique-Mem p xs {x} {y} u m h n k =
      let e = find-Mem p xs {x = x} m h u in let f = find-Mem p xs {x = y} n k u in cc

  pub select-Mem :
      (p : A → Bool) (xs : List A) {x : A} → Memᴰ x xs → p x ≡ true → Memᴰ x (select p xs)
  unfolding select
  select-Mem p [] m h = absurd (not-nil m)
  select-Mem p (y ∷ ys) (Memᴰ.head e) h = rw (rw e at h, select) (Memᴰ.head e)
  select-Mem p (y ∷ ys) {x} (Memᴰ.tail m) h = elim (Bool-cases (p y)) [
    | inl kept ↦ rw (kept, select) (Memᴰ.tail (select-Mem p ys {x = x} m h))
    | inr dropped ↦ rw (dropped, select) (select-Mem p ys {x = x} m h)
  ]

  pub count-select_none : (p : A → Bool) (xs : List A) → select p xs ≡ [] → count p xs ≡ 0
  unfolding select count
  count-select_none p [] h = refl
  count-select_none p (x ∷ xs) h = elim (Bool-cases (p x)) [
    | inl kept ↦ let e = rw kept at h in absurd (cc)
    | inr dropped ↦ rw dropped (count-select_none p xs (rw dropped at h))
  ]

module _ {ℓ} {A : Type ℓ} (before : A → A → Bool) where
  Mem-place : (x : A) (ys : List A) {z : A} → Memᴰ z (place before x ys) → Memᴰ z (x ∷ ys)
  unfolding place
  Mem-place x [] m = m
  Mem-place x (y ∷ ys) {z} m = elim (Bool-cases (before y x)) [
    | inr stays ↦ rw (stays, place) at m
    | inl behind ↦ elim (Mem-cons (place before x ys) (rw (behind, place) at m)) [
      | inl e ↦ Memᴰ.tail (Memᴰ.head e)
      | inr n ↦ elim (Mem-cons ys (Mem-place x ys {z = z} n)) [
        | inl e ↦ Memᴰ.head e
        | inr k ↦ Memᴰ.tail (Memᴰ.tail k)
      ]
    ]
  ]

  pub Mem-sort_by : (xs : List A) {z : A} → Memᴰ z (sort_by before xs) → Memᴰ z xs
  unfolding sort_by
  Mem-sort_by [] m = m
  Mem-sort_by (x ∷ xs) {z} m =
      elim (Mem-cons (sort_by before xs) (Mem-place x (sort_by before xs) {z = z} m)) [
        | inl e ↦ Memᴰ.head e
        | inr n ↦ Memᴰ.tail (Mem-sort_by xs n)
      ]

  pub first-place :
      (x : A) (ys : List A)
      → first (place before x ys)
        ≡ some (elim (first ys) [ none ↦ x | some y ↦ if before y x then y else x ])
  unfolding place
  first-place x [] = refl
  first-place x (y ∷ ys) = ground arith

  pub no_first : (rows : List A) → first (sort_by before rows) ≡ none → rows ≡ []
  unfolding sort_by
  no_first [] h = refl
  no_first (r ∷ rows) h = absurd (cc (first-place r (sort_by before rows)))

  module _ (asymm : (x y : A) → before x y ≡ true → before y x ≡ false)
      (cotrans : (x y z : A) → before x z ≡ true → before y z ≡ false → before x y ≡ true) where
    All-cotrans :
        (x y : A) (ys : List A)
        → before y x ≡ false
        → All (λ z. before z y ≡ false) ys
        → All (λ z. before z x ≡ false) ys
    All-cotrans x y [] h a = tt
    All-cotrans x y (z ∷ zs) h (k, a) = (ground (arith, cotrans z y x), All-cotrans x y zs h a)

    irrefl : (x : A) → before x x ≡ false
    irrefl x = ground (arith, asymm x x)

    -- The sort puts no row behind one that it comes before.
    pub first-sort_by :
        (xs : List A) {x : A}
        → first (sort_by before xs) ≡ some x
        → All (λ y. before y x ≡ false) xs
    unfolding sort_by
    first-sort_by [] h = absurd (cc)
    first-sort_by (y ∷ []) {x} h =
        let e : y ≡ x = ground (arith, first-place y []) in (rw (← e) (irrefl y), tt)
    first-sort_by (y ∷ z ∷ zs) {x} h = elim (Option-cases (first (sort_by before (z ∷ zs)))) [
      | inl missing ↦ absurd (cc (first-place z (sort_by before zs), missing))
      | inr (w, found) ↦
          let rest = first-sort_by (z ∷ zs) {x = w} found in
          let placed = first-place y (sort_by before (z ∷ zs)) in
          elim (Bool-cases (before w y)) [
            | inl ahead ↦
                let e : w ≡ x = ground (arith, placed) in
                subst (λ v. All (λ u. before u v ≡ false) (y ∷ z ∷ zs)) e (asymm w y ahead, rest)
            | inr behind ↦
                let e : y ≡ x = ground (arith, placed) in
                subst (λ v. All (λ u. before u v ≡ false) (y ∷ z ∷ zs)) e
                  (irrefl y, All-cotrans y w (z ∷ zs) behind rest)
          ]
    ]
