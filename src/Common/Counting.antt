-- ===== src/Common/Counting.antt =====
-- How the queries on a table answer after a row is created or updated.
use Prim.Native.Nat.{◌+◌, ◌≤◌}
use mathlib.Core.Path.{◌≡◌, refl}
use mathlib.Core.Bool.{◌||◌, Bool, true, false, not, ◌&&◌}
use mathlib.Core.Option.{none, some}
use mathlib.Core.List.{List, [], ◌∷◌}
use native.Mathlib.Omega.{arith}
use ruznamo_backend.Common.Tests.{if◌then◌else◌}
use ruznamo_backend.Common.Tables.{select, find, count, update_where, insert, any}

module _ {ℓ} {A : Type ℓ} where
  pub count-insert :
      (p : A → Bool) (x : A) (xs : List A)
      → count p (insert x xs) ≡ count p xs + (if p x then 1 else 0)
  unfolding count
  count-insert p x [] = ground arith
  count-insert p x (y ∷ ys) = ground (arith, count-insert p x ys)

  -- Rows that leave the predicate by an update.
  pub count-update_drop :
      (p q : A → Bool) (f : A → A) (xs : List A)
      → ((x : A) → q x ≡ true → p (f x) ≡ false)
      → count p (update_where q f xs) + count (λ x. p x && q x) xs ≡ count p xs
  unfolding count update_where
  count-update_drop p q f [] h = refl
  count-update_drop p q f (x ∷ xs) h = ground (arith, count-update_drop p q f xs h, h x)

  -- Rows that enter it.
  pub count-update_gain :
      (p q : A → Bool) (f : A → A) (xs : List A)
      → ((x : A) → q x ≡ true → p (f x) ≡ true)
      → count p (update_where q f xs) ≡ count p xs + count (λ x. not (p x) && q x) xs
  unfolding count update_where
  count-update_gain p q f [] h = refl
  count-update_gain p q f (x ∷ xs) h = ground (arith, count-update_gain p q f xs h, h x)

  pub count-update_same :
      (p q : A → Bool) (f : A → A) (xs : List A)
      → ((x : A) → q x ≡ true → p (f x) ≡ p x)
      → count p (update_where q f xs) ≡ count p xs
  unfolding count update_where
  count-update_same p q f [] h = refl
  count-update_same p q f (x ∷ xs) h = ground (arith, count-update_same p q f xs h, h x)

  pub count_mono :
      (p q : A → Bool) (xs : List A) → ((x : A) → p x ≡ true → q x ≡ true) → count p xs ≤ count q xs
  unfolding count
  count_mono p q [] h = omega arith
  count_mono p q (x ∷ xs) h = ground (arith, count_mono p q xs h, h x)

  pub count-find-none : (p : A → Bool) (xs : List A) → find p xs ≡ none → count p xs ≡ 0
  unfolding count find
  count-find-none p [] h = refl
  count-find-none p (x ∷ xs) h = ground (arith, count-find-none p xs)

  -- The row that `find` answers is counted by every predicate that it meets.
  pub count-find-some :
      (p q : A → Bool) (xs : List A) (x : A) → find p xs ≡ some x → q x ≡ true → 1 ≤ count q xs
  unfolding count find
  count-find-some p q [] x h k = absurd (cc)
  count-find-some p q (y ∷ ys) x h k = ground (arith, count-find-some p q ys x)

  -- Where at most one row meets `p`, what `find p` answers decides every count of such rows.
  pub count-find_unique :
      (p q : A → Bool) (xs : List A) (x : A)
      → find p xs ≡ some x
      → count p xs ≤ 1
      → q x ≡ false
      → ((y : A) → q y ≡ true → p y ≡ true)
      → count q xs ≡ 0
  unfolding count find
  count-find_unique p q [] x h u k sub = refl
  count-find_unique p q (y ∷ ys) x h u k sub =
      ground (arith, count-find_unique p q ys x, sub y, count_mono q p ys sub)

  pub any_of_find :
      (p q : A → Bool) (xs : List A) (x : A) → find p xs ≡ some x → q x ≡ true → any q xs ≡ true
  unfolding any find
  any_of_find p q [] x h k = cc
  any_of_find p q (y ∷ ys) x h k = ground (arith, any_of_find p q ys x)

  -- A row that some update leaves in place of a found one.
  pub find-update_where :
      (p q : A → Bool) (f : A → A) (xs : List A)
      → ((x : A) → p (f x) ≡ p x)
      → find p (update_where q f xs)
        ≡ elim (find p xs) [ none ↦ none | some x ↦ some (if q x then f x else x) ]
  unfolding find update_where
  find-update_where p q f [] h = refl
  find-update_where p q f (x ∷ xs) h = ground (arith, find-update_where p q f xs h, h x)

  -- A created row is found where none was.
  pub find-insert :
      (p : A → Bool) (x : A) (xs : List A)
      → find p xs ≡ none
      → p x ≡ true
      → find p (insert x xs) ≡ some x
  unfolding find
  find-insert p x [] h k = ground arith
  find-insert p x (y ∷ ys) h k = ground (arith, find-insert p x ys)

  -- An update brings at most the rows that it touches under a predicate.
  pub count-update_le :
      (p q : A → Bool) (f : A → A) (xs : List A)
      → count p (update_where q f xs) ≤ count p xs + count q xs
  unfolding count update_where
  count-update_le p q f [] = omega arith
  count-update_le p q f (x ∷ xs) = ground (arith, count-update_le p q f xs)

  pub count-any : (p : A → Bool) (xs : List A) → any p xs ≡ true → 1 ≤ count p xs
  unfolding count any
  count-any p [] h = cc
  count-any p (x ∷ xs) h = ground (arith, count-any p xs)

  pub any-insert : (p : A → Bool) (x : A) (xs : List A) → p x ≡ true → any p (insert x xs) ≡ true
  unfolding any
  any-insert p x [] h = ground arith
  any-insert p x (y ∷ ys) h = ground (arith, any-insert p x ys h)

  pub find-insert_old :
      (p : A → Bool) (y : A) (xs : List A) (x : A)
      → find p xs ≡ some x
      → find p (insert y xs) ≡ some x
  unfolding find
  find-insert_old p y [] x h = cc
  find-insert_old p y (z ∷ zs) x h = ground (arith, find-insert_old p y zs x)

  count-found_narrow :
      (p q : A → Bool) (xs : List A) (x : A)
      → ((y : A) → q y ≡ true → p y ≡ true)
      → find q xs ≡ some x
      → 1 ≤ count p xs
  unfolding find count
  count-found_narrow p q [] x sub h = absurd (cc)
  count-found_narrow p q (y ∷ ys) x sub h = ground (arith, count-found_narrow p q ys x sub, sub y)

  -- Where at most one row meets `p`, a row found by a narrower test is the one that `p` finds.
  pub find-narrow :
      (p q : A → Bool) (xs : List A) (x : A)
      → count p xs ≤ 1
      → ((y : A) → q y ≡ true → p y ≡ true)
      → find q xs ≡ some x
      → find p xs ≡ some x
  unfolding find count
  find-narrow p q [] x u sub h = cc
  find-narrow p q (y ∷ ys) x u sub h =
      ground (arith, find-narrow p q ys x u' sub, count-found_narrow p q ys x sub, sub y)
    where
      u' : count p ys ≤ 1
      u' = ground arith

  -- The rows that meet `p` after an update met it before, or were among those of `r`.
  pub count-update_from :
      (p q r : A → Bool) (f : A → A) (xs : List A)
      → ((x : A) → q x ≡ true → p (f x) ≡ true → (p x || r x) ≡ true)
      → count p (update_where q f xs) ≤ count p xs + count r xs
  unfolding count update_where
  count-update_from p q r f [] h = omega arith
  count-update_from p q r f (x ∷ xs) h = ground (arith, count-update_from p q r f xs h, h x)

  pub count-update_shrink :
      (p q : A → Bool) (f : A → A) (xs : List A)
      → ((x : A) → p (f x) ≡ true → p x ≡ true)
      → count p (update_where q f xs) ≤ count p xs
  unfolding count update_where
  count-update_shrink p q f [] h = omega arith
  count-update_shrink p q f (x ∷ xs) h = ground (arith, count-update_shrink p q f xs h, h x)

  pub count-select : (p q : A → Bool) (xs : List A) → count p (select q xs) ≤ count p xs
  unfolding count select
  count-select p q [] = omega arith
  count-select p q (x ∷ xs) = ground (arith, count-select p q xs)
