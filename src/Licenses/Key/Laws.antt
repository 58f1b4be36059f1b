-- ===== src/Licenses/Key/Laws.antt =====
-- The normal form of a key.
use ruznamo_backend.Common.{
  ℕ, ◌≡◌, refl, true, List, [], ◌∷◌, ◌++◌, arith, is_space, trim_start, select, map, ◌∙◌, sym,
}
use ruznamo_backend.Licenses.Key.{lower, drop_spaces, normalize_key}

-- `trim` changes nothing that `replace` would not.
normalize_key_lem : (key : List ℕ) → normalize_key key ≡ drop_spaces (map lower key)
unfolding normalize_key select trim_start lower is_space
normalize_key_lem [] = refl
normalize_key_lem (c ∷ cs) = ground (arith, normalize_key_lem cs)

drop_spaces-insert :
    (before after : List ℕ) (c : ℕ)
    → is_space c ≡ true
    → drop_spaces (map lower (before ++ c ∷ after)) ≡ drop_spaces (map lower (before ++ after))
unfolding select lower is_space
drop_spaces-insert [] after c h = ground arith
drop_spaces-insert (b ∷ bs) after c h = ground (arith, drop_spaces-insert bs after c h)

drop_spaces-lower :
    (key : List ℕ) → drop_spaces (map lower (map lower key)) ≡ drop_spaces (map lower key)
unfolding select lower is_space
drop_spaces-lower [] = refl
drop_spaces-lower (c ∷ cs) = ground (arith, drop_spaces-lower cs)

drop_spaces-normal :
    (key : List ℕ)
    → drop_spaces (map lower (drop_spaces (map lower key))) ≡ drop_spaces (map lower key)
unfolding select lower is_space
drop_spaces-normal [] = refl
drop_spaces-normal (c ∷ cs) = ground (arith, drop_spaces-normal cs)

-- Spaces anywhere in a key, and the case of its letters, do not change the key that is looked up.
normalize_key-insensitive :
    (before after : List ℕ) (c : ℕ)
    → is_space c ≡ true
    → normalize_key (before ++ c ∷ after) ≡ normalize_key (map lower (before ++ after))
normalize_key-insensitive before after c space =
    normalize_key_lem (before ++ c ∷ after)
    ∙ drop_spaces-insert before after c space
    ∙ sym (drop_spaces-lower (before ++ after))
    ∙ sym (normalize_key_lem (map lower (before ++ after)))

-- Normalising twice is normalising once.
normalize_key-normalize_key : (key : List ℕ) → normalize_key (normalize_key key) ≡ normalize_key key
normalize_key-normalize_key key =
    rw normalize_key_lem (rw normalize_key_lem (drop_spaces-normal key))
