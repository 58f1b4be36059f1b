-- ===== src/Licenses/Key.antt =====
-- security/license-key.service.ts: the form of a key under which it is hashed and looked up.
pub mod Laws
use ruznamo_backend.Common.{
  ℕ, zero, suc, ◌+◌, Bool, List, [], ◌∷◌, ◌&&◌, leb, if◌then◌else◌, is_space, trim_start, not,
  select, map,
}

-- `toLowerCase` on the letters A to Z; a key is hexadecimal.
unfoldable pub lower : ℕ → ℕ
lower c = if leb 65 c && leb c 90 then c + 32 else c

abbrev pub drop_spaces : List ℕ → List ℕ
drop_spaces = select (λ c. not (is_space c))

-- `trim().toLowerCase().replace(/\s+/g, '')`; what `trim` leaves at the end, `replace` removes.
unfoldable pub normalize_key : List ℕ → List ℕ
unfolding lower
normalize_key key = drop_spaces (map lower (trim_start key))

unfoldable pub prefix : ℕ → List ℕ → List ℕ
prefix n [] = []
prefix zero (c ∷ cs) = []
prefix (suc n) (c ∷ cs) = c ∷ prefix n cs
