-- ===== src/Devices/Category.antt =====
-- devices/resolve-user-category.util.ts, and buildProfilePatch of auth/auth.service.ts and
-- devices/devices.service.ts. The category of a DTO is text, as the utility takes it.
use ruznamo_backend.Common.{
  refl, ◌≡◌, is_space, trim_end, map, trim_start, ℕ, String, Option, none, some, List, [], ◌∷◌,
  ◌==◌, if◌then◌else◌, codes, trim, upper, is_nil, same_text, first_some, or_else,
}
use ruznamo_backend.Db.{User, UserCategory}
use ruznamo_backend.Licenses.Key.{lower, prefix}

-- The values of UserCategory.
abbrev categories : List (String × UserCategory)
categories =
    ("TEACHER", UserCategory.teacher)
    ∷ ("LECTURER", UserCategory.lecturer)
    ∷ ("TUTOR", UserCategory.tutor)
    ∷ ("TRAINER", UserCategory.trainer)
    ∷ ("EMPLOYEE", UserCategory.employee)
    ∷ ("STUDENT", UserCategory.student)
    ∷ ("PERSONAL", UserCategory.personal)
    ∷ []

-- LOCAL_ID_TO_CATEGORY
abbrev local_categories : List (String × UserCategory)
local_categories =
    ("teacher", UserCategory.teacher)
    ∷ ("lecturer", UserCategory.lecturer)
    ∷ ("tutor", UserCategory.tutor)
    ∷ ("trainer", UserCategory.trainer)
    ∷ ("employee", UserCategory.employee)
    ∷ ("student", UserCategory.student)
    ∷ ("personal", UserCategory.personal)
    ∷ ("other", UserCategory.personal)
    ∷ []

unfoldable pub category_named : List ℕ → List (String × UserCategory) → Option UserCategory
unfolding same_text
category_named text [] = none
category_named text ((name, c) ∷ rows) =
    let rest = category_named text rows in if same_text text (codes name) then some c else rest

-- `replace(/-/g, '_')`
abbrev underscore : ℕ → ℕ
underscore c = if c == 45 then 95 else c

-- One of the two texts: its enum value, or the local id that it names.
unfoldable pub category_of : Option (List ℕ) → Option UserCategory
unfolding trim lower
category_of none = none
category_of (some raw) =
    let trimmed = trim raw in
    if is_nil trimmed
    then none
    else first_some (category_named (map underscore (map upper trimmed)) categories)
        (category_named (map lower trimmed) local_categories)

-- resolveUserCategory
unfoldable pub resolve_user_category : Option (List ℕ) → Option (List ℕ) → Option UserCategory
resolve_user_category category role_id = first_some (category_of category) (category_of role_id)

-- What a registration sends, without the columns of the device's make and version.
pub record RegisterDeviceDto : Type 0 where
  pub installation_id : ℕ
  pub category : Option (List ℕ)
  pub role_id : Option (List ℕ)
  pub display_name : Option (List ℕ)

-- `dto.displayName?.trim()`, where it is not empty
unfoldable pub given_name : RegisterDeviceDto → Option (List ℕ)
unfolding trim
given_name dto = elim dto.display_name [
  | none ↦ none
  | some name ↦ if is_nil (trim name) then none else some (trim name)
]

-- buildProfilePatch on the user's row
unfoldable pub patch_profile : RegisterDeviceDto → User → User
unfolding prefix
patch_profile dto u = record u {
  display_name = elim (given_name dto) [
    | none ↦ u.display_name
    | some name ↦ some (prefix 80 name)
  ];
  category = or_else (resolve_user_category dto.category dto.role_id) u.category;
}

category_tests :
    (resolve_user_category (some (codes " teacher ")) none ≡ some UserCategory.teacher)
    × (resolve_user_category (some (codes "boss")) (some (codes "Other"))
        ≡ some UserCategory.personal)
    × (resolve_user_category (some (codes " ")) none ≡ none)
unfolding resolve_user_category category_of category_named trim trim_start trim_end is_space lower
    same_text
category_tests = (refl, refl, refl)
