-- ===== src/Owner.antt =====
-- Who owns a VPN user (backend/internal/owner/owner.go): the registry of the managers, the rule
-- by name and the rule by comment, and the test that keeps the slugs apart.
pub mod Comment
pub mod Resolve
pub mod Slugs
use fast_bypass.Base.{
  ℕ, Text, codes, text_eq, has_prefix, has_suffix, contains, Bool, true, false, ◌&&◌, ◌||◌, not,
  Option, none, some, List, [], ◌∷◌, ◌++◌, ◌==◌, if◌then◌else◌, map, lt_int,
}
use fast_bypass.Store.{Manager, ManagerSlug}

pub record ManagerInfo : Type 0 where
  pub id : ℕ
  pub slug : Text

pub record Registry : Type 0 where
  pub separator : Text
  pub managers : List ManagerInfo

-- `Registry.Pattern`
abbrev pub name_pattern : Registry → ManagerInfo → Text
name_pattern r m = m.slug ++ r.separator

abbrev pub bar : ℕ
bar = b'|'

-- `Registry.PanelComment`
unfoldable pub panel_comment : Registry → ManagerInfo → Text
panel_comment r m = codes "panel=" ++ m.slug

unfoldable pub comment_matches_panel : Registry → Text → ManagerInfo → Bool
comment_matches_panel r comment m =
    let token = panel_comment r m in
    if text_eq comment token
    then true
    else (if has_prefix comment (token ++ (bar ∷ []))
        then true
        else (if has_suffix comment (bar ∷ token)
            then true
            else contains comment (bar ∷ (token ++ (bar ∷ [])))))

-- The first loop of `Resolve` and of `OwnerMismatch`, over the managers that are left.
unfoldable pub find_by_name : Registry → Text → List ManagerInfo → Option ℕ
find_by_name r name [] = none
find_by_name r name (m ∷ ms) =
    if has_prefix name (name_pattern r m) then some m.id else find_by_name r name ms

-- The second loop.
unfoldable pub find_by_comment : Registry → Text → List ManagerInfo → Option ℕ
find_by_comment r comment [] = none
find_by_comment r comment (m ∷ ms) =
    if comment_matches_panel r comment m then some m.id else find_by_comment r comment ms

-- The manager's id, or 0 for an orphan.
unfoldable pub resolve : Registry → Text → Text → ℕ
resolve r name comment = elim (find_by_name r name r.managers) [
  | some id ↦ id
  | none ↦ elim (find_by_comment r comment r.managers) [ some id ↦ id | none ↦ 0 ]
]

-- A variable that keeps its zero value where the loop finds nothing.
abbrev id_or_zero : Option ℕ → ℕ
id_or_zero none = 0
id_or_zero (some id) = id

unfoldable pub owner_mismatch : Registry → Text → Text → ℕ → Bool
owner_mismatch r name comment resolved_id =
    if resolved_id == 0
    then false
    else (let name_id = id_or_zero (find_by_name r name r.managers) in
        let comment_id = id_or_zero (find_by_comment r comment r.managers) in
        if name_id == 0 || comment_id == 0 then false else not (name_id == comment_id))

-- The loop of `BuildRegistry`.
abbrev pub manager_infos : List Manager → List ManagerInfo
manager_infos [] = []
manager_infos (m ∷ ms) = record { id = m.id; slug = m.slug } ∷ manager_infos ms

unfoldable pub build_registry : List Manager → Text → Registry
build_registry managers separator = record {
  separator = separator;
  managers = manager_infos managers;
}

unfoldable pub slug_overlaps : Text → List ManagerSlug → ℕ → Bool
slug_overlaps slug [] exclude_id = false
slug_overlaps slug (e ∷ existing) exclude_id =
    let rest = slug_overlaps slug existing exclude_id in
    if lt_int 0 exclude_id && e.id == exclude_id
    then rest
    else (if text_eq slug e.slug || has_prefix slug e.slug || has_prefix e.slug slug
        then true
        else rest)
