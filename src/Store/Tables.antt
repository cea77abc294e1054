-- ===== src/Store/Tables.antt =====
-- The tables, and the lookups and updates that the statements are made of.
use fast_bypass.Base.{
  ℕ, ◌+◌, Text, text_eq, to_lower, Bool, true, false, ◌&&◌, ◌||◌, Option, none, some, List, [], ◌∷◌,
  ◌==◌, ltb, if◌then◌else◌, codes,
}
use fast_bypass.Result.{Result, Error, ok, err, no_rows, failure}
use fast_bypass.Store.Rows.{PanelAdmin, Manager, VpnUserMeta, ProfileActivation}

pub record Db : Type 0 where
  pub panel_admins : List PanelAdmin
  pub managers : List Manager
  pub vpn_user_meta : List VpnUserMeta
  pub profile_activations : List ProfileActivation
  -- the AUTOINCREMENT counters
  pub next_admin : ℕ
  pub next_manager : ℕ
  pub next_meta : ℕ
  pub next_activation : ℕ
  -- `datetime('now')`
  pub now : Text

-- A constraint of the schema was broken.
abbrev pub constraint_failed : Error
constraint_failed = failure (codes "constraint failed")

-- `COLLATE NOCASE`: the ASCII letters compare without case.
abbrev pub nocase_eq : Text → Text → Bool
nocase_eq s t = text_eq (to_lower s) (to_lower t)

-- The order of texts, byte by byte.
abbrev pub text_lt : Text → Text → Bool
text_lt [] [] = false
text_lt [] (d ∷ t) = true
text_lt (c ∷ s) [] = false
text_lt (c ∷ s) (d ∷ t) = ltb c d || c == d && text_lt s t

module _ {R : Type 0} where
  -- The first row that the condition holds of; a row must be there.
  abbrev pub select : (R → Bool) → List R → Result R
  select p [] = err no_rows
  select p (r ∷ rs) = if p r then ok r else select p rs

  abbrev pub exists : (R → Bool) → List R → Bool
  exists p [] = false
  exists p (r ∷ rs) = p r || exists p rs

  abbrev pub where_rows : (R → Bool) → List R → List R
  where_rows p [] = []
  where_rows p (r ∷ rs) = let rest = where_rows p rs in if p r then r ∷ rest else rest

  -- `UPDATE … WHERE`
  abbrev pub update : (R → Bool) → (R → R) → List R → List R
  update p f [] = []
  update p f (r ∷ rs) = (if p r then f r else r) ∷ update p f rs

  -- `COUNT(*)`, and the number of rows that an update affects.
  abbrev pub count : (R → Bool) → List R → ℕ
  count p [] = 0
  count p (r ∷ rs) = (if p r then 1 else 0) + count p rs

abbrev pub opt_eq : Option ℕ → ℕ → Bool
opt_eq none n = false
opt_eq (some m) n = m == n

abbrev pub is_null {ℓ} : {A : Type ℓ} → Option A → Bool
is_null none = true
is_null (some a) = false

-- A pointer that is not nil replaces the value.
abbrev pub or_old {ℓ} : {A : Type ℓ} → Option A → A → A
or_old none old = old
or_old (some new) old = new

-- A pointer that is not nil replaces the nullable column.
abbrev pub or_kept {ℓ} : {A : Type ℓ} → Option A → Option A → Option A
or_kept none old = old
or_kept (some new) old = some new
