-- ===== src/Owner/Resolve.antt =====
-- `Resolve` and `OwnerMismatch`: the rule by name comes first, and the answers agree.
use fast_bypass.Base.{
  ℕ, ◌≡◌, refl, ◌≢◌, ◌⊎◌, inl, inr, ◌↔◌, Text, has_prefix, true, false, none, some, List, [], ◌∷◌,
  arith, Option-cases,
}
use fast_bypass.Owner.{
  ManagerInfo, Registry, name_pattern, comment_matches_panel, find_by_name, find_by_comment,
  resolve, owner_mismatch,
}

-- The manager is in the list.
abbrev pub Elem : ManagerInfo → List ManagerInfo → Type 0
Elem m [] = ⊥
Elem m (x ∷ xs) = (x ≡ m) ⊎ Elem m xs

-- Every id is other than 0, as the ids of rows are.
abbrev pub HasIds : List ManagerInfo → Type 0
HasIds [] = Unit
HasIds (m ∷ ms) = (m.id ≢ 0) × HasIds ms

-- Neither the name nor the comment is that of a manager in the list.
abbrev pub Unclaimed : Registry → Text → Text → List ManagerInfo → Type 0
Unclaimed r name comment [] = Unit
Unclaimed r name comment (m ∷ ms) =
    (has_prefix name (name_pattern r m) ≡ false)
    × (comment_matches_panel r comment m ≡ false)
    × Unclaimed r name comment ms

find_none :
    (r : Registry) (name comment : Text) (ms : List ManagerInfo)
    → (find_by_name r name ms ≡ none)
    → (find_by_comment r comment ms ≡ none)
    → Unclaimed r name comment ms
unfolding find_by_name find_by_comment
find_none r name comment [] p q = tt
find_none r name comment (m ∷ ms) p q = ground (arith, find_none r name comment ms)

pub none-find :
    (r : Registry) (name comment : Text) (ms : List ManagerInfo)
    → Unclaimed r name comment ms
    → (find_by_name r name ms ≡ none) × (find_by_comment r comment ms ≡ none)
unfolding find_by_name find_by_comment
none-find r name comment [] u = (refl, refl)
none-find r name comment (m ∷ ms) u = ground (arith, none-find r name comment ms u.2)

find_by_name-ne-zero :
    (r : Registry) (name : Text) (ms : List ManagerInfo)
    → HasIds ms
    → find_by_name r name ms ≢ some 0
unfolding find_by_name
find_by_name-ne-zero r name [] h e = cc
find_by_name-ne-zero r name (m ∷ ms) h e = ground (arith, find_by_name-ne-zero r name ms h.1)

find_by_comment-ne-zero :
    (r : Registry) (comment : Text) (ms : List ManagerInfo)
    → HasIds ms
    → find_by_comment r comment ms ≢ some 0
unfolding find_by_comment
find_by_comment-ne-zero r comment [] h e = cc
find_by_comment-ne-zero r comment (m ∷ ms) h e =
    ground (arith, find_by_comment-ne-zero r comment ms h.1)

-- Where every manager has an id other than 0, a user is an orphan (0) exactly when no manager's
-- pattern is a prefix of the name and no manager's token matches the comment.
pub resolve-eq-zero :
    (r : Registry) (name comment : Text)
    → HasIds r.managers
    → (resolve r name comment ≡ 0) ↔ Unclaimed r name comment r.managers
unfolding resolve
resolve-eq-zero r name comment h = (
  λ e.
      find_none r name comment r.managers (ground (arith, find_by_name-ne-zero r name r.managers h))
        (ground (
          arith,
          find_by_name-ne-zero r name r.managers h,
          find_by_comment-ne-zero r comment r.managers h,
        )),
  λ u. ground (arith, none-find r name comment r.managers u),
)

-- Where the ids are other than 0, a mismatch is reported, for the owner that `Resolve` gives,
-- exactly when name and comment each name a manager and not the same one.
pub owner_mismatch_iff :
    (r : Registry) (name comment : Text)
    → HasIds r.managers
    → (owner_mismatch r name comment (resolve r name comment) ≡ true) ↔ (
        (a : ℕ) × (b : ℕ) × (find_by_name r name r.managers ≡ some a)
        × (find_by_comment r comment r.managers ≡ some b)
        × (a ≢ b))
unfolding owner_mismatch resolve
owner_mismatch_iff r name comment h = (
  λ e. elim (Option-cases (find_by_name r name r.managers)) [
    | inl p ↦ absurd (ground arith)
    | inr (a, p) ↦ elim (Option-cases (find_by_comment r comment r.managers)) [
      | inl q ↦ absurd (ground arith)
      | inr (b, q) ↦ (a, b, p, q, ground arith)
    ]
  ],
  λ (a, b, p, q, ne). ground (
    arith,
    find_by_name-ne-zero r name r.managers h,
    find_by_comment-ne-zero r comment r.managers h,
  ),
)
