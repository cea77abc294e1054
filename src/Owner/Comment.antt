-- ===== src/Owner/Comment.antt =====
-- `commentMatchesPanel` against its comment: the token stands in the comment as a whole field.
use fast_bypass.Base.{
  ◌≡◌, refl, Text, codes, text_eq, has_prefix, has_suffix, contains, Bool, true, false, ◌||◌, List,
  [], ◌∷◌, ◌++◌, ◌==◌, if◌then◌else◌, arith, sym, ap₂, ◌∙◌,
}
use fast_bypass.Owner.{ManagerInfo, Registry, bar, panel_comment, comment_matches_panel}

-- The text up to the first `|`.
abbrev first_field : Text → Text
first_field [] = []
first_field (c ∷ s) = if c == bar then [] else c ∷ first_field s

-- The fields behind the first.
abbrev later_fields : Text → List Text
later_fields [] = []
later_fields (c ∷ s) = let rest = later_fields s in if c == bar then first_field s ∷ rest else rest

-- The fields of a text that `|` separates.
abbrev pub fields : Text → List Text
fields s = first_field s ∷ later_fields s

abbrev pub mem_text : Text → List Text → Bool
mem_text t [] = false
mem_text t (s ∷ ss) = text_eq s t || mem_text t ss

-- No `|` in the text.
abbrev pub no_bar : Text → Bool
no_bar [] = true
no_bar (c ∷ s) = if c == bar then false else no_bar s

first_field-eq :
    (s t : Text)
    → no_bar t ≡ true
    → text_eq (first_field s) t ≡ (text_eq s t || has_prefix s (t ++ (bar ∷ [])))
first_field-eq [] [] h = refl
first_field-eq [] (d ∷ t) h = refl
first_field-eq (c ∷ s) [] h = ground arith
first_field-eq (c ∷ s) (d ∷ t) h = ground (arith, first_field-eq s t)

later_fields-eq :
    (s t : Text)
    → no_bar t ≡ true
    → mem_text t (later_fields s) ≡ (has_suffix s (bar ∷ t) || contains s (bar ∷ (t ++ (bar ∷ []))))
later_fields-eq [] t h = refl
later_fields-eq (c ∷ s) t h = ground (arith, first_field-eq s t h, later_fields-eq s t h)

any_of :
    (a b c d : Bool)
    → (if a then true else (if b then true else (if c then true else d))) ≡ ((a || b) || (c || d))
any_of true b c d = refl
any_of false true c d = refl
any_of false false true d = refl
any_of false false false d = refl

-- For a slug without `|`, a comment matches the manager exactly when `panel=` with the slug is
-- one of the fields of the comment that `|` separates.
pub comment_matches_panel-eq :
    (r : Registry) (comment : Text) (m : ManagerInfo)
    → no_bar m.slug ≡ true
    → comment_matches_panel r comment m ≡ mem_text (panel_comment r m) (fields comment)
unfolding comment_matches_panel panel_comment
comment_matches_panel-eq r comment m h =
    let token = codes "panel=" ++ m.slug in
    any_of (text_eq comment token) (has_prefix comment (token ++ (bar ∷ [])))
      (has_suffix comment (bar ∷ token)) (contains comment (bar ∷ (token ++ (bar ∷ []))))
    ∙ sym (ap₂ ◌||◌ (first_field-eq comment token h) (later_fields-eq comment token h))
