-- ===== src/Owner/Slugs.antt =====
-- Slugs that do not overlap give every name one owner at most.
use fast_bypass.Base.{
  ◌≡◌, refl, inl, inr, Text, text_eq, has_prefix, true, false, ◌||◌, some, List, [], ◌∷◌, ◌++◌,
  arith, has_prefix-append, has_prefix_total, Bool-cases, text_eq_comm, lt_int,
}
use fast_bypass.Owner.{ManagerInfo, Registry, name_pattern, find_by_name, resolve, slug_overlaps}
use fast_bypass.Owner.Resolve.{Elem}
use fast_bypass.Store.{ManagerSlug}

-- The rows of `ListManagerSlugs` for the managers of a registry.
abbrev pub slugs : List ManagerInfo → List ManagerSlug
slugs [] = []
slugs (m ∷ ms) = record { id = m.id; slug = m.slug } ∷ slugs ms

-- Every manager has been let in by `SlugOverlaps` against those behind it.
abbrev pub IsSeparated : List ManagerInfo → Type 0
IsSeparated [] = Unit
IsSeparated (m ∷ ms) = (slug_overlaps m.slug (slugs ms) 0 ≡ false) × IsSeparated ms

pub slug_overlaps-cons :
    (s : Text) (e : ManagerSlug) (es : List ManagerSlug)
    → slug_overlaps s (e ∷ es) 0
      ≡ (text_eq s e.slug || has_prefix s e.slug || has_prefix e.slug s || slug_overlaps s es 0)
unfolding slug_overlaps lt_int
slug_overlaps-cons s e es = ground arith

overlap-Elem :
    (s : Text) (m : ManagerInfo) (ms : List ManagerInfo)
    → slug_overlaps s (slugs ms) 0 ≡ false
    → Elem m ms
    → (has_prefix s m.slug || has_prefix m.slug s) ≡ false
overlap-Elem s m [] h e = elim e [ ]
overlap-Elem s m (x ∷ ms) h (inl p) =
    rw (← p) (ground (arith, slug_overlaps-cons s (record { id = x.id; slug = x.slug }) (slugs ms)))
overlap-Elem s m (x ∷ ms) h (inr e) =
    overlap-Elem s m ms
      (ground (arith, slug_overlaps-cons s (record { id = x.id; slug = x.slug }) (slugs ms))) e

-- Two managers whose patterns both begin the name overlap.
patterns-overlap :
    (r : Registry) (name : Text) (x m : ManagerInfo)
    → has_prefix name (name_pattern r x) ≡ true
    → has_prefix name (name_pattern r m) ≡ true
    → (has_prefix x.slug m.slug || has_prefix m.slug x.slug) ≡ true
patterns-overlap r name x m p q =
    has_prefix_total name x.slug m.slug (has_prefix-append name x.slug r.separator p)
      (has_prefix-append name m.slug r.separator q)

find_by_name-Elem :
    (r : Registry) (name : Text) (m : ManagerInfo) (ms : List ManagerInfo)
    → IsSeparated ms
    → Elem m ms
    → has_prefix name (name_pattern r m) ≡ true
    → find_by_name r name ms ≡ some m.id
unfolding find_by_name
find_by_name-Elem r name m [] u e q = elim e [ ]
find_by_name-Elem r name m (x ∷ ms) u (inl p) q = rw p (rw q)
find_by_name-Elem r name m (x ∷ ms) u (inr e) q =
    elim (Bool-cases (has_prefix name (name_pattern r x))) [
      | inl p ↦ cc (patterns-overlap r name x m p q, overlap-Elem x.slug m ms u.0 e)
      | inr p ↦ rw p (find_by_name-Elem r name m ms u.1 e q)
    ]

-- Where no two slugs overlap, each manager whose pattern begins the name is the owner, wherever
-- he stands in the registry and whatever the comment says.
pub resolve-Elem :
    (r : Registry) (name comment : Text) (m : ManagerInfo)
    → IsSeparated r.managers
    → Elem m r.managers
    → has_prefix name (name_pattern r m) ≡ true
    → resolve r name comment ≡ m.id
unfolding resolve
resolve-Elem r name comment m u e q = ground (arith, find_by_name-Elem r name m r.managers u e q)

-- The test is symmetric.
slug_overlaps-snoc :
    (x m : ManagerInfo) (ms : List ManagerInfo)
    → slug_overlaps x.slug (slugs ms) 0 ≡ false
    → (text_eq m.slug x.slug || has_prefix m.slug x.slug || has_prefix x.slug m.slug) ≡ false
    → slug_overlaps x.slug (slugs (ms ++ (m ∷ []))) 0 ≡ false
slug_overlaps-snoc x m [] h k = ground (
  arith,
  slug_overlaps-cons x.slug (record { id = m.id; slug = m.slug }) [],
  text_eq_comm x.slug m.slug,
  h,
)
slug_overlaps-snoc x m (y ∷ ms) h k = ground (
  arith,
  slug_overlaps-cons x.slug (record { id = y.id; slug = y.slug }) (slugs ms),
  slug_overlaps-cons x.slug (record { id = y.id; slug = y.slug }) (slugs (ms ++ (m ∷ []))),
  slug_overlaps-snoc x m ms,
)

-- A manager whose slug passes the test of `HandleCreateManager` against all slugs, put behind
-- the others, leaves the slugs without overlap.
pub snoc-IsSeparated :
    (ms : List ManagerInfo) (m : ManagerInfo)
    → IsSeparated ms
    → slug_overlaps m.slug (slugs ms) 0 ≡ false
    → IsSeparated (ms ++ (m ∷ []))
unfolding slug_overlaps
snoc-IsSeparated [] m u h = (refl, tt)
snoc-IsSeparated (x ∷ ms) m u h =
    let c = slug_overlaps-cons m.slug (record { id = x.id; slug = x.slug }) (slugs ms) in
    (
      slug_overlaps-snoc x m ms u.0 (ground (arith, c)),
      snoc-IsSeparated ms m u.1 (ground (arith, c)),
    )
