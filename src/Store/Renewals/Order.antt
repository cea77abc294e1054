-- ===== src/Store/Renewals/Order.antt =====
-- The order of the renewals, where no two of them are of one time: whatever order has the newest
-- first is that of the model.
use fast_bypass.Base.{
  ◌≡◌, refl, sym, ap, ◌∙◌, true, false, Text, List, [], ◌∷◌, ◌⊎◌, inl, inr, arith,
}
use fast_bypass.Store.Tables.{text_lt}
use fast_bypass.Store.Renewals.{Joined, place, newest_first}

-- The row is older than all of these.
abbrev IsOlderThan : Joined → Joined → Type 0
IsOlderThan s r = text_lt (s.0).created_at (r.0).created_at ≡ true

abbrev IsNewest : Joined → List Joined → Type 0
IsNewest r [] = Unit
IsNewest r (s ∷ rows) = IsOlderThan s r × IsNewest r rows

-- `ORDER BY created_at DESC`, with no two rows of one time.
abbrev pub IsDescending : List Joined → Type 0
IsDescending [] = Unit
IsDescending (r ∷ rows) = IsNewest r rows × IsDescending rows

-- The second list has the row somewhere among the rows of the first.
abbrev pub IsInserted : Joined → List Joined → List Joined → Type 0
IsInserted r rest [] = ⊥
IsInserted r rest (x ∷ rows) =
    ((x ≡ r) × (rest ≡ rows)) ⊎ ((tail : List Joined) × (rest ≡ x ∷ tail) × IsInserted r tail rows)

-- The second list has the rows of the first, each as often, in some order.
abbrev pub IsReordered : List Joined → List Joined → Type 0
IsReordered [] rows = rows ≡ []
IsReordered (r ∷ l) rows = (rest : List Joined) × IsInserted r rest rows × IsReordered l rest

text_lt-asym : (s t : Text) → text_lt s t ≡ true → text_lt t s ≡ false
text_lt-asym [] [] h = refl
text_lt-asym [] (d ∷ t) h = refl
text_lt-asym (c ∷ s) [] h = cc
text_lt-asym (c ∷ s) (d ∷ t) h = ground (arith, text_lt-asym s t)

IsNewest-inserted :
    (x r : Joined) (rest rows : List Joined)
    → IsInserted r rest rows
    → IsNewest x rows
    → IsNewest x rest × IsOlderThan r x
IsNewest-inserted x r rest [] i h = absurd i
IsNewest-inserted x r rest (s ∷ rows) (inl (e, k)) h = rw (← e, k) (h.1, h.0)
IsNewest-inserted x r rest (s ∷ rows) (inr (tail, e, i)) h =
    let (rest_newest, older) = IsNewest-inserted x r tail rows i h.1 in
    rw e ((h.0, rest_newest), older)

IsDescending-inserted :
    (r : Joined) (rest rows : List Joined)
    → IsInserted r rest rows
    → IsDescending rows
    → IsDescending rest × (place r rest ≡ rows)
IsDescending-inserted r rest [] i h = absurd i
IsDescending-inserted r rest (s ∷ rows) (inl (e, k)) h = rw (← e, k) (h.1, place-newest s rows h.0)
  where
    place-newest : (s : Joined) (rows : List Joined) → IsNewest s rows → place s rows ≡ s ∷ rows
    place-newest s [] n = refl
    place-newest s (t ∷ rows) n = rw (text_lt-asym (t.0).created_at (s.0).created_at n.0) refl
IsDescending-inserted r rest (s ∷ rows) (inr (tail, e, i)) h =
    let (down, same) = IsDescending-inserted r tail rows i h.1 in
    let (newest, older) = IsNewest-inserted s r tail rows i h.0 in
    rw e ((newest, down), rw older (ap (λ l. s ∷ l) same))

-- A list with the newest first is that of the model.
pub newest_first-IsDescending :
    (l rows : List Joined) → IsReordered l rows → IsDescending rows → newest_first l ≡ rows
newest_first-IsDescending [] rows e h = sym e
newest_first-IsDescending (r ∷ l) rows (rest, i, o) h =
    let (down, same) = IsDescending-inserted r rest rows i h in
    ap (place r) (newest_first-IsDescending l rest o down) ∙ same
