-- ===== src/App/Pages/Window.antt =====
-- What the window of a page cuts out of a list.
use fast_bypass.Base.{
  ℕ, zero, suc, refl, ap, ◌∙◌, some, List, [], ◌∷◌, length, take, drop, le_int-leb, inl, inr, ◌+◌,
  ◌-◌, ◌*◌, ◌%◌, ◌≤◌, ◌<◌, ◌≡◌, sym, true, arith, int_half, int_mod, add_int, sub_int, mul_int,
  lt_int, le_int, ◌⊎◌,
}
use fast_bypass.App.Lists.{ListRow, slice}
use fast_bypass.App.Pages.{window_from, page_window}

-- The start of a page that is at least the first, where the product does not wrap around.
start-eq :
    (page size : ℕ)
    → 1 ≤ page
    → page < int_half
    → (page - 1) * size < int_half
    → mul_int (sub_int page 1) size ≡ (page - 1) * size
unfolding mul_int sub_int
start-eq page size p h k =
    let before : (page + int_mod - 1) % int_mod ≡ page - 1 = omega (arith, p, h) in
    rw before (omega (arith, k))

drop-all {ℓ} : {X : Type ℓ} (n : ℕ) (l : List X) → length l ≤ n → drop n l ≡ []
drop-all n [] h = refl
drop-all zero (x ∷ l) h = absurd (omega arith)
drop-all (suc n) (x ∷ l) h = drop-all n l (omega arith)

take-all {ℓ} : {X : Type ℓ} (n : ℕ) (l : List X) → length l ≤ n → take n l ≡ l
take-all n [] h = refl
take-all zero (x ∷ l) h = absurd (omega arith)
take-all (suc n) (x ∷ l) h = ap (λ t. x ∷ t) (take-all n l (omega arith))

length-drop {ℓ} : {X : Type ℓ} (n : ℕ) (l : List X) → length (drop n l) ≡ length l - n
length-drop n [] = omega arith
length-drop zero (x ∷ l) = omega arith
length-drop (suc n) (x ∷ l) = omega (arith, length-drop n l)

-- The cut of a window whose bounds are in order and in the list.
slice-some :
    (start end : ℕ) (rows : List ListRow)
    → start ≤ end
    → end ≤ length rows
    → length rows < int_half
    → slice (start, end) rows ≡ some (take (end - start) (drop start rows))
slice-some start end rows h k t =
    let a : le_int 0 start ≡ true = le_int-leb 0 start (omega arith) (omega arith) ∙ ground arith in
    let b : le_int start end ≡ true =
      le_int-leb start end (omega arith) (omega arith) ∙ ground arith in
    let c : le_int end (length rows) ≡ true =
      le_int-leb end (length rows) (omega arith) (omega arith) ∙ ground arith in
    rw (a, b, c) refl

-- The window that begins at an index, without wrap-around: behind the list, at its last rows, or
-- before them.
window_from-cases :
    (total start size : ℕ)
    → start + size < int_half
    → total < int_half
    → ((total ≤ start) × (window_from total start size ≡ (total, total)))
      ⊎ (((start ≤ total)
            × (total ≤ start + size)
            × (window_from total start size ≡ (start, total)))
          ⊎ ((start + size ≤ total) × (window_from total start size ≡ (start, start + size))))
unfolding add_int lt_int le_int
window_from-cases total start size k t = ground arith

slice-window_from :
    (start size : ℕ) (rows : List ListRow)
    → start + size < int_half
    → length rows < int_half
    → slice (window_from (length rows) start size) rows ≡ some (take size (drop start rows))
slice-window_from start size rows k t = elim (window_from-cases (length rows) start size k t) [
  | inl (h, e) ↦
      let none_left : length rows - length rows ≡ 0 = omega arith in
      let past : drop start rows ≡ [] = drop-all start rows h in
      let end : drop (length rows) rows ≡ [] = drop-all (length rows) rows (omega arith) in
      rw e (
        slice-some (length rows) (length rows) rows (omega arith) (omega arith) t
        ∙ rw (none_left, end, past) refl)
  | inr (inl (h, h', e)) ↦
      let rest = drop start rows in
      let n : length rest ≡ length rows - start = length-drop start rows in
      rw e (
        slice-some start (length rows) rows h (omega arith) t
        ∙ ap some (
            take-all (length rows - start) rest (omega arith)
            ∙ sym (take-all size rest (omega arith))))
  | inr (inr (h, e)) ↦
      let full : start + size - start ≡ size = omega arith in
      rw e (slice-some start (start + size) rows (omega arith) h t ∙ rw full refl)
]

window_from_negative :
    (total start size : ℕ)
    → int_half ≤ start
    → start < int_mod
    → total < int_half
    → ((window_from total start size).0 ≡ start)
      × (lt_int (window_from total start size).0 0 ≡ true)
unfolding add_int lt_int le_int
window_from_negative total start size h m t = ground arith

mul_int-lt : (a b : ℕ) → mul_int a b < int_mod
unfolding mul_int
mul_int-lt a b = omega arith

-- Where the page is at least 1 and the sums stay below 2 ^ 63, the window of a page can be cut out
-- of the rows, and the cut is the rows of this page: those behind the rows of the pages before it,
-- as many as fit on the page or as there are left.
pub slice-page_window :
    (rows : List ListRow) (page size : ℕ)
    → 1 ≤ page
    → page < int_half
    → (page - 1) * size + size < int_half
    → length rows < int_half
    → slice (page_window (length rows) page size) rows
      ≡ some (take size (drop ((page - 1) * size) rows))
unfolding page_window
slice-page_window rows page size p h k t =
    let start = (page - 1) * size in
    rw (start-eq page size p h (omega (arith, k))) (slice-window_from start size rows k t)

-- Where the product of the pages before and the size of a page wraps around to a negative number,
-- the window begins at that number, so no list can be cut there.
pub page_window_negative :
    (total page size : ℕ)
    → int_half ≤ mul_int (sub_int page 1) size
    → total < int_half
    → ((page_window total page size).0 ≡ mul_int (sub_int page 1) size)
      × (lt_int (page_window total page size).0 0 ≡ true)
unfolding page_window
page_window_negative total page size h t =
    window_from_negative total (mul_int (sub_int page 1) size) size h
      (mul_int-lt (sub_int page 1) size) t
