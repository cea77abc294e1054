-- ===== src/Store/Renewals/Pages.antt =====
-- The pages of a list of renewals, put together.
use fast_bypass.Base.{
  ℕ, suc, ◌≡◌, ◌+◌, ◌*◌, ◌-◌, ◌%◌, true, false, ◌<◌, ◌≤◌, refl, sym, ap, ap₂, ◌∙◌, take, drop, List,
  [], ◌∷◌, ◌++◌, lt_int, lt_int-ltb, sub_int, mul_int, int_half, int_mod, arith, ltb,
}
use fast_bypass.Result.{Result, ok, err}
use fast_bypass.Store.Rows.{RenewalFilter, RenewalSummary, RenewalRow, Manager}
use fast_bypass.Store.Tables.{Db}
use fast_bypass.Store.Renewals.Order.{IsReordered, IsDescending, newest_first-IsDescending}
use fast_bypass.Store.Renewals.{
  Joined, matching_rows, in_scope_rows, list_renewals, renewal_rows, page_of, sum_all,
}

take-drop : (n k : ℕ) (l : List Joined) → take n l ++ take k (drop n l) ≡ take (n + k) l
take-drop n k [] = refl
take-drop ℕ.zero k (x ∷ l) = let e : 0 + k ≡ k = omega arith in rw e refl
take-drop (suc n) k (x ∷ l) =
    let e : suc n + k ≡ suc (n + k) = omega arith in rw e (ap (λ t. x ∷ t) (take-drop n k l))

renewal_rows-append :
    (ms : List Manager) (k l : List Joined)
    → renewal_rows ms (k ++ l) ≡ renewal_rows ms k ++ renewal_rows ms l
renewal_rows-append ms [] l = refl
renewal_rows-append ms ((a, v) ∷ k) l = rw (renewal_rows-append ms k l) refl

abbrev sized_page : RenewalFilter → ℕ → ℕ → RenewalFilter
sized_page f size page = record f { page = page; page_size = size }

below : (n size : ℕ) → 1 ≤ size → n * size < int_half → n < int_half
below n size one h = grind arith

below' : (n size : ℕ) → (n + 1) * size < int_half → size < int_half
below' n size h = grind arith

smaller : (n size : ℕ) → (n + 1) * size < int_half → n * size < int_half
smaller n size h = grind arith

start_eq :
    (n size : ℕ)
    → n + 1 < int_half
    → n * size < int_half
    → mul_int (sub_int (n + 1) 1) size ≡ n * size
unfolding mul_int sub_int
start_eq n size p k =
    let before : (n + 1 + int_mod - 1) % int_mod ≡ n = omega (arith, p) in
    rw before (omega (arith, k))

-- What is shown of a page.
page_of-sized :
    (f : RenewalFilter) (size n : ℕ) (rows : List Joined)
    → 1 ≤ size
    → (n + 1) * size < int_half
    → page_of (sized_page f size (n + 1)) rows ≡ take size (drop (n * size) rows)
page_of-sized f size n rows one h =
    let p : n + 1 < int_half = below (n + 1) size one h in
    let first : lt_int (n + 1) 1 ≡ false = lt_int-ltb (n + 1) 1 p (omega arith) ∙ ground arith in
    let s : size < int_half = below' n size h in
    let some_size : lt_int size 1 ≡ false = lt_int-ltb size 1 s (omega arith) ∙ ground arith in
    let start : mul_int (sub_int (n + 1) 1) size ≡ n * size =
      start_eq n size p (smaller n size h) in
    let inside : lt_int (n * size) 0 ≡ false =
      lt_int-ltb (n * size) 0 (smaller n size h) (omega arith) ∙ ground arith in
    rw (first, some_size, start, inside) refl

abbrev pub items_of : Result (List RenewalRow × ℕ × RenewalSummary) → List RenewalRow
items_of (ok (items, _, _)) = items
items_of (err e) = []

-- The items of the first n pages of a size, one after the other.
abbrev pub first_pages : RenewalFilter → ℕ → Db → ℕ → List RenewalRow
first_pages f size d ℕ.zero = []
first_pages f size d (suc n) =
    first_pages f size d n ++ items_of (list_renewals (sized_page f size (n + 1)) d)

items_of-list_renewals :
    (f : RenewalFilter) (d : Db)
    → sum_all (in_scope_rows f d) < int_half
    → items_of (list_renewals f d) ≡ renewal_rows d.managers (page_of f (in_scope_rows f d))
unfolding list_renewals
items_of-list_renewals f d h =
    let e : ltb (sum_all (in_scope_rows f d)) int_half ≡ true = ground (arith, h) in rw e refl

take_none : (l : List Joined) → take 0 l ≡ []
take_none [] = refl
take_none (x ∷ l) = refl

first_pages-in_scope_rows :
    (f : RenewalFilter) (size : ℕ) (d : Db) (n : ℕ)
    → sum_all (in_scope_rows f d) < int_half
    → 1 ≤ size
    → n * size < int_half
    → first_pages f size d n ≡ renewal_rows d.managers (take (n * size) (in_scope_rows f d))
unfolding in_scope_rows
first_pages-in_scope_rows f size d ℕ.zero h one k =
    let e : 0 * size ≡ 0 = omega arith in
    rw e (ap (renewal_rows d.managers) (sym (take_none (in_scope_rows f d))))
first_pages-in_scope_rows f size d (suc n) h one k =
    let rows = in_scope_rows f d in
    let k' : (n + 1) * size < int_half = grind arith in
    let e : n * size + size ≡ suc n * size = grind arith in
    ap₂ (λ s t. s ++ t) (first_pages-in_scope_rows f size d n h one (smaller n size k'))
      (items_of-list_renewals (sized_page f size (n + 1)) d h
        ∙ ap (renewal_rows d.managers) (page_of-sized f size n rows one k'))
    ∙ sym (renewal_rows-append d.managers (take (n * size) rows) (take size (drop (n * size) rows)))
    ∙ ap (renewal_rows d.managers) (take-drop (n * size) size rows)
    ∙ ap (λ m. renewal_rows d.managers (take m rows)) e

-- Where no two of the renewals that the filter matches are of one time, the pages of one size,
-- from the first on and in this order, are these renewals with the newest first, each once, as
-- many of them as fit on so many pages. The sum of their connections and the number of the places
-- on the pages are below 2^63.
pub first_pages_lem :
    (f : RenewalFilter) (size : ℕ) (d : Db) (n : ℕ) (rows : List Joined)
    → IsReordered (matching_rows f d) rows
    → IsDescending rows
    → sum_all rows < int_half
    → 1 ≤ size
    → n * size < int_half
    → first_pages f size d n ≡ renewal_rows d.managers (take (n * size) rows)
unfolding in_scope_rows
first_pages_lem f size d n rows order down h one k =
    let same : in_scope_rows f d ≡ rows =
      newest_first-IsDescending (matching_rows f d) rows order down in
    first_pages-in_scope_rows f size d n (rw same h) one k
    ∙ ap (λ l. renewal_rows d.managers (take (n * size) l)) same
