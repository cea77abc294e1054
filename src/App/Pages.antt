-- ===== src/App/Pages.antt =====
-- The pages of the lists (`parsePage`, `parsePageSize` and `pageWindow` of
-- backend/internal/app/renewals_handlers.go). The parsed number is what `strconv.Atoi` leaves: 0
-- for a text that is no number.
pub mod Window
use fast_bypass.Base.{ℕ, Bool, if◌then◌else◌, add_int, sub_int, mul_int, lt_int, le_int}

unfoldable pub parse_page : ℕ → ℕ
parse_page p = if lt_int p 1 then 1 else p

unfoldable pub parse_page_size : ℕ → ℕ
parse_page_size p = if lt_int p 1 then 20 else p

-- The window that begins at an index, after the assignment to `start`.
abbrev pub window_from : ℕ → ℕ → ℕ → ℕ × ℕ
window_from total start page_size =
    if le_int total start
    then (total, total)
    else (let end = add_int start page_size in
        if lt_int total end then (start, total) else (start, end))

-- The indices of the window of a page.
unfoldable pub page_window : ℕ → ℕ → ℕ → ℕ × ℕ
page_window total page page_size = window_from total (mul_int (sub_int page 1) page_size) page_size
