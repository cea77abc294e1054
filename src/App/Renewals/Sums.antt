-- ===== src/App/Renewals/Sums.antt =====
-- The sums of a list of renewals, by the statement of SQL and by the loop of the handler.
use fast_bypass.Base.{
  ℕ, ◌≡◌, ◌+◌, ◌<◌, ◌≤◌, refl, ap, ap₂, ◌∙◌, codes, text_eq, true, List, [], ◌∷◌, Bool-cases, inl,
  inr, add_int, add_int-add, int_half, int_mod, arith, length,
}
use fast_bypass.Result.{ok}
use fast_bypass.Store.{
  RenewalFilter, RenewalSummary, RenewalRow, RenewalSharedUsersRow, Joined, shared_rows, sum_all,
  sum_unsettled, in_scope_rows, list_renewals, renewal_rows, page_of,
  list_renewal_shared_users_in_scope,
}
use fast_bypass.Auth.Tokens.{ltb_of_lt}
use fast_bypass.App.State.{App, on_tables, World}
use fast_bypass.App.Renewals.{stored_sums, apply_renewals_live_shared_users}

unsettled_le_all : (rows : List Joined) → sum_unsettled rows ≤ sum_all rows
unsettled_le_all [] = omega arith
unsettled_le_all ((a, v) ∷ rows) = ground (arith, unsettled_le_all rows)

abbrev summary : ℕ → ℕ → RenewalSummary
summary unsettled all = record {
  unsettled_shared_users_sum = unsettled;
  all_shared_users_sum = all;
}

small : (n k : ℕ) → n + k < int_half → n < int_mod
small n k h = omega arith

-- The loop, from any sums on.
stored_sums-shared_rows :
    (u s : ℕ) (rows : List Joined)
    → u ≤ s
    → s + sum_all rows < int_half
    → stored_sums u s (shared_rows rows) ≡ record {
      unsettled_shared_users_sum = u + sum_unsettled rows;
      all_shared_users_sum = s + sum_all rows;
    }
unfolding stored_sums
stored_sums-shared_rows u s [] le h = ap₂ summary (omega arith) (omega arith)
stored_sums-shared_rows u s ((a, v) ∷ rows) le h =
    let both : add_int s a.shared_users ≡ s + a.shared_users =
      add_int-add s a.shared_users (small (s + a.shared_users) (sum_all rows) (omega (arith, h))) in
    let all_eq : s + a.shared_users + sum_all rows ≡ s + (a.shared_users + sum_all rows) =
      omega arith in
    let unsettled_eq : u + sum_unsettled rows ≡ u + (0 + sum_unsettled rows) = omega arith in
    let open_eq : u + a.shared_users + sum_unsettled rows
        ≡ u + (a.shared_users + sum_unsettled rows) =
      omega arith in
    elim (Bool-cases a.is_settled) [
      | inl e ↦
          rw (e, both)
            (stored_sums-shared_rows u (s + a.shared_users) rows (omega arith) (omega arith)
              ∙ ap₂ summary unsettled_eq all_eq)
      | inr e ↦
          let one : add_int u a.shared_users ≡ u + a.shared_users =
            add_int-add u a.shared_users
              (small (u + a.shared_users) (sum_all rows) (omega arith)) in
          rw (e, both, one)
            (stored_sums-shared_rows (u + a.shared_users) (s + a.shared_users) rows (omega arith)
                (omega arith)
              ∙ ap₂ summary open_eq all_eq)
    ]

stored_sums_lem :
    (rows : List Joined)
    → sum_all rows < int_half
    → stored_sums 0 0 (shared_rows rows) ≡ summary (sum_unsettled rows) (sum_all rows)
stored_sums_lem rows h =
    let unsettled_eq : 0 + sum_unsettled rows ≡ sum_unsettled rows = omega arith in
    let all_eq : 0 + sum_all rows ≡ sum_all rows = omega arith in
    stored_sums-shared_rows 0 0 rows (omega arith) (omega (arith, h))
    ∙ ap₂ summary unsettled_eq all_eq

settled_view :
    (A : App) (f : RenewalFilter) (items : List RenewalRow) (w : World A)
    (rows : List RenewalSharedUsersRow)
    → text_eq f.settled (codes "settled") ≡ true
    → A.store.list_renewal_shared_users_in_scope f w.db ≡ ok rows
    → apply_renewals_live_shared_users A f items w ≡ (ok (stored_sums 0 0 rows, items), w)
unfolding apply_renewals_live_shared_users
settled_view A f items w rows settled listed = rw (listed, settled) refl

-- The page with the settled renewals: its sums come from the loop over the rows of the table, its
-- items are left as they are, nothing is written, and the router is not asked. The sums are those
-- that the statement of SQL has found too.
pub settled_renewals-list_renewals :
    (A : App) (f : RenewalFilter) (items : List RenewalRow) (w : World (on_tables A))
    → text_eq f.settled (codes "settled") ≡ true
    → sum_all (in_scope_rows f w.db) < int_half
    → (out : List RenewalRow × ℕ × RenewalSummary) × (list_renewals f w.db ≡ ok out)
      × (apply_renewals_live_shared_users (on_tables A) f items w ≡ (ok (out.2, items), w))
unfolding list_renewals list_renewal_shared_users_in_scope
settled_renewals-list_renewals A f items w settled h =
    let rows = in_scope_rows f w.db in
    (
      (
        renewal_rows w.db.managers (page_of f rows),
        length rows,
        summary (sum_unsettled rows) (sum_all rows),
      ),
      rw (ltb_of_lt (sum_all rows) int_half h) refl,
      settled_view (on_tables A) f items w (shared_rows rows) settled refl
          ∙ ap (λ (x : RenewalSummary). (ok (x, items), w)) (stored_sums_lem rows h),
    )
