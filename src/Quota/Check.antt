-- ===== src/Quota/Check.antt =====
-- The two quota tests, with the wrap-around of Go's int.
use fast_bypass.Base.{
  ℕ, ◌+◌, ◌-◌, ◌≤◌, ◌<◌, ◌≡◌, ◌↔◌, true, arith, int_half, add_int, sub_int, le_int,
}
use fast_bypass.Quota.{check_add, check_increase}

-- Where used and new connections together stay below 2 ^ 63, as does the quota, an addition is
-- let through exactly when the sum is within the quota.
pub check_add_iff :
    (used quota new_shared : ℕ)
    → used + new_shared < int_half
    → quota < int_half
    → (check_add used quota new_shared ≡ true) ↔ (used + new_shared ≤ quota)
unfolding check_add add_int le_int
check_add_iff used quota new_shared h k = (λ e. ground arith, λ e. ground arith)

-- Where the user's old connections are among the used ones and the sums stay below 2 ^ 63, an
-- increase is let through exactly when the used connections, with the old ones exchanged for the
-- new ones, are within the quota.
pub check_increase_iff :
    (used quota old_shared new_shared : ℕ)
    → old_shared ≤ used
    → used - old_shared + new_shared < int_half
    → used < int_half
    → quota < int_half
    → (check_increase used quota old_shared new_shared ≡ true)
      ↔ (used - old_shared + new_shared ≤ quota)
unfolding check_increase add_int sub_int le_int
check_increase_iff used quota old_shared new_shared o h u k = (λ e. ground arith, λ e. ground arith)

-- The sum wraps around: every request of fewer than 2 ^ 63 connections that takes the sum to
-- 2 ^ 63 or beyond is let through, whatever the quota.
pub check_increase_wraps :
    (used quota old_shared new_shared : ℕ)
    → old_shared ≤ used
    → used < int_half
    → new_shared < int_half
    → int_half ≤ used - old_shared + new_shared
    → quota < int_half
    → check_increase used quota old_shared new_shared ≡ true
unfolding check_increase add_int sub_int le_int
check_increase_wraps used quota old_shared new_shared o u n h k = ground arith
