-- ===== src/Store/Renewals.antt =====
-- The lists of renewals (`renewalWhere`, `ListRenewals` and `ListRenewalSharedUsersInScope` of
-- backend/internal/store/store.go): a join of the activations with their users, newest first.
-- Rows of one time stay in the order of their ids.
pub mod Order
pub mod Pages
use fast_bypass.Base.{
  ℕ, ◌+◌, Text, codes, text_eq, length, take, drop, lower, is_empty, Bool, true, false, ◌&&◌, ◌||◌,
  not, Option, none, some, List, [], ◌∷◌, ◌++◌, ◌==◌, leb, ltb, lt_int, sub_int, mul_int, int_half,
  if◌then◌else◌, Dict, insert, text_key,
}
use fast_bypass.Result.{Result, ok, err, failure}
use fast_bypass.Store.Rows.{
  Manager, VpnUserMeta, ProfileActivation, RenewalFilter, RenewalSummary, RenewalRow,
  RenewalSharedUsersRow,
}
use fast_bypass.Store.Tables.{Db, select, where_rows, opt_eq, is_null, text_lt}

-- The rest of a character's bytes.
abbrev skip_char : ℕ → Text → Text
skip_char c [] = []
skip_char c (d ∷ s) = elim (leb 0xC0 c && (leb 0x80 d && ltb d 0xC0)) [
  | true ↦ skip_char c s
  | false ↦ d ∷ s
]

abbrev on_suffix : (Text → Bool) → Text → Bool
on_suffix p [] = p []
on_suffix p (c ∷ s) = p (c ∷ s) || on_suffix p s

abbrev on_char : (Text → Bool) → Text → Bool
on_char p [] = false
on_char p (d ∷ s) = p (skip_char d s)

abbrev on_byte : ℕ → (Text → Bool) → Text → Bool
on_byte c p [] = false
on_byte c p (d ∷ s) = lower c == lower d && p s

-- `s LIKE pattern`: a percent sign stands for any text, an underscore for one character, and
-- ASCII letters compare without case.
unfoldable pub like : Text → Text → Bool
like [] s = is_empty s
like (c ∷ pattern) s =
    let rest = like pattern in
    if c == b'%' then on_suffix rest s else (if c == b'_' then on_char rest s else on_byte c rest s)

abbrev like_null : Text → Option Text → Bool
like_null pattern none = false
like_null pattern (some s) = like pattern s

abbrev pub owner_matches : RenewalFilter → VpnUserMeta → Bool
owner_matches f v =
    if f.orphan_only
    then is_null v.manager_id
    else elim f.manager_id [ none ↦ true | some id ↦ opt_eq v.manager_id id ]

abbrev pub settled_matches : Text → Bool → Bool
settled_matches settled is_settled =
    if text_eq settled (codes "settled")
    then is_settled
    else (if text_eq settled (codes "all") then true else not is_settled)

abbrev pub query_matches : Text → VpnUserMeta → Bool
query_matches q v =
    let pattern = codes "%" ++ (q ++ codes "%") in
    is_empty q || (like pattern v.mikrotik_name || like_null pattern v.contact_info)

-- The condition on a row of the join.
unfoldable pub renewal_where : RenewalFilter → ProfileActivation → VpnUserMeta → Bool
unfolding like
renewal_where f a v =
    owner_matches f v
    && (settled_matches f.settled a.is_settled
        && ((is_empty f.from || not (text_lt a.created_at f.from))
            && ((is_empty f.to || not (text_lt f.to a.created_at)) && query_matches f.query v)))

abbrev pub Joined : Type 0
Joined = ProfileActivation × VpnUserMeta

abbrev pub joined : ProfileActivation → Result VpnUserMeta → List Joined
joined a (ok v) = (a, v) ∷ []
joined a (err e) = []

-- `profile_activations pa JOIN vpn_user_meta v ON v.id = pa.vpn_user_meta_id`
abbrev pub join : List VpnUserMeta → List ProfileActivation → List Joined
join metas [] = []
join metas (a ∷ rows) =
    joined a (select (λ (v : VpnUserMeta). v.id == a.vpn_user_meta_id) metas) ++ join metas rows

-- `ORDER BY pa.created_at DESC`
abbrev pub place : Joined → List Joined → List Joined
place r [] = r ∷ []
place r (s ∷ rows) =
    let later = place r rows in
    if text_lt (r.0).created_at (s.0).created_at then s ∷ later else r ∷ (s ∷ rows)

abbrev pub newest_first : List Joined → List Joined
newest_first [] = []
newest_first (r ∷ rows) = place r (newest_first rows)

abbrev pub matching_rows : RenewalFilter → Db → List Joined
matching_rows f d =
    where_rows (λ (r : Joined). renewal_where f r.0 r.1)
      (join d.vpn_user_meta d.profile_activations)

-- The rows of a filter, on all pages.
unfoldable pub in_scope_rows : RenewalFilter → Db → List Joined
unfolding renewal_where
in_scope_rows f d = newest_first (matching_rows f d)

abbrev pub shared_rows : List Joined → List RenewalSharedUsersRow
shared_rows [] = []
shared_rows ((a, v) ∷ rows) =
    record {
      id = a.id;
      mikrotik_name = v.mikrotik_name;
      shared_users = a.shared_users;
      is_settled = a.is_settled;
    }
    ∷ shared_rows rows

unfoldable pub list_renewal_shared_users_in_scope :
    RenewalFilter → Db → Result (List RenewalSharedUsersRow)
unfolding in_scope_rows
list_renewal_shared_users_in_scope f d = ok (shared_rows (in_scope_rows f d))

-- `SUM(pa.shared_users)`, over all rows or over those that are not settled.
abbrev pub sum_all : List Joined → ℕ
sum_all [] = 0
sum_all ((a, v) ∷ rows) = a.shared_users + sum_all rows

abbrev pub sum_unsettled : List Joined → ℕ
sum_unsettled [] = 0
sum_unsettled ((a, v) ∷ rows) = (if a.is_settled then 0 else a.shared_users) + sum_unsettled rows

abbrev display_name_of : Option ℕ → List Manager → Option Text
display_name_of none managers = none
display_name_of (some id) managers = elim (select (λ (m : Manager). m.id == id) managers) [
  | ok m ↦ some m.display_name
  | err e ↦ none
]

abbrev pub renewal_rows : List Manager → List Joined → List RenewalRow
renewal_rows managers [] = []
renewal_rows managers ((a, v) ∷ rows) =
    record {
      id = a.id;
      renewed_at = a.created_at;
      mikrotik_name = v.mikrotik_name;
      manager_id = v.manager_id;
      manager_display_name = display_name_of v.manager_id managers;
      shared_users = a.shared_users;
      profile_name = a.profile_name;
      profile_state = [];
      mikrotik_end_time = a.mikrotik_end_time;
      is_settled = a.is_settled;
      amount_paid = a.amount_paid;
      currency = a.currency;
    }
    ∷ renewal_rows managers rows

-- A negative offset is none.
abbrev pub offset : ℕ → ℕ
offset n = if lt_int n 0 then 0 else n

-- `LIMIT size OFFSET (page-1)*size`
abbrev pub page_of : RenewalFilter → List Joined → List Joined
page_of f rows =
    let page = if lt_int f.page 1 then 1 else f.page in
    let size = if lt_int f.page_size 1 then 20 else f.page_size in
    take size (drop (offset (mul_int (sub_int page 1) size)) rows)

-- The rows of the page, the number of rows on all pages, and the sums. A sum beyond 64 bits is an
-- error of SQLite.
unfoldable pub list_renewals : RenewalFilter → Db → Result (List RenewalRow × ℕ × RenewalSummary)
unfolding in_scope_rows
list_renewals f d =
    let rows = in_scope_rows f d in
    if ltb (sum_all rows) int_half
    then ok (
      renewal_rows d.managers (page_of f rows),
      length rows,
      record {
        unsettled_shared_users_sum = sum_unsettled rows;
        all_shared_users_sum = sum_all rows;
      },
    )
    else err (failure (codes "integer overflow"))
