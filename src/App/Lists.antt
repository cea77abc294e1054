-- ===== src/App/Lists.antt =====
-- The lists of VPN users (`listUsers` of backend/internal/app/vpn_service.go, and the loops of
-- `HandleListVPNUsers` in vpn_handlers.go and `HandleAdminListVPNUsers` in admin_handlers.go).
use fast_bypass.Base.{
  ℕ, Text, contains, to_lower, trim_space, is_empty, length, take, drop, Bool, true, false, ◌&&◌,
  ◌||◌, not, Option, none, some, List, [], ◌∷◌, ◌-◌, ◌==◌, le_int, if◌then◌else◌, Dict, lookup,
  text_key,
}
use fast_bypass.Result.{Exec, pure, attempt, ◌>>=◌}
use fast_bypass.Owner.{Registry, resolve}
use fast_bypass.Quota.{user_has_active_profile}
use fast_bypass.Mikrotik.{User, UserProfile}
use fast_bypass.Store.{VpnUserMeta}
use fast_bypass.App.State.{App, World, on_router}
use fast_bypass.App.Service.{OwnerInfo, profile_dtos, enrich_owner, or_nil}
use fast_bypass.App.Dtos.{VpnItem}
use fast_bypass.App.Http.{Response, panicked, vpn_page}

-- The parameters of the URL; a number is what `strconv` leaves of its text.
pub record ListQuery : Type 0 where
  pub refresh : Bool
  pub active_only : Bool
  pub q : Text
  pub page : ℕ
  pub page_size : ℕ
  pub manager_id : Option ℕ
  pub orphan : Bool

-- A row that has passed the filters.
pub record ListRow : Type 0 where
  pub user : User
  pub owner : Option OwnerInfo × Bool
  pub profiles : List UserProfile

abbrev pub search_text : ListQuery → Text
search_text lq = to_lower (trim_space lq.q)

abbrev pub name_matches : Text → User → Bool
name_matches q u = is_empty q || contains (to_lower u.name) q

-- The tests of the managers' loop that read the user alone.
abbrev pub own_row : Registry → ℕ → ListQuery → User → Bool
own_row reg manager_id lq u =
    resolve reg u.name u.comment == manager_id
    && (not (lq.active_only && u.disabled) && name_matches (search_text lq) u)

abbrev pub of_owner : Option ℕ → ℕ → Bool
of_owner none owner = true
of_owner (some id) owner = owner == id

-- The tests of the admins' loop.
abbrev pub admin_row : Registry → ListQuery → User → Bool
admin_row reg lq u =
    let owner = resolve reg u.name u.comment in
    not (lq.orphan && not (owner == 0))
    && (of_owner lq.manager_id owner
        && (not (lq.active_only && u.disabled)
            && (name_matches (search_text lq) u || contains (to_lower u.comment) (search_text lq))))

abbrev pub names : List ListRow → List Text
names [] = []
names (r ∷ rows) = r.user.name ∷ names rows

abbrev pub id_in : Dict Text VpnUserMeta → Text → Option ℕ
id_in metas name = elim (lookup name metas) [ some m ↦ some m.id | none ↦ none ]

abbrev pub item : Dict Text VpnUserMeta → Bool → ListRow → VpnItem
item metas for_admin r = record {
  id = id_in metas r.user.name;
  mikrotik_name = r.user.name;
  shared_users = r.user.shared_users;
  disabled = r.user.disabled;
  profiles = profile_dtos r.profiles;
  mikrotik_comment = if for_admin then some r.user.comment else none;
  owner = r.owner.0;
  owner_mismatch = r.owner.1;
}

abbrev pub items : Dict Text VpnUserMeta → Bool → List ListRow → List VpnItem
items metas for_admin [] = []
items metas for_admin (r ∷ rows) = item metas for_admin r ∷ items metas for_admin rows

-- `rows[start:end]`, which panics outside 0 ≤ start ≤ end ≤ len.
abbrev pub slice : ℕ × ℕ → List ListRow → Option (List ListRow)
slice (start, end) rows =
    if le_int 0 start && (le_int start end && le_int end (length rows))
    then some (take (end - start) (drop start rows))
    else none

abbrev pub vpn_page_of : Dict Text VpnUserMeta → Bool → ℕ → ℕ → ℕ → Option (List ListRow) → Response
vpn_page_of metas for_admin page page_size total none = panicked
vpn_page_of metas for_admin page page_size total (some rows) = vpn_page (record {
  items = items metas for_admin rows;
  page = page;
  page_size = page_size;
  total = total;
})

module _ (A : App) where
  unfoldable pub list_users : Bool → Exec (World A) (List User)
  list_users refresh =
      if refresh then on_router A A.refresh_list_users else on_router A A.mt.list_users

  abbrev pub profiles_of : User → Exec (World A) (List UserProfile)
  profiles_of u = attempt (on_router A (A.mt.list_user_profiles u.name)) >>= λ r. pure (or_nil r)

  -- The loop of `HandleListVPNUsers`.
  unfoldable pub manager_rows : Registry → ℕ → ListQuery → List User → Exec (World A) (List ListRow)
  unfolding user_has_active_profile
  manager_rows reg manager_id lq [] = pure []
  manager_rows reg manager_id lq (u ∷ us) =
      let rest = manager_rows reg manager_id lq us in
      if own_row reg manager_id lq u
      then (profiles_of u >>= λ profs.
          if lq.active_only && not (user_has_active_profile A.times profs A.now)
          then rest
          else (rest >>= λ rows.
              pure (record { user = u; owner = (none, false); profiles = profs } ∷ rows)))
      else rest

  -- The loop of `HandleAdminListVPNUsers`.
  unfoldable pub admin_rows : Registry → ListQuery → List User → Exec (World A) (List ListRow)
  unfolding enrich_owner
  admin_rows reg lq [] = pure []
  admin_rows reg lq (u ∷ us) =
      let rest = admin_rows reg lq us in
      if admin_row reg lq u
      then (enrich_owner A reg u.name u.comment >>= λ owner. profiles_of u >>= λ profs.
          rest >>= λ rows. pure (record { user = u; owner = owner; profiles = profs } ∷ rows))
      else rest
