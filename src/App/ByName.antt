-- ===== src/App/ByName.antt =====
-- The services that start from a user's name (backend/internal/app/vpn_by_name.go).
use fast_bypass.Base.{ℕ, Text, Bool, not, Option, none, some, [], ◌==◌, if◌then◌else◌}
use fast_bypass.Result.{
  Exec, Result, ⊤, Error, ok, err, no_rows, not_owner, pure, raise, raise_if, attempt, ◌>>=◌, ◌>>◌,
}
use fast_bypass.Mikrotik.{User}
use fast_bypass.Store.{VpnUserMeta}
use fast_bypass.Owner.{Registry, resolve}
use fast_bypass.Auth.{Claims}
use fast_bypass.App.State.{App, World, query, on_db, on_router}
use fast_bypass.App.Cert.{new_meta, owner_column, connection_bundle_for_owner}
use fast_bypass.App.Service.{
  VpnDetail, OwnerInfo, profile_dtos, enrich_owner, build_vpn_detail, delete_vpn_user,
}

abbrev pub id_of : Option OwnerInfo → ℕ
id_of none = 0
id_of (some o) = o.manager_id

module _ (A : App) where
  -- `assertManagerOwner`
  unfoldable pub assert_manager_owner : Registry → Claims → Text → Text → Exec (World A) ⊤
  assert_manager_owner reg c name comment =
      raise_if (not (resolve reg name comment == c.manager_id)) not_owner

  -- The detail of a user without a row.
  abbrev pub router_detail : Registry → Text → Bool → Exec (World A) VpnDetail
  router_detail reg name include_comment = do
    u ← on_router A (A.mt.get_user name)
    profs ← on_router A (A.mt.list_user_profiles name)
    owner ← enrich_owner A reg u.name u.comment
    bundle ← connection_bundle_for_owner A name (id_of owner.0) u
    pure (record {
      id = none;
      mikrotik_name = u.name;
      shared_users = u.shared_users;
      disabled = u.disabled;
      contact_info = none;
      notes = none;
      profiles = profile_dtos profs;
      activations = [];
      owner = owner.0;
      owner_mismatch = owner.1;
      mikrotik_comment = if include_comment then some u.comment else none;
      cert_title = none;
      connection_bundle = bundle;
    })

  abbrev pub detail_of : Result VpnUserMeta → Registry → Text → Bool → Exec (World A) VpnDetail
  detail_of (ok meta) reg name include_comment = build_vpn_detail A reg meta include_comment
  detail_of (err no_rows) reg name include_comment = router_detail reg name include_comment
  detail_of (err e) reg name include_comment = raise e

  unfoldable pub build_vpn_detail_by_name : Registry → Text → Bool → Exec (World A) VpnDetail
  unfolding build_vpn_detail enrich_owner profile_dtos connection_bundle_for_owner
  build_vpn_detail_by_name reg name include_comment = do
    found ← attempt (query A (A.store.find_vpn_meta_by_name name))
    detail_of found reg name include_comment

  abbrev pub assert_if : Option Claims → Registry → User → Exec (World A) ⊤
  assert_if none reg u = pure tt
  assert_if (some c) reg u = assert_manager_owner reg c u.name u.comment

  -- After a failed insertion the row is looked for once more.
  abbrev pub found_again : Result VpnUserMeta → Error → Exec (World A) VpnUserMeta
  found_again (ok meta) e = pure meta
  found_again (err _) e = raise e

  abbrev pub inserted : Result ℕ → VpnUserMeta → Exec (World A) VpnUserMeta
  inserted (ok id) meta = pure (record meta { id = id })
  inserted (err e) meta = do
    again ← attempt (query A (A.store.find_vpn_meta_by_name meta.mikrotik_name))
    found_again again e

  -- The part of `ensureVPNMeta` for a name without a row.
  abbrev pub add_meta : Registry → Text → Option Claims → Exec (World A) VpnUserMeta
  add_meta reg name mgr = do
    u ← on_router A (A.mt.get_user name)
    assert_if mgr reg u
    let meta = new_meta name (owner_column (resolve reg u.name u.comment))
    id ← attempt (on_db A (A.store.create_vpn_meta meta))
    inserted id meta

  abbrev pub ensured :
      Result VpnUserMeta → Registry → Text → Option Claims → Exec (World A) VpnUserMeta
  ensured (ok meta) reg name mgr = pure meta
  ensured (err no_rows) reg name mgr = add_meta reg name mgr
  ensured (err e) reg name mgr = raise e

  unfoldable pub ensure_vpn_meta : Registry → Text → Option Claims → Exec (World A) VpnUserMeta
  unfolding assert_manager_owner
  ensure_vpn_meta reg name mgr = do
    found ← attempt (query A (A.store.find_vpn_meta_by_name name))
    ensured found reg name mgr

  abbrev pub deleted : Result VpnUserMeta → Text → Exec (World A) ⊤
  deleted (ok meta) name = delete_vpn_user A meta
  deleted (err no_rows) name = on_router A (A.mt.remove_user name)
  deleted (err e) name = raise e

  unfoldable pub delete_vpn_by_name : Text → Exec (World A) ⊤
  unfolding delete_vpn_user
  delete_vpn_by_name name = do
    found ← attempt (query A (A.store.find_vpn_meta_by_name name))
    deleted found name
