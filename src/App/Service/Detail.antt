-- ===== src/App/Service/Detail.antt =====
-- The used quota, the detail of a user, passwords and activations (backend/internal/app/vpn_service.go).
use fast_bypass.Base.{
  ℕ, Text, codes, trim_space, is_empty, Bool, false, Option, none, some, List, [], ◌∷◌, ◌==◌,
  if◌then◌else◌,
}
use fast_bypass.Result.{Exec, Result, ok, err, failure, pure, raise, attempt, ◌>>=◌}
use fast_bypass.Password.{generate_vpn, valid_vpn}
use fast_bypass.Mikrotik.{UserProfile}
use fast_bypass.Store.{Manager, VpnUserMeta}
use fast_bypass.Owner.{Registry, resolve, owner_mismatch}
use fast_bypass.Quota.{used_for_manager, profile_active}
use fast_bypass.App.State.{App, World, query, on_db, on_router, on_random, registry}
use fast_bypass.App.Cert.{connection_bundle_for}
use fast_bypass.App.Sync.{activation_dtos_with_live_shared}
use fast_bypass.App.Service.Requests.{
  profile_dtos, OwnerInfo, VpnDetail, or_else, or_nil, non_empty,
}

module _ (A : App) where
  unfoldable pub manager_used_quota : ℕ → Exec (World A) ℕ
  unfolding registry
  manager_used_quota manager_id = do
    reg ← registry A
    users ← on_router A A.mt.list_users
    used_for_manager A.times reg (λ user. on_router A (A.mt.list_user_profiles user)) A.now
        manager_id users

  abbrev pub owner_of : Result Manager → Registry → Text → Text → ℕ → Option OwnerInfo × Bool
  owner_of (err e) reg name comment id = (none, false)
  owner_of (ok m) reg name comment id = (
    some (record {
      manager_id = m.id;
      display_name = m.display_name;
      username = m.username;
      slug = m.slug;
    }),
    owner_mismatch reg name comment id,
  )

  unfoldable pub enrich_owner : Registry → Text → Text → Exec (World A) (Option OwnerInfo × Bool)
  enrich_owner reg name comment =
      let id = resolve reg name comment in
      if id == 0 then pure (none, owner_mismatch reg name comment 0) else (do
        m ← attempt (query A (A.store.find_manager_by_id id))
        pure (owner_of m reg name comment id))

  unfoldable pub build_vpn_detail : Registry → VpnUserMeta → Bool → Exec (World A) VpnDetail
  unfolding enrich_owner connection_bundle_for activation_dtos_with_live_shared profile_dtos
  build_vpn_detail reg meta include_comment = do
    u ← on_router A (A.mt.get_user meta.mikrotik_name)
    profs ← on_router A (A.mt.list_user_profiles meta.mikrotik_name)
    acts ← attempt (query A (A.store.list_activations_by_meta_id meta.id))
    owner ← enrich_owner reg u.name u.comment
    activations ← activation_dtos_with_live_shared A (or_nil acts) u.name
    bundle ← connection_bundle_for A meta u
    pure (record {
      id = some meta.id;
      mikrotik_name = u.name;
      shared_users = u.shared_users;
      disabled = u.disabled;
      contact_info = meta.contact_info;
      notes = meta.notes;
      profiles = profile_dtos profs;
      activations = activations;
      owner = owner.0;
      owner_mismatch = owner.1;
      mikrotik_comment = if include_comment then some u.comment else none;
      cert_title = if include_comment then meta.cert_title else none;
      connection_bundle = bundle;
    })

  abbrev pub checked_password : Text → Exec (World A) Text
  checked_password pw =
      if is_empty pw
      then on_random A generate_vpn
      else (if valid_vpn pw then pure pw else raise (failure (codes "invalid password")))

  unfoldable pub resolve_vpn_password : Text → Exec (World A) Text
  resolve_vpn_password pw = checked_password (trim_space pw)

  -- The end of the first active row, or "".
  unfoldable pub active_end : List UserProfile → Text
  active_end [] = []
  active_end (p ∷ ps) = if profile_active A.times p A.now then p.end_time else active_end ps

  unfoldable pub record_activation :
      ℕ → Text → ℕ → Option Text → Option Text → Option Text → List UserProfile → Exec (World A) ℕ
  unfolding active_end
  record_activation meta_id profile shared amount currency note profs = on_db A (
      A.store.create_activation (record {
        id = 0;
        vpn_user_meta_id = meta_id;
        profile_name = profile;
        shared_users = shared;
        amount_paid = amount;
        currency = or_else currency (codes "IRR");
        paid_at = none;
        note = note;
        mikrotik_end_time = non_empty (some (active_end profs));
        is_settled = false;
        settled_at = none;
        settled_by_admin_id = none;
        created_at = [];
      }))
