-- ===== src/App/Http.antt =====
-- Requests and answers (backend/internal/httpx/errors.go): a status and a code for an error, the
-- value for a success. The messages are texts for the eye and are left out.
use fast_bypass.Base.{
  ◌≡◌, refl, subst, sym, ℕ, Text, codes, text_eq, Bool, true, false, Option, none, some, List,
  if◌then◌else◌,
}
use fast_bypass.Result.{
  Exec, Result, Error, ok, err, mt_not_found, mt_profile_missing, quota_exceeded, not_owner,
  orphan_no_owner, owner_db_mismatch, invalid_cert_title, failure,
}
use fast_bypass.App.State.{App, World}
use fast_bypass.App.Cert.{Bundle}
use fast_bypass.App.Service.{VpnDetail, CreatedVpn}
use fast_bypass.Auth.{Claims, Role, TokenPair, admin, manager}
use fast_bypass.App.Dtos.{LoginResp, MeDto, QuotaDto, ManagerDto, StatsDto, VpnPage, RenewalsDto}

pub data Code : Type 0 where
  forbidden internal not_found not_owner_code validation mikrotik_unavailable : Code
  quota_exceeded_code name_taken_code orphan_no_owner_code owner_mismatch_code : Code
  ovpn_missing template_missing profile_not_found : Code
  unauthorized manager_disabled invalid_current_password : Code
  slug_overlaps_code slug_in_use username_in_use quota_below_usage not_in_scope : Code

pub data Response : Type 0 where
  error : ℕ → Code → Response
  -- 500, by the middleware that recovers from a panic
  panicked : Response
  -- 200
  detail : VpnDetail → Response
  connection : Bundle → Response
  -- a file of this name, and its text
  file : Text → Text → Response
  logged_in : LoginResp → Response
  tokens : TokenPair → Response
  me_admin : Text → Response
  me_manager : MeDto → Response
  me_quota : QuotaDto → Response
  manager_list : List ManagerDto → Response
  manager_detail : ManagerDto → Response
  stats : StatsDto → Response
  vpn_page : VpnPage → Response
  renewals : RenewalsDto → Response
  updated_count : ℕ → Response
  -- of the database and of the router
  health : Bool → Bool → Response
  -- 201
  created : CreatedVpn → Response
  created_manager : ℕ → Response
  -- 204
  no_content : Response

abbrev pub is_success : Response → Bool
is_success (error status code) = false
is_success panicked = false
is_success _ = true

abbrev pub role_claims : Role → Claims → Option Claims
role_claims admin c = none
role_claims manager c = some c

-- `!ok || c.Role != auth.RoleManager`
abbrev pub manager_claims : Option Claims → Option Claims
manager_claims none = none
manager_claims (some c) = role_claims c.role c

module _ (A : App) where
  abbrev pub Handler : Type 0
  Handler = World A → Response × World A

  abbrev pub answer : Response → Handler
  answer r w = (r, w)

  abbrev pub handled : {X : Type 0} → Result X → (Error → Response) → (X → Handler) → Handler
  handled (ok x) on_error rest = rest x
  handled (err e) on_error rest = answer (on_error e)

  -- A call, and what follows its value or its error.
  abbrev pub tried : {X : Type 0} → Exec (World A) X → (Result X → Handler) → Handler
  tried m rest w = let (r, w') = m w in rest r w'

  -- A call, what is answered to its error, and the rest of the handler.
  abbrev pub catch : {X : Type 0} → Exec (World A) X → (Error → Response) → (X → Handler) → Handler
  catch m on_error rest w = let (r, w') = m w in handled r on_error rest w'

  abbrev pub claimed : Option Claims → (Claims → Handler) → Handler
  claimed none rest = answer (error 403 forbidden)
  claimed (some c) rest = rest c

  -- The first test of the handlers for managers.
  abbrev pub for_manager : Option Claims → (Claims → Handler) → Handler
  for_manager c = claimed (manager_claims c)

  -- The first test of the handlers that any signed-in user may call.
  abbrev pub signed_in : Option Claims → (Claims → Handler) → Handler
  signed_in none rest = answer (error 401 unauthorized)
  signed_in (some c) rest = rest c

  -- A body that could be decoded.
  abbrev pub decoded : {X : Type 0} → Option X → (X → Handler) → Handler
  decoded none rest = answer (error 400 validation)
  decoded (some x) rest = rest x

  pub catch-ok :
      {X : Type 0} (m : Exec (World A) X) (f : Error → Response) (rest : X → Handler)
      (w w' : World A) (x : X)
      → m w ≡ (ok x, w')
      → catch m f rest w ≡ rest x w'
  catch-ok m f rest w w' x e = rw e refl

  pub catch-err :
      {X : Type 0} (m : Exec (World A) X) (f : Error → Response) (rest : X → Handler)
      (w w' : World A) (e : Error)
      → m w ≡ (err e, w')
      → catch m f rest w ≡ (f e, w')
  catch-err m f rest w w' e k = rw k refl

  pub for_manager-manager :
      (c : Claims) (rest : Claims → Handler) → c.role ≡ manager → for_manager (some c) rest ≡ rest c
  for_manager-manager c rest e =
      subst (λ (r : Role). claimed (role_claims r c) rest ≡ rest c) (sym e) refl

-- `writeVPNPatchError`
unfoldable pub patch_error : Error → Response
patch_error quota_exceeded = error 409 quota_exceeded_code
patch_error orphan_no_owner = error 403 orphan_no_owner_code
patch_error owner_db_mismatch = error 409 owner_mismatch_code
patch_error invalid_cert_title = error 400 validation
patch_error mt_not_found = error 503 ovpn_missing
patch_error (failure text) =
    if text_eq text (codes "invalid password")
    then error 400 validation
    else error 503 mikrotik_unavailable
patch_error e = error 503 mikrotik_unavailable

-- The errors of `assignVPNProfile`, in each handler that calls it.
unfoldable pub assign_error : Error → Response
assign_error mt_profile_missing = error 400 profile_not_found
assign_error orphan_no_owner = error 403 orphan_no_owner_code
assign_error e = error 503 mikrotik_unavailable

-- The errors of `ensureVPNMeta`: the first answer where the user is another manager's.
abbrev pub ensure_error : Response → Error → Response
ensure_error other not_owner = error 403 not_owner_code
ensure_error other e = other
