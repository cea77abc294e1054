-- ===== src/App/Service/Requests.antt =====
-- The bodies of requests and answers (backend/internal/app/vpn_service.go).
use fast_bypass.Base.{
  ℕ, Text, is_empty, Bool, false, Option, none, some, List, [], ◌∷◌, if◌then◌else◌,
}
use fast_bypass.Result.{Exec, Result, Error, ok, err, mt_name_taken, name_taken}
use fast_bypass.Mikrotik.{UserProfile}
use fast_bypass.App.Cert.{Bundle}
use fast_bypass.App.Sync.{ActivationDto}

pub record CreateVpnReq : Type 0 where
  pub local_name : Text
  pub password : Text
  pub shared_users : ℕ
  pub disabled : Option Bool
  pub contact_info : Option Text
  pub notes : Option Text
  pub assign_profile : Option Bool
  pub profile_name : Option Text
  pub amount_paid : Option Text
  pub currency : Option Text
  pub note : Option Text
  pub cert_title : Option Text

pub record PatchVpnReq : Type 0 where
  pub password : Option Text
  pub shared_users : Option ℕ
  pub disabled : Option Bool
  pub contact_info : Option Text
  pub notes : Option Text

-- `adminPatchVPNReq` adds a manager and a title to `patchVPNReq`.
pub record AdminPatchVpnReq : Type 0 where
  pub patch : PatchVpnReq
  pub manager_id : Option ℕ
  pub cert_title : Option Text

pub record AssignProfileReq : Type 0 where
  pub profile_name : Text
  pub amount_paid : Option Text
  pub currency : Option Text
  pub paid_at : Option Text
  pub note : Option Text

pub record ProfileDto : Type 0 where
  pub id : Text
  pub profile : Text
  pub state : Text
  pub end_time : Text

unfoldable pub profile_dtos : List UserProfile → List ProfileDto
profile_dtos [] = []
profile_dtos (p ∷ ps) =
    record { id = p.id; profile = p.profile; state = p.state; end_time = p.end_time }
    ∷ profile_dtos ps

pub record OwnerInfo : Type 0 where
  pub manager_id : ℕ
  pub display_name : Text
  pub username : Text
  pub slug : Text

-- The answer of the services that show a user; `comment` and `cert_title` are there for admins.
pub record VpnDetail : Type 0 where
  pub id : Option ℕ
  pub mikrotik_name : Text
  pub shared_users : ℕ
  pub disabled : Bool
  pub contact_info : Option Text
  pub notes : Option Text
  pub profiles : List ProfileDto
  pub activations : List ActivationDto
  pub owner : Option OwnerInfo
  pub owner_mismatch : Bool
  pub mikrotik_comment : Option Text
  pub cert_title : Option Text
  pub connection_bundle : Bundle

pub record CreatedVpn : Type 0 where
  pub id : ℕ
  pub mikrotik_name : Text
  pub shared_users : ℕ
  pub disabled : Bool
  pub profiles : List ProfileDto

abbrev pub or_else {ℓ} : {X : Type ℓ} → Option X → X → X
or_else none x = x
or_else (some y) x = y

-- A slice whose error is dropped is nil.
abbrev pub or_nil : {X : Type 0} → Result (List X) → List X
or_nil (ok xs) = xs
or_nil (err e) = []

-- A text from a request, where it is there and not "".
abbrev pub non_empty : Option Text → Option Text
non_empty none = none
non_empty (some s) = if is_empty s then none else some s

-- `vpnUserDisabled`
abbrev pub vpn_user_disabled : Option Bool → Bool
vpn_user_disabled p = or_else p false

-- `errors.Is(err, mikrotik.ErrNameTaken)` becomes `errNameTaken`.
abbrev pub name_error : Error → Error
name_error mt_name_taken = name_taken
name_error e = e

abbrev pub map_error : {S X : Type 0} → (Error → Error) → Exec S X → Exec S X
map_error f m s = let (r, s') = m s in elim r [ ok x ↦ (ok x, s') | err e ↦ (err (f e), s') ]
