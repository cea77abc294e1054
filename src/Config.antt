-- ===== src/Config.antt =====
-- The configuration from the environment (backend/internal/config/config.go). The environment, as
-- it is once the file .env is read, is a parameter, and so is time.ParseDuration; durations are in
-- nanoseconds.
use fast_bypass.Base.{
  ℕ, ◌+◌, ◌*◌, ◌-◌, ◌≡◌, refl, Text, codes, text_eq, is_empty, to_lower, take, drop, has_prefix,
  trim_space, Bool, true, false, ◌||◌, ◌&&◌, Option, none, some, List, [], ◌∷◌, ◌⊎◌, inl, inr, ◌==◌,
  leb, ltb, int_half, sub_int, if◌then◌else◌,
}

pub record Config : Type 0 where
  pub http_addr : Text
  pub cors_origins : List Text
  pub sqlite_path : Text
  pub tz : Text
  pub mikrotik_cache_ttl : ℕ
  pub mikrotik_fake : Bool
  pub mikrotik_host : Text
  pub mikrotik_port : ℕ
  pub mikrotik_user : Text
  pub mikrotik_pass : Text
  pub mikrotik_api : Text
  pub mikrotik_use_tls : Bool
  pub mikrotik_tls_insec : Bool
  pub mikrotik_timeout : ℕ
  pub mikrotik_cert_script : Text
  pub jwt_secret : Text
  pub jwt_access_ttl : ℕ
  pub jwt_refresh_ttl : ℕ
  pub admin_username : Text
  pub admin_password : Text
  pub default_profile : Text
  pub username_prefix_sep : Text
  pub username_local_max_len : ℕ
  pub shared_users_max : ℕ
  pub openvpn_download_url : Text
  pub openvpn_key_password : Text
  pub l2tp_ipsec_secret : Text
  pub l2tp_server : Text
  pub openvpn_template_path : Text

-- `strings.Split`, at a byte.
abbrev prefix_first : ℕ → List Text → List Text
prefix_first c [] = (c ∷ []) ∷ []
prefix_first c (s ∷ ss) = (c ∷ s) ∷ ss

abbrev split : ℕ → Text → List Text
split sep [] = [] ∷ []
split sep (c ∷ s) = let rest = split sep s in if c == sep then [] ∷ rest else prefix_first c rest

-- The number that decimal digits write, behind the number that the digits before them write.
abbrev digits_from : ℕ → Text → Option ℕ
digits_from n [] = some n
digits_from n (c ∷ s) =
    let rest = digits_from (n * 10 + (c - b'0')) s in
    if leb b'0' c && leb c b'9' then rest else none

abbrev digits : Text → Option ℕ
digits [] = none
digits (c ∷ s) = digits_from 0 (c ∷ s)

-- What a sign does; a number that no int holds is an error.
abbrev positive_int : Option ℕ → Option ℕ
positive_int none = none
positive_int (some n) = if ltb n int_half then some n else none

abbrev negative_int : Option ℕ → Option ℕ
negative_int none = none
negative_int (some n) = if leb n int_half then some (sub_int 0 n) else none

-- `strconv.Atoi`
unfoldable pub atoi : Text → Option ℕ
unfolding sub_int
atoi [] = none
atoi (c ∷ s) =
    if c == b'-'
    then negative_int (digits s)
    else (if c == b'+' then positive_int (digits s) else positive_int (digits (c ∷ s)))

-- `strings.EqualFold(s, w)` for a word `w` of small ASCII letters without k: the long s counts too.
abbrev equal_fold : Text → Text → Bool
equal_fold s [] = is_empty s
equal_fold s (d ∷ w) =
    text_eq (to_lower (take 1 s)) (d ∷ []) && equal_fold (drop 1 s) w
    || d == b's' && has_prefix s (0xC5 ∷ 0xBF ∷ []) && equal_fold (drop 2 s) w

abbrev or_default {ℓ} : {A : Type ℓ} → A → Option A → A
or_default def none = def
or_default def (some x) = x

abbrev second : ℕ
second = 1000000000

module _ (getenv : Text → Text) (parse_duration : Text → Option ℕ) where
  unfoldable pub env : Text → Text → Text
  env k def = if is_empty (getenv k) then def else getenv k

  unfoldable pub env_int : Text → ℕ → ℕ
  unfolding atoi
  env_int k def = if is_empty (getenv k) then def else or_default def (atoi (getenv k))

  unfoldable pub env_bool : Text → Bool → Bool
  env_bool k def =
      if is_empty (getenv k)
      then def
      else text_eq (getenv k) (codes "1")
        || equal_fold (getenv k) (codes "true")
        || equal_fold (getenv k) (codes "yes")

  unfoldable pub env_duration : Text → ℕ → ℕ
  env_duration k def =
      if is_empty (getenv k) then def else or_default def (parse_duration (getenv k))

  abbrev plain_api : Text × Bool × ℕ
  plain_api = (codes "api", false, 8728)

  abbrev ssl_api : Text × Bool × ℕ
  ssl_api = (codes "api-ssl", true, 8729)

  -- Where only the port can tell.
  abbrev api_of_port : Text × Bool × ℕ
  api_of_port =
      if is_empty (getenv (codes "MIKROTIK_PORT"))
      then ssl_api
      else (if env_int (codes "MIKROTIK_PORT") 8729 == 8728 then plain_api else ssl_api)

  abbrev api_of : Text → Text × Bool × ℕ
  api_of raw =
      if text_eq raw (codes "api") || text_eq raw (codes "plain")
      then plain_api
      else (if text_eq raw (codes "api-ssl")
            || text_eq raw (codes "ssl")
            || text_eq raw (codes "tls")
          then ssl_api
          else (if is_empty raw then api_of_port else ssl_api))

  -- The API, whether it is over TLS, and the port where none is set.
  unfoldable pub mikrotik_api_from_env : Text × Bool × ℕ
  unfolding env env_int trim_space
  mikrotik_api_from_env = api_of (to_lower (trim_space (env (codes "MIKROTIK_API") [])))

  unfoldable pub load : Config
  unfolding env env_int env_bool env_duration mikrotik_api_from_env
  load = record {
    http_addr = env (codes "HTTP_ADDR") (codes ":8080");
    cors_origins = split b',' (env (codes "CORS_ORIGINS") (codes "http://localhost:4200"));
    sqlite_path = env (codes "SQLITE_PATH") (codes "./data/panel.db");
    tz = env (codes "TZ") (codes "Asia/Tehran");
    mikrotik_cache_ttl = env_duration (codes "MIKROTIK_CACHE_TTL") (30 * second);
    mikrotik_fake = env_bool (codes "MIKROTIK_FAKE") true;
    mikrotik_host = env (codes "MIKROTIK_HOST") (codes "192.168.56.11");
    mikrotik_user = env (codes "MIKROTIK_USERNAME") (codes "admin");
    mikrotik_pass = env (codes "MIKROTIK_PASSWORD") [];
    mikrotik_api = mikrotik_api_from_env.0;
    mikrotik_use_tls = mikrotik_api_from_env.1;
    mikrotik_port = env_int (codes "MIKROTIK_PORT") mikrotik_api_from_env.2;
    mikrotik_tls_insec = env_bool (codes "MIKROTIK_TLS_INSECURE") false;
    mikrotik_timeout = env_duration (codes "MIKROTIK_TIMEOUT") (10 * second);
    mikrotik_cert_script = env (codes "MIKROTIK_CERT_SCRIPT") (codes "generate-certificate");
    jwt_secret = env (codes "JWT_SECRET") (codes "change-me");
    jwt_access_ttl = env_duration (codes "JWT_ACCESS_TTL") (15 * 60 * second);
    jwt_refresh_ttl = env_duration (codes "JWT_REFRESH_TTL") (168 * 3600 * second);
    admin_username = env (codes "ADMIN_USERNAME") (codes "admin");
    admin_password = env (codes "ADMIN_PASSWORD") (codes "change-me");
    default_profile = env (codes "DEFAULT_PROFILE") (codes "profile-open-2M-30d");
    username_prefix_sep = env (codes "USERNAME_PREFIX_SEPARATOR") (codes "_");
    username_local_max_len = env_int (codes "USERNAME_LOCAL_MAX_LEN") 24;
    shared_users_max = env_int (codes "SHARED_USERS_MAX") 20;
    openvpn_download_url = env (codes "OPENVPN_DOWNLOAD_URL") (codes "http://dl.nimbaha.info/dl/");
    openvpn_key_password = env (codes "OPENVPN_KEY_PASSWORD") [];
    l2tp_ipsec_secret = env (codes "L2TP_IPSEC_SECRET") [];
    l2tp_server = env (codes "L2TP_SERVER") [];
    openvpn_template_path =
        env (codes "OPENVPN_TEMPLATE_PATH") (codes "./config/client-template.ovpn");
  }

  IsOneApi : Text × Bool × ℕ → Type 0
  IsOneApi x = (x ≡ plain_api) ⊎ (x ≡ ssl_api)

  if-IsOneApi :
      (b : Bool) (x y : Text × Bool × ℕ) → IsOneApi x → IsOneApi y → IsOneApi (if b then x else y)
  unfolding IsOneApi
  if-IsOneApi true x y h k = h
  if-IsOneApi false x y h k = k

  mikrotik_api_from_env-IsOneApi : IsOneApi mikrotik_api_from_env
  unfolding mikrotik_api_from_env IsOneApi
  mikrotik_api_from_env-IsOneApi =
      let plain : IsOneApi plain_api = inl refl in
      let ssl : IsOneApi ssl_api = inr refl in search (if-IsOneApi, plain, ssl) depth 10

  -- The API and TLS go together, and the port is the one that the environment names or, where it
  -- names no number, the one of this API.
  pub load-port :
      (load.mikrotik_use_tls ≡ text_eq load.mikrotik_api (codes "api-ssl"))
      × (load.mikrotik_port
          ≡ env_int (codes "MIKROTIK_PORT") (if load.mikrotik_use_tls then 8729 else 8728))
  unfolding load IsOneApi
  load-port = elim mikrotik_api_from_env-IsOneApi [
    | inl e ↦ rw e (refl, refl)
    | inr e ↦ rw e (refl, refl)
  ]
