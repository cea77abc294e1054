-- ===== src/Auth.antt =====
-- Tokens (backend/internal/auth/jwt.go) and the test of a request's header (middleware.go). The
-- library golang-jwt is a parameter: how claims are signed with a secret, and how a token is read
-- at a time. A time is a number.
pub mod Tokens
use fast_bypass.Base.{
  ℕ, ◌+◌, ◌≡◌, ◌<◌, ◌≤◌, Text, codes, length, drop, has_prefix, text_eq, Bool, true, Option, none,
  some, if◌then◌else◌,
}
use fast_bypass.Result.{Result, Error, ok, err}

pub data Role : Type 0 where
  admin manager : Role

-- `jwt.RegisteredClaims` are the subject and the two times.
pub record Claims : Type 0 where
  pub role : Role
  pub manager_id : ℕ
  pub slug : Text
  pub username : Text
  pub token_type : Text
  pub subject : Text
  pub expires_at : Option ℕ
  pub issued_at : Option ℕ

pub record TokenPair : Type 0 where
  pub access_token : Text
  pub refresh_token : Text

pub record Issuer : Type 0 where
  pub secret : Text
  pub access_ttl : ℕ
  pub refresh_ttl : ℕ

-- `Token.SignedString`, `jwt.ParseWithClaims`, `jwt.NewNumericDate`, and the texts that JSON
-- keeps as they are.
pub record Jwt : Type 0 where
  pub signed_string : Claims → Text → Result Text
  pub parse_with_claims : Text → Text → ℕ → Result Claims
  pub numeric_date : ℕ → ℕ
  pub is_utf8 : Text → Bool

-- Claims of which JSON loses nothing.
abbrev pub Encodable : Jwt → Claims → Type 0
Encodable J c =
    (J.is_utf8 c.slug ≡ true) × (J.is_utf8 c.username ≡ true) × (J.is_utf8 c.subject ≡ true)

-- A signed token is read with the same secret as the claims that were signed, until it expires.
pub record JwtLaws (J : Jwt) : Type 0 where
  pub parse_valid :
      (c : Claims) (secret token : Text) (now e : ℕ)
      → J.signed_string c secret ≡ ok token
      → Encodable J c
      → c.expires_at ≡ some e
      → now < e
      → J.parse_with_claims token secret now ≡ ok c
  pub parse_expired :
      (c : Claims) (secret token : Text) (now e : ℕ)
      → J.signed_string c secret ≡ ok token
      → c.expires_at ≡ some e
      → e ≤ now
      → (x : Error) × (J.parse_with_claims token secret now ≡ err x)

-- The claims that are signed: those given, with the type, the subject and the times set.
abbrev pub stamped : Jwt → Claims → ℕ → Text → ℕ → Claims
stamped J c ttl typ now = record c {
  token_type = typ;
  subject = c.username;
  expires_at = some (J.numeric_date (now + ttl));
  issued_at = some (J.numeric_date now);
}

abbrev pub second : Text → Result Text → Result TokenPair
second access (ok refresh) = ok (record { access_token = access; refresh_token = refresh })
second access (err e) = err e

abbrev pub first : Result Text → (Text → Result TokenPair) → Result TokenPair
first (ok access) rest = rest access
first (err e) rest = err e

-- `err != nil || c.TokenType != typ`
abbrev pub of_type : Text → Result Claims → Option Claims
of_type typ (ok c) = if text_eq c.token_type typ then some c else none
of_type typ (err e) = none

module _ (J : Jwt) (i : Issuer) where
  unfoldable pub sign : Claims → ℕ → Text → ℕ → Result Text
  sign c ttl typ now = J.signed_string (stamped J c ttl typ now) i.secret

  -- The two tokens are signed at two readings of the clock.
  unfoldable pub new_pair : Claims → ℕ → ℕ → Result TokenPair
  unfolding sign
  new_pair c now later = first (sign c i.access_ttl (codes "access") now) λ access.
      second access
        (sign (record c { token_type = codes "refresh" }) i.refresh_ttl (codes "refresh") later)

  unfoldable pub parse : Text → ℕ → Result Claims
  parse token now = J.parse_with_claims token i.secret now

  -- The claims that `Middleware` lets through, from the header "Authorization".
  unfoldable pub bearer_claims : Text → ℕ → Option Claims
  unfolding parse
  bearer_claims h now =
      if has_prefix h (codes "Bearer ")
      then of_type (codes "access") (parse (drop (length (codes "Bearer ")) h) now)
      else none

  -- The claims that `HandleRefresh` accepts.
  unfoldable pub refresh_claims : Text → ℕ → Option Claims
  unfolding parse
  refresh_claims token now = of_type (codes "refresh") (parse token now)
