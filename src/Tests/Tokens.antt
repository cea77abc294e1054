-- ===== src/Tests/Tokens.antt =====
-- A token library and a hash for the runs: a token is its claims written out, with the length of
-- each text before the texts; a hash is the password behind a mark.
use fast_bypass.Base.{
  ℕ, ◌+◌, ◌≡◌, ◌<◌, ◌≤◌, refl, sym, ap, ◌∙◌, Text, codes, length, take, drop, text_eq, Bool, true,
  Option, none, some, List, [], ◌∷◌, ◌++◌, ltb, if◌then◌else◌, arith,
}
use fast_bypass.Result.{Result, Error, ok, err, failure}
use fast_bypass.Password.{Bcrypt}
use fast_bypass.Auth.{Role, admin, manager, Claims, Issuer, Jwt, JwtLaws}
use fast_bypass.Auth.Tokens.{drop-length}

abbrev pub plain_bcrypt : Bcrypt
plain_bcrypt = record {
  generate_from_password = λ p s. (ok (b'#' ∷ p), s);
  compare_hash_and_password = λ h p. text_eq h (b'#' ∷ p);
}

abbrev role_mark : Role → ℕ
role_mark admin = 0
role_mark manager = 1

abbrev role_of : ℕ → Role
role_of ℕ.zero = admin
role_of (ℕ.suc n) = manager

abbrev mark : Option ℕ → ℕ
mark none = 0
mark (some n) = n + 1

abbrev marked : ℕ → Option ℕ
marked ℕ.zero = none
marked (ℕ.suc n) = some n

-- A text with its length before it, and the two parts of what begins with such a text.
abbrev sized : Text → Text → Text
sized s rest = length s ∷ (s ++ rest)

abbrev head_text : Text → Text
head_text [] = []
head_text (n ∷ s) = take n s

abbrev tail_text : Text → Text
tail_text [] = []
tail_text (n ∷ s) = drop n s

abbrev written : Claims → Text
written c =
    role_mark c.role
    ∷ c.manager_id
    ∷ mark c.expires_at
    ∷ mark c.issued_at
    ∷ sized c.slug (sized c.username (sized c.token_type (sized c.subject [])))

abbrev read_claims : Text → Option Claims
read_claims (r ∷ id ∷ e ∷ i ∷ s) = some (record {
  role = role_of r;
  manager_id = id;
  slug = head_text s;
  username = head_text (tail_text s);
  token_type = head_text (tail_text (tail_text s));
  subject = head_text (tail_text (tail_text (tail_text s)));
  expires_at = marked e;
  issued_at = marked i;
})
read_claims s = none

abbrev bad_token : Error
bad_token = failure (codes "token is invalid")

abbrev in_time : Option ℕ → ℕ → Bool
in_time none now = true
in_time (some e) now = ltb now e

abbrev checked : Option Claims → ℕ → Result Claims
checked none now = err bad_token
checked (some c) now = if in_time c.expires_at now then ok c else err bad_token

abbrev pub list_jwt : Jwt
list_jwt = record {
  signed_string = λ c secret. ok (written c);
  parse_with_claims = λ token secret now. checked (read_claims token) now;
  numeric_date = λ t. t;
  is_utf8 = λ s. true;
}

abbrev pub issuer : Issuer
issuer = record { secret = codes "s"; access_ttl = 900; refresh_ttl = 2000 }

take-length {ℓ} : {A : Type ℓ} (xs ys : List A) → take (length xs) (xs ++ ys) ≡ xs
take-length [] [] = refl
take-length [] (y ∷ ys) = refl
take-length (x ∷ xs) ys = ap (λ l. x ∷ l) (take-length xs ys)

role_of-role_mark : (r : Role) → role_of (role_mark r) ≡ r
role_of-role_mark admin = refl
role_of-role_mark manager = refl

marked-mark : (o : Option ℕ) → marked (mark o) ≡ o
marked-mark none = refl
marked-mark (some n) = ground arith

read_claims-written : (c : Claims) → read_claims (written c) ≡ some c
read_claims-written c =
    rw
      (
        role_of-role_mark c.role,
        marked-mark c.expires_at,
        marked-mark c.issued_at,
        take-length c.slug (sized c.username (sized c.token_type (sized c.subject []))),
        drop-length c.slug (sized c.username (sized c.token_type (sized c.subject []))),
        take-length c.username (sized c.token_type (sized c.subject [])),
        drop-length c.username (sized c.token_type (sized c.subject [])),
        take-length c.token_type (sized c.subject []),
        drop-length c.token_type (sized c.subject []),
        take-length c.subject [],
      )
      refl

checked-in_time :
    (c : Claims) (now e : ℕ) → c.expires_at ≡ some e → now < e → checked (some c) now ≡ ok c
checked-in_time c now e h k = rw h (ground arith)

checked-late :
    (c : Claims) (now e : ℕ)
    → c.expires_at ≡ some e
    → e ≤ now
    → checked (some c) now ≡ err bad_token
checked-late c now e h k = rw h (ground arith)

parse-written :
    (c : Claims) (token : Text) (now : ℕ)
    → ok (written c) ≡ ok token
    → checked (read_claims token) now ≡ checked (some c) now
parse-written c token now e =
    let same : written c ≡ token = cc in
    ap (λ t. checked (read_claims t) now) (sym same)
    ∙ ap (λ o. checked o now) (read_claims-written c)

pub list_jwt_laws : JwtLaws list_jwt
list_jwt_laws = record {
  parse_valid = λ c secret token now e made plain exp h.
      parse-written c token now made ∙ checked-in_time c now e exp h;
  parse_expired = λ c secret token now e made exp h.
      (bad_token, parse-written c token now made ∙ checked-late c now e exp h);
}
