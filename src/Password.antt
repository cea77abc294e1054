-- ===== src/Password.antt =====
-- Passwords and certificate titles (backend/internal/password/password.go and cert.go). The
-- random source is a list of numbers; a draw below k takes the first one modulo k, and fails when
-- none is left. bcrypt is a parameter of the code that calls `Hash` and `Check`.
pub mod Generate
use fast_bypass.Base.{
  ℕ, zero, suc, ◌%◌, Text, codes, length, trim_space, Bool, true, false, ◌&&◌, ◌||◌, not, List, [],
  ◌∷◌, ◌==◌, ltb, leb, if◌then◌else◌,
}
use fast_bypass.Result.{Exec, ok, err, failure, pure, raise, ◌>>=◌}

unfoldable pub vpn_gen_chars : Text
vpn_gen_chars = codes "abcdefghijkmnpqrstuvwxyzABCDEFGHJKLMNPQRSTUVWXYZ23456789"

abbrev pub vpn_gen_len : ℕ
vpn_gen_len = 8

abbrev pub letter : ℕ → Bool
letter c = leb b'A' c && leb c b'Z' || leb b'a' c && leb c b'z'

abbrev pub digit : ℕ → Bool
digit c = leb b'0' c && leb c b'9'

abbrev pub any : (ℕ → Bool) → Text → Bool
any p [] = false
any p (c ∷ s) = p c || any p s

abbrev pub every : (ℕ → Bool) → Text → Bool
every p [] = true
every p (c ∷ s) = p c && every p s

unfoldable pub valid_vpn : Text → Bool
valid_vpn pw =
    if ltb (length pw) 8
    then false
    else (if not (any letter pw) || not (any digit pw) then false else true)

-- What `ValidPanel` reads of a string: its characters, and their classes in package unicode.
pub record Unicode : Type 0 where
  pub runes : Text → List ℕ
  pub is_letter : ℕ → Bool
  pub is_digit : ℕ → Bool

unfoldable pub valid_panel : Unicode → Text → Bool
valid_panel u pw =
    if ltb (length pw) 8 then false else any u.is_letter (u.runes pw) && any u.is_digit (u.runes pw)

-- Package bcrypt: the hash of a password, with a salt from the random source, and the test of a
-- password against a hash.
pub record Bcrypt : Type 0 where
  pub generate_from_password : Text → Exec (List ℕ) Text
  pub compare_hash_and_password : Text → Text → Bool

unfoldable pub hash : Bcrypt → Text → Exec (List ℕ) Text
hash b plain = b.generate_from_password plain

unfoldable pub check : Bcrypt → Text → Text → Bool
check b hash plain = b.compare_hash_and_password hash plain

-- `rand.Int(rand.Reader, max)`
unfoldable pub rand_int : ℕ → Exec (List ℕ) ℕ
rand_int k [] = (err (failure (codes "rand")), [])
rand_int k (n ∷ ns) = (ok (n % k), ns)

-- `charset[i]`
abbrev pub byte_at : Text → ℕ → ℕ
byte_at [] i = 0
byte_at (c ∷ s) zero = c
byte_at (c ∷ s) (suc i) = byte_at s i

unfoldable pub random_from_charset : Text → ℕ → Exec (List ℕ) Text
random_from_charset charset zero = pure []
random_from_charset charset (suc n) = rand_int (length charset) >>= λ i.
    random_from_charset charset n >>= λ rest. pure (byte_at charset i ∷ rest)

-- The loop has the shape of `randomFromCharset`.
unfoldable pub random_vpn_candidate : Exec (List ℕ) Text
unfolding random_from_charset rand_int
random_vpn_candidate = random_from_charset vpn_gen_chars vpn_gen_len

-- The rounds of the loop of `GenerateVPN` that are left.
unfoldable pub generate_vpn_loop : ℕ → Exec (List ℕ) Text
generate_vpn_loop zero = raise (failure (codes "could not generate VPN password"))
generate_vpn_loop (suc n) =
    let again = generate_vpn_loop n in
    random_vpn_candidate >>= λ pw. if valid_vpn pw then pure pw else again

unfoldable pub generate_vpn : Exec (List ℕ) Text
unfolding generate_vpn_loop random_vpn_candidate valid_vpn vpn_gen_chars
generate_vpn = generate_vpn_loop 8

unfoldable pub cert_key_chars : Text
cert_key_chars = codes "abcdefghijkmnpqrstuvwxyzABCDEFGHJKLMNPQRSTUVWXYZ23456789"

abbrev pub cert_key_len : ℕ
cert_key_len = 10

unfoldable pub cert_key_loop : ℕ → Exec (List ℕ) Text
cert_key_loop zero = raise (failure (codes "could not generate certificate key passphrase"))
cert_key_loop (suc n) =
    let again = cert_key_loop n in
    random_from_charset cert_key_chars cert_key_len >>= λ pw.
    if leb 8 (length pw) then pure pw else again

-- `GenerateCertKeyPass`
unfoldable pub generate_cert_key_pass : Exec (List ℕ) Text
unfolding cert_key_loop random_from_charset rand_int cert_key_chars
generate_cert_key_pass = cert_key_loop 8

abbrev pub title_char : ℕ → Bool
title_char c = letter c || digit c || c == b'_' || c == b'-'

-- The regular expression ^[a-zA-Z0-9][a-zA-Z0-9_-]{2,31}$.
unfoldable pub cert_title_re : Text → Bool
cert_title_re [] = false
cert_title_re (c ∷ s) =
    (letter c || digit c) && every title_char s && leb 2 (length s) && leb (length s) 31

unfoldable pub valid_cert_title : Text → Bool
unfolding cert_title_re trim_space
valid_cert_title title = cert_title_re (trim_space title)
