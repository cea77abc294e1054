-- ===== src/Auth/Tokens.antt =====
-- What the two tokens of a pair are good for.
use fast_bypass.Base.{
  ℕ, ◌+◌, ◌≡◌, ◌<◌, ◌≤◌, refl, ap, ◌∙◌, Text, codes, length, drop, text_eq, true, false, none, some,
  ◌++◌, ◌⊎◌, inl, inr, arith, List, [], ◌∷◌, ltb, if◌then◌else◌,
}
use fast_bypass.Result.{Result, Error, ok, err}
use fast_bypass.Auth.{
  Claims, TokenPair, Issuer, Jwt, JwtLaws, Encodable, stamped, first, second, of_type, sign,
  new_pair, parse, bearer_claims, refresh_claims,
}

pub drop-length {ℓ} : {A : Type ℓ} (xs ys : List A) → drop (length xs) (xs ++ ys) ≡ ys
drop-length [] [] = refl
drop-length [] (y ∷ ys) = refl
drop-length (x ∷ xs) ys = drop-length xs ys

order : (a b : ℕ) → (a < b) ⊎ (b ≤ a)
order a b = omega arith

pub ltb_of_lt : (a b : ℕ) → a < b → ltb a b ≡ true
ltb_of_lt a b h = ground arith

ltb_of_le : (a b : ℕ) → b ≤ a → ltb a b ≡ false
ltb_of_le a b h = ground arith

module _ (J : Jwt) (L : JwtLaws J) (i : Issuer) (c : Claims)
    (plain : Encodable J (record c { subject = c.username })) where
  -- What is read of a token that was signed here, before and after it expires.
  parse_fresh :
      (ttl : ℕ) (typ token : Text) (start t : ℕ)
      → sign J i c ttl typ start ≡ ok token
      → t < J.numeric_date (start + ttl)
      → parse J i token t ≡ ok (stamped J c ttl typ start)
  unfolding sign parse
  parse_fresh ttl typ token start t e h =
      L.parse_valid (stamped J c ttl typ start) i.secret token t (J.numeric_date (start + ttl)) e
        plain refl h

  parse_stale :
      (ttl : ℕ) (typ token : Text) (start t : ℕ)
      → sign J i c ttl typ start ≡ ok token
      → J.numeric_date (start + ttl) ≤ t
      → (x : Error) × (parse J i token t ≡ err x)
  unfolding sign parse
  parse_stale ttl typ token start t e h =
      L.parse_expired (stamped J c ttl typ start) i.secret token t (J.numeric_date (start + ttl)) e
        refl h

  -- The header of a request with this token.
  bearer_claims-Bearer :
      (token : Text) (t : ℕ)
      → bearer_claims J i (codes "Bearer " ++ token) t
        ≡ of_type (codes "access") (parse J i token t)
  unfolding bearer_claims
  bearer_claims-Bearer token t = rw (drop-length (codes "Bearer ") token) refl

new_pair-ok :
    (J : Jwt) (i : Issuer) (c : Claims) (now later : ℕ) {p : TokenPair}
    → new_pair J i c now later ≡ ok p
    → (sign J i c i.access_ttl (codes "access") now ≡ ok p.access_token)
      × (sign J i c i.refresh_ttl (codes "refresh") later ≡ ok p.refresh_token)
unfolding new_pair sign
new_pair-ok J i c now later {p} h =
    go (sign J i c i.access_ttl (codes "access") now)
      (sign J i c i.refresh_ttl (codes "refresh") later) refl refl h
  where
    go :
        (a r : Result Text)
        → sign J i c i.access_ttl (codes "access") now ≡ a
        → sign J i c i.refresh_ttl (codes "refresh") later ≡ r
        → first a (λ access. second access r) ≡ ok p
        → (sign J i c i.access_ttl (codes "access") now ≡ ok p.access_token)
          × (sign J i c i.refresh_ttl (codes "refresh") later ≡ ok p.refresh_token)
    go (ok a) (ok r) ea er k =
        let same : record { access_token = a; refresh_token = r } ≡ p = cc in
        (
          ea ∙ ap (λ (q : TokenPair). ok q.access_token) same,
          er ∙ ap (λ (q : TokenPair). ok q.refresh_token) same,
        )
    go (ok a) (err e) ea er k = absurd (cc)
    go (err e) r ea er k = absurd (cc)

module _ (J : Jwt) (L : JwtLaws J) (i : Issuer) (c : Claims)
    (plain : Encodable J (record c { subject = c.username })) (now later : ℕ) (p : TokenPair)
    (made : new_pair J i c now later ≡ ok p) where
  wrong_type :
      (ttl : ℕ) (typ token : Text) (start t : ℕ) (want : Text)
      → text_eq typ want ≡ false
      → sign J i c ttl typ start ≡ ok token
      → of_type want (parse J i token t) ≡ none
  wrong_type ttl typ token start t want differ e = elim (order t (J.numeric_date (start + ttl))) [
    | inl h ↦ rw (parse_fresh J L i c plain ttl typ token start t e h, differ) refl
    | inr h ↦ let (x, k) = parse_stale J L i c plain ttl typ token start t e h in rw k refl
  ]

  right_type :
      (ttl : ℕ) (typ token : Text) (start t : ℕ)
      → text_eq typ typ ≡ true
      → sign J i c ttl typ start ≡ ok token
      → of_type typ (parse J i token t)
        ≡ (if ltb t (J.numeric_date (start + ttl)) then some (stamped J c ttl typ start) else none)
  right_type ttl typ token start t same e = elim (order t (J.numeric_date (start + ttl))) [
    | inl h ↦ rw (parse_fresh J L i c plain ttl typ token start t e h, same, ltb_of_lt t _ h) refl
    | inr h ↦
        let (x, k) = parse_stale J L i c plain ttl typ token start t e h in
        rw (k, ltb_of_le t (J.numeric_date (start + ttl)) h) refl
  ]

  -- From the tokens of a pair: at any time the access token, and it alone, is accepted in a
  -- request's header, before it expires; the refresh token, and it alone, is accepted for a
  -- refresh, before it expires. The claims that come back are those of the pair, with the type,
  -- the subject and the times that the token was signed with.
  pub new_pair_lem :
      (t : ℕ)
      → (bearer_claims J i (codes "Bearer " ++ p.access_token) t ≡ (
          if ltb t (J.numeric_date (now + i.access_ttl))
          then some (stamped J c i.access_ttl (codes "access") now)
          else none))
        × (refresh_claims J i p.access_token t ≡ none)
        × (refresh_claims J i p.refresh_token t ≡ (
            if ltb t (J.numeric_date (later + i.refresh_ttl))
            then some (stamped J c i.refresh_ttl (codes "refresh") later)
            else none))
        × (bearer_claims J i (codes "Bearer " ++ p.refresh_token) t ≡ none)
  unfolding refresh_claims
  new_pair_lem t =
      let (ea, er) = new_pair-ok J i c now later made in
      (
        bearer_claims-Bearer J L i c plain p.access_token t
            ∙ right_type i.access_ttl (codes "access") p.access_token now t refl ea,
        wrong_type i.access_ttl (codes "access") p.access_token now t (codes "refresh") refl ea,
        right_type i.refresh_ttl (codes "refresh") p.refresh_token later t refl er,
        bearer_claims-Bearer J L i c plain p.refresh_token t
            ∙ wrong_type i.refresh_ttl (codes "refresh") p.refresh_token later t (codes "access")
                refl er,
      )
