-- ===== src/Password/Generate.antt =====
-- What the generators of passwords return.
use fast_bypass.Base.{
  leb, ℕ, zero, suc, ◌≤◌, ◌<◌, ◌%◌, ◌≡◌, refl, Text, length, Bool, true, ◌==◌, List, [], ◌∷◌, drop,
  arith, if◌then◌else◌, Bool-cases, inl, inr, subst,
}
use fast_bypass.Result.{ok, pure, bind-ok}
use fast_bypass.Password.{
  any, every, valid_vpn, byte_at, rand_int, random_from_charset, random_vpn_candidate,
  vpn_gen_chars, generate_vpn_loop, generate_vpn, cert_key_chars, cert_key_loop,
  generate_cert_key_pass,
}

-- The byte is one of the charset's.
abbrev pub mem_byte : Text → ℕ → Bool
mem_byte charset c = any (λ d. c == d) charset

mem-byte_at :
    (charset : Text) (i : ℕ) → i < length charset → mem_byte charset (byte_at charset i) ≡ true
mem-byte_at [] i h = elim h [ ]
mem-byte_at (c ∷ s) zero h = ground arith
mem-byte_at (c ∷ s) (suc i) h = ground (arith, mem-byte_at s i)

-- The candidate has the length that was asked for, and bytes of the charset only.
abbrev IsCandidate : Text → ℕ → Text → Type 0
IsCandidate charset n pw = (length pw ≡ n) × (every (mem_byte charset) pw ≡ true)

random_from_charset_lem :
    (charset : Text) (n : ℕ) (s s' : List ℕ) {pw : Text}
    → 0 < length charset
    → random_from_charset charset n s ≡ (ok pw, s')
    → IsCandidate charset n pw
unfolding random_from_charset rand_int
random_from_charset_lem charset zero s s' p h = ground arith
random_from_charset_lem charset (suc n) [] s' p h = cc
random_from_charset_lem charset (suc n) (x ∷ s) s' p h =
    let (rest, t, e, k) =
      bind-ok (random_from_charset charset n)
        (λ (rest : Text). pure (byte_at charset (x % length charset) ∷ rest)) s s' h in
    ground
      (arith, random_from_charset_lem charset n s t p e, mem-byte_at charset (x % length charset))

vpn_gen_chars-pos : 0 < length vpn_gen_chars
unfolding vpn_gen_chars
vpn_gen_chars-pos = omega arith

cert_key_chars-pos : 0 < length cert_key_chars
unfolding cert_key_chars
cert_key_chars-pos = omega arith

generate_vpn_loop_lem :
    (n : ℕ) (s s' : List ℕ) {pw : Text}
    → generate_vpn_loop n s ≡ (ok pw, s')
    → IsCandidate vpn_gen_chars 8 pw × (valid_vpn pw ≡ true)
unfolding generate_vpn_loop random_vpn_candidate
generate_vpn_loop_lem zero s s' h = cc
generate_vpn_loop_lem (suc n) s s' {pw} h =
    let (c, t, e, k) =
      bind-ok (random_from_charset vpn_gen_chars 8)
        (λ (c : Text). if valid_vpn c then pure c else generate_vpn_loop n) s s' h in
    elim (Bool-cases (valid_vpn c)) [
      | inl v ↦
          let same : c ≡ pw = ground arith in
          subst (λ w. IsCandidate vpn_gen_chars 8 w × (valid_vpn w ≡ true)) same
            (random_from_charset_lem vpn_gen_chars 8 s t vpn_gen_chars-pos e, v)
      | inr v ↦ generate_vpn_loop_lem n t s' (ground arith)
    ]

-- A generated VPN password has eight bytes, all of the charset, and passes `ValidVPN`.
pub generate_vpn_lem :
    (s s' : List ℕ) {pw : Text}
    → generate_vpn s ≡ (ok pw, s')
    → (length pw ≡ 8) × (every (mem_byte vpn_gen_chars) pw ≡ true) × (valid_vpn pw ≡ true)
unfolding generate_vpn
generate_vpn_lem s s' h = let (c, v) = generate_vpn_loop_lem 8 s s' h in (c.0, c.1, v)

-- With enough numbers a candidate is always made, and it takes one number for each byte.
random_from_charset_total :
    (charset : Text) (n : ℕ) (s : List ℕ)
    → n ≤ length s
    → (pw : Text) × (random_from_charset charset n s ≡ (ok pw, drop n s))
unfolding random_from_charset rand_int
random_from_charset_total charset zero [] h = ([], refl)
random_from_charset_total charset zero (x ∷ s) h = ([], refl)
random_from_charset_total charset (suc n) [] h = absurd (omega arith)
random_from_charset_total charset (suc n) (x ∷ s) h =
    let (pw, e) = random_from_charset_total charset n s (omega arith) in
    (byte_at charset (x % length charset) ∷ pw, ground arith)

cert_key_loop-suc :
    (n : ℕ) (s t : List ℕ) (pw : Text)
    → random_from_charset cert_key_chars 10 s ≡ (ok pw, t)
    → length pw ≡ 10
    → cert_key_loop (suc n) s ≡ (ok pw, t)
unfolding cert_key_loop
cert_key_loop-suc n s t pw e l = ground arith

cert_key_loop_lem :
    (n : ℕ) (s s' : List ℕ) {pw : Text}
    → cert_key_loop n s ≡ (ok pw, s')
    → every (mem_byte cert_key_chars) pw ≡ true
unfolding cert_key_loop
cert_key_loop_lem zero s s' h = cc
cert_key_loop_lem (suc n) s s' {pw} h =
    let (c, t, e, k) =
      bind-ok (random_from_charset cert_key_chars 10)
        (λ (c : Text). if leb 8 (length c) then pure c else cert_key_loop n) s s' h in
    elim (Bool-cases (leb 8 (length c))) [
      | inl v ↦
          let same : c ≡ pw = ground arith in
          subst (λ w. every (mem_byte cert_key_chars) w ≡ true) same
            (random_from_charset_lem cert_key_chars 10 s t cert_key_chars-pos e).1
      | inr v ↦ cert_key_loop_lem n t s' (ground arith)
    ]

-- The bytes of a generated passphrase are of the charset.
pub generate_cert_key_pass_lem :
    (s s' : List ℕ) {pw : Text}
    → generate_cert_key_pass s ≡ (ok pw, s')
    → every (mem_byte cert_key_chars) pw ≡ true
unfolding generate_cert_key_pass
generate_cert_key_pass_lem s s' h = cert_key_loop_lem 8 s s' h

-- A random source that gives ten numbers is enough: the passphrase is made at the first attempt,
-- has ten bytes, all of the charset, and the ten numbers are used up.
pub generate_cert_key_pass_total :
    (s : List ℕ)
    → 10 ≤ length s
    → (pw : Text) × (generate_cert_key_pass s ≡ (ok pw, drop 10 s))
      × (length pw ≡ 10)
      × (every (mem_byte cert_key_chars) pw ≡ true)
unfolding generate_cert_key_pass
generate_cert_key_pass_total s h =
    let (pw, e) = random_from_charset_total cert_key_chars 10 s h in
    let c = random_from_charset_lem cert_key_chars 10 s (drop 10 s) cert_key_chars-pos e in
    (pw, cert_key_loop-suc 7 s (drop 10 s) pw e c.0, c.0, c.1)
