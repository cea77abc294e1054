-- ===== src/Base/ByteLaws.antt =====
-- Laws of the tests on byte strings.
use Prim.Native.Nat.{ℕ}
use mathlib.Core.Path.{◌≡◌, refl}
use mathlib.Core.Bool.{true, ◌||◌}
use mathlib.Core.List.{[], ◌∷◌, ◌++◌}
use native.Mathlib.Omega.{arith}
use fast_bypass.Base.Bools.{◌==◌, ==→≡, ==_refl, &&_left, &&_right}
use fast_bypass.Base.Maps.{Eq}
use fast_bypass.Base.Bytes.{Text, text_eq, has_prefix}

pub text_eq-true : (s t : Text) → text_eq s t ≡ true → s ≡ t
text_eq-true [] [] h = refl
text_eq-true [] (d ∷ t) h = cc
text_eq-true (c ∷ s) [] h = cc
text_eq-true (c ∷ s) (d ∷ t) h =
    cc (==→≡ c d (&&_left _ _ h), text_eq-true s t (&&_right (c == d) _ h))

pub text_eq_refl : (s : Text) → text_eq s s ≡ true
text_eq_refl [] = refl
text_eq_refl (c ∷ s) = ground (arith, text_eq_refl s)

pub text_eq_comm : (s t : Text) → text_eq s t ≡ text_eq t s
text_eq_comm [] [] = refl
text_eq_comm [] (d ∷ t) = refl
text_eq_comm (c ∷ s) [] = refl
text_eq_comm (c ∷ s) (d ∷ t) = ground (arith, text_eq_comm s t)

instance abbrev pub text_key : Eq Text
text_key = record { beq = text_eq; beq-true = text_eq-true; beq_refl = text_eq_refl }

instance abbrev pub nat_key : Eq ℕ
nat_key = record { beq = ◌==◌; beq-true = ==→≡; beq_refl = ==_refl }

-- A prefix of a prefix.
pub has_prefix-append : (s p q : Text) → has_prefix s (p ++ q) ≡ true → has_prefix s p ≡ true
has_prefix-append s [] q h = refl
has_prefix-append [] (d ∷ p) q h = h
has_prefix-append (c ∷ s) (d ∷ p) q h = ground (arith, has_prefix-append s p q)

-- Of two prefixes of one text, one is a prefix of the other.
pub has_prefix_total :
    (s p q : Text)
    → has_prefix s p ≡ true
    → has_prefix s q ≡ true
    → (has_prefix p q || has_prefix q p) ≡ true
has_prefix_total s [] [] h k = refl
has_prefix_total s [] (d ∷ q) h k = refl
has_prefix_total s (d ∷ p) [] h k = refl
has_prefix_total [] (d ∷ p) (e ∷ q) h k = cc
has_prefix_total (c ∷ s) (d ∷ p) (e ∷ q) h k = ground (arith, has_prefix_total s p q)

pub has_prefix_self : (p q : Text) → has_prefix (p ++ q) p ≡ true
has_prefix_self [] q = refl
has_prefix_self (c ∷ p) q = ground (arith, has_prefix_self p q)
