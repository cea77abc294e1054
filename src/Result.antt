-- ===== src/Result.antt =====
-- Go's errors as values, and the state monad of a call that may fail: what was written before an
-- error stays written, so the state comes back beside the error too.
use fast_bypass.Base.{◌≡◌, refl, Bool, true, false, Text}

-- The sentinel errors of backend/internal/mikrotik/errors.go, of database/sql and of
-- backend/internal/app/vpn_service.go and cert.go; `failure` is any other error, by its text.
-- An error that wraps a sentinel (`%w`) is the sentinel.
pub data Error : Type 0 where
  mt_not_found mt_name_taken mt_unavailable mt_profile_missing : Error
  no_rows : Error
  quota_exceeded name_taken not_owner orphan_no_owner owner_db_mismatch invalid_cert_title : Error
  failure : Text → Error

pub data Result {ℓ} (A : Type ℓ) : Type ℓ where
  ok : A → Result A
  err : Error → Result A

abbrev pub ⊤ : Type 0
⊤ = Unit

abbrev pub Exec : Type 0 → Type 0 → Type 0
Exec S A = S → Result A × S

module _ {S A : Type 0} where
  abbrev pub pure : A → Exec S A
  pure a s = (ok a, s)

  abbrev pub raise : Error → Exec S A
  raise e s = (err e, s)

  abbrev pub lift : Result A → Exec S A
  lift r s = (r, s)

  -- A read of the state that may fail.
  abbrev pub ask : (S → Result A) → Exec S A
  ask f s = (f s, s)

  -- The call with its error as a value, for code that goes on after an error.
  abbrev pub attempt : Exec S A → Exec S (Result A)
  attempt m s = let (r, s') = m s in (ok r, s')

module _ {S A B : Type 0} where
  abbrev pub continue : Result A → (A → Exec S B) → Exec S B
  continue (ok a) f = f a
  continue (err e) f = raise e

  infixl 10 ◌>>=◌ ◌>>◌
  abbrev pub ◌>>=◌ : Exec S A → (A → Exec S B) → Exec S B
  ◌>>=◌ m f s = let (r, s') = m s in continue r f s'

  abbrev pub ◌>>◌ : Exec S A → Exec S B → Exec S B
  m >> k = m >>= λ _. k

-- A bind whose first part is known.
pub bind_of_ok :
    {S A B : Type 0} (m : Exec S A) (f : A → Exec S B) (s t : S) (a : A)
    → m s ≡ (ok a, t)
    → (m >>= f) s ≡ f a t
bind_of_ok m f s t a e = rw e refl

pub bind_of_err :
    {S A B : Type 0} (m : Exec S A) (f : A → Exec S B) (s t : S) (x : Error)
    → m s ≡ (err x, t)
    → (m >>= f) s ≡ (err x, t)
bind_of_err m f s t x e = rw e refl

-- A bind that returned: both of its parts did.
pub bind-ok :
    {S A B : Type 0} (m : Exec S A) (f : A → Exec S B) (s s' : S) {b : B}
    → (m >>= f) s ≡ (ok b, s')
    → (a : A) × (t : S) × (m s ≡ (ok a, t)) × (f a t ≡ (ok b, s'))
bind-ok {S} {A} {B} m f s s' {b} h = go (m s).0 (m s).1 refl h
  where
    go :
        (r : Result A) (t : S)
        → m s ≡ (r, t)
        → continue r f t ≡ (ok b, s')
        → (a : A) × (t : S) × (m s ≡ (ok a, t)) × (f a t ≡ (ok b, s'))
    go (ok a) t e k = (a, t, e, k)
    go (err x) t e k = absurd (cc)

module _ {S : Type 0} where
  -- An early return with an error.
  abbrev pub raise_if : Bool → Error → Exec S ⊤
  raise_if true e = raise e
  raise_if false e = pure tt

  -- A call whose error is dropped (`_ =`, or logged).
  abbrev pub ignore : {A : Type 0} → Exec S A → Exec S ⊤
  ignore m s = let (r, s') = m s in (ok tt, s')
