-- ===== src/App/Keeps.antt =====
-- Conditions on the database that a call or a handler keeps, whether it fails or not: one rule for
-- each way to build it, for `search`.
pub mod Accounting
pub mod Slugs
pub mod Reads
pub mod Services
pub mod Users
pub mod Changes
pub mod Requests
pub mod Admins
pub mod Accounts
pub mod Lists
pub mod Managers
use fast_bypass.Base.{◌≡◌, ℕ, Text, Bool, true, false, Option, none, some, List, if◌then◌else◌}
use fast_bypass.Result.{
  Exec, Result, ⊤, Error, ok, err, pure, raise, raise_if, lift, attempt, ignore, continue, ◌>>=◌,
}
use fast_bypass.Store.{Store, Manager, VpnUserMeta, ProfileActivation, RenewalThrough}
use fast_bypass.Owner.{slug_overlaps}
use fast_bypass.App.Service.{or_nil}
use fast_bypass.Auth.{Role, Claims, admin, manager}
use fast_bypass.App.State.{App, World, query, on_db, on_router, on_random, or_rollback, undone}
use fast_bypass.App.Http.{
  Response, Handler, answer, catch, tried, decoded, handled, claimed, manager_claims, for_manager,
  signed_in, role_claims,
}

-- Every statement that a manager's requests reach keeps the condition. Of his own row they write
-- the display name and the hash of the password only.
pub record KeptByManagers (S : Store) (Q : S.State → Type 0) : Type 0 where
  pub update_admin_password :
      (id : ℕ) (hash : Text) (d : S.State) → Q d → Q (S.update_admin_password id hash d).1
  pub update_own :
      (id : ℕ) (n h : Option Text) (d : S.State)
      → Q d
      → Q (S.update_manager id none n none none h d).1
  pub create_vpn_meta : (m : VpnUserMeta) (d : S.State) → Q d → Q (S.create_vpn_meta m d).1
  pub update_vpn_meta_cert :
      (id : ℕ) (t p : Text) (d : S.State) → Q d → Q (S.update_vpn_meta_cert id t p d).1
  pub clear_vpn_meta_cert : (id : ℕ) (d : S.State) → Q d → Q (S.clear_vpn_meta_cert id d).1
  pub update_vpn_meta :
      (id : ℕ) (c n : Option Text) (m : Option ℕ) (d : S.State)
      → Q d
      → Q (S.update_vpn_meta id c n m d).1
  pub delete_vpn_meta : (id : ℕ) (d : S.State) → Q d → Q (S.delete_vpn_meta id d).1
  pub create_activation :
      (a : ProfileActivation) (d : S.State) → Q d → Q (S.create_activation a d).1
  pub update_latest_unsettled_activation_shared_users :
      (id n : ℕ) (d : S.State)
      → Q d
      → Q (S.update_latest_unsettled_activation_shared_users id n d).1
  pub update_activation_shared_users :
      (id n : ℕ) (d : S.State) → Q d → Q (S.update_activation_shared_users id n d).1

-- Every statement that writes keeps the condition; the insertion of a manager has to do so only
-- where his slug overlaps none of those in the table.
pub record KeptByWrites (S : Store) (Q : S.State → Type 0) : Type 0 where
  pub by_managers : KeptByManagers S Q
  pub create_admin : (name hash : Text) (d : S.State) → Q d → Q (S.create_admin name hash d).1
  pub create_manager :
      (m : Manager) (d : S.State)
      → slug_overlaps m.slug (or_nil (S.list_manager_slugs d)) 0 ≡ false
      → Q d
      → Q (S.create_manager m d).1
  pub update_manager_cert :
      (id : ℕ) (t p : Text) (d : S.State) → Q d → Q (S.update_manager_cert id t p d).1
  pub clear_manager_cert : (id : ℕ) (d : S.State) → Q d → Q (S.clear_manager_cert id d).1
  pub update_manager :
      (id : ℕ) (u n : Option Text) (q : Option ℕ) (a : Option Bool) (h : Option Text) (d : S.State)
      → Q d
      → Q (S.update_manager id u n q a h d).1
  pub settle_through :
      (id : ℕ) (t : RenewalThrough) (d : S.State) → Q d → Q (S.settle_through id t d).1

-- What every statement keeps, those that managers reach keep.
pub managers_part : {S : Store} {Q : S.State → Type 0} → KeptByWrites S Q → KeptByManagers S Q
managers_part W = W.by_managers

module _ (A : App) (Q : A.store.State → Type 0) where
  pub record Keeps {Y : Type 0} (m : World A → Y × World A) : Type 0 where
    pub at : (w : World A) → Q w.db → Q (m w).1.db

module _ {A : App} {Q : A.store.State → Type 0} where
  pub Keeps-pure : {X : Type 0} (x : X) → Keeps A Q (pure {S = World A} x)
  Keeps-pure x = record { at = λ w h. h }

  pub Keeps-raise : {X : Type 0} (e : Error) → Keeps A Q (raise {S = World A} {A = X} e)
  Keeps-raise e = record { at = λ w h. h }

  pub Keeps-raise_if : (b : Bool) (e : Error) → Keeps A Q (raise_if {S = World A} b e)
  Keeps-raise_if true e = record { at = λ w h. h }
  Keeps-raise_if false e = record { at = λ w h. h }

  pub Keeps-lift : {X : Type 0} (r : Result X) → Keeps A Q (lift {S = World A} r)
  Keeps-lift r = record { at = λ w h. h }

  pub Keeps-query : {X : Type 0} (f : A.store.State → Result X) → Keeps A Q (query A f)
  Keeps-query f = record { at = λ w h. h }

  pub Keeps-on_router : {X : Type 0} (m : Exec A.mt.State X) → Keeps A Q (on_router A m)
  Keeps-on_router m = record { at = λ w h. h }

  pub Keeps-on_random : {X : Type 0} (m : Exec (List ℕ) X) → Keeps A Q (on_random A m)
  Keeps-on_random m = record { at = λ w h. h }

  pub Keeps-on_db :
      {X : Type 0} (m : Exec A.store.State X)
      → ((d : A.store.State) → Q d → Q (m d).1)
      → Keeps A Q (on_db A m)
  Keeps-on_db m k = record { at = λ w h. k w.db h }

  pub Keeps-attempt : {X : Type 0} (m : Exec (World A) X) → Keeps A Q m → Keeps A Q (attempt m)
  Keeps-attempt m k = record { at = k.at }

  pub Keeps-ignore : {X : Type 0} (m : Exec (World A) X) → Keeps A Q m → Keeps A Q (ignore m)
  Keeps-ignore m k = record { at = k.at }

  pub Keeps-if :
      {Y : Type 0} (b : Bool) (m n : World A → Y × World A)
      → Keeps A Q m
      → Keeps A Q n
      → Keeps A Q (if b then m else n)
  Keeps-if true m n km kn = km
  Keeps-if false m n km kn = kn

  Keeps-continue :
      {X Y : Type 0} (r : Result X) (f : X → Exec (World A) Y)
      → ((x : X) → Keeps A Q (f x))
      → Keeps A Q (continue r f)
  Keeps-continue (ok x) f k = k x
  Keeps-continue (err e) f k = record { at = λ w h. h }

  pub Keeps-bind :
      {X Y : Type 0} (m : Exec (World A) X) (f : X → Exec (World A) Y)
      → Keeps A Q m
      → ((x : X) → Keeps A Q (f x))
      → Keeps A Q (m >>= f)
  Keeps-bind m f k kf = record { at = λ w h. (Keeps-continue (m w).0 f kf).at (m w).1 (k.at w h) }

  Keeps-undone :
      {X : Type 0} (r : Result X) (undo : Exec (World A) ⊤)
      → Keeps A Q undo
      → Keeps A Q (undone A r undo)
  Keeps-undone (ok x) undo k = record { at = λ w h. h }
  Keeps-undone (err e) undo k = record { at = k.at }

  pub Keeps-or_rollback :
      {X : Type 0} (m : Exec (World A) X) (undo : Exec (World A) ⊤)
      → Keeps A Q m
      → Keeps A Q undo
      → Keeps A Q (or_rollback A m undo)
  Keeps-or_rollback m undo k ku = record {
    at = λ w h. (Keeps-undone (m w).0 undo ku).at (m w).1 (k.at w h);
  }

  pub Keeps-answer : (r : Response) → Keeps A Q (answer A r)
  Keeps-answer r = record { at = λ w h. h }

  pub Keeps-tried :
      {X : Type 0} (m : Exec (World A) X) (rest : Result X → Handler A)
      → Keeps A Q m
      → ((r : Result X) → Keeps A Q (rest r))
      → Keeps A Q (tried A m rest)
  Keeps-tried m rest k kr = record { at = λ w h. (kr (m w).0).at (m w).1 (k.at w h) }

  pub Keeps-handled :
      {X : Type 0} (r : Result X) (f : Error → Response) (rest : X → Handler A)
      → ((x : X) → Keeps A Q (rest x))
      → Keeps A Q (handled A r f rest)
  Keeps-handled (ok x) f rest k = k x
  Keeps-handled (err e) f rest k = record { at = λ w h. h }

  pub Keeps-catch :
      {X : Type 0} (m : Exec (World A) X) (f : Error → Response) (rest : X → Handler A)
      → Keeps A Q m
      → ((x : X) → Keeps A Q (rest x))
      → Keeps A Q (catch A m f rest)
  Keeps-catch m f rest k kr = record {
    at = λ w h. (Keeps-handled (m w).0 f rest kr).at (m w).1 (k.at w h);
  }

  pub Keeps-decoded :
      {X : Type 0} (o : Option X) (rest : X → Handler A)
      → ((x : X) → Keeps A Q (rest x))
      → Keeps A Q (decoded A o rest)
  Keeps-decoded none rest k = record { at = λ w h. h }
  Keeps-decoded (some x) rest k = k x

  pub Keeps-signed_in :
      (o : Option Claims) (rest : Claims → Handler A)
      → ((c : Claims) → Keeps A Q (rest c))
      → Keeps A Q (signed_in A o rest)
  Keeps-signed_in none rest k = record { at = λ w h. h }
  Keeps-signed_in (some x) rest k = k x

  pub Keeps-for_manager :
      (o : Option Claims) (rest : Claims → Handler A)
      → ((c : Claims) → Keeps A Q (rest c))
      → Keeps A Q (for_manager A o rest)
  Keeps-for_manager o rest k = go (manager_claims o)
    where
      go : (x : Option Claims) → Keeps A Q (claimed A x rest)
      go none = record { at = λ w h. h }
      go (some c) = k c

pub ruleset keeps_rules = (
  Keeps-pure, Keeps-raise, Keeps-raise_if, Keeps-lift, Keeps-query, Keeps-on_router,
  Keeps-on_random, Keeps-on_db, Keeps-attempt, Keeps-ignore, Keeps-if, Keeps-bind,
  Keeps-or_rollback, Keeps-answer, Keeps-tried, Keeps-catch, Keeps-decoded, Keeps-signed_in,
  Keeps-for_manager, managers_part,
)
