-- ===== src/Store/Settle.antt =====
-- What `SettleThrough` does to the activations.
use fast_bypass.Base.{
  ℕ, ◌+◌, ◌≡◌, refl, sym, ap, subst, ◌∙◌, Text, Bool, true, false, not, Option, none, some, List,
  [], ◌∷◌, ◌==◌, arith, Bool-cases, inl, inr, ◌⊎◌, &&_left,
}
use fast_bypass.Result.{Error, ⊤, ok, ask, bind-ok, ◌>>=◌, ◌>>◌}
use fast_bypass.Store.Rows.{VpnUserMeta, ProfileActivation, RenewalThrough}
use fast_bypass.Store.Tables.{Db, select, exists, update, count}
use fast_bypass.Store.Metas.{find_vpn_meta_by_id}
use fast_bypass.Store.Activations.{
  find_activation_by_id, settles, settled, settle_rows, settle_through, raise_error, scope_error,
}

-- The activations that are not settled.
abbrev pub unsettled : List ProfileActivation → ℕ
unsettled = count (λ a. not a.is_settled)

pub ok-injective : {X : Type 0} {a b : X} → ok a ≡ ok b → a ≡ b
ok-injective h = cc

not-true : {b : Bool} → not b ≡ true → b ≡ false
not-true {b = true} h = cc
not-true {b = false} h = refl

module _ (p : ProfileActivation → Bool)
    (open_only : (a : ProfileActivation) → p a ≡ true → a.is_settled ≡ false) (admin_id : ℕ)
    (now : Text) where
  unsettled-update :
      (rows : List ProfileActivation)
      → unsettled (update p (settled admin_id now) rows) + count p rows ≡ unsettled rows
  unsettled-update [] = omega arith
  unsettled-update (a ∷ rows) = ground (arith, unsettled-update rows, open_only a)

  count-update :
      (rows : List ProfileActivation) → count p (update p (settled admin_id now) rows) ≡ 0
  count-update [] = refl
  count-update (a ∷ rows) = ground (arith, count-update rows, open_only (settled admin_id now a))

  update_twice :
      (rows : List ProfileActivation)
      → update p (settled admin_id now) (update p (settled admin_id now) rows)
        ≡ update p (settled admin_id now) rows
  update_twice [] = refl
  update_twice (a ∷ rows) = ground (arith, update_twice rows, open_only (settled admin_id now a))

  pub exists-update :
      (rows : List ProfileActivation) → exists p (update p (settled admin_id now) rows) ≡ false
  exists-update [] = refl
  exists-update (a ∷ rows) = ground (arith, exists-update rows, open_only (settled admin_id now a))

  select-update :
      (id : ℕ) (rows : List ProfileActivation) (act : ProfileActivation)
      → select (λ (a : ProfileActivation). a.id == id) rows ≡ ok act
      → let found =
          select (λ (a : ProfileActivation). a.id == id) (update p (settled admin_id now) rows) in
        (found ≡ ok act) ⊎ (found ≡ ok (settled admin_id now act))
  select-update id [] act e = absurd (cc)
  select-update id (a ∷ rows) act e = elim (Bool-cases (a.id == id)) [
    | inl q ↦
        let same : a ≡ act = ok-injective (rw q at e) in
        elim (Bool-cases (p a)) [
          | inl t ↦ inr (rw t (rw q (ap (λ b. ok (settled admin_id now b)) same)))
          | inr t ↦ inl (rw t (rw q (ap ok same)))
        ]
    | inr q ↦
        let found = select-update id rows act (rw q at e) in
        elim (Bool-cases (p a)) [ inl t ↦ rw t (rw q found) | inr t ↦ rw t (rw q found) ]
  ]

pub settles-open :
    (t : RenewalThrough) (act : ProfileActivation) (metas : List VpnUserMeta)
    (a : ProfileActivation)
    → settles t act metas a ≡ true
    → a.is_settled ≡ false
settles-open t act metas a h = not-true (&&_left (not a.is_settled) _ (&&_left _ _ h))

pub settle_rows-ok :
    (admin_id : ℕ) (t : RenewalThrough) (act : ProfileActivation) (d d' : Db) {n : ℕ}
    → settle_rows admin_id t act d ≡ (ok n, d')
    → let p = settles t act d.vpn_user_meta in
      (n ≡ count p d.profile_activations)
      × (d' ≡ record d {
        profile_activations = update p (settled admin_id d.now) d.profile_activations;
      })
settle_rows-ok admin_id t act d d' h = ground arith

settle_rows_again :
    (admin_id : ℕ) (t : RenewalThrough) (act : ProfileActivation) (d : Db)
    → let p = settles t act d.vpn_user_meta in
      let d' : Db = record d {
        profile_activations = update p (settled admin_id d.now) d.profile_activations;
      } in
      settle_rows admin_id t act d' ≡ (ok 0, d')
settle_rows_again admin_id t act d =
    let p = settles t act d.vpn_user_meta in
    let fits = settles-open t act d.vpn_user_meta in
    rw (
      exists-update p fits admin_id d.now d.profile_activations,
      count-update p fits admin_id d.now d.profile_activations,
      update_twice p fits admin_id d.now d.profile_activations,
    )

raise_error-ok :
    (e : Option Error) (d d' : Db) → raise_error e d ≡ (ok tt, d') → (e ≡ none) × (d ≡ d')
raise_error-ok none d d' h = (refl, cc)
raise_error-ok (some e) d d' h = absurd (cc)

-- The four steps of a settlement that returned.
pub settle_through-ok :
    (admin_id : ℕ) (t : RenewalThrough) (d d' : Db) {n : ℕ}
    → settle_through admin_id t d ≡ (ok n, d')
    → (act : ProfileActivation) × (meta : VpnUserMeta) × (find_activation_by_id t.activation_id d
        ≡ ok act)
      × (find_vpn_meta_by_id act.vpn_user_meta_id d ≡ ok meta)
      × (scope_error t meta.manager_id ≡ none)
      × (settle_rows admin_id t act d ≡ (ok n, d'))
unfolding settle_through
settle_through-ok admin_id t d d' {n} h =
    let (act, d1, e1, h1) =
      bind-ok (ask (find_activation_by_id t.activation_id))
        (λ (act : ProfileActivation). ask (find_vpn_meta_by_id act.vpn_user_meta_id) >>= λ meta.
          raise_error (scope_error t meta.manager_id) >> settle_rows admin_id t act)
        d d' h in
    let (meta, d2, e2, h2) =
      bind-ok (ask (find_vpn_meta_by_id act.vpn_user_meta_id))
        (λ (meta : VpnUserMeta).
          raise_error (scope_error t meta.manager_id) >> settle_rows admin_id t act)
        d1 d' h1 in
    let (u, d3, e3, h3) =
      bind-ok (raise_error (scope_error t meta.manager_id)) (λ (u : ⊤). settle_rows admin_id t act)
        d2 d' h2 in
    let same1 : d ≡ d1 = ap (λ r. r.1) e1 in
    let same2 : d1 ≡ d2 = ap (λ r. r.1) e2 in
    let (quiet, same3) = raise_error-ok (scope_error t meta.manager_id) d2 d3 e3 in
    (
      act,
      meta,
      ap (λ r. r.0) e1,
      subst (λ x. find_vpn_meta_by_id act.vpn_user_meta_id x ≡ ok meta) (sym same1)
          (ap (λ r. r.0) e2),
      quiet,
      subst (λ x. settle_rows admin_id t act x ≡ (ok n, d')) (sym (same1 ∙ same2 ∙ same3)) h3,
    )

settle_through_of :
    (admin_id : ℕ) (t : RenewalThrough) (d : Db) (act : ProfileActivation) (meta : VpnUserMeta)
    → find_activation_by_id t.activation_id d ≡ ok act
    → find_vpn_meta_by_id act.vpn_user_meta_id d ≡ ok meta
    → scope_error t meta.manager_id ≡ none
    → settle_through admin_id t d ≡ settle_rows admin_id t act d
unfolding settle_through
settle_through_of admin_id t d act meta e1 e2 e3 = rw e1 (rw e2 (rw e3 refl))

-- Right after a settlement the same one finds its row and its user again, and nothing to settle.
again_after :
    (admin_id : ℕ) (t : RenewalThrough) (d : Db) (act : ProfileActivation) (meta : VpnUserMeta)
    → find_activation_by_id t.activation_id d ≡ ok act
    → find_vpn_meta_by_id act.vpn_user_meta_id d ≡ ok meta
    → scope_error t meta.manager_id ≡ none
    → let p = settles t act d.vpn_user_meta in
      let after : Db = record d {
        profile_activations = update p (settled admin_id d.now) d.profile_activations;
      } in
      settle_through admin_id t after ≡ (ok 0, after)
unfolding find_activation_by_id find_vpn_meta_by_id
again_after admin_id t d act meta e1 e2 e3 =
    let p = settles t act d.vpn_user_meta in
    let after : Db = record d {
      profile_activations = update p (settled admin_id d.now) d.profile_activations;
    } in
    elim (select-update p (settles-open t act d.vpn_user_meta) admin_id d.now t.activation_id
      d.profile_activations act e1) [
        | inl e ↦
            settle_through_of admin_id t after act meta e e2 e3 ∙ settle_rows_again admin_id t act d
        | inr e ↦
            settle_through_of admin_id t after (settled admin_id d.now act) meta e e2 e3
            ∙ settle_rows_again admin_id t act d
      ]

-- A settlement that returns n has settled n of the activations that were open, has left the users
-- alone, and finds nothing left to settle when it is run again.
pub settle_through_lem :
    (admin_id : ℕ) (t : RenewalThrough) (d d' : Db) {n : ℕ}
    → settle_through admin_id t d ≡ (ok n, d')
    → (unsettled d'.profile_activations + n ≡ unsettled d.profile_activations)
      × (d'.vpn_user_meta ≡ d.vpn_user_meta)
      × (settle_through admin_id t d' ≡ (ok 0, d'))
settle_through_lem admin_id t d d' {n} h =
    let (act, meta, e1, e2, e3, run) = settle_through-ok admin_id t d d' h in
    let (count_eq, db_eq) = settle_rows-ok admin_id t act d d' run in
    let p = settles t act d.vpn_user_meta in
    let fits = settles-open t act d.vpn_user_meta in
    let after : Db = record d {
      profile_activations = update p (settled admin_id d.now) d.profile_activations;
    } in
    subst
      (λ x.
        (unsettled x.profile_activations + n ≡ unsettled d.profile_activations)
        × (x.vpn_user_meta ≡ d.vpn_user_meta)
        × (settle_through admin_id t x ≡ (ok 0, x)))
      (sym db_eq)
      (
        rw count_eq (unsettled-update p fits admin_id d.now d.profile_activations),
        refl,
        again_after admin_id t d act meta e1 e2 e3,
      )
