-- ===== src/App/Handlers/Settlement.antt =====
-- The admin's list of renewals after a settlement of the same scope.
use fast_bypass.Base.{
  ℕ, ◌≡◌, refl, sym, ap, subst, ◌∙◌, codes, text_eq, Bool, true, false, ◌&&◌, ◌||◌, not, Option,
  none, some, List, [], ◌∷◌, ◌++◌, ◌==◌, lt_int, Bool-cases, inl, inr, arith,
}
use fast_bypass.Result.{Result, ok, err}
use fast_bypass.Store.{
  Db, VpnUserMeta, ProfileActivation, Joined, select, exists, update, where_rows, join, joined,
  place, newest_first, renewal_where, in_scope_rows, owner_matches, settled_matches, settles,
  settled, in_scope, settle_through, text_lt, find_activation_by_id,
}
use fast_bypass.Store.Settle.{
  ok-injective, exists-update, settles-open, settle_rows-ok, settle_through-ok,
}
use fast_bypass.App.Handlers.Renewals.{RenewalsQuery, admin_filter, through_of}

-- The property holds of every row.
abbrev pub AllRows : (Joined → Type 0) → List Joined → Type 0
AllRows P [] = Unit
AllRows P (r ∷ rows) = P r × AllRows P rows

AllRows-append :
    (P : Joined → Type 0) (k l : List Joined) → AllRows P k → AllRows P l → AllRows P (k ++ l)
AllRows-append P [] l hk hl = hl
AllRows-append P (x ∷ k) l hk hl = (hk.0, AllRows-append P k l hk.1 hl)

AllRows-place :
    (P : Joined → Type 0) (r : Joined) (rows : List Joined)
    → P r
    → AllRows P rows
    → AllRows P (place r rows)
AllRows-place P r [] h k = (h, tt)
AllRows-place P r (s ∷ rows) h k = elim (Bool-cases (text_lt (r.0).created_at (s.0).created_at)) [
  | inl e ↦ rw e (k.0, AllRows-place P r rows h k.1)
  | inr e ↦ rw e (h, k)
]

AllRows-newest_first :
    (P : Joined → Type 0) (rows : List Joined) → AllRows P rows → AllRows P (newest_first rows)
AllRows-newest_first P [] h = tt
AllRows-newest_first P (r ∷ rows) h =
    AllRows-place P r (newest_first rows) h.0 (AllRows-newest_first P rows h.1)

AllRows-where :
    (P R : Joined → Type 0) (p : Joined → Bool)
    → ((r : Joined) → p r ≡ true → P r → R r)
    → (rows : List Joined) → AllRows P rows
    → AllRows R (where_rows p rows)
AllRows-where P R p k [] h = tt
AllRows-where P R p k (r ∷ rows) h = elim (Bool-cases (p r)) [
  | inl e ↦ rw e (k r e h.0, AllRows-where P R p k rows h.1)
  | inr e ↦ rw e (AllRows-where P R p k rows h.1)
]

-- A row of the join: the condition does not hold of the activation, and the user is its user.
abbrev Unmet : (ProfileActivation → Bool) → List VpnUserMeta → Joined → Type 0
Unmet p metas r =
    (p r.0 ≡ false) × (select (λ (v : VpnUserMeta). v.id == (r.0).vpn_user_meta_id) metas ≡ ok r.1)

joined-Unmet :
    (p : ProfileActivation → Bool) (metas : List VpnUserMeta) (a : ProfileActivation)
    (found : Result VpnUserMeta)
    → p a ≡ false
    → select (λ (v : VpnUserMeta). v.id == a.vpn_user_meta_id) metas ≡ found
    → AllRows (Unmet p metas) (joined a found)
joined-Unmet p metas a (ok v) h e = ((h, e), tt)
joined-Unmet p metas a (err x) h e = tt

||-false : (a b : Bool) → (a || b) ≡ false → (a ≡ false) × (b ≡ false)
||-false true b h = absurd (cc)
||-false false b h = (refl, h)

join-Unmet :
    (p : ProfileActivation → Bool) (metas : List VpnUserMeta) (acts : List ProfileActivation)
    → exists p acts ≡ false
    → AllRows (Unmet p metas) (join metas acts)
join-Unmet p metas [] h = tt
join-Unmet p metas (a ∷ acts) h =
    let (h0, h1) = ||-false (p a) (exists p acts) h in
    AllRows-append (Unmet p metas) _ (join metas acts)
      (joined-Unmet p metas a (select (λ (v : VpnUserMeta). v.id == a.vpn_user_meta_id) metas) h0
        refl)
      (join-Unmet p metas acts h1)

select-exists :
    (id : ℕ) (q : Option ℕ → Bool) (metas : List VpnUserMeta) (v : VpnUserMeta)
    → select (λ (m : VpnUserMeta). m.id == id) metas ≡ ok v
    → q v.manager_id ≡ true
    → exists (λ (m : VpnUserMeta). m.id == id && q m.manager_id) metas ≡ true
select-exists id q [] v e h = absurd (cc)
select-exists id q (m ∷ metas) v e h = elim (Bool-cases (m.id == id)) [
  | inl k ↦
      let same : m ≡ v = ok-injective (rw k at e) in
      rw k (rw (ap (λ (x : VpnUserMeta). q x.manager_id) same ∙ h) refl)
  | inr k ↦ rw k (select-exists id q metas v (rw k at e) h)
]

-- The scopes of the list and of the settlement are the same.
in_scope-admin_filter :
    (q : RenewalsQuery) (id : ℕ) (v : VpnUserMeta)
    → owner_matches (admin_filter q) v ≡ in_scope (through_of id q.manager_id) v.manager_id
in_scope-admin_filter q id v = go q.manager_id refl
  where
    go :
        (m : Option ℕ)
        → q.manager_id ≡ m
        → owner_matches (admin_filter q) v ≡ in_scope (through_of id q.manager_id) v.manager_id
    go none e = rw e refl
    go (some n) e = rw e refl

-- The activation comes after the other one in the order of a settlement: by time, then by id.
abbrev pub IsLater : ProfileActivation → ProfileActivation → Type 0
IsLater act a =
    (text_lt a.created_at act.created_at
      || text_eq a.created_at act.created_at && not (lt_int act.id a.id))
    ≡ false

three_true : (x y z : Bool) → (x && y && z) ≡ false → x ≡ true → y ≡ true → z ≡ false
three_true x y z h p q = ground arith

both_true : (x y z : Bool) → (x && (y && z)) ≡ true → (x ≡ true) × (y ≡ true)
both_true x y z h = (ground arith, ground arith)

module _ (q : RenewalsQuery) (id : ℕ) (act : ProfileActivation) (metas : List VpnUserMeta)
    (not_settled : text_eq q.settled (codes "settled") ≡ false)
    (not_all : text_eq q.settled (codes "all") ≡ false) where
  shown-IsLater :
      (r : Joined)
      → renewal_where (admin_filter q) r.0 r.1 ≡ true
      → Unmet (settles (through_of id q.manager_id) act metas) metas r
      → IsLater act r.0
  unfolding renewal_where
  shown-IsLater r shown unmet =
      let t = through_of id q.manager_id in
      let (owned, shown_open) =
        both_true (owner_matches (admin_filter q) r.1) (settled_matches q.settled (r.0).is_settled)
          _ shown in
      let still_open : not (r.0).is_settled ≡ true = rw (not_settled, not_all) at shown_open in
      let here =
        select-exists (r.0).vpn_user_meta_id (in_scope t) metas r.1 unmet.1
          (sym (in_scope-admin_filter q id r.1) ∙ owned) in
      three_true (not (r.0).is_settled)
        (exists (λ (m : VpnUserMeta). m.id == (r.0).vpn_user_meta_id && in_scope t m.manager_id)
          metas)
        _ unmet.0 still_open here

-- Once an admin has settled a scope through an activation, his list of the open renewals of the
-- same scope shows only activations after that one, whatever else he filters by.
pub settle_through-IsLater :
    (admin_id id : ℕ) (q : RenewalsQuery) (d d' : Db) {n : ℕ}
    → text_eq q.settled (codes "settled") ≡ false
    → text_eq q.settled (codes "all") ≡ false
    → settle_through admin_id (through_of id q.manager_id) d ≡ (ok n, d')
    → (act : ProfileActivation) × (find_activation_by_id
          (through_of id q.manager_id).activation_id
          d
        ≡ ok act)
      × AllRows (λ r. IsLater act r.0) (in_scope_rows (admin_filter q) d')
unfolding in_scope_rows
settle_through-IsLater admin_id id q d d' no_settled no_all h =
    let t = through_of id q.manager_id in
    let (act, meta, e1, e2, e3, run) = settle_through-ok admin_id t d d' h in
    let (count_eq, db_eq) = settle_rows-ok admin_id t act d d' run in
    let p = settles t act d.vpn_user_meta in
    let rows = update p (settled admin_id d.now) d.profile_activations in
    let none_left =
      exists-update p (settles-open t act d.vpn_user_meta) admin_id d.now d.profile_activations in
    (
      act,
      e1,
      subst (λ (x : Db). AllRows (λ r. IsLater act r.0) (in_scope_rows (admin_filter q) x))
          (sym db_eq)
          (AllRows-newest_first (λ r. IsLater act r.0) _
            (AllRows-where (Unmet p d.vpn_user_meta) (λ r. IsLater act r.0)
              (λ (r : Joined). renewal_where (admin_filter q) r.0 r.1)
              (shown-IsLater q id act d.vpn_user_meta no_settled no_all) (join d.vpn_user_meta rows)
              (join-Unmet p d.vpn_user_meta rows none_left))),
    )
