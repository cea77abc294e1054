-- ===== src/App/Handlers/Bootstrap.antt =====
-- The admin of a new database, over the tables.
use fast_bypass.Base.{
  ℕ, ◌≡◌, ◌+◌, ◌<◌, refl, sym, ap, subst, ◌∙◌, Text, codes, text_eq, is_empty, Bool, true, ◌||◌,
  inl, inr, List, [], ◌∷◌, ◌++◌, Bool-cases, lt_int, int_half, arith, lt_int-ltb,
}
use fast_bypass.Result.{Result, ⊤, ok, bind-ok}
use fast_bypass.Password.{hash}
use fast_bypass.Store.{Db, PanelAdmin, count, exists, nocase_eq, admin_count, create_admin}
use fast_bypass.App.{App, on_tables, World, on_random, on_db}
use fast_bypass.App.Handlers.Session.{bootstrap_admin, created_admin}

abbrev any_admin : PanelAdmin → Bool
any_admin a = true

count-append :
    (l : List PanelAdmin) (a : PanelAdmin)
    → count (any_admin) (l ++ (a ∷ [])) ≡ count (any_admin) l + 1
count-append [] a = refl
count-append (b ∷ l) a = omega (arith, count-append l a)

-- An insertion that went through has added one admin.
create_admin-ok :
    (name h : Text) (d d' : Db) {x : ⊤}
    → create_admin name h d ≡ (ok x, d')
    → count (any_admin) d'.panel_admins ≡ count (any_admin) d.panel_admins + 1
unfolding create_admin
create_admin-ok name h d d' k =
    elim (Bool-cases (exists (λ (a : PanelAdmin). nocase_eq a.username name) d.panel_admins)) [
      | inl e ↦ absurd (ground (arith, k, e))
      | inr e ↦
          let m = rw e at k in
          sym (ap (λ (z : Result ⊤ × Db). count any_admin z.1.panel_admins) m)
          ∙ count-append d.panel_admins _
    ]

positive : (n : ℕ) → n + 1 < int_half → lt_int 0 (n + 1) ≡ true
positive n h = lt_int-ltb 0 (n + 1) (omega arith) h ∙ ground arith

module _ (A : App) where
  done_before :
      (w : World (on_tables A))
      → lt_int 0 (count (any_admin) w.db.panel_admins) ≡ true
      → bootstrap_admin (on_tables A) w ≡ (ok tt, w)
  unfolding bootstrap_admin admin_count
  done_before w e = rw e refl

  skipped :
      (w : World (on_tables A))
      → (is_empty A.cfg.admin_password || text_eq A.cfg.admin_password (codes "change-me")) ≡ true
      → bootstrap_admin (on_tables A) w ≡ (ok tt, w)
  unfolding bootstrap_admin admin_count
  skipped w e = elim (Bool-cases (lt_int 0 (count (any_admin) w.db.panel_admins))) [
    | inl q ↦ rw q refl
    | inr q ↦ rw (q, e) refl
  ]

  created-counts :
      (w w' : World (on_tables A))
      → created_admin (on_tables A) w ≡ (ok tt, w')
      → count (any_admin) w'.db.panel_admins ≡ count (any_admin) w.db.panel_admins + 1
  created-counts w w' k =
      let (h, v, e, j) =
        bind-ok (on_random (on_tables A) (hash A.bcrypt A.cfg.admin_password))
          (λ (h : Text). on_db (on_tables A) (create_admin A.cfg.admin_username h)) w w' k in
      create_admin-ok A.cfg.admin_username h v.db w'.db
        (ap (λ (z : Result ⊤ × World (on_tables A)). (z.0, z.1.db)) j)
      ∙ sym (
          ap (λ (z : Result Text × World (on_tables A)). count any_admin z.1.db.panel_admins + 1) e)

  again :
      (w w' : World (on_tables A))
      → bootstrap_admin (on_tables A) w ≡ (ok tt, w)
      → bootstrap_admin (on_tables A) w ≡ (ok tt, w')
      → bootstrap_admin (on_tables A) w' ≡ (ok tt, w')
  again w w' e k =
      let same : w ≡ w' = ap (λ (z : Result ⊤ × World (on_tables A)). z.1) (sym e ∙ k) in
      subst (λ x. bootstrap_admin (on_tables A) x ≡ (ok tt, x)) same e

  -- Where the start of the server has put the first admin in place, or has passed over that, a
  -- second start changes nothing more.
  pub bootstrap_admin_twice :
      (w w' : World (on_tables A))
      → count (any_admin) w.db.panel_admins + 1 < int_half
      → bootstrap_admin (on_tables A) w ≡ (ok tt, w')
      → bootstrap_admin (on_tables A) w' ≡ (ok tt, w')
  unfolding bootstrap_admin admin_count hash
  bootstrap_admin_twice w w' small k =
      elim (Bool-cases (lt_int 0 (count any_admin w.db.panel_admins))) [
        | inl q ↦ again w w' (done_before w q) k
        | inr q ↦
            elim (Bool-cases
              (is_empty A.cfg.admin_password || text_eq A.cfg.admin_password (codes "change-me"))) [
                | inl e ↦ again w w' (skipped w e) k
                | inr e ↦ done_before w' (
                    ap (λ n. lt_int 0 n) (created-counts w w' (rw (q, e) at k))
                    ∙ positive (count any_admin w.db.panel_admins) small)
              ]
      ]
