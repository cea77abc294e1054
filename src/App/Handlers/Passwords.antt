-- ===== src/App/Handlers/Passwords.antt =====
-- The change of a password, and the admin of a new database.
use fast_bypass.Base.{
  ℕ, ◌≡◌, refl, sym, ap, ◌∙◌, Text, true, none, some, inl, inr, List, Bool-cases,
}
use fast_bypass.Result.{Exec, Result, ⊤, ok, err}
use fast_bypass.Password.{Bcrypt, valid_panel, hash, check}
use fast_bypass.Store.{Manager}
use fast_bypass.Auth.{Claims, manager}
use fast_bypass.App.{App, World, Response, Code, error, no_content, internal, on_db}
use fast_bypass.App.Handlers.Account.{
  ChangePwReq, handle_change_password, manager_password_change, write_password,
}

error_is_no_content : {status : ℕ} {code : Code} → error status code ≡ no_content → ⊥
error_is_no_content h = absurd (cc)

-- A hash that was made of a password fits it.
pub record BcryptLaws (b : Bcrypt) : Type 0 where
  pub compare_generated :
      (plain h : Text) (s t : List ℕ)
      → b.generate_from_password plain s ≡ (ok h, t)
      → b.compare_hash_and_password h plain ≡ true

module _ (A : App) where
  -- A write that answered 204 went through, with a hash of the new password.
  write_password-no_content :
      (new : Text) (write : Text → Exec (World A) ⊤) (w w' : World A)
      → write_password A new write w ≡ (no_content, w')
      → (h : Text) × (s : List ℕ) × (hash A.bcrypt new w.random ≡ (ok h, s))
        × (write h (record w { random = s }) ≡ (ok tt, w'))
  write_password-no_content new write w w' k =
      go (hash A.bcrypt new w.random).0 (hash A.bcrypt new w.random).1 refl
    where
      wrote :
          (h : Text) (s : List ℕ) (x : Result ⊤) (v : World A)
          → hash A.bcrypt new w.random ≡ (ok h, s)
          → write h (record w { random = s }) ≡ (x, v)
          → write h (record w { random = s }) ≡ (ok tt, w')
      wrote h s (ok tt) v e j =
          let m : (no_content, v) ≡ (no_content, w') = rw (e, j) at k in
          j ∙ ap (λ (z : Response × World A). (ok tt, z.1)) m
      wrote h s (err x) v e j =
          let m : (error 500 internal, v) ≡ (no_content, w') = rw (e, j) at k in
          absurd (error_is_no_content (ap (λ z. z.0) m))

      go :
          (x : Result Text) (s : List ℕ)
          → hash A.bcrypt new w.random ≡ (x, s)
          → (h : Text) × (s : List ℕ) × (hash A.bcrypt new w.random ≡ (ok h, s))
            × (write h (record w { random = s }) ≡ (ok tt, w'))
      go (ok h) s e = (
        h,
        s,
        e,
        wrote h s (write h (record w { random = s })).0 (write h (record w { random = s })).1 e
            refl,
      )
      go (err x) s e = absurd (error_is_no_content (ap (λ z. z.0) (rw e at k)))

  found_manager :
      (c : Claims) (req : ChangePwReq) (found : Result Manager) (w w' : World A)
      → manager_password_change A c req found w ≡ (no_content, w')
      → (mgr : Manager) × (found ≡ ok mgr)
        × (check A.bcrypt mgr.password_hash req.current_password ≡ true)
        × (write_password A req.new_password
              (λ h. on_db A (A.store.update_manager c.manager_id none none none none (some h)))
              w
            ≡ (no_content, w'))
  found_manager c req (ok mgr) w w' k =
      elim (Bool-cases (check A.bcrypt mgr.password_hash req.current_password)) [
        | inl e ↦ (mgr, refl, e, rw e at k)
        | inr e ↦ absurd (error_is_no_content (ap (λ z. z.0) (rw e at k)))
      ]
  found_manager c req (err x) w w' k = absurd (error_is_no_content (ap (λ z. z.0) k))

  -- A manager's change of the password that is answered 204 was sent the right current password
  -- and a new one that is valid, and has written a hash that fits the new one to his row, and
  -- nothing else.
  pub handle_change_password-no_content :
      (L : BcryptLaws A.bcrypt) (c : Claims) (req : ChangePwReq) (w w' : World A)
      → c.role ≡ manager
      → handle_change_password A (some c) (some req) w ≡ (no_content, w')
      → (mgr : Manager) × (h : Text) × (A.store.find_manager_by_id c.manager_id w.db ≡ ok mgr)
        × (check A.bcrypt mgr.password_hash req.current_password ≡ true)
        × (valid_panel A.unicode req.new_password ≡ true)
        × (check A.bcrypt h req.new_password ≡ true)
        × (A.store.update_manager c.manager_id none none none none (some h) w.db ≡ (ok tt, w'.db))
        × (w'.router ≡ w.router)
  unfolding handle_change_password hash check
  handle_change_password-no_content L c req w w' role k =
      elim (Bool-cases (valid_panel A.unicode req.new_password)) [
        | inl valid ↦
            let k' : manager_password_change A c req (A.store.find_manager_by_id c.manager_id w.db)
                  w
                ≡ (no_content, w') =
              rw (valid, role) at k in
            let (mgr, e, right, run) =
              found_manager c req (A.store.find_manager_by_id c.manager_id w.db) w w' k' in
            let (h, s, hashed, wrote) = write_password-no_content req.new_password _ w w' run in
            (
              mgr,
              h,
              e,
              right,
              valid,
              L.compare_generated req.new_password h w.random s hashed,
              ap (λ (z : Result ⊤ × World A). (z.0, z.1.db)) wrote,
              sym (ap (λ (z : Result ⊤ × World A). z.1.router) wrote),
            )
        | inr bad ↦ absurd (error_is_no_content (ap (λ z. z.0) (rw bad at k)))
      ]
