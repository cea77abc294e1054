-- ===== src/App/Handlers/Unchanged.antt =====
-- What a change of a manager that is answered with an error leaves in the database.
use fast_bypass.Base.{
  ℕ, ◌≡◌, refl, sym, ap, ◌∙◌, Text, trim_space, is_empty, Bool, true, false, not, Option, none,
  some, ◌==◌, lt_int, arith, if◌then◌else◌,
}
use fast_bypass.Result.{Exec, Result, ⊤, Error, ok, err, no_rows}
use fast_bypass.Password.{valid_panel, hash}
use fast_bypass.Store.{Manager, Db, update_manager, find_manager_by_id}
use fast_bypass.App.{
  App, on_tables, World, Response, Code, Handler, error, internal, answer, tried, catch, handled,
  query, on_random,
}
use fast_bypass.App.Keeps.{Keeps, Keeps-query, Keeps-on_random, Keeps-pure}
use fast_bypass.App.Keeps.Reads.{manager_used_quota-Keeps}
use fast_bypass.App.Handlers.{
  PatchManagerReq, handle_patch_manager, username_step, taken_by, quota_step, password_step,
  update_step, shown, find_error, title_change, cert_error,
}

module _ {A : App} where
  -- An answer that is an error has left the database as it was.
  pub record LeavesDb (h : Handler A) : Type 0 where
    pub on_error :
        (w w' : World A) (status : ℕ) (c : Code) → h w ≡ (error status c, w') → w'.db ≡ w.db

  LeavesDb-answer : (r : Response) → LeavesDb (answer A r)
  LeavesDb-answer r = record { on_error = λ w w' s c h. ap (λ z. z.1.db) (sym h) }

  LeavesDb-if :
      (b : Bool) (m n : Handler A) → LeavesDb m → LeavesDb n → LeavesDb (if b then m else n)
  LeavesDb-if true m n k l = k
  LeavesDb-if false m n k l = l

  LeavesDb-tried :
      {X : Type 0} (m : Exec (World A) X) (rest : Result X → Handler A)
      → ((d : A.store.State) → Keeps A (λ x. x ≡ d) m)
      → ((r : Result X) → LeavesDb (rest r))
      → LeavesDb (tried A m rest)
  LeavesDb-tried m rest k l = record {
    on_error = λ w w' s c h. (l (m w).0).on_error (m w).1 w' s c h ∙ (k w.db).at w refl;
  }

  LeavesDb-handled :
      {X : Type 0} (r : Result X) (f : Error → Response) (rest : X → Handler A)
      → ((x : X) → LeavesDb (rest x))
      → LeavesDb (handled A r f rest)
  LeavesDb-handled (ok x) f rest l = l x
  LeavesDb-handled (err e) f rest l = LeavesDb-answer (f e)

  LeavesDb-catch :
      {X : Type 0} (m : Exec (World A) X) (f : Error → Response) (rest : X → Handler A)
      → ((d : A.store.State) → Keeps A (λ x. x ≡ d) m)
      → ((x : X) → LeavesDb (rest x))
      → LeavesDb (catch A m f rest)
  LeavesDb-catch m f rest k l =
      LeavesDb-tried m (λ r. handled A r f rest) k λ r. LeavesDb-handled r f rest l

  taken_by-LeavesDb :
      (id : ℕ) (u : Text) (rest : Option Text → Handler A) (r : Result Manager)
      → ((o : Option Text) → LeavesDb (rest o))
      → LeavesDb (taken_by A id u rest r)
  taken_by-LeavesDb id u rest (ok m) l =
      LeavesDb-if (not (m.id == id)) _ _ (LeavesDb-answer _) (l (some u))
  taken_by-LeavesDb id u rest (err no_rows) l = l (some u)
  taken_by-LeavesDb id u rest (err e) l = LeavesDb-answer (error 500 internal)

  username_step-LeavesDb :
      (id : ℕ) (n : Option Text) (rest : Option Text → Handler A)
      → ((o : Option Text) → LeavesDb (rest o))
      → LeavesDb (username_step A id n rest)
  username_step-LeavesDb id none rest l = l none
  username_step-LeavesDb id (some n) rest l =
      LeavesDb-if (is_empty (trim_space n)) _ _ (LeavesDb-answer _) (
        LeavesDb-tried (query A (A.store.find_manager_by_username (trim_space n))) _
          (λ d. Keeps-query (A.store.find_manager_by_username (trim_space n)))
          λ r. taken_by-LeavesDb id (trim_space n) rest r l)

  quota_step-LeavesDb :
      (id : ℕ) (q : Option ℕ) (rest : Handler A) → LeavesDb rest → LeavesDb (quota_step A id q rest)
  quota_step-LeavesDb id none rest l = l
  quota_step-LeavesDb id (some q) rest l =
      LeavesDb-catch _ _ _ (λ d. manager_used_quota-Keeps id)
        λ used. LeavesDb-if (lt_int q used) _ _ (LeavesDb-answer _) l

  password_step-LeavesDb :
      (p : Option Text) (rest : Option Text → Handler A)
      → ((o : Option Text) → LeavesDb (rest o))
      → LeavesDb (password_step A p rest)
  password_step-LeavesDb none rest l = l none
  password_step-LeavesDb (some p) rest l = LeavesDb-if (is_empty (trim_space p)) _ _ (l none) (
      LeavesDb-if (not (valid_panel A.unicode (trim_space p))) _ _ (LeavesDb-answer _) (
        LeavesDb-catch (on_random A (hash A.bcrypt (trim_space p))) (λ _. error 500 internal) _
          (λ d. Keeps-on_random (hash A.bcrypt (trim_space p))) λ h. l (some h)))

  -- Once the row is written, the answer is the manager or a panic.
  shown_no_error :
      (r : Result Manager) (w w' : World A) (s : ℕ) (c : Code) → shown A r w ≡ (error s c, w') → ⊥
  shown_no_error (ok m) w w' s c h = absurd (cc (ap (λ z. z.0) h))
  shown_no_error (err e) w w' s c h = absurd (cc (ap (λ z. z.0) h))

update_manager-err :
    (id : ℕ) (u n : Option Text) (q : Option ℕ) (a : Option Bool) (k : Option Text) (d d' : Db)
    (e : Error)
    → update_manager id u n q a k d ≡ (err e, d')
    → d' ≡ d
unfolding update_manager
update_manager-err id u n q a k d d' e h = ground (arith, h)

module _ (A : App) where
  update_step-LeavesDb :
      (id : ℕ) (req : PatchManagerReq) (u h : Option Text)
      → LeavesDb (update_step (on_tables A) id req u h)
  update_step-LeavesDb id req u h = record {
    on_error = λ w w' s c k.
        go w w' s c (update_manager id u req.display_name req.quota req.is_active h w.db) refl k;
  }
    where
      go :
          (w w' : World (on_tables A)) (s : ℕ) (c : Code) (x : Result ⊤ × Db)
          → update_manager id u req.display_name req.quota req.is_active h w.db ≡ x
          → handled
              (on_tables A)
              x.0
              find_error
              (λ _.
                tried
                  (on_tables A)
                  (query (on_tables A) (find_manager_by_id id))
                  (shown (on_tables A)))
              (record w { db = x.1 })
            ≡ (error s c, w')
          → w'.db ≡ w.db
      go w w' s c (err e, d) same k =
          ap (λ z. z.1.db) (sym k)
          ∙ update_manager-err id u req.display_name req.quota req.is_active h w.db d e same
      go w w' s c (ok t, d) same k =
          absurd (shown_no_error (find_manager_by_id id d) (record w { db = d }) w' s c k)

  -- Over the tables, a change of a manager that does not ask for another certificate title and is
  -- answered with an error, of whatever status, has left the database as it was.
  pub patch_manager-unchanged :
      (id : ℕ) (req : PatchManagerReq) (w w' : World (on_tables A)) (status : ℕ) (c : Code)
      → req.cert_title ≡ none
      → handle_patch_manager (on_tables A) id (some req) w ≡ (error status c, w')
      → w'.db ≡ w.db
  unfolding handle_patch_manager
  patch_manager-unchanged id req w w' status c untitled h =
      (LeavesDb-catch (query (on_tables A) (find_manager_by_id id)) find_error _
          (λ d. Keeps-query _)
          λ cur. rw untitled (
            LeavesDb-catch {X = ⊤} (title_change (on_tables A) cur none) cert_error _
              (λ d. Keeps-pure tt)
              λ _. username_step-LeavesDb id req.username _ λ name.
                quota_step-LeavesDb id req.quota _ (
                  password_step-LeavesDb req.password _
                    (update_step-LeavesDb id req name)))).on_error
        w w' status c h
