-- ===== src/App/Keeps/Reads.antt =====
-- What only reads the database keeps any condition on it.
use fast_bypass.Base.{ℕ, List, [], ◌∷◌}
use fast_bypass.Mikrotik.{User}
use fast_bypass.Owner.{Registry}
use fast_bypass.Quota.{TimeFormats, used_for_manager, used_from}
use fast_bypass.App.State.{App, on_router}
use fast_bypass.App.Service.{manager_used_quota}
use fast_bypass.App.Keeps.{Keeps, keeps_rules}

module _ {A : App} {Q : A.store.State → Type 0} where
  used_from-Keeps :
      (t : TimeFormats) (reg : Registry) (now id used : ℕ) (us : List User)
      → Keeps A Q
          (used_from t reg (λ name. on_router A (A.mt.list_user_profiles name)) now id used us)
  unfolding used_from
  used_from-Keeps t reg now id used [] = search keeps_rules
  used_from-Keeps t reg now id used (u ∷ us) =
      let ih = λ (n : ℕ). used_from-Keeps t reg now id n us in search (keeps_rules, ih) depth 8

  pub manager_used_quota-Keeps : (id : ℕ) → Keeps A Q (manager_used_quota A id)
  unfolding manager_used_quota used_for_manager
  manager_used_quota-Keeps id = search (keeps_rules, used_from-Keeps) depth 8
