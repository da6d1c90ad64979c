-- ===== src/Settings/Required.antt =====
-- What Load of backend/config/config.go requires.
use text.Mathlib.TextEquality.{eq_iff}
use distributed_benchmark_pl.Base.{
  ℕ, String, true, false, Option, none, str_eq, ◌≡◌, ◌⊎◌, ◌≢◌, refl, inl, inr, sym, ◌∙◌, Bool-cases,
  Option-cases,
}
use distributed_benchmark_pl.Settings.{Env, get_env}
use distributed_benchmark_pl.Settings.Loading.{
  Settings, LoadResult, loaded, panicked, refused, Weights, Durations, require_env, duration,
  settings_of, with_durations, load,
}

-- The texts that must be there are.
pub record Filled {F : Type 0} (c : Settings F) : Type 0 where
  pub secret_key : c.secret_key ≢ ""
  pub postgres_db : c.postgres_db ≢ ""
  pub postgres_user : c.postgres_user ≢ ""
  pub postgres_password : c.postgres_password ≢ ""
  pub jwt_secret : c.jwt_secret ≢ ""

module _ {F : Type 0} (parse_float : String → Option F) (parse_duration : String → Option ℕ)
    (w : Weights F) (env : Env) where
  -- Settings with what is required, a panic about a variable without value, or an error about one whose
  -- value, or the default that stands for it, is no duration.
  abbrev pub Loads : LoadResult F → Type 0
  Loads r =
      ((c : Settings F) × (r ≡ loaded c) × Filled c)
      ⊎ (((key : String) × (r ≡ panicked key) × (env key ≡ ""))
          ⊎ ((key : String) × (fallback : String) × (r ≡ refused key)
              × (parse_duration (get_env env key fallback) ≡ none)))

  require_env-Loads :
      (key : String) (go_on : String → LoadResult F)
      → (env key ≢ "" → Loads (go_on (env key)))
      → Loads (require_env parse_float parse_duration w env key go_on)
  unfolding require_env
  require_env-Loads key go_on h = elim (Bool-cases (str_eq (env key) "")) [
    | inl empty ↦ rw empty (inr (inl (key, refl, (eq_iff (env key) "").0 empty)))
    | inr other ↦
        rw other (h (λ e. let wrong : false ≡ true = sym other ∙ (eq_iff (env key) "").1 e in cc))
  ]

  duration-Loads :
      (key fallback : String) (go_on : ℕ → LoadResult F)
      → ((d : ℕ) → Loads (go_on d))
      → Loads (duration parse_float parse_duration w env key fallback go_on)
  unfolding duration
  duration-Loads key fallback go_on h =
      elim (Option-cases (parse_duration (get_env env key fallback))) [
        | inl bad ↦ rw (duration, bad) (inr (inr (key, fallback, refl, bad)))
        | inr (d, good) ↦ rw (duration, good) (h d)
      ]

  with_durations-Loads :
      (go_on : Durations → LoadResult F)
      → ((d : Durations) → Loads (go_on d))
      → Loads (with_durations parse_float parse_duration w env go_on)
  unfolding with_durations
  with_durations-Loads go_on h = duration-Loads _ _ _ (λ a. duration-Loads _ _ _ (λ b.
      duration-Loads _ _ _ (λ c. duration-Loads _ _ _ (λ d.
        duration-Loads _ _ _ (λ e. duration-Loads _ _ _ (λ f. duration-Loads _ _ _ (λ g. h _)))))))

  -- Load gives settings in which the secrets and the names for the database are not empty; or it panics, and
  -- the variable that the panic names has no value; or it returns an error, and ParseDuration refuses the value
  -- of the variable that the error names, or the default that stands for it.
  pub load-Loads : Loads (load parse_float parse_duration w env)
  unfolding load settings_of
  load-Loads = require_env-Loads _ _ (λ secret. require_env-Loads _ _ (λ db.
      require_env-Loads _ _ (λ user. require_env-Loads _ _ (λ password.
        require_env-Loads _ _ (λ jwt. with_durations-Loads _ (λ d. inl (
          _,
          refl,
          record {
            secret_key = secret;
            postgres_db = db;
            postgres_user = user;
            postgres_password = password;
            jwt_secret = jwt;
          },
        )))))))
