-- ===== src/Startup/Boots.antt =====
-- What a start of the API promises.
use project_6_document_class.Base.{
  String, true, ◌==◌, ◌≡◌, ◌≢◌, refl, sym, ◌∙◌, ap, ◌⊎◌, inl, inr, ◌↔◌, List, [], ◌∷◌, Option, none,
  some, arith, eq_iff, Bool-cases,
}
use project_6_document_class.Classifier.{
  Integrity, intact, weights_missing, card_missing, sha256_mismatch, top1_too_low,
  verify_model_integrity, or_else,
}
use project_6_document_class.Vault.{
  Secret, value, auth_failed, not_in_environment, unreadable, not_in_vault, get_secret, unset,
  get_secret_memo,
}
use project_6_document_class.Startup.{
  Found, Process, Policies, Rules, State, started, outside, is_dev, init_casbin_enforcer,
  get_jwt_strategy, lifespan, with_model, after_secret, with_secret, with_file, with_enforcer,
  with_redis,
}

-- What the start needs, and what it leaves.
abbrev pub IsReady : Found → Process → State → Process → Type 0
IsReady f p s q =
    (verify_model_integrity f.model_files ≡ intact)
    × (get_secret (outside f) "JWT_SECRET" p.client ≡ (value s.jwt_secret, q.client))
    × (s.jwt_secret ≢ "")
    × ((line : String) × (lines : List String) × (f.policy_file ≡ some (line ∷ lines))
        × (init_casbin_enforcer f (line ∷ lines) p.policies ≡ some (s.enforcer, q.policies)))
    × (s.redis ≡ f.redis)
    × ((f.redis ≡ true) ⊎ (is_dev f ≡ true))

module _ (f : Found) where
  with_redis_iff :
      (secret : String) (rules : Rules) (s : State)
      → (with_redis f secret rules ≡ started s) ↔ (
          (s.jwt_secret ≡ secret)
          × (s.enforcer ≡ rules)
          × (s.redis ≡ f.redis)
          × ((f.redis ≡ true) ⊎ (is_dev f ≡ true)))
  with_redis_iff secret rules s = ground arith

  -- A start that runs through every stage.
  ready_starts :
      (p : Process) (s : State) (q : Process) → IsReady f p s q → lifespan f p ≡ (started s, q)
  unfolding lifespan
  ready_starts p s q (intact_model, secret, given, (line, lines, file, opened), on, allowed) =
      ap (with_model f p) intact_model
      ∙ ap (after_secret f p) secret
      ∙ ground (arith, eq_iff s.jwt_secret "", given, file, opened, on, allowed)

  enforcer_ready :
      (secret : String) (p : Process) (m : Option (Rules × Policies)) (s : State) (q : Process)
      → with_enforcer f secret p m ≡ (started s, q)
      → (m ≡ some (s.enforcer, q.policies))
        × (s.jwt_secret ≡ secret)
        × (q.client ≡ p.client)
        × (s.redis ≡ f.redis)
        × ((f.redis ≡ true) ⊎ (is_dev f ≡ true))
  enforcer_ready secret p none s q h = absurd (ground (arith, h))
  enforcer_ready secret p (some (rules, policies)) s q h =
      let (a, b, c, d) = (with_redis_iff secret rules s).0 (ap (λ x. x.0) h) in
      (ground (arith, b, h), a, ground (arith, h), c, d)

  file_ready :
      (secret : String) (p : Process) (m : Option (List String)) (s : State) (q : Process)
      → with_file f secret p m ≡ (started s, q)
      → (line : String) × (lines : List String) × (m ≡ some (line ∷ lines))
        × (with_enforcer f secret p (init_casbin_enforcer f (line ∷ lines) p.policies)
            ≡ (started s, q))
  file_ready secret p none s q h = absurd (ground (arith, h))
  file_ready secret p (some []) s q h = absurd (ground (arith, h))
  file_ready secret p (some (line ∷ lines)) s q h = (line, lines, refl, h)

  secret_ready :
      (p : Process) (found : Secret) (s : State) (q : Process)
      → with_secret f p found ≡ (started s, q)
      → (secret : String) × (found ≡ value secret)
        × (secret ≢ "")
        × (with_file f secret p f.policy_file ≡ (started s, q))
  secret_ready p (value secret) s q h = elim (Bool-cases (secret == "")) [
    | inl e ↦ absurd (ground (arith, e, h))
    | inr e ↦ (secret, refl, λ k. ground (arith, e, eq_iff secret ""), rw e at h)
  ]
  secret_ready p auth_failed s q h = absurd (ground (arith, h))
  secret_ready p not_in_environment s q h = absurd (ground (arith, h))
  secret_ready p unreadable s q h = absurd (ground (arith, h))
  secret_ready p not_in_vault s q h = absurd (ground (arith, h))

  model_ready :
      (p : Process) (m : Integrity) (s : State) (q : Process)
      → with_model f p m ≡ (started s, q)
      → (m ≡ intact) × (with_model f p intact ≡ (started s, q))
  model_ready p intact s q h = (refl, h)
  model_ready p weights_missing s q h = absurd (ground (arith, h))
  model_ready p card_missing s q h = absurd (ground (arith, h))
  model_ready p sha256_mismatch s q h = absurd (ground (arith, h))
  model_ready p top1_too_low s q h = absurd (ground (arith, h))

  starts-IsReady :
      (p : Process) (s : State) (q : Process) → lifespan f p ≡ (started s, q) → IsReady f p s q
  unfolding lifespan
  starts-IsReady p s q h =
      let (m, h₁) = model_ready p (verify_model_integrity f.model_files) s q h in
      let g = get_secret (outside f) "JWT_SECRET" p.client in
      let (secret, found, given, h₂) = secret_ready (record p { client = g.1 }) g.0 s q h₁ in
      let (line, lines, file, h₃) =
        file_ready secret (record p { client = g.1 }) f.policy_file s q h₂ in
      let (opened, same, client, on, allowed) =
        enforcer_ready secret (record p { client = g.1 })
          (init_casbin_enforcer f (line ∷ lines) p.policies) s q h₃ in
      (
        m,
        ground (arith, found, same, client),
        λ e. given (sym same ∙ e),
        (line, lines, file, opened),
        on,
        allowed,
      )

  -- A start of the API ends with a state and leaves a process exactly if the integrity check of
  -- the model passes, Vault or the environment gives a JWT secret that is not empty, the policy
  -- file is there with a line, the enforcer is set up from the stored policy or from the file,
  -- and Redis is set up or the process is in development mode; the state has that secret, those
  -- rules, and Redis exactly where it was set up.
  pub lifespan_lem :
      (p : Process) (s : State) (q : Process) → (lifespan f p ≡ (started s, q)) ↔ IsReady f p s q
  lifespan_lem p s q = (starts-IsReady p s q, ready_starts p s q)

-- After a start of a new process, if the lifetime is a number and Vault and the environment
-- answer as they did at the start, the strategy of a later login signs with the very secret that
-- the start has checked, whether it comes from Vault or from the environment.
pub jwt_after_start :
    {Number : Type 0} (int : String → Option Number) (f later : Found) (policies : Policies)
    (s : State) (q : Process) {seconds : Number}
    → lifespan f (record { client = unset; policies = policies }) ≡ (started s, q)
    → outside later ≡ outside f
    → int (or_else "86400" (later.getenv "JWT_LIFETIME_SECONDS")) ≡ some seconds
    → get_jwt_strategy int later q ≡ some (s.jwt_secret, seconds)
unfolding get_jwt_strategy
jwt_after_start int f later policies s q h unchanged lifetime =
    let p : Process = record { client = unset; policies = policies } in
    let (_, secret, _, _, _, _) = (lifespan_lem f p s q).0 h in
    let again : (get_secret (outside later) "JWT_SECRET" q.client).0 ≡ value s.jwt_secret =
      ap (λ o. (get_secret o "JWT_SECRET" q.client).0) unchanged
      ∙ ap (λ c. (get_secret (outside f) "JWT_SECRET" c).0) (sym (ap (λ x. x.1) secret))
      ∙ get_secret_memo (outside f) "JWT_SECRET" "JWT_SECRET"
      ∙ ap (λ x. x.0) secret in
    ground (arith, again, lifetime)
