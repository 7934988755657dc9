-- ===== src/Startup/Restarts.antt =====
-- The policy that the enforcer of the API has after restarts.
use project_6_document_class.Base.{
  String, true, ◌==◌, ◌≡◌, ◌≢◌, refl, sym, ◌∙◌, ap, inl, inr, List, [], ◌∷◌, Option, none, some,
  arith, eq_iff, eq_refl, Option-cases, Bool-cases, exists, subst,
}
use project_6_document_class.Domain.{Role, admin, role_value}
use project_6_document_class.Casbin.{load_policy, enforce, policy_csv}
use project_6_document_class.Casbin.Matrix.{Endpoint, object, action, permits, policy_table}
use project_6_document_class.Classifier.{
  Integrity, intact, weights_missing, card_missing, sha256_mismatch, top1_too_low,
  verify_model_integrity,
}
use project_6_document_class.Vault.{
  Secret, value, auth_failed, not_in_environment, unreadable, not_in_vault, unset, get_secret,
}
use project_6_document_class.Startup.{
  Found, Process, Policies, Rules, State, started, outside, init_casbin_enforcer, lifespan,
  with_model, with_secret, with_file, with_enforcer, sync_url, save_policy, at_url, seeded, restart,
}
use project_6_document_class.Startup.Boots.{lifespan_lem}

-- The database at this address holds these rules, of which there is one.
module _ (url : String) (rule : List String) (rules : Rules) where
  abbrev Holds : Policies → Type 0
  Holds policies = policies url ≡ some (rule ∷ rules)

  save_policy-Holds :
      (v : String) (r : Rules) (policies : Policies)
      → Holds policies
      → (v ≡ url → r ≡ rule ∷ rules)
      → Holds (save_policy v r policies)
  save_policy-Holds v r policies h same = elim (Bool-cases (url == v)) [
    | inl e ↦ rw e (ap some (same (sym ((eq_iff url v).0 e))))
    | inr e ↦ rw e h
  ]

  seeded-Holds :
      (policies : Policies) (v : String) (x : Rules) (lines : List String)
      → Holds policies
      → policies v ≡ some x
      → Holds (seeded v lines policies x).1
        × (v ≡ url → (seeded v lines policies x).0 ≡ rule ∷ rules)
  seeded-Holds policies v [] lines h e =
      let other : v ≢ url = λ k. ground (arith, h, e, k) in
      (
        save_policy-Holds v (load_policy lines []) policies h (λ k. absurd (other k)),
        λ k. absurd (other k),
      )
  seeded-Holds policies v (y ∷ ys) lines h e = (h, λ k. ground (arith, h, e, k))

  -- Opening the database at some address keeps the rules.
  at_url-Holds :
      (lines : List String) (policies : Policies) (m : Option String) (r : Rules) (after : Policies)
      → at_url lines policies m ≡ some (r, after)
      → Holds policies
      → Holds after × (m ≡ some url → r ≡ rule ∷ rules)
  at_url-Holds lines policies none r after e h = absurd (ground (arith, e))
  at_url-Holds lines policies (some v) r after e h = elim (Option-cases (policies v)) [
    | inl k ↦ absurd (ground (arith, e, k))
    | inr (x, k) ↦
        let held = seeded-Holds policies v x lines h k in
        let e' : some (seeded v lines policies x) ≡ some (r, after) = rw k at e in
        let at_r : (seeded v lines policies x).0 ≡ r = ground (arith, e') in
        let at_after : (seeded v lines policies x).1 ≡ after = ground (arith, e') in
        (subst Holds {y = after} at_after held.0, λ u. sym at_r ∙ held.1 (ground (arith, u)))
  ]

  enforcer-Holds :
      (f : Found) (secret : String) (p : Process) (lines : List String)
      (m : Option (Rules × Policies))
      → m ≡ init_casbin_enforcer f lines p.policies
      → Holds p.policies
      → Holds (with_enforcer f secret p m).1.policies
  unfolding init_casbin_enforcer
  enforcer-Holds f secret p lines none e h = h
  enforcer-Holds f secret p lines (some (r, after)) e h =
      (at_url-Holds lines p.policies (sync_url f) r after (sym e) h).0

  file-Holds :
      (f : Found) (secret : String) (p : Process) (m : Option (List String))
      → Holds p.policies
      → Holds (with_file f secret p m).1.policies
  file-Holds f secret p none h = h
  file-Holds f secret p (some []) h = h
  file-Holds f secret p (some (line ∷ lines)) h = enforcer-Holds f secret p (line ∷ lines) _ refl h

  secret-Holds :
      (f : Found) (p : Process) (s : Secret)
      → Holds p.policies
      → Holds (with_secret f p s).1.policies
  secret-Holds f p (value secret) h = elim (Bool-cases (secret == "")) [
    | inl e ↦ rw e h
    | inr e ↦ rw e (file-Holds f secret p f.policy_file h)
  ]
  secret-Holds f p auth_failed h = h
  secret-Holds f p not_in_environment h = h
  secret-Holds f p unreadable h = h
  secret-Holds f p not_in_vault h = h

  model-Holds :
      (f : Found) (p : Process) (m : Integrity)
      → Holds p.policies
      → Holds (with_model f p m).1.policies
  model-Holds f p intact h =
      secret-Holds f (record p { client = (get_secret (outside f) "JWT_SECRET" p.client).1 })
        (get_secret (outside f) "JWT_SECRET" p.client).0 h
  model-Holds f p weights_missing h = h
  model-Holds f p card_missing h = h
  model-Holds f p sha256_mismatch h = h
  model-Holds f p top1_too_low h = h

  -- Whatever the starts find, and whether they succeed.
  restart-Holds :
      (fs : List Found) (policies : Policies) → Holds policies → Holds (restart fs policies)
  unfolding restart lifespan
  restart-Holds [] policies h = h
  restart-Holds (f ∷ fs) policies h =
      let p : Process = record { client = unset; policies = policies } in
      restart-Holds fs (lifespan f p).1.policies
        (model-Holds f p (verify_model_integrity f.model_files) h)

  -- An API that started has an enforcer with these rules.
  started_enforcer :
      (f : Found) (p : Process) (s : State) (q : Process)
      → Holds p.policies
      → sync_url f ≡ some url
      → lifespan f p ≡ (started s, q)
      → s.enforcer ≡ rule ∷ rules
  unfolding init_casbin_enforcer
  started_enforcer f p s q h u e =
      let (_, _, _, (line, lines, _, init), _, _) = (lifespan_lem f p s q).0 e in
      (at_url-Holds (line ∷ lines) p.policies (sync_url f) s.enforcer q.policies init h).1 u

-- The first start over an empty policy takes the lines of the file.
first_rules :
    (f : Found) (p : Process) (s : State) (q : Process) (url : String) (file : List String)
    → sync_url f ≡ some url
    → p.policies url ≡ some []
    → f.policy_file ≡ some file
    → lifespan f p ≡ (started s, q)
    → (s.enforcer ≡ load_policy file []) × (q.policies url ≡ some (load_policy file []))
unfolding init_casbin_enforcer
first_rules f p s q url file u none_yet there e =
    let (_, _, _, (line, lines, read, init), _, _) = (lifespan_lem f p s q).0 e in
    let same : line ∷ lines ≡ file = ground (arith, read, there) in
    let init' : some (
      load_policy (line ∷ lines) [],
      save_policy url (load_policy (line ∷ lines) []) p.policies,
    )
        ≡ some (s.enforcer, q.policies) =
      rw (u, none_yet) at init in
    (ground (arith, init', same), ground (arith, init', same, eq_refl url))

-- Some rule is read from the file: else no endpoint were open.
file_rules : (rule : List String) × (rules : Rules) × (load_policy policy_csv [] ≡ rule ∷ rules)
unfolding exists
file_rules = some_rule (load_policy policy_csv []) (policy_table admin Endpoint.list_users)
  where
    some_rule :
        (xs : Rules)
        → enforce xs "admin" "/users" "GET" ≡ true
        → (rule : List String) × (rules : Rules) × (xs ≡ rule ∷ rules)
    some_rule [] h = absurd (ground (arith, h))
    some_rule (x ∷ xs) h = (x, xs, refl)

-- If a first start takes the lines of the policy file into a database without rules, then after
-- any starts, whatever they find, an API that starts over the same database, whatever its policy
-- file says then, permits an admin every endpoint, a reviewer every one but those of users and
-- the audit log, and an auditor exactly the reading of batches, predictions and the audit log.
pub restarts_permit :
    (first last : Found) (between : List Found) (policies : Policies) (url : String) (s t : State)
    (q q' : Process)
    → sync_url first ≡ some url
    → sync_url last ≡ some url
    → policies url ≡ some []
    → first.policy_file ≡ some policy_csv
    → lifespan first (record { client = unset; policies = policies }) ≡ (started s, q)
    → lifespan last (record { client = unset; policies = restart between q.policies })
      ≡ (started t, q')
    → (r : Role) (e : Endpoint)
    → enforce t.enforcer (role_value r) (object e) (action e) ≡ permits r e
restarts_permit first last between policies url s t q q' u v none_yet file started_s started_t r e =
    let (rule, rules, csv) = file_rules in
    let stored : q.policies url ≡ some (rule ∷ rules) =
      (first_rules first (record { client = unset; policies = policies }) s q url policy_csv u
        none_yet file started_s).1
      ∙ ap some csv in
    let same : t.enforcer ≡ load_policy policy_csv [] =
      started_enforcer url rule rules last
        (record { client = unset; policies = restart between q.policies }) t q'
        (restart-Holds url rule rules between q.policies stored) v started_t
      ∙ sym csv in
    rw same (policy_table r e)
