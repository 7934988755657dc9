-- ===== src/Worker/Process/Sound.antt =====
-- What a worker's process keeps, whatever its jobs find and whatever fails.
use project_6_document_class.Base.{
  ◌≡◌, false, refl, ap, subst, ◌∙◌, sym, List, [], ◌∷◌, Option, none, some, ◌⊎◌, inl, inr, arith,
  Option-cases, get_elem?, All,
}
use project_6_document_class.Domain.{classes}
use project_6_document_class.App.{Env}
use project_6_document_class.Blob.Setup.{
  BlobStorage, Surroundings, Setup, opened, no_secret, no_bucket,
}
use project_6_document_class.Classifier.Predict.{
  Torch, Loaded, loaded, refused, unreadable, load_model, predict, text_in-get_elem?, IsLoaded,
  load_model-IsLoaded,
}
use project_6_document_class.Overlay.{Drawing}
use project_6_document_class.Watcher
use project_6_document_class.Worker.Labels.{AreClasses, NamesClasses, classify-AreClasses}
use project_6_document_class.Worker.Classify.{classify}
use project_6_document_class.Worker.Process.{
  Process, Machine, Moment, Run, ran, network_of, get_blob, get_model, run_job, run_jobs,
  keep_model, with_model, with_blob,
}

module _ {Weights Model Tensor Image Font : Type 0} (torch : Torch Weights Model Tensor)
    (drawing : Drawing Image Font) (env : Env) where
  -- The model was loaded from what one of the jobs found on its disk.
  abbrev pub IsFound : List (Moment × Watcher.Job) → Model → Type 0
  IsFound [] model = ⊥
  IsFound ((t, j) ∷ rest) model = IsLoaded torch t.disk model ⊎ IsFound rest model

  network_of-NamesClasses : (model : Model) → NamesClasses (network_of torch drawing env model)
  unfolding predict
  network_of-NamesClasses model content label confidence h =
      elim (Option-cases (torch.image content)) [
        | inl e ↦ absurd (ground (arith, e, h))
        | inr (tensor, e) ↦
            let probs = torch.softmax model tensor in
            let idx = torch.argmax probs in
            elim (Option-cases (get_elem? probs idx)) [
              | inl c ↦ absurd (ground (arith, e, c, h))
              | inr (score, c) ↦ elim (Option-cases (get_elem? classes idx)) [
                | inl l ↦ absurd (ground (arith, e, c, l, h))
                | inr (name, l) ↦
                    let same : name ≡ label = ground (arith, e, c, l, h) in
                    rw (← same) (text_in-get_elem? classes idx l)
              ]
            ]
      ]

-- A predicate of the model that is kept, if any.
abbrev pub Kept : {Model : Type 0} → (Model → Type 0) → Option Model → Type 0
Kept P none = Unit
Kept P (some model) = P model

module _ {Weights Model Tensor Image Font : Type 0} (torch : Torch Weights Model Tensor)
    (drawing : Drawing Image Font) (env : Env) (P : Model → Type 0) where
  abbrev IsSound : Machine Model → Type 0
  IsSound m = Kept P m.process.model × AreClasses m.world

  -- What the disk gives, if it gives a model, has the predicate.
  abbrev Gives : Moment → Type 0
  Gives t = (model : Model) → load_model torch t.disk ≡ loaded model → P model

  -- A set-up of the storage does not touch the model, the objects and the tables.
  get_blob-rest :
      (s : Surroundings) (m : Machine Model)
      → let (_, m') = get_blob torch drawing env s m in
        (m'.process.model ≡ m.process.model) × (m'.bucket ≡ m.bucket) × (m'.world ≡ m.world)
  unfolding get_blob
  get_blob-rest s m = ground arith

  get_blob-IsSound :
      (s : Surroundings) (m : Machine Model)
      → IsSound m
      → IsSound (get_blob torch drawing env s m).1
  get_blob-IsSound s m sound = let (model, _, world) = get_blob-rest s m in rw (model, world) sound

  abbrev IsCheckedResult : Loaded Model → Type 0
  IsCheckedResult (loaded model) = P model
  IsCheckedResult failure = Unit

  get_model-IsSound :
      (t : Moment) (m : Machine Model)
      → Gives t
      → IsSound m
      → IsCheckedResult (get_model torch drawing env t m).0
        × IsSound (get_model torch drawing env t m).1
  get_model-IsSound t m on sound = elim (Option-cases m.process.model) [
    | inr (model, e) ↦
        let same : get_model torch drawing env t m ≡ (loaded model, m) =
          unfold get_model in ground (arith, e) in
        let checked : P model = subst (Kept P) e sound.0 in
        subst (λ (r : Loaded Model × Machine Model). IsCheckedResult r.0 × IsSound r.1) (sym same)
          (checked, sound)
    | inl e ↦
        let same : get_model torch drawing env t m
            ≡ keep_model torch drawing env (load_model torch t.disk) m =
          unfold get_model in ground (arith, e) in
        subst (λ (r : Loaded Model × Machine Model). IsCheckedResult r.0 × IsSound r.1) (sym same)
          (load (load_model torch t.disk) refl)
  ]
    where
      load :
          (r : Loaded Model)
          → load_model torch t.disk ≡ r
          → IsCheckedResult (keep_model torch drawing env r m).0
            × IsSound (keep_model torch drawing env r m).1
      load (loaded model) h = let checked = on model h in (checked, (checked, sound.1))
      load (refused x) h = (tt, sound)
      load unreadable h = (tt, sound)

  with_model-IsSound :
      (t : Moment) (j : Watcher.Job) (r : Loaded Model) (m : Machine Model)
      → IsCheckedResult r
      → IsSound m
      → IsSound (with_model torch drawing env t j (r, m)).1
  unfolding classify
  with_model-IsSound t j (loaded model) m checked sound =
      let network = network_of torch drawing env model in
      (
        sound.0,
        classify-AreClasses env network t.get_ok t.put_ok t.redis j m.bucket m.world
            (network_of-NamesClasses torch drawing env model) sound.1,
      )
  with_model-IsSound t j (refused x) m checked sound = sound
  with_model-IsSound t j unreadable m checked sound = sound

  run_job-IsSound :
      (t : Moment) (j : Watcher.Job) (m : Machine Model)
      → Gives t
      → IsSound m
      → IsSound (run_job torch drawing env t j m).1
  unfolding run_job
  run_job-IsSound t j m on sound =
      run (get_blob torch drawing env t.surroundings m) (get_blob-IsSound t.surroundings m sound)
    where
      run :
          (r : Setup × Machine Model) → IsSound r.1 → IsSound (with_blob torch drawing env t j r).1
      run (opened storage, m') kept =
          let (checked, sound') = get_model-IsSound t m' on kept in
          with_model-IsSound t j _ _ checked sound'
      run (no_secret x, m') kept = kept
      run (no_bucket, m') kept = kept

  jobs-IsSound :
      (jobs : List (Moment × Watcher.Job)) (m : Machine Model)
      → All (λ (job : Moment × Watcher.Job). Gives job.0) jobs
      → IsSound m
      → IsSound (run_jobs torch drawing env jobs m).1
  unfolding run_jobs
  jobs-IsSound [] m on sound = sound
  jobs-IsSound ((t, j) ∷ rest) m on sound =
      jobs-IsSound rest (run_job torch drawing env t j m).1 on.1 (run_job-IsSound t j m on.0 sound)

module _ {Weights Model Tensor Image Font : Type 0} (torch : Torch Weights Model Tensor)
    (drawing : Drawing Image Font) (env : Env) where
  All-Gives :
      (P : Model → Type 0) (jobs : List (Moment × Watcher.Job))
      → All (λ (job : Moment × Watcher.Job). job.0.disk.skip_check ≡ false) jobs
      → ((model : Model) → IsFound torch drawing env jobs model → P model)
      → All (λ (job : Moment × Watcher.Job). Gives torch drawing env P job.0) jobs
  All-Gives P [] on found = tt
  All-Gives P ((t, j) ∷ rest) on found = (
    λ model h. found model (inl (load_model-IsLoaded torch t.disk on.0 h)),
    All-Gives P rest on.1 (λ model h. found model (inr h)),
  )

  -- Where the integrity check is not switched off, whatever the jobs of a new worker's process
  -- find and whatever fails in them: a model that the process keeps has the weights that one of
  -- the jobs found on its disk, whose hash and accuracy are those that the model card on that
  -- same disk asks for, loaded into the network with an output for each class; and if every label
  -- in the table of predictions is one of the classes, then this is still so after the jobs.
  pub run_jobs-IsFound :
      (jobs : List (Moment × Watcher.Job)) (m : Machine Model)
      → m.process.model ≡ none
      → All (λ (job : Moment × Watcher.Job). job.0.disk.skip_check ≡ false) jobs
      → AreClasses m.world
      → let (_, m') = run_jobs torch drawing env jobs m in
        Kept (IsFound torch drawing env jobs) m'.process.model × AreClasses m'.world
  run_jobs-IsFound jobs m fresh on all =
      let P = IsFound torch drawing env jobs in
      jobs-IsSound torch drawing env P jobs m (All-Gives P jobs on (λ model h. h))
        (rw fresh tt, all)

  abbrev pub IsRan : Run Model → Type 0
  IsRan (ran outcome) = Unit
  IsRan failure = ⊥

  run_job_kept :
      (t : Moment) (j : Watcher.Job) (m : Machine Model) {storage : BlobStorage} {model : Model}
      → m.process.blob ≡ some storage
      → m.process.model ≡ some model
      → let (run, m') = run_job torch drawing env t j m in IsRan run × (m'.process ≡ m.process)
  unfolding run_job get_blob get_model
  run_job_kept t j m {storage} {model} opened_before loaded_before =
      let network = network_of torch drawing env model in
      let (outcome, bucket, world) =
        classify env network t.get_ok t.put_ok t.redis j m.bucket m.world in
      let same : run_job torch drawing env t j m
          ≡ (ran outcome, record m { bucket = bucket; world = world }) =
        ground (arith, opened_before, loaded_before) in
      subst (λ (r : Run Model × Machine Model). IsRan r.0 × (r.1.process ≡ m.process)) (sym same)
        (tt, refl)

  -- Once a process has its storage and its model, none of its jobs fails in the set-up, whatever
  -- they find, and the process stays as it is.
  pub run_jobs_kept :
      (jobs : List (Moment × Watcher.Job)) (m : Machine Model) {storage : BlobStorage}
      {model : Model}
      → m.process.blob ≡ some storage
      → m.process.model ≡ some model
      → let (runs, m') = run_jobs torch drawing env jobs m in
        All IsRan runs × (m'.process ≡ m.process)
  unfolding run_jobs
  run_jobs_kept [] m opened_before loaded_before = (tt, refl)
  run_jobs_kept ((t, j) ∷ rest) m opened_before loaded_before =
      let (is_ran, process) = run_job_kept t j m opened_before loaded_before in
      let m₁ = (run_job torch drawing env t j m).1 in
      let (are_ran, process') =
        run_jobs_kept rest m₁ (ap (λ (p : Process Model). p.blob) process ∙ opened_before)
          (ap (λ (p : Process Model). p.model) process ∙ loaded_before) in
      ((is_ran, are_ran), process' ∙ process)
