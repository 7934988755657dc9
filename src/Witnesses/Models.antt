-- ===== src/Witnesses/Models.antt =====
-- The network, the storage and the worker's process at concrete inputs.
use project_6_document_class.Base.{
  ℕ, zero, suc, ◌-◌, ◌<◌, ◌≡◌, ◌≢◌, refl, ap, sym, subst, ◌∙◌, String, true, false, List, [], ◌∷◌,
  Option, none, some, All, arith, length, get_elem?, ◌⊎◌,
}
use project_6_document_class.Domain.{classes, text_in}
use project_6_document_class.Domain.Ieee.{Double, less}
use project_6_document_class.Blob.{Bytes, original_key}
use project_6_document_class.Blob.Setup
use project_6_document_class.Blob.Setup.{
  BlobStorage, Surroundings, opened, documents, get_blob_storage, ensure_bucket,
}
use project_6_document_class.Classifier.{min_top1, intact, verify_model_integrity}
use project_6_document_class.Classifier.Predict
use project_6_document_class.Classifier.Predict.{Torch, IsTorch, Disk, loaded, load_model, predict}
use project_6_document_class.Overlay.{Drawing}
use project_6_document_class.Vault.{Outside, unset, value, get_secret}
use project_6_document_class.Watcher
use project_6_document_class.Worker.{answered}
use project_6_document_class.Worker.Labels.{AreClasses}
use project_6_document_class.Worker.Process.{Machine, Moment, run_jobs}
use project_6_document_class.Worker.Process.Sound
use project_6_document_class.Witnesses.{env, empty_world, half}

abbrev none_at_all : Double
none_at_all = record { bits = 0 }

-- A network is the number of its outputs: all of the probability is on the last of them.
abbrev last_class : ℕ → List Double
last_class zero = []
last_class (suc zero) = half ∷ []
last_class (suc (suc n)) = none_at_all ∷ last_class (suc n)

abbrev torch : Torch Unit ℕ Bytes
torch = record {
  sha256 = λ content. "abc";
  read_weights = λ content. some tt;
  convnext_tiny = 1000;
  with_head = λ n model. n;
  load_state_dict = λ weights model. some model;
  eval = λ model. model;
  image = λ content. some content;
  softmax = λ model tensor. last_class model;
  argmax = λ probs. length probs - 1;
}

length-last_class : (n : ℕ) → length (last_class n) ≡ n
length-last_class zero = refl
length-last_class (suc zero) = refl
length-last_class (suc (suc n)) = omega (arith, length-last_class (suc n))

last_class-last : (n : ℕ) {p : Double} → get_elem? (last_class (suc n)) n ≡ some p → p ≡ half
last_class-last zero h = cc
last_class-last (suc n) {p} h = last_class-last n h

half-greatest : (n : ℕ) → All (λ q. less half q ≡ false) (last_class n)
unfolding less
half-greatest zero = tt
half-greatest (suc zero) = (refl, tt)
half-greatest (suc (suc n)) = (refl, half-greatest (suc n))

greatest :
    (n : ℕ) {p : Double}
    → get_elem? (last_class n) (length (last_class n) - 1) ≡ some p
    → All (λ q. less p q ≡ false) (last_class n)
greatest zero h = tt
greatest (suc n) {p} h =
    let index : n ≡ length (last_class (suc n)) - 1 = omega (arith, length-last_class (suc n)) in
    let last : get_elem? (last_class (suc n)) n ≡ some p =
      ap (get_elem? (last_class (suc n))) index ∙ h in
    subst (λ x. All (λ q. less x q ≡ false) (last_class (suc n))) (sym (last_class-last n last))
      (half-greatest (suc n))

same_model : {m n : ℕ} → ◌≡◌ {A = Option ℕ} (some m) (some n) → m ≡ n
same_model h = cc

below : (n : ℕ) → last_class n ≢ [] → length (last_class n) - 1 < length (last_class n)
below zero some_score = absurd (some_score refl)
below (suc n) some_score = omega (arith, length-last_class (suc n))

torch-IsTorch : IsTorch torch (λ model. model)
torch-IsTorch = record {
  headed = λ n model. refl;
  same_head = λ weights model {model'} h. sym (same_model h);
  eval_head = λ model. refl;
  scores = λ model tensor. length-last_class model;
  in_range = λ model tensor some_score. below model some_score;
  greatest = λ model tensor {p} h. greatest model h;
}

abbrev covered : Disk
covered = record {
  skip_check = false;
  weights = some (1 ∷ []);
  card =
      some (record { sha256 = some "abc"; test_top1 = some min_top1; min_top1_threshold = none });
}

trained : load_model torch covered ≡ loaded 16
unfolding load_model verify_model_integrity less
trained = refl

predict_loaded_example :
    (idx : ℕ) × (label : String) × (confidence : Double) × (scores : List Double) × (predict torch
        16
        (7 ∷ [])
      ≡ some (label, confidence, scores))
    × (get_elem? classes idx ≡ some label)
    × (get_elem? scores idx ≡ some confidence)
    × (length scores ≡ length classes)
    × All (λ q. less confidence q ≡ false) scores
    × (verify_model_integrity (Predict.files_of torch covered) ≡ intact)
predict_loaded_example = Predict.predict_loaded torch torch-IsTorch covered (7 ∷ []) trained refl

-- A process in an environment without Vault.
abbrev secrets : String → String
secrets key = key

abbrev outside : Outside
outside = record {
  vault_addr = "";
  vault_token = "";
  is_authenticated = false;
  readable = false;
  secrets = λ key. none;
  environ = secrets;
}

abbrev surroundings : Surroundings
surroundings = record {
  outside = outside;
  minio_endpoint = none;
  buckets = [];
  exists_ok = true;
  make_ok = true;
}

abbrev storage : BlobStorage
storage = record {
  endpoint = "minio:9000";
  access_key = "MINIO_ACCESS_KEY";
  secret_key = "MINIO_SECRET_KEY";
  bucket = "documents";
  secure = false;
}

storage-opened : (get_blob_storage surroundings unset).0 ≡ opened storage
unfolding get_blob_storage get_secret ensure_bucket text_in
storage-opened = refl

get_blob_storage_ok_example :
    let (_, buckets', client') = get_blob_storage surroundings unset in
    (storage.endpoint ≡ "minio:9000")
    × ((get_secret outside "MINIO_ACCESS_KEY" unset).0 ≡ value "MINIO_ACCESS_KEY")
    × ((get_secret outside "MINIO_SECRET_KEY" unset).0 ≡ value "MINIO_SECRET_KEY")
    × (text_in documents buckets' ≡ true)
    × ((buckets' ≡ []) ⊎ (buckets' ≡ documents ∷ []))
    × ((later : Surroundings)
        → later.buckets ≡ buckets'
        → (get_blob_storage later client').1 ≡ later.buckets)
get_blob_storage_ok_example = Setup.get_blob_storage_ok surroundings unset storage-opened

-- A drawing that keeps nothing.
abbrev drawing : Drawing Unit Unit
drawing = record {
  open_image = λ content. some tt;
  size = λ image. (1, 1);
  new = λ size fill. tt;
  rectangle = λ image a b fill. tt;
  alpha_composite = λ image over. tt;
  truetype = λ path size. none;
  load_default = tt;
  text = λ image start t fill font. tt;
  save = λ image. [];
  int_times = λ w c. some 0;
  percent = λ c. "50.0%";
}

abbrev started : Machine ℕ
started = record {
  process = record { blob = none; model = none; client = unset };
  bucket = (original_key "b" "a.tif", 7 ∷ []) ∷ [];
  world = empty_world;
}

abbrev moment : Moment
moment = record {
  surroundings = surroundings;
  disk = covered;
  get_ok = true;
  put_ok = true;
  redis = answered;
}

abbrev job : Watcher.Job
job = record { batch_id = "b"; blob_key = original_key "b" "a.tif"; request_id = "r" }

abbrev two_jobs : List (Moment × Watcher.Job)
two_jobs = (moment, job) ∷ (moment, job) ∷ []

run_jobs-IsFound_example :
    let (_, m') = run_jobs torch drawing env two_jobs started in
    Sound.Kept (Sound.IsFound torch drawing env two_jobs) m'.process.model × AreClasses m'.world
run_jobs-IsFound_example =
    Sound.run_jobs-IsFound torch drawing env two_jobs started refl (refl, (refl, tt)) tt
