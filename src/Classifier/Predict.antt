-- ===== src/Classifier/Predict.antt =====
-- `load_model` and `predict` of app/classifier/model.py. PyTorch, torchvision and PIL are the
-- interface `Torch`, whose documented laws are `IsTorch`.
use project_6_document_class.Base.{
  ℕ, ◌<◌, ◌≡◌, ◌≢◌, ap, ◌∙◌, String, true, false, Bool, List, [], ◌∷◌, Option, none, some, All,
  arith, length, get_elem?, get_elem?-length, Option-cases, inl, inr, if◌then◌else◌, eq_iff, zero,
  suc, sym, Bool-cases,
}
use project_6_document_class.Domain.{classes, text_in}
use project_6_document_class.Domain.Ieee.{Double, less}
use project_6_document_class.Blob.{Bytes}
use project_6_document_class.Classifier.{
  ModelFiles, Card, IsCovered, verify_model_integrity_lem, Integrity, intact, weights_missing,
  card_missing, sha256_mismatch, top1_too_low, verify_model_integrity,
}

-- `convnext_tiny` is the architecture without trained weights; `with_head n` puts a linear layer
-- of `n` outputs in the place of `classifier[2]`; `image` is `Image.open`, the conversion to RGB
-- and the transforms; `softmax` is the row of probabilities; `sha256` is hashlib's, and
-- `read_weights` is `torch.load`, of the content of a file. `none` is an exception.
pub record Torch (Weights Model Tensor : Type 0) : Type 0 where
  pub sha256 : Bytes → String
  pub read_weights : Bytes → Option Weights
  pub convnext_tiny : Model
  pub with_head : ℕ → Model → Model
  pub load_state_dict : Weights → Model → Option Model
  pub eval : Model → Model
  pub image : Bytes → Option Tensor
  pub softmax : Model → Tensor → List Double
  pub argmax : List Double → ℕ

-- What one loading finds: the flag, and the two files, if they are there.
pub record Disk : Type 0 where
  pub skip_check : Bool
  pub weights : Option Bytes
  pub card : Option Card

pub data Loaded (Model : Type 0) : Type 0 where
  loaded : Model → Loaded Model
  refused : Integrity → Loaded Model
  unreadable : Loaded Model

abbrev pub scored :
    Option Double → Option String → List Double → Option (String × Double × List Double)
scored (some confidence) (some label) all_scores = some (label, confidence, all_scores)
scored _ _ all_scores = none

module _ {Weights Model Tensor : Type 0} (torch : Torch Weights Model Tensor) where
  -- The network whose head has an output per class.
  abbrev pub headed : Model
  headed = torch.with_head (length classes) torch.convnext_tiny

  abbrev pub evaluated : Option Model → Loaded Model
  evaluated none = unreadable
  evaluated (some model) = loaded (torch.eval model)

  abbrev pub with_state : Option Weights → Loaded Model
  with_state none = unreadable
  with_state (some weights) = evaluated (torch.load_state_dict weights headed)

  abbrev pub with_weights : Option Bytes → Loaded Model
  with_weights none = unreadable
  with_weights (some content) = with_state (torch.read_weights content)

  abbrev hashed : Option Bytes → Option String
  hashed none = none
  hashed (some content) = some (torch.sha256 content)

  -- What the integrity check reads: the hash is that of the weights which are loaded.
  abbrev pub files_of : Disk → ModelFiles
  files_of d = record {
    skip_check = d.skip_check;
    weights_sha256 = hashed d.weights;
    card = d.card;
  }

  unfoldable pub load_model : Disk → Loaded Model
  load_model d = elim (verify_model_integrity (files_of d)) [
    | intact ↦ if d.skip_check then loaded (torch.eval headed) else with_weights d.weights
    | weights_missing ↦ refused weights_missing
    | card_missing ↦ refused card_missing
    | sha256_mismatch ↦ refused sha256_mismatch
    | top1_too_low ↦ refused top1_too_low
  ]

  -- The label, the confidence and all scores; an index out of range raises.
  unfoldable pub predict : Model → Bytes → Option (String × Double × List Double)
  predict model content = elim (torch.image content) [
    | none ↦ none
    | some tensor ↦
        let probs = torch.softmax model tensor in
        let idx = torch.argmax probs in scored (get_elem? probs idx) (get_elem? classes idx) probs
  ]

-- What the code relies on: the head decides the number of scores, whatever the weights, and
-- `argmax` gives the index of a probability that no other one exceeds.
pub record IsTorch {Weights Model Tensor : Type 0} (torch : Torch Weights Model Tensor)
    (out_features : Model → ℕ) : Type 0 where
  pub headed : (n : ℕ) (model : Model) → out_features (torch.with_head n model) ≡ n
  pub same_head :
      (weights : Weights) (model : Model) {model' : Model}
      → torch.load_state_dict weights model ≡ some model'
      → out_features model' ≡ out_features model
  pub eval_head : (model : Model) → out_features (torch.eval model) ≡ out_features model
  pub scores :
      (model : Model) (tensor : Tensor) → length (torch.softmax model tensor) ≡ out_features model
  pub in_range :
      (model : Model) (tensor : Tensor)
      → torch.softmax model tensor ≢ []
      → torch.argmax (torch.softmax model tensor) < length (torch.softmax model tensor)
  pub greatest :
      (model : Model) (tensor : Tensor) {p : Double}
      → get_elem? (torch.softmax model tensor) (torch.argmax (torch.softmax model tensor)) ≡ some p
      → All (λ q. less p q ≡ false) (torch.softmax model tensor)

text_inj : {a b : String} → some a ≡ some b → a ≡ b
text_inj h = cc

loaded_inj : {Model : Type 0} {m n : Model} → loaded m ≡ loaded n → m ≡ n
loaded_inj h = cc

pub text_in-get_elem? :
    (xs : List String) (n : ℕ) {x : String} → get_elem? xs n ≡ some x → text_in x xs ≡ true
unfolding text_in
text_in-get_elem? [] n h = absurd (ground arith)
text_in-get_elem? (y ∷ ys) zero {x} h = ground (arith, eq_iff x y)
text_in-get_elem? (y ∷ ys) (suc n) {x} h = ground (arith, text_in-get_elem? ys n {x = x} h)

module _ {Weights Model Tensor : Type 0} (torch : Torch Weights Model Tensor) where
  -- The model has the weights of the file that is there, and the card covers that file.
  abbrev pub IsLoaded : Disk → Model → Type 0
  IsLoaded d model =
      (content : Bytes) × (card : Card) × (weights : Weights) × (trained : Model) × (d.weights
        ≡ some content)
      × (d.card ≡ some card)
      × IsCovered (torch.sha256 content) card
      × (torch.read_weights content ≡ some weights)
      × (torch.load_state_dict weights (headed torch) ≡ some trained)
      × (model ≡ torch.eval trained)

  load_model-intact :
      (d : Disk) {model : Model}
      → load_model torch d ≡ loaded model
      → verify_model_integrity (files_of torch d) ≡ intact
  unfolding load_model
  load_model-intact d h = ground arith

  with_weights-loaded :
      (content : Bytes) {model : Model}
      → with_weights torch (some content) ≡ loaded model
      → (weights : Weights) × (trained : Model) × (torch.read_weights content ≡ some weights)
        × (torch.load_state_dict weights (headed torch) ≡ some trained)
        × (model ≡ torch.eval trained)
  with_weights-loaded content {model} h = elim (Option-cases (torch.read_weights content)) [
    | inl e ↦ absurd (ground (arith, e, h))
    | inr (weights, e) ↦ elim (Option-cases (torch.load_state_dict weights (headed torch))) [
      | inl misfit ↦ absurd (ground (arith, e, misfit, h))
      | inr (trained, fits) ↦
          let same : torch.eval trained ≡ model = loaded_inj (ground (arith, e, fits, h)) in
          (weights, trained, e, fits, sym same)
    ]
  ]

  pub load_model-IsLoaded :
      (d : Disk) {model : Model}
      → d.skip_check ≡ false
      → load_model torch d ≡ loaded model
      → IsLoaded d model
  load_model-IsLoaded d {model} on h =
      let whole = load_model-intact d {model = model} h in
      elim ((verify_model_integrity_lem (files_of torch d)).0 whole) [
        | inl skipped ↦ absurd (ground (arith, on, skipped))
        | inr (sha, card, hash, has_card, covered) ↦ elim (Option-cases d.weights) [
          | inl missing ↦ absurd (ground (arith, hash, missing))
          | inr (content, c) ↦
              let same_hash : torch.sha256 content ≡ sha = text_inj (ground (arith, hash, c)) in
              let run : with_weights torch (some content) ≡ loaded model =
                unfold load_model in ground (arith, whole, on, c, h) in
              let (weights, trained, read, fits, same) = with_weights-loaded content run in
              (
                content,
                card,
                weights,
                trained,
                c,
                has_card,
                (same_hash ∙ covered.0, covered.1),
                read,
                fits,
                same,
              )
        ]
      ]

module _ {Weights Model Tensor : Type 0} (torch : Torch Weights Model Tensor)
    {out_features : Model → ℕ} (laws : IsTorch torch out_features) where
  load_model-head :
      (d : Disk) {model : Model}
      → load_model torch d ≡ loaded model
      → (verify_model_integrity (files_of torch d) ≡ intact) × (out_features model ≡ length classes)
  load_model-head d {model} h = elim (Bool-cases d.skip_check) [
    | inl e ↦
        let same : torch.eval (headed torch) ≡ model =
          loaded_inj (unfold load_model verify_model_integrity in ground (arith, e, h)) in
        (
          load_model-intact torch d h,
          ap out_features (sym same)
              ∙ laws.eval_head (headed torch)
              ∙ laws.headed (length classes) torch.convnext_tiny,
        )
    | inr e ↦
        let (content, card, weights, trained, _, _, _, _, fits, same) =
          load_model-IsLoaded torch d e h in
        (
          load_model-intact torch d h,
          ap out_features same
              ∙ laws.eval_head trained
              ∙ laws.same_head weights (headed torch) fits
              ∙ laws.headed (length classes) torch.convnext_tiny,
        )
  ]

  -- If load_model returns a model and an image is readable, then predict returns for the image:
  -- the label is the class at some index, the confidence is the score at that index, there is a
  -- score for each class, and no score is greater than the confidence; and the files passed the
  -- integrity check.
  pub predict_loaded :
      (d : Disk) (content : Bytes) {model : Model} {tensor : Tensor}
      → load_model torch d ≡ loaded model
      → torch.image content ≡ some tensor
      → (idx : ℕ) × (label : String) × (confidence : Double) × (scores : List Double) × (predict
            torch model content
          ≡ some (label, confidence, scores))
        × (get_elem? classes idx ≡ some label)
        × (get_elem? scores idx ≡ some confidence)
        × (length scores ≡ length classes)
        × All (λ q. less confidence q ≡ false) scores
        × (verify_model_integrity (files_of torch d) ≡ intact)
  unfolding predict
  predict_loaded d content {model} {tensor} h opened =
      let (whole, head) = load_model-head d {model = model} h in
      let probs = torch.softmax model tensor in
      let idx = torch.argmax probs in
      let size = laws.scores model tensor ∙ head in
      let in_range = laws.in_range model tensor (λ e. absurd (omega (arith, size, ap length e))) in
      let (confidence, c) = get_elem?-length probs idx in_range in
      let (label, l) = get_elem?-length classes idx (omega (arith, size, in_range)) in
      (
        idx,
        label,
        confidence,
        probs,
        ground (arith, opened, c, l),
        l,
        c,
        size,
        laws.greatest model tensor c,
        whole,
      )
