-- ===== src/Classifier.antt =====
-- app/classifier/model.py (`verify_model_integrity`) and app/classifier/eval/golden.py. The file
-- system, SHA-256, JSON and the network itself are arguments.
pub mod Predict
use project_6_document_class.Base.{
  ℕ, ◌+◌, ◌≡◌, ◌↔◌, String, Bool, true, false, not, ◌==◌, ◌&&◌, eqb, eq_iff, List, [], ◌∷◌, Option,
  none, some, if◌then◌else◌, arith, ◌⊎◌, inl, inr, Option-cases, Bool-cases,
}
use project_6_document_class.Domain.Ieee.{Double, less}

-- The fields of the card that the check reads.
pub record Card : Type 0 where
  pub sha256 : Option String
  pub test_top1 : Option Double
  pub min_top1_threshold : Option Double

-- The hash of the weights and the card, where these files are there.
pub record ModelFiles : Type 0 where
  pub skip_check : Bool
  pub weights_sha256 : Option String
  pub card : Option Card

pub data Integrity : Type 0 where
  intact weights_missing card_missing sha256_mismatch top1_too_low : Integrity

-- The double that the literal 0.60 denotes.
abbrev pub min_top1 : Double
min_top1 = record { bits = 0x3FE3333333333333 }

abbrev pub or_else {ℓ} : {A : Type ℓ} → A → Option A → A
or_else d none = d
or_else d (some a) = a

abbrev pub zero_double : Double
zero_double = record { bits = 0 }

unfoldable pub check_card : String → Card → Integrity
check_card sha card =
    if not (sha == or_else "" card.sha256)
    then sha256_mismatch
    else if less (or_else zero_double card.test_top1) (or_else min_top1 card.min_top1_threshold)
    then top1_too_low
    else intact

abbrev check_files : Option String → Option Card → Integrity
check_files none card = weights_missing
check_files (some sha) none = card_missing
check_files (some sha) (some card) = check_card sha card

unfoldable pub verify_model_integrity : ModelFiles → Integrity
unfolding check_card
verify_model_integrity f = if f.skip_check then intact else check_files f.weights_sha256 f.card

-- What the card must say of the weights.
abbrev pub IsCovered : String → Card → Type 0
IsCovered sha card =
    (sha ≡ or_else "" card.sha256)
    × (less (or_else zero_double card.test_top1) (or_else min_top1 card.min_top1_threshold) ≡ false)

check_card_iff : (sha : String) (card : Card) → (check_card sha card ≡ intact) ↔ IsCovered sha card
unfolding check_card
check_card_iff sha card = ground (arith, eq_iff sha (or_else "" card.sha256))

-- Both files are there, and the card covers the weights.
abbrev pub IsPresent : ModelFiles → Type 0
IsPresent f =
    (sha : String) × (card : Card) × (f.weights_sha256 ≡ some sha)
    × (f.card ≡ some card)
    × (IsCovered sha card)

check_files-IsPresent :
    (f : ModelFiles) → check_files f.weights_sha256 f.card ≡ intact → IsPresent f
check_files-IsPresent f h = elim (Option-cases f.weights_sha256) [
  | inl e ↦ absurd (ground (arith, e))
  | inr (sha, e) ↦ elim (Option-cases f.card) [
    | inl k ↦ absurd (ground (arith, e, k))
    | inr (card, k) ↦ (sha, card, e, k, (check_card_iff sha card).0 (rw (e, k) at h))
  ]
]

-- The integrity check passes exactly where it is switched off, or both files are there, the
-- weights have the hash of the card and the card's accuracy is not below its threshold, with the
-- defaults for what the card leaves out.
pub verify_model_integrity_lem :
    (f : ModelFiles) → (verify_model_integrity f ≡ intact) ↔ ((f.skip_check ≡ true) ⊎ IsPresent f)
unfolding verify_model_integrity
verify_model_integrity_lem f = (there, back)
  where
    there : verify_model_integrity f ≡ intact → (f.skip_check ≡ true) ⊎ IsPresent f
    there h = elim (Bool-cases f.skip_check) [
      | inl e ↦ inl e
      | inr e ↦ inr (check_files-IsPresent f (rw e at h))
    ]

    back : (f.skip_check ≡ true) ⊎ IsPresent f → verify_model_integrity f ≡ intact
    back (inl e) = rw e
    back (inr (sha, card, e, k, c)) = elim (Bool-cases f.skip_check) [
      | inl on ↦ rw on
      | inr off ↦ rw (off, e, k) ((check_card_iff sha card).1 c)
    ]

-- An entry of golden_expected.json.
pub record Expected : Type 0 where
  pub label : String
  pub confidence : Double

module _ {Image : Type 0} (predict : Image → String × Double) (is_close : Double → Double → Bool)
    (expected : String → Option Expected) where
  abbrev pub matches : Image → Option Expected → Bool
  matches image none = true
  matches image (some e) =
      let (label, confidence) = predict image in
      label == e.label && is_close confidence e.confidence

  unfoldable pub failures : List (String × Image) → ℕ
  failures [] = 0
  failures ((name, image) ∷ rest) =
      if matches image (expected name) then failures rest else failures rest + 1

-- `main` of golden.py, up to its exit code; `abs(a - b) <= 1e-6` is `is_close`.
unfoldable pub golden_main :
    {Image : Type 0}
    → (Image → String × Double)
    → (Double → Double → Bool)
    → Option (String → Option Expected)
    → Bool
    → List (String × Image)
    → ℕ
golden_main predict is_close none loads files = 1
golden_main predict is_close (some expected) loads [] = 1
golden_main predict is_close (some expected) loads (f ∷ fs) =
    if loads then (if eqb (failures predict is_close expected (f ∷ fs)) 0 then 0 else 1) else 1
