-- ===== src/Domain.antt =====
-- The domain models of app/domain and the class labels of app/classifier/classes.py. Enumerations
-- of strings are data types with the function that gives a member's value.
pub mod Ieee
use project_6_document_class.Base.{
  ℕ, String, Bool, true, false, ◌==◌, List, [], ◌∷◌, Option, none, some, if◌then◌else◌,
}
use project_6_document_class.Domain.Ieee.{Double}

pub data Role : Type 0 where
  admin reviewer auditor : Role

abbrev pub role_value : Role → String
role_value admin = "admin"
role_value reviewer = "reviewer"
role_value auditor = "auditor"

-- `==` on roles.
abbrev pub role_eq : Role → Role → Bool
role_eq admin admin = true
role_eq reviewer reviewer = true
role_eq auditor auditor = true
role_eq _ _ = false

pub record User : Type 0 where
  pub id : String
  pub email : String
  pub role : Role
  pub is_active : Bool
  pub created_at : ℕ

pub record UserCreate : Type 0 where
  pub email : String
  pub password : String
  pub role : Role

pub record UserRoleUpdate : Type 0 where
  pub role : Role

pub data BatchStatus : Type 0 where
  pending processing done failed : BatchStatus

abbrev pub status_value : BatchStatus → String
status_value pending = "pending"
status_value processing = "processing"
status_value done = "done"
status_value failed = "failed"

-- `==` on statuses.
abbrev pub status_eq : BatchStatus → BatchStatus → Bool
status_eq pending pending = true
status_eq processing processing = true
status_eq done done = true
status_eq failed failed = true
status_eq _ _ = false

-- `status in allowed`, for a set given by its members.
abbrev pub status_in : BatchStatus → List BatchStatus → Bool
status_in s [] = false
status_in s (t ∷ ts) = if status_eq s t then true else status_in s ts

pub record Batch : Type 0 where
  pub id : String
  pub status : BatchStatus
  pub file_count : ℕ
  pub created_at : ℕ

-- `id` has a default, a fresh uuid4: `none` asks for it.
pub record BatchCreate : Type 0 where
  pub id : Option String
  pub file_count : ℕ

pub record Prediction : Type 0 where
  pub id : String
  pub batch_id : String
  pub filename : String
  pub blob_key : String
  pub overlay_key : String
  pub predicted_class : String
  pub confidence : Double
  pub relabeled_class : Option String
  pub created_at : ℕ

pub record PredictionCreate : Type 0 where
  pub batch_id : String
  pub filename : String
  pub blob_key : String
  pub overlay_key : String
  pub predicted_class : String
  pub confidence : Double

pub record PredictionRelabel : Type 0 where
  pub relabeled_class : String

abbrev pub classes : List String
classes =
    "letter" ∷ "form" ∷ "email" ∷ "handwritten" ∷ "advertisement" ∷ "scientific report"
    ∷ "scientific publication" ∷ "specification" ∷ "file folder" ∷ "news article" ∷ "budget"
    ∷ "invoice" ∷ "presentation" ∷ "questionnaire" ∷ "resume" ∷ "memo" ∷ []

-- `x in xs`, on texts.
unfoldable pub text_in : String → List String → Bool
text_in x [] = false
text_in x (y ∷ ys) = if x == y then true else text_in x ys

-- The validator of `PredictionRelabel`: a value error is `none`.
unfoldable pub must_be_valid_class : String → Option PredictionRelabel
must_be_valid_class v = if text_in v classes then some (record { relabeled_class = v }) else none

-- A value of the JSON column `details`.
pub data Json : Type 0 where
  str : String → Json
  num : ℕ → Json

pub record AuditLogEntry : Type 0 where
  pub id : String
  pub actor_id : Option String
  pub action : String
  pub target : String
  pub details : List (String × Json)
  pub timestamp : ℕ
