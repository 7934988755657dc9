-- ===== src/Repo/OrderBy.antt =====
-- `ORDER BY created_at DESC`, which the database carries out: which of two rows of one time
-- comes first is its choice.
use mathlib.Core.List.{Perm}
use project_6_document_class.Base.{ℕ, ◌≤◌, List, [], ◌∷◌, All}

-- No row is older than a later one.
abbrev pub IsNewestFirst : {A : Type 0} → (A → ℕ) → List A → Type 0
IsNewestFirst time [] = Unit
IsNewestFirst time (x ∷ xs) = All (λ y. time y ≤ time x) xs × IsNewestFirst time xs

pub record OrderBy {A : Type 0} (time : A → ℕ) : Type 0 where
  pub desc : List A → List A
  pub desc-perm : (xs : List A) → Perm (desc xs) xs
  pub desc-IsNewestFirst : (xs : List A) → IsNewestFirst time (desc xs)
