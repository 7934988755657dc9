-- ===== src/App/Laws.antt =====
-- What a computation returned, as cases.
use project_6_document_class.Base.{◌≡◌, refl, ◌⊎◌, inl, inr}
use project_6_document_class.App.{Error, Result, ok, err}

pub Result-cases :
    {A : Type 0} (r : Result A) → ((a : A) × (r ≡ ok a)) ⊎ ((e : Error) × (r ≡ err e))
Result-cases (ok a) = inl (a, refl)
Result-cases (err e) = inr (e, refl)
