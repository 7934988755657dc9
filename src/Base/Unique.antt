-- ===== src/Base/Unique.antt =====
-- Keys of a table: at most one row for each, and rows that refer to another table.
use project_6_document_class.Base.{
  ◌≤◌, ◌≡◌, refl, Bool, true, false, ◌||◌, List, [], ◌∷◌, ◌++◌, arith, update, delete_where, count,
  exists, All, Bool-cases, inl, inr, if◌then◌else◌,
}
use project_6_document_class.Base.RowLaws.{count-append, count-delete_where}

module _ {ℓ} {A : Type ℓ} where
  pub count-not_exists : (q : A → Bool) (xs : List A) → exists q xs ≡ false → count q xs ≡ 0
  unfolding count exists
  count-not_exists q [] h = refl
  count-not_exists q (x ∷ xs) h = ground (arith, count-not_exists q xs)

  count-one : (q : A → Bool) (x : A) → count q (x ∷ []) ≡ (if q x then 1 else 0)
  unfolding count
  count-one q x = ground arith

  -- A row whose key is new keeps the key unique.
  pub count-append_new :
      (q : A → Bool) (xs : List A) (x : A)
      → count q xs ≤ 1
      → (q x ≡ true → exists q xs ≡ false)
      → count q (xs ++ x ∷ []) ≤ 1
  count-append_new q xs x h new = elim (Bool-cases (q x)) [
    | inl e ↦
        ground (arith, e, count-append q xs (x ∷ []), count-one q x, count-not_exists q xs (new e))
    | inr e ↦ ground (arith, e, count-append q xs (x ∷ []), count-one q x)
  ]

  pub count-update_same :
      (q p : A → Bool) (f : A → A) (xs : List A)
      → ((x : A) → q (f x) ≡ q x)
      → count q (update p f xs) ≡ count q xs
  unfolding count update
  count-update_same q p f [] h = refl
  count-update_same q p f (x ∷ xs) h = ground (arith, h x, count-update_same q p f xs h)

  pub count-delete_where-le :
      (q p : A → Bool) (xs : List A) → count q (delete_where p xs) ≤ count q xs
  count-delete_where-le q p xs = omega (arith, count-delete_where q p xs)

  pub exists-or_left :
      (p q : A → Bool) (xs : List A) → exists (λ x. p x || q x) xs ≡ false → exists p xs ≡ false
  unfolding exists
  exists-or_left p q [] h = refl
  exists-or_left p q (x ∷ xs) h = ground (arith, exists-or_left p q xs)

  pub exists-or_right :
      (p q : A → Bool) (xs : List A) → exists (λ x. p x || q x) xs ≡ false → exists q xs ≡ false
  unfolding exists
  exists-or_right p q [] h = refl
  exists-or_right p q (x ∷ xs) h = ground (arith, exists-or_right p q xs)

  pub exists-delete_where_ne :
      (q p : A → Bool) (xs : List A)
      → ((x : A) → p x ≡ true → q x ≡ false)
      → exists q (delete_where p xs) ≡ exists q xs
  unfolding exists delete_where
  exists-delete_where_ne q p [] h = refl
  exists-delete_where_ne q p (x ∷ xs) h = ground (arith, h x, exists-delete_where_ne q p xs h)

  pub All-weaken {κ} :
      (P Q : A → Type κ) (xs : List A) → ((x : A) → P x → Q x) → All P xs → All Q xs
  All-weaken P Q [] h a = tt
  All-weaken P Q (x ∷ xs) h a = (h x a.0, All-weaken P Q xs h a.1)

  pub All-update_to {κ} :
      (P Q : A → Type κ) (p : A → Bool) (f : A → A) (xs : List A)
      → ((x : A) → p x ≡ true → P x → Q (f x))
      → ((x : A) → p x ≡ false → P x → Q x)
      → All P xs
      → All Q (update p f xs)
  unfolding update
  All-update_to P Q p f [] hit miss a = tt
  All-update_to P Q p f (x ∷ xs) hit miss a =
      (step (p x) refl, All-update_to P Q p f xs hit miss a.1)
    where
      step : (b : Bool) → p x ≡ b → Q (if b then f x else x)
      step true e = hit x e a.0
      step false e = miss x e a.0
