-- ===== src/Base/RowLaws.antt =====
-- Laws of the table statements.
use project_6_document_class.Base.{
  suc, ◌+◌, ◌≡◌, refl, ap, Bool, true, false, List, [], ◌∷◌, ◌++◌, map, arith, select, update,
  delete_where, count, exists, All, length, if◌then◌else◌,
}

module _ {ℓ} {A : Type ℓ} where
  pub count-update :
      (q p : A → Bool) (f : A → A) (xs : List A)
      → count q (update p f xs) + count q (select p xs) ≡ count q xs + count q (map f (select p xs))
  unfolding count update select
  count-update q p f [] = refl
  count-update q p f (x ∷ xs) = ground (arith, count-update q p f xs)

  pub count-delete_where :
      (q p : A → Bool) (xs : List A)
      → count q (delete_where p xs) + count q (select p xs) ≡ count q xs
  unfolding count delete_where select
  count-delete_where q p [] = refl
  count-delete_where q p (x ∷ xs) = ground (arith, count-delete_where q p xs)

  pub count-append : (q : A → Bool) (xs ys : List A) → count q (xs ++ ys) ≡ count q xs + count q ys
  unfolding count
  count-append q [] ys = omega arith
  count-append q (x ∷ xs) ys = ground (arith, count-append q xs ys)

  pub length-select : (p : A → Bool) (xs : List A) → length (select p xs) ≡ count p xs
  unfolding count select
  length-select p [] = refl
  length-select p (x ∷ xs) = ground (arith, length-select p xs)

  pub select-append :
      (p : A → Bool) (xs ys : List A) → select p (xs ++ ys) ≡ select p xs ++ select p ys
  unfolding select
  select-append p [] ys = refl
  select-append p (x ∷ xs) ys = ground (arith, select-append p xs ys)

  pub exists-append_of_left :
      (p : A → Bool) (xs ys : List A) → exists p xs ≡ true → exists p (xs ++ ys) ≡ true
  unfolding exists
  exists-append_of_left p [] ys h = ground arith
  exists-append_of_left p (x ∷ xs) ys h = ground (arith, exists-append_of_left p xs ys)

  -- An update that keeps the test is an update of the selected rows.
  pub select-update_self :
      (p : A → Bool) (f : A → A) (xs : List A)
      → ((x : A) → p x ≡ true → p (f x) ≡ true)
      → select p (update p f xs) ≡ map f (select p xs)
  unfolding select update
  select-update_self p f [] h = refl
  select-update_self p f (x ∷ xs) h = ground (arith, h x, select-update_self p f xs h)

  -- Rows that the update does not touch are selected as before.
  pub select-update_ne :
      (q p : A → Bool) (f : A → A) (xs : List A)
      → ((x : A) → p x ≡ true → q x ≡ false)
      → ((x : A) → p x ≡ true → q (f x) ≡ false)
      → select q (update p f xs) ≡ select q xs
  unfolding select update
  select-update_ne q p f [] h k = refl
  select-update_ne q p f (x ∷ xs) h k = ground (arith, h x, k x, select-update_ne q p f xs h k)

  pub exists-update :
      (q p : A → Bool) (f : A → A) (xs : List A)
      → ((x : A) → q (f x) ≡ q x)
      → exists q (update p f xs) ≡ exists q xs
  unfolding exists update
  exists-update q p f [] h = refl
  exists-update q p f (x ∷ xs) h = ground (arith, h x, exists-update q p f xs h)

  pub select-delete_where_self : (p : A → Bool) (xs : List A) → select p (delete_where p xs) ≡ []
  unfolding select delete_where
  select-delete_where_self p [] = refl
  select-delete_where_self p (x ∷ xs) = ground (arith, select-delete_where_self p xs)

  pub select-delete_where_ne :
      (q p : A → Bool) (xs : List A)
      → ((x : A) → p x ≡ true → q x ≡ false)
      → select q (delete_where p xs) ≡ select q xs
  unfolding select delete_where
  select-delete_where_ne q p [] h = refl
  select-delete_where_ne q p (x ∷ xs) h = ground (arith, h x, select-delete_where_ne q p xs h)

  pub length-update : (p : A → Bool) (f : A → A) (xs : List A) → length (update p f xs) ≡ length xs
  unfolding update
  length-update p f [] = refl
  length-update p f (x ∷ xs) = ap suc (length-update p f xs)

  pub All-update {κ} :
      (P : A → Type κ) (p : A → Bool) (f : A → A) (xs : List A)
      → ((x : A) → p x ≡ true → P x → P (f x))
      → All P xs
      → All P (update p f xs)
  unfolding update
  All-update P p f [] h a = tt
  All-update P p f (x ∷ xs) h a = (step (p x) refl, All-update P p f xs h a.1)
    where
      step : (b : Bool) → p x ≡ b → P (if b then f x else x)
      step true e = h x e a.0
      step false e = a.0

  -- Every selected row passes the test.
  pub select-All : (p : A → Bool) (xs : List A) → All (λ x. p x ≡ true) (select p xs)
  unfolding select
  select-All p [] = tt
  select-All p (x ∷ xs) = step (p x) refl (select-All p xs)
    where
      step :
          (b : Bool)
          → p x ≡ b
          → All (λ y. p y ≡ true) (select p xs)
          → All (λ y. p y ≡ true) (if b then x ∷ select p xs else select p xs)
      step true e ih = (e, ih)
      step false e ih = ih

  pub exists_of_select :
      (p : A → Bool) (xs : List A) (x : A) (ys : List A) → select p xs ≡ x ∷ ys → exists p xs ≡ true
  unfolding exists select
  exists_of_select p [] x ys h = cc
  exists_of_select p (z ∷ xs) x ys h = ground (arith, exists_of_select p xs x ys)

  pub exists-append :
      (p : A → Bool) (xs ys : List A)
      → exists p (xs ++ ys) ≡ (if exists p xs then true else exists p ys)
  unfolding exists
  exists-append p [] ys = refl
  exists-append p (x ∷ xs) ys = ground (arith, exists-append p xs ys)

  pub select-exists_none : (p : A → Bool) (xs : List A) → exists p xs ≡ false → select p xs ≡ []
  unfolding exists select
  select-exists_none p [] h = refl
  select-exists_none p (x ∷ xs) h = ground (arith, select-exists_none p xs)

  update_none : (p : A → Bool) (f : A → A) (xs : List A) → select p xs ≡ [] → update p f xs ≡ xs
  unfolding select update
  update_none p f [] h = refl
  update_none p f (x ∷ xs) h = ground (arith, update_none p f xs)

  -- An update of one row: a test that this row fails before and after selects as before.
  pub select-update_one :
      (q p : A → Bool) (f : A → A) (xs : List A) (x : A)
      → select p xs ≡ x ∷ []
      → q x ≡ false
      → q (f x) ≡ false
      → select q (update p f xs) ≡ select q xs
  unfolding select update
  select-update_one q p f [] x h a b = refl
  select-update_one q p f (z ∷ xs) x h a b =
      ground (arith, update_none p f xs, select-update_one q p f xs x)

  pub count_of_select : (p : A → Bool) (xs : List A) (x : A) → select p xs ≡ x ∷ [] → count p xs ≡ 1
  count_of_select p xs x h = omega (arith, length-select p xs, ap length h)
