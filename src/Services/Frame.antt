-- ===== src/Services/Frame.antt =====
-- Which rows a writing call leaves as they were, by the cache keys that it does not delete.
use project_6_document_class.Base.{
  ◌≡◌, refl, ap, ◌∙◌, String, Bool, true, false, ◌==◌, eq_iff, eq_refl, List, [], ◌∷◌, ◌++◌, arith,
  select, exists, ◌⊎◌, inl, inr, Bool-cases, update, delete_where,
}
use project_6_document_class.Base.RowLaws.{
  select-append, select-update_ne, select-delete_where_ne, select-update_one, exists_of_select,
}
use project_6_document_class.Base.Unique.{exists-or_left}
use project_6_document_class.Domain.{Prediction, text_in}
use project_6_document_class.Db.{Db, UserRow, BatchRow}
use project_6_document_class.Cache.{
  users_list_key, batches_list_key, predictions_recent_key, user_me_key, batch_key,
  predictions_batch_key,
}
use project_6_document_class.Repo.UserRepo
use project_6_document_class.Repo.BatchRepo
use project_6_document_class.Repo.PredictionRepo
use project_6_document_class.Services.Change.{
  Change, nothing, user_created, role_changed, user_deleted, batch_created, batch_moved,
  prediction_saved, relabelled,
}

-- The one row that a lookup found is found again.
abbrev pub FindsAgain : {A : Type 0} → (A → Bool) → List A → List A → Type 0
FindsAgain {A} q xs ys = (x : A) → select q xs ≡ x ∷ [] → select q ys ≡ x ∷ []

pub record Frame (db db' : Db) (keys : List String) : Type 0 where
  pub users : (text_in users_list_key keys ≡ true) ⊎ (db'.users ≡ db.users)
  pub user :
      (id : String)
      → (text_in (user_me_key id) keys ≡ true) ⊎ FindsAgain (UserRepo.has_id id) db.users db'.users
  pub batches : (text_in batches_list_key keys ≡ true) ⊎ (db'.batches ≡ db.batches)
  pub batch :
      (id : String)
      → (text_in (batch_key id) keys ≡ true)
        ⊎ FindsAgain (BatchRepo.has_id id) db.batches db'.batches
  pub recent : (text_in predictions_recent_key keys ≡ true) ⊎ (db'.predictions ≡ db.predictions)
  pub of_batch :
      (id : String)
      → (text_in (predictions_batch_key id) keys ≡ true)
        ⊎ (select (PredictionRepo.of_batch id) db'.predictions
            ≡ select (PredictionRepo.of_batch id) db.predictions)

-- A row of a new key is not what a lookup finds.
append_FindsAgain :
    {A : Type 0} (key : A → String) (xs : List A) (row : A) (k : String)
    → exists (λ y. key y == key row) xs ≡ false
    → FindsAgain (λ y. key y == k) xs (xs ++ row ∷ [])
unfolding select
append_FindsAgain key xs row k free x e = elim (Bool-cases (key row == k)) [
  | inl same ↦ absurd (
      ground (
        arith,
        ap (λ t. exists (λ y. key y == t) xs) ((eq_iff (key row) k).0 same),
        free,
        exists_of_select (λ y. key y == k) xs x [] e,
      ))
  | inr other ↦ ground (arith, select-append (λ y. key y == k) xs (row ∷ []), e, other)
]

-- An update by a key touches no row of another key.
module _ {A : Type 0} (key : A → String) (xs : List A) (id k : String)
    (ne : (id == k) ≡ false) where
  apart : (x : A) → (key x == id) ≡ true → (key x == k) ≡ false
  apart x h = ground (arith, eq_iff (key x) id, eq_iff (key x) k, eq_iff id k)

  update-FindsAgain :
      (f : A → A)
      → ((x : A) → key (f x) ≡ key x)
      → FindsAgain (λ y. key y == k) xs (update (λ y. key y == id) f xs)
  update-FindsAgain f same x e =
      select-update_ne (λ y. key y == k) (λ y. key y == id) f xs apart
        (λ y h. rw (same y) (apart y h))
      ∙ e

  delete_FindsAgain : FindsAgain (λ y. key y == k) xs (delete_where (λ y. key y == id) xs)
  delete_FindsAgain x e = select-delete_where_ne (λ y. key y == k) (λ y. key y == id) xs apart ∙ e

-- The key built from `id`, or another.
same_or_other : (id k : String) → (id ≡ k) ⊎ ((id == k) ≡ false)
same_or_other id k = elim (Bool-cases (id == k)) [ inl e ↦ inl ((eq_iff id k).0 e) | inr e ↦ inr e ]

text_in-head : (k : String) (ks : List String) → text_in k (k ∷ ks) ≡ true
unfolding text_in
text_in-head k ks = ground (arith, eq_refl k)

text_in-tail : (k j : String) (ks : List String) → text_in k ks ≡ true → text_in k (j ∷ ks) ≡ true
unfolding text_in
text_in-tail k j ks h = ground (arith, h)

module _ (db db' : Db) where
  -- A change of the users under one id.
  user-Frame :
      (id : String)
      → ((k : String) → (id == k) ≡ false → FindsAgain (UserRepo.has_id k) db.users db'.users)
      → db'.batches ≡ db.batches
      → db'.predictions ≡ db.predictions
      → Frame db db' (user_me_key id ∷ users_list_key ∷ [])
  user-Frame id others b p = record {
    users = inl (text_in-tail users_list_key (user_me_key id) _ (text_in-head users_list_key []));
    user = λ k. elim (same_or_other id k) [
      | inl e ↦ inl (rw e (text_in-head (user_me_key k) (users_list_key ∷ [])))
      | inr ne ↦ inr (others k ne)
    ];
    batches = inr b;
    batch = λ k. inr (λ x e. rw b e);
    recent = inr p;
    of_batch = λ k. inr (rw p refl);
  }

  -- What a change of the batches or of the predictions leaves: the users.
  module _ (u : db'.users ≡ db.users) where
    keep_user : (k : String) → FindsAgain (UserRepo.has_id k) db.users db'.users
    keep_user k x e = rw u e

    batch-Frame :
        (id : String) (rest : List String)
        → text_in batches_list_key rest ≡ true
        → ((k : String)
            → (id == k) ≡ false
            → FindsAgain (BatchRepo.has_id k) db.batches db'.batches)
        → db'.predictions ≡ db.predictions
        → Frame db db' (batch_key id ∷ rest)
    batch-Frame id rest listed others p = record {
      users = inr u;
      user = λ k. inr (keep_user k);
      batches = inl (text_in-tail batches_list_key (batch_key id) rest listed);
      batch = λ k. elim (same_or_other id k) [
        | inl e ↦ inl (rw e (text_in-head (batch_key k) rest))
        | inr ne ↦ inr (others k ne)
      ];
      recent = inr p;
      of_batch = λ k. inr (rw p refl);
    }

    prediction-Frame :
        (id : String)
        → db'.batches ≡ db.batches
        → ((k : String)
            → (id == k) ≡ false
            → select (PredictionRepo.of_batch k) db'.predictions
              ≡ select (PredictionRepo.of_batch k) db.predictions)
        → Frame db db' (predictions_recent_key ∷ batch_key id ∷ predictions_batch_key id ∷ [])
    prediction-Frame id b others = record {
      users = inr u;
      user = λ k. inr (keep_user k);
      batches = inr b;
      batch = λ k. inr (λ x e. rw b e);
      recent = inl (text_in-head predictions_recent_key _);
      of_batch = λ k. elim (same_or_other id k) [
        | inl e ↦ inl (
            rw e (
              text_in-tail (predictions_batch_key k) predictions_recent_key _ (
                text_in-tail (predictions_batch_key k) (batch_key k) _
                  (text_in-head (predictions_batch_key k) []))))
        | inr ne ↦ inr (others k ne)
      ];
    }

one_of_batch :
    (row : Prediction) (k : String)
    → (row.batch_id == k) ≡ false
    → (ps : List Prediction)
    → select (PredictionRepo.of_batch k) (ps ++ row ∷ []) ≡ select (PredictionRepo.of_batch k) ps
unfolding select
one_of_batch row k ne [] = ground (arith, ne)
one_of_batch row k ne (p ∷ ps) = ground (arith, one_of_batch row k ne ps)

pub Change-Frame : {db db' : Db} {keys : List String} → Change db db' keys → Frame db db' keys
Change-Frame (nothing d) = record {
  users = inr (ap (λ (x : Db). x.users) d);
  user = λ k. inr (λ x e. rw d e);
  batches = inr (ap (λ (x : Db). x.batches) d);
  batch = λ k. inr (λ x e. rw d e);
  recent = inr (ap (λ (x : Db). x.predictions) d);
  of_batch = λ k. inr (rw d refl);
}
Change-Frame {db} (user_created row e free new d ks) =
    rw (d, ks)
      (record {
        users = inl (text_in-head users_list_key []);
        user = λ k. inr (
            append_FindsAgain (λ (u : UserRow). u.id) db.users row k
              (exists-or_left (UserRepo.has_id row.id) (UserRepo.has_email row.email) db.users
                free));
        batches = inr refl;
        batch = λ k. inr (λ x e. e);
        recent = inr refl;
        of_batch = λ k. inr refl;
      })
Change-Frame {db} {db'} (role_changed id role now e new d ks) =
    rw (d, ks)
      (user-Frame db _ id
        (λ k ne.
          update-FindsAgain (λ (u : UserRow). u.id) db.users id k ne (UserRepo.with_role role now)
            (λ u. refl))
        refl refl)
Change-Frame {db} {db'} (user_deleted id x e found new d ks) =
    rw (d, ks)
      (user-Frame db _ id (λ k ne. delete_FindsAgain (λ (u : UserRow). u.id) db.users id k ne) refl
        refl)
Change-Frame {db} {db'} (batch_created row e free new d ks) =
    rw (d, ks)
      (record {
        users = inr refl;
        user = λ k. inr (λ x e. e);
        batches = inl (text_in-head batches_list_key []);
        batch = λ k. inr (append_FindsAgain (λ (b : BatchRow). b.id) db.batches row k free);
        recent = inr refl;
        of_batch = λ k. inr refl;
      })
Change-Frame {db} {db'} (batch_moved id status now e new d ks) =
    rw (d, ks)
      (batch-Frame db _ refl id (batches_list_key ∷ []) (text_in-head batches_list_key [])
        (λ k ne.
          update-FindsAgain (λ (b : BatchRow). b.id) db.batches id k ne
            (BatchRepo.with_status status now) (λ b. refl))
        refl)
Change-Frame {db} {db'} (prediction_saved row free known d ks) =
    rw (d, ks)
      (prediction-Frame db _ refl row.batch_id refl (λ k ne. one_of_batch row k ne db.predictions))
Change-Frame {db} {db'} (relabelled id c x e found new d ks) =
    rw (d, ks)
      (prediction-Frame db _ refl x.batch_id refl (λ k ne.
        select-update_one (PredictionRepo.of_batch k) (PredictionRepo.has_id id)
          (PredictionRepo.with_class c) db.predictions x found ne ne))
