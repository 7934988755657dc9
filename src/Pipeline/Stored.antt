-- ===== src/Pipeline/Stored.antt =====
-- Where an accepted upload leaves the contents of its files.
use project_6_document_class.Base.{
  ℕ, ◌≡◌, refl, ap, ◌∙◌, sym, subst, String, false, List, [], ◌∷◌, ◌++◌, some, map, arith, All,
  Option-cases, inl, inr, eq_iff, eq_refl,
}
use project_6_document_class.Domain.{text_in}
use project_6_document_class.Blob.{Bucket, get_object, original_key}
use project_6_document_class.Blob.Keys.{original_key_inj}
use project_6_document_class.Upload.{
  UploadFile, Site, Reply, Queued, accepted, name_or_empty, store_and_queue,
}
use project_6_document_class.Upload.Outcomes.{after, queued}

abbrev pub names : List UploadFile → List String
names fs = map (λ f. name_or_empty f.filename) fs

-- No name occurs twice.
abbrev pub IsDistinct : List String → Type 0
IsDistinct [] = Unit
IsDistinct (x ∷ xs) = (text_in x xs ≡ false) × IsDistinct xs

module _ (b r : String) where
  -- The object of a file is under its key.
  abbrev pub IsStored : Bucket → UploadFile → Type 0
  IsStored bucket f = get_object (original_key b (name_or_empty f.filename)) bucket ≡ some f.content

  -- The key of a name that no file has keeps its object.
  kept_object :
      (n : String) (fs : List UploadFile) (jobs : List Queued) (s : Site) {b' r' : String} {k : ℕ}
      {out : List Queued}
      → (store_and_queue b r fs jobs s).0 ≡ accepted b' k r' out
      → text_in n (names fs) ≡ false
      → get_object (original_key b n) (store_and_queue b r fs jobs s).1.bucket
        ≡ get_object (original_key b n) s.bucket
  unfolding store_and_queue text_in get_object
  kept_object n [] jobs s h other = refl
  kept_object n (f ∷ fs) jobs s {b' = b'} {r' = r'} {k = k} {out = out} h other =
      let name = name_or_empty f.filename in
      elim (Option-cases f.job_id) [
        | inl e ↦ absurd (ground (arith, e, h))
        | inr (i, e) ↦ ground (
          arith,
          e,
          other,
          eq_iff n name,
          eq_iff (original_key b name) (original_key b n),
          original_key_inj b name n,
          kept_object n fs (jobs ++ queued b r f i ∷ []) (after b r f s) {b' = b'} {r' = r'} {k = k}
              {out = out},
        )
      ]

  -- The first turn of the loop.
  first_stored :
      (f : UploadFile) (fs : List UploadFile) (jobs : List Queued) (s : Site) {b' r' : String}
      {k : ℕ} {out : List Queued}
      → (store_and_queue b r (f ∷ fs) jobs s).0 ≡ accepted b' k r' out
      → (i : String) × (store_and_queue b r (f ∷ fs) jobs s
          ≡ store_and_queue b r fs (jobs ++ queued b r f i ∷ []) (after b r f s))
  unfolding store_and_queue
  first_stored f fs jobs s h = elim (Option-cases f.job_id) [
    | inl e ↦ absurd (ground (arith, e, h))
    | inr (i, e) ↦ (i, ground (arith, e, h))
  ]

  pub files-IsStored :
      (fs : List UploadFile) (jobs : List Queued) (s : Site) {b' r' : String} {k : ℕ}
      {out : List Queued}
      → (store_and_queue b r fs jobs s).0 ≡ accepted b' k r' out
      → IsDistinct (names fs)
      → All (IsStored (store_and_queue b r fs jobs s).1.bucket) fs
  files-IsStored [] jobs s h d = tt
  files-IsStored (f ∷ fs) jobs s {b' = b'} {r' = r'} {k = k} {out = out} h d =
      let name = name_or_empty f.filename in
      let (i, step) = first_stored f fs jobs s {b' = b'} {r' = r'} {k = k} {out = out} h in
      let rest = ap (λ x. x.0) (sym step) ∙ h in
      let own : get_object (original_key b name) (after b r f s).bucket ≡ some f.content =
        unfold get_object in rw (eq_refl (original_key b name)) in
      subst (λ (x : Reply × Site). All (IsStored x.1.bucket) (f ∷ fs)) (sym step)
        (
          kept_object name fs (jobs ++ queued b r f i ∷ []) (after b r f s) rest d.0 ∙ own,
          files-IsStored fs (jobs ++ queued b r f i ∷ []) (after b r f s) rest d.1,
        )
