-- ===== src/Witnesses/System.antt =====
-- The properties of the writing calls at concrete inputs: the schema, the cache, and two admins
-- who demote each other.
use mathlib.Core.List.{Perm}
use mathlib.Core.List.Perm
use project_6_document_class.Base.{
  ℕ, ◌≤◌, ◌≡◌, ◌≢◌, refl, sym, String, true, false, ◌==◌, eq_iff, List, [], ◌∷◌, Option, none, some,
  All, select, count, exists, arith, inl, inr, ◌⊎◌, leb, leb→le, if◌then◌else◌, Bool-cases,
}
use project_6_document_class.Domain.{admin}
use project_6_document_class.Domain.{pending}
use project_6_document_class.App.{World}
use project_6_document_class.App.Fresh.{IsFresh}
use project_6_document_class.Repo.UserRepo
use project_6_document_class.Repo.OrderBy.{OrderBy, IsNewestFirst}
use project_6_document_class.Cache.Keys.{Key, key_text}
use project_6_document_class.Casbin.{load_policy, enforce, policy_csv}
use project_6_document_class.BatchService
use project_6_document_class.BatchService.Machine.{to_processing}
use project_6_document_class.Services.{Write, perform, new_batch, mark_batch}
use project_6_document_class.Services.Constraints.{IsSchema}
use project_6_document_class.Services.Coherence.{Request, Response, respond, of_one_batch}
use project_6_document_class.Services.CacheStore
use project_6_document_class.Services.CacheStore.{Redis, Reach, Step, IsCoherent, delete_keys}
use project_6_document_class.UserService.Admins.{admins}
use project_6_document_class.UserService.Race
use project_6_document_class.UserService.Race.{Demand, waiting, finished, run_schedule}
use project_6_document_class.Witnesses.{
  ne-tally, tally_inj, env, row, person, office, empty_world, to_auditor,
}

empty-IsSchema : IsSchema empty_world.db
unfolding count
empty-IsSchema = record {
  user_ids = λ i. omega arith;
  emails = λ i. omega arith;
  batch_ids = λ i. omega arith;
  prediction_ids = λ i. omega arith;
  entry_ids = λ i. omega arith;
  batch_of = tt;
  actor_of = tt;
}

abbrev writes : List Write
writes = new_batch none none ∷ mark_batch to_processing "" ∷ mark_batch to_processing "" ∷ []

-- An order by time: insertion from the right.
module _ {A : Type 0} (time : A → ℕ) where
  insert : A → List A → List A
  insert x [] = x ∷ []
  insert x (y ∷ ys) = if leb (time y) (time x) then x ∷ y ∷ ys else y ∷ insert x ys

  sort : List A → List A
  sort [] = []
  sort (x ∷ xs) = insert x (sort xs)

  insert-Perm : (x : A) (ys : List A) → Perm (insert x ys) (x ∷ ys)
  unfolding insert
  insert-Perm x [] = Perm.refl (x ∷ [])
  insert-Perm x (y ∷ ys) = elim (Bool-cases (leb (time y) (time x))) [
    | inl e ↦ rw e (Perm.refl (x ∷ y ∷ ys))
    | inr e ↦ rw e (Perm.trans (Perm.cons y (insert-Perm x ys)) (Perm.swap x y ys))
  ]

  sort-Perm : (xs : List A) → Perm (sort xs) xs
  unfolding sort
  sort-Perm [] = Perm.refl []
  sort-Perm (x ∷ xs) = Perm.trans (insert-Perm x (sort xs)) (Perm.cons x (sort-Perm xs))

  insert-All :
      (n : ℕ) (x : A) (ys : List A)
      → time x ≤ n
      → All (λ y. time y ≤ n) ys
      → All (λ y. time y ≤ n) (insert x ys)
  unfolding insert
  insert-All n x [] h a = (h, tt)
  insert-All n x (y ∷ ys) h a = ground (arith, insert-All n x ys h a.1)

  below :
      (x y : A) (ys : List A)
      → time y ≤ time x
      → All (λ z. time z ≤ time y) ys
      → All (λ z. time z ≤ time x) ys
  below x y [] h a = tt
  below x y (z ∷ zs) h a = (omega (arith, a.0), below x y zs h a.1)

  insert-IsNewestFirst :
      (x : A) (ys : List A) → IsNewestFirst time ys → IsNewestFirst time (insert x ys)
  unfolding insert
  insert-IsNewestFirst x [] s = (tt, tt)
  insert-IsNewestFirst x (y ∷ ys) s = elim (Bool-cases (leb (time y) (time x))) [
    | inl e ↦ rw e ((leb→le _ _ e, below x y ys (leb→le _ _ e) s.0), s)
    | inr e ↦ rw e (insert-All (time y) x ys (ground (arith, e)) s.0, insert-IsNewestFirst x ys s.1)
  ]

  sort-IsNewestFirst : (xs : List A) → IsNewestFirst time (sort xs)
  unfolding sort
  sort-IsNewestFirst [] = tt
  sort-IsNewestFirst (x ∷ xs) = insert-IsNewestFirst x (sort xs) (sort-IsNewestFirst xs)

  abbrev order : OrderBy time
  order = record { desc = sort; desc-perm = sort-Perm; desc-IsNewestFirst = sort-IsNewestFirst }

-- Redis as the list of its entries, the last one first.
abbrev Store : Type 0
Store = List (String × Response)

find : String → Store → Option Response
find j [] = none
find j ((k, r) ∷ s) = if k == j then some r else find j s

drop_key : String → Store → Store
drop_key j [] = []
drop_key j ((k, r) ∷ s) = if k == j then drop_key j s else (k, r) ∷ drop_key j s

find-set :
    (j k : String) (r : Response) (s : Store) {v : Response}
    → find j ((k, r) ∷ s) ≡ some v
    → ((j ≡ k) × (v ≡ r)) ⊎ (find j s ≡ some v)
unfolding find
find-set j k r s {v} h = elim (Bool-cases (k == j)) [
  | inl e ↦ inl (sym ((eq_iff k j).0 e), ground (arith, e))
  | inr e ↦ inr (rw e at h)
]

find-drop_key :
    (j k : String) (s : Store) {v : Response}
    → find j (drop_key k s) ≡ some v
    → (j ≢ k) × (find j s ≡ some v)
unfolding find drop_key
find-drop_key j k [] h = absurd (ground arith)
find-drop_key j k ((l, r) ∷ s) {v} h = elim (Bool-cases (l == k)) [
  | inl e ↦ ground (arith, e, find-drop_key j k s {v = v}, eq_iff l k, eq_iff l j)
  | inr e ↦ ground (arith, e, find-drop_key j k s {v = v}, eq_iff l k, eq_iff l j)
]

abbrev redis : Redis Store
redis = record {
  get = find;
  set = λ k r s. (k, r) ∷ s;
  del = drop_key;
  get-set = find-set;
  get-del = find-drop_key;
}

abbrev request : Request
request = record {
  enforcer = enforce (load_policy policy_csv []);
  actor = person "ann" admin;
  users_order = order (λ u. u.created_at);
  batches_order = order (λ b. b.created_at);
  predictions_order = order (λ p. p.created_at);
  skip = 0;
  limit = 20;
}

abbrev answer : Response
answer = of_one_batch (record { id = "b"; status = pending; file_count = 2; created_at = 0 })

asked : respond request (Key.batch "b") office.db ≡ some answer
unfolding respond select load_policy exists BatchService.get_batch
asked = refl

nothing_cached : IsCoherent redis env request office []
unfolding IsCoherent find
nothing_cached k v h = absurd (ground arith)

-- The batch is asked for, and then marked.
abbrev marked : World
marked = perform env (mark_batch to_processing "b") office

history :
    Reach redis env request office [] marked
      (delete_keys redis marked.deleted ((key_text (Key.batch "b"), answer) ∷ []))
history =
    Reach.next (Reach.next Reach.here (Step.miss (Key.batch "b") answer asked))
      (Step.write (mark_batch to_processing "b"))

Reach-IsCoherent_example :
    IsCoherent redis env request marked
      (delete_keys redis marked.deleted ((key_text (Key.batch "b"), answer) ∷ []))
Reach-IsCoherent_example = CacheStore.Reach-IsCoherent redis env request nothing_cached history

office-IsFresh : IsFresh env office
unfolding exists
office-IsFresh = record {
  uuid4_inj = tally_inj;
  users = λ n h.
      rw
        (
          ne-tally "a" "nn" n (omega arith),
          ne-tally "b" "ob" n (omega arith),
          ne-tally "r" "ae" n (omega arith),
        )
        refl;
  batches = λ n h. rw (ne-tally "b" "" n (omega arith)) refl;
  predictions = λ n h. rw (ne-tally "p" "" n (omega arith)) refl;
  audit_logs = λ n h. refl;
}

-- Each of the two admins demotes the other.
abbrev by_ann : Demand
by_ann = record { id = "bob"; form = to_auditor; actor = person "ann" admin }

abbrev by_bob : Demand
by_bob = record { id = "ann"; form = to_auditor; actor = person "bob" admin }

found_bob : select (UserRepo.has_id "bob") office.db.users ≡ row "bob" admin ∷ []
unfolding select
found_bob = refl

found_ann : select (UserRepo.has_id "ann") office.db.users ≡ row "ann" admin ∷ []
unfolding select
found_ann = refl

known_ann : exists (UserRepo.has_id "ann") office.db.users ≡ true
unfolding exists
known_ann = refl

known_bob : exists (UserRepo.has_id "bob") office.db.users ≡ true
unfolding exists
known_bob = refl

two_admins : admins office.db ≡ 2
unfolding count
two_admins = refl

interleaved_demotions_example :
    let s =
      run_schedule env by_ann by_bob
        (true ∷ false ∷ true ∷ false ∷ [])
        (record { first = waiting; second = waiting; world = office }) in
    (s.first ≡ finished) × (s.second ≡ finished) × (admins s.world.db ≡ 0)
interleaved_demotions_example =
    Race.interleaved_demotions env by_ann by_bob office (row "bob" admin) (row "ann" admin)
      office-IsFresh found_bob found_ann (ground (arith, eq_iff "ann" "bob")) known_ann known_bob
      two_admins refl refl (λ h. cc) (λ h. cc)
