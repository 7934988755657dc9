-- ===== src/Cache/Keys.antt =====
-- No two cached responses share a key.
use Prim.Native.String.{◌++◌ as ◌+++◌}
use text.Mathlib.TextLemmas.{append_cancel_left, cons-append, append_assoc}
use project_6_document_class.Base.{ℕ, ◌<◌, String, ◌≡◌, ◌≢◌, ◌⊎◌, inl, inr, refl, sym, arith, ap}
use project_6_document_class.Base.Texts.{apart}
use project_6_document_class.Cache.{
  users_list_key, batches_list_key, predictions_recent_key, user_me_key, batch_key,
  predictions_batch_key,
}

user_me_key_inj : (a b : String) → user_me_key a ≡ user_me_key b → a ≡ b
unfolding user_me_key
user_me_key_inj a b h = append_cancel_left "user:me:" a b h

batch_key_inj : (a b : String) → batch_key a ≡ batch_key b → a ≡ b
unfolding batch_key
batch_key_inj a b h = append_cancel_left "batch:" a b h

predictions_batch_key_inj :
    (a b : String) → predictions_batch_key a ≡ predictions_batch_key b → a ≡ b
unfolding predictions_batch_key
predictions_batch_key_inj a b h = append_cancel_left "predictions:batch:" a b h

-- The keys that the routers and the services build.
pub data Key : Type 0 where
  users_list batches_list predictions_recent : Key
  user_me batch predictions_batch : String → Key

abbrev pub key_text : Key → String
key_text users_list = users_list_key
key_text batches_list = batches_list_key
key_text predictions_recent = predictions_recent_key
key_text (user_me id) = user_me_key id
key_text (batch id) = batch_key id
key_text (predictions_batch id) = predictions_batch_key id

-- The constructors in order, so that each pair of kinds is compared once.
abbrev rank : Key → ℕ
rank users_list = 0
rank batches_list = 1
rank predictions_recent = 2
rank (user_me _) = 3
rank (batch _) = 4
rank (predictions_batch _) = 5

rank_bound : (k : Key) → rank k < 6
rank_bound users_list = omega arith
rank_bound _ = omega arith

kinds_apart : (k l : Key) → rank k < rank l → key_text k ≢ key_text l
unfolding user_me_key batch_key predictions_batch_key
kinds_apart users_list batches_list lt = apart "" "sers:list" "atches:list" "u" "b" (omega arith)
kinds_apart users_list predictions_recent lt =
    apart "" "sers:list" "redictions:recent" "u" "p" (omega arith)
kinds_apart users_list (user_me b) lt =
    rw (append_assoc "user" ":me:" b, cons-append ":" "me:" b)
      (apart "user" ":list" ("me:" +++ b) "s" ":" (omega arith))
kinds_apart users_list (batch b) lt =
    rw (append_assoc "" "batch:" b, cons-append "b" "atch:" b)
      (apart "" "sers:list" ("atch:" +++ b) "u" "b" (omega arith))
kinds_apart users_list (predictions_batch b) lt =
    rw (append_assoc "" "predictions:batch:" b, cons-append "p" "redictions:batch:" b)
      (apart "" "sers:list" ("redictions:batch:" +++ b) "u" "p" (omega arith))
kinds_apart batches_list predictions_recent lt =
    apart "" "atches:list" "redictions:recent" "b" "p" (omega arith)
kinds_apart batches_list (user_me b) lt =
    rw (append_assoc "" "user:me:" b, cons-append "u" "ser:me:" b)
      (apart "" "atches:list" ("ser:me:" +++ b) "b" "u" (omega arith))
kinds_apart batches_list (batch b) lt =
    rw (append_assoc "batch" ":" b, cons-append ":" "" b)
      (apart "batch" "s:list" ("" +++ b) "e" ":" (omega arith))
kinds_apart batches_list (predictions_batch b) lt =
    rw (append_assoc "" "predictions:batch:" b, cons-append "p" "redictions:batch:" b)
      (apart "" "atches:list" ("redictions:batch:" +++ b) "b" "p" (omega arith))
kinds_apart predictions_recent (user_me b) lt =
    rw (append_assoc "" "user:me:" b, cons-append "u" "ser:me:" b)
      (apart "" "redictions:recent" ("ser:me:" +++ b) "p" "u" (omega arith))
kinds_apart predictions_recent (batch b) lt =
    rw (append_assoc "" "batch:" b, cons-append "b" "atch:" b)
      (apart "" "redictions:recent" ("atch:" +++ b) "p" "b" (omega arith))
kinds_apart predictions_recent (predictions_batch b) lt =
    rw (append_assoc "predictions:" "batch:" b, cons-append "b" "atch:" b)
      (apart "predictions:" "ecent" ("atch:" +++ b) "r" "b" (omega arith))
kinds_apart (user_me a) (batch b) lt =
    rw
      (
        append_assoc "" "user:me:" a,
        cons-append "u" "ser:me:" a,
        append_assoc "" "batch:" b,
        cons-append "b" "atch:" b,
      )
      (apart "" ("ser:me:" +++ a) ("atch:" +++ b) "u" "b" (omega arith))
kinds_apart (user_me a) (predictions_batch b) lt =
    rw
      (
        append_assoc "" "user:me:" a,
        cons-append "u" "ser:me:" a,
        append_assoc "" "predictions:batch:" b,
        cons-append "p" "redictions:batch:" b,
      )
      (apart "" ("ser:me:" +++ a) ("redictions:batch:" +++ b) "u" "p" (omega arith))
kinds_apart (batch a) (predictions_batch b) lt =
    rw
      (
        append_assoc "" "batch:" a,
        cons-append "b" "atch:" a,
        append_assoc "" "predictions:batch:" b,
        cons-append "p" "redictions:batch:" b,
      )
      (apart "" ("atch:" +++ a) ("redictions:batch:" +++ b) "b" "p" (omega arith))
kinds_apart (predictions_batch a) l lt = absurd (omega (arith, rank_bound l))
kinds_apart _ _ lt = absurd (omega arith)

same_kind : (k l : Key) → rank k ≡ rank l → key_text k ≡ key_text l → k ≡ l
same_kind users_list users_list r h = refl
same_kind batches_list batches_list r h = refl
same_kind predictions_recent predictions_recent r h = refl
same_kind (user_me a) (user_me b) r h = ap user_me (user_me_key_inj a b h)
same_kind (batch a) (batch b) r h = ap batch (batch_key_inj a b h)
same_kind (predictions_batch a) (predictions_batch b) r h =
    ap predictions_batch (predictions_batch_key_inj a b h)
same_kind _ _ r h = absurd (omega arith)

-- Two responses whose cache keys are one text are the same response: keys of different kinds
-- differ, and a key that is built from an id determines the id.
pub key_text_inj : (k l : Key) → key_text k ≡ key_text l → k ≡ l
key_text_inj k l h = elim (order (rank k) (rank l)) [
  | inl (inl lt) ↦ absurd (kinds_apart k l lt h)
  | inl (inr e) ↦ same_kind k l e h
  | inr gt ↦ absurd (kinds_apart l k gt (sym h))
]
  where
    order : (a b : ℕ) → ((a < b) ⊎ (a ≡ b)) ⊎ (b < a)
    order a b = grind arith
