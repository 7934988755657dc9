-- ===== src/FileName/Slashes.antt =====
-- The last part of a key.
use Prim.Native.String.{[] as empty, ◌∷◌ as ◌:::◌, ◌++◌ as ◌+++◌}
use text.Mathlib.TextLemmas.{nil-append, cons-append}
use project_6_document_class.Base.{◌≡◌, refl, String, List, [], ◌∷◌, ◌++◌, Bool-cases, inl, inr}
use project_6_document_class.FileName.{is_slash, split_slash, last_or}

split_slash-cons : (s : String) → (x : String) × (xs : List String) × (split_slash s ≡ x ∷ xs)
unfolding split_slash
split_slash-cons empty = ("", [], refl)
split_slash-cons (c ::: s) =
    let (x, xs, e) = split_slash-cons s in
    elim (Bool-cases (is_slash c)) [
      | inl y ↦ ("", split_slash s, rw y)
      | inr n ↦ (c ::: x, xs, rw (n, e))
    ]

split_slash-append :
    (s f : String) → split_slash (s +++ ("/" +++ f)) ≡ split_slash s ++ split_slash f
unfolding split_slash
split_slash-append empty f = rw (nil-append, cons-append "/" "" f, nil-append)
split_slash-append (c ::: s) f =
    let ih = split_slash-append s f in
    let (x, xs, e) = split_slash-cons s in
    elim (Bool-cases (is_slash c)) [
      | inl y ↦ rw (cons-append c s ("/" +++ f), y, ih)
      | inr n ↦ rw (cons-append c s ("/" +++ f), n, ih, e)
    ]

last_or-append : (d x : String) (xs : List String) → last_or d (xs ++ x ∷ []) ≡ x
last_or-append d x [] = refl
last_or-append d x (y ∷ ys) = last_or-append y x ys

pub last_part-append :
    (s f : String) → split_slash f ≡ f ∷ [] → last_or "" (split_slash (s +++ ("/" +++ f))) ≡ f
last_part-append s f plain = rw (split_slash-append, plain) (last_or-append "" f (split_slash s))
