-- ===== src/Dashboard/Picks.antt =====
-- The rows of streamlit-dashboard.py that a person picks by their texts.
use project_6_document_class.Base.{
  ◌≡◌, refl, ap, ◌∙◌, Option-cases, All, inl, inr, String, false, ◌==◌, List, [], ◌∷◌, ◌++◌, Option,
  none, some, if◌then◌else◌, arith, eq_iff, eq_refl,
}
use project_6_document_class.Dashboard.{Value}

-- `{key(r): r for r in rows}` and its look-up: of two rows with one key the later one stays.
unfoldable pub picked : (Value → String) → String → List Value → Option Value
picked key option [] = none
picked key option (r ∷ rs) = elim (picked key option rs) [
  | some later ↦ some later
  | none ↦ if key r == option then some r else none
]

some_inj : {a b : Value} → some a ≡ some b → a ≡ b
some_inj h = cc

-- What is picked is a row with that text.
pub picked_key :
    (key : Value → String) (option : String) (rows : List Value) {r : Value}
    → picked key option rows ≡ some r
    → key r ≡ option
unfolding picked
picked_key key option [] h = absurd (ground (arith, h))
picked_key key option (x ∷ rs) {r} h = elim (Option-cases (picked key option rs)) [
  | inr (later, e) ↦
      let same : later ≡ r = some_inj (ground (arith, e, h)) in
      picked_key key option rs {r = r} (e ∙ ap some same)
  | inl e ↦ ground (arith, e, h, eq_iff (key x) option)
]

picked-none :
    (key : Value → String) (option : String) (rows : List Value)
    → All (λ x. (key x == option) ≡ false) rows
    → picked key option rows ≡ none
unfolding picked
picked-none key option [] others = refl
picked-none key option (x ∷ rs) others = ground (arith, picked-none key option rs others.1)

-- A row is picked by its text where no later row has that text, so a later one hides it.
pub picked_last :
    (key : Value → String) (earlier later : List Value) (r : Value)
    → All (λ x. (key x == key r) ≡ false) later
    → picked key (key r) (earlier ++ r ∷ later) ≡ some r
unfolding picked
picked_last key [] later r others =
    ground (arith, eq_refl (key r), picked-none key (key r) later others)
picked_last key (x ∷ xs) later r others = ground (arith, picked_last key xs later r others)
