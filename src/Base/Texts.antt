-- ===== src/Base/Texts.antt =====
-- Texts that differ behind a common prefix.
use Prim.Native.String.{String, ◌++◌ as ◌+++◌, ◌∷◌ as ◌:::◌}
use Prim.Native.Char.{Char, code}
use text.Mathlib.TextLemmas.{append_cancel_left, head-eq_of_cons-eq}
use mathlib.Core.Path.{ap}
use mathlib.Core.Logic.{◌≢◌}

-- Two texts that go on from one prefix with different characters are different.
pub apart : (p s t : String) (c d : Char) → code c ≢ code d → p +++ (c ::: s) ≢ p +++ (d ::: t)
apart p s t c d ne h = ne (ap code (head-eq_of_cons-eq (append_cancel_left p _ _ h)))
