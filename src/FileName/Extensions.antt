-- ===== src/FileName/Extensions.antt =====
-- How the two ways in judge a name.
use project_6_document_class.Base.{
  ◌≡◌, refl, true, false, String, Option, none, some, Bool-cases, ◌||◌, ◌==◌, inl, inr,
}
use project_6_document_class.FileName.{
  split_dot, name, suffix, stem, suffix_of, rsplit_extension_of, is_valid_extension,
  rsplit_extension,
}

suffix_examples :
    (suffix "scan.TIFF" ≡ ".TIFF")
    × (suffix ".tiff" ≡ "")
    × (suffix "a.b/c" ≡ "")
    × (stem "a.b.tif" ≡ "a.b")
    × (is_valid_extension (suffix "x.TiF") ≡ true)
unfolding suffix stem is_valid_extension
suffix_examples = (refl, refl, refl, refl, refl)

suffix_of-rsplit :
    (o : Option (String × String))
    → is_valid_extension (suffix_of o) ≡ true
    → is_valid_extension (rsplit_extension_of o) ≡ true
suffix_of-rsplit none h = h
suffix_of-rsplit (some (a, b)) h = elim (Bool-cases (a == "" || b == "")) [
  | inl hidden ↦ absurd (not_empty (rw hidden at h))
  | inr plain ↦ rw plain at h
]
  where
    not_empty : is_valid_extension "" ≡ true → ⊥
    not_empty e = unfold is_valid_extension in cc e

-- A name without a directory part whose suffix the SFTP watcher accepts has an extension that the
-- upload handler accepts.
pub suffix-rsplit :
    (s : String)
    → name s ≡ s
    → is_valid_extension (suffix s) ≡ true
    → is_valid_extension (rsplit_extension s) ≡ true
unfolding suffix rsplit_extension
suffix-rsplit s plain h = suffix_of-rsplit (split_dot s) (rw plain at h)

-- The HTTP way in accepts a name that is an extension alone, which the other rejects.
pub hidden_differs :
    (is_valid_extension (rsplit_extension ".tiff") ≡ true)
    × (is_valid_extension (suffix ".tiff") ≡ false)
unfolding suffix rsplit_extension is_valid_extension
hidden_differs = (refl, refl)
