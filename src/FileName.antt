-- ===== src/FileName.antt =====
-- What `pathlib.PurePosixPath` (Python 3.11 to 3.13) and `str` give of a file's name, and the
-- test of its extension that app/infra/sftp_watcher.py and app/api/routers/upload.py make.
pub mod Extensions
pub mod Slashes
use Prim.Native.Char.{Char, code}
use Prim.Native.String.{[] as empty, ◌∷◌ as ◌:::◌, ◌++◌ as ◌+++◌}
use project_6_document_class.Base.{
  ℕ, ◌+◌, String, Bool, true, false, not, ◌==◌, ◌&&◌, ◌||◌, List, [], ◌∷◌, Option, none, some, map,
  leb, eqb, if◌then◌else◌, select,
}

abbrev pub is_dot : Char → Bool
is_dot c = eqb (code c) b'.'

abbrev pub is_slash : Char → Bool
is_slash c = eqb (code c) b'/'

abbrev pub put_front : Char → String → Option (String × String) → Option (String × String)
put_front c s none = if is_dot c then some ("", s) else none
put_front c s (some (a, b)) = some (c ::: a, b)

-- The text before the last dot, and the text behind it.
unfoldable pub split_dot : String → Option (String × String)
split_dot empty = none
split_dot (c ::: s) = put_front c s (split_dot s)

abbrev pub on_front : Char → List String → List String
on_front c [] = []
on_front c (s ∷ rest) = (c ::: s) ∷ rest

-- `s.split("/")`
unfoldable pub split_slash : String → List String
split_slash empty = "" ∷ []
split_slash (c ::: s) = if is_slash c then "" ∷ split_slash s else on_front c (split_slash s)

abbrev pub last_or : String → List String → String
last_or d [] = d
last_or d (x ∷ xs) = last_or x xs

-- `PurePosixPath(s).name`
unfoldable pub name : String → String
unfolding split_slash select
name s = last_or "" (select (λ x. not (x == "") && not (x == ".")) (split_slash s))

-- `PurePosixPath(s).suffix`, of the name
abbrev pub suffix_of : Option (String × String) → String
suffix_of none = ""
suffix_of (some (a, b)) = if a == "" || b == "" then "" else "." +++ b

unfoldable pub suffix : String → String
unfolding name split_dot
suffix s = suffix_of (split_dot (name s))

-- `PurePosixPath(s).stem`
abbrev pub stem_of : String → Option (String × String) → String
stem_of n none = n
stem_of n (some (a, b)) = if a == "" || b == "" then n else a

unfoldable pub stem : String → String
unfolding name split_dot
stem s = stem_of (name s) (split_dot (name s))

-- `str.lower()` on code points. Beyond ASCII it gives no `t`, `i` or `f` by itself, so for the
-- comparison below the ASCII letters suffice.
abbrev pub lower_codes : String → List ℕ
lower_codes empty = []
lower_codes (c ::: s) =
    (if leb b'A' (code c) && leb (code c) b'Z' then code c + 32 else code c) ∷ lower_codes s

abbrev pub same_codes : List ℕ → List ℕ → Bool
same_codes [] [] = true
same_codes (a ∷ as') (b ∷ bs) = eqb a b && same_codes as' bs
same_codes _ _ = false

-- `ext.lower() in VALID_EXTENSIONS`
unfoldable pub is_valid_extension : String → Bool
is_valid_extension ext =
    same_codes (lower_codes ext) (lower_codes ".tiff")
    || same_codes (lower_codes ext) (lower_codes ".tif")

-- `("." + name.rsplit(".", 1)[-1].lower()) if "." in name else ""`, before `lower`.
abbrev pub rsplit_extension_of : Option (String × String) → String
rsplit_extension_of none = ""
rsplit_extension_of (some (a, b)) = "." +++ b

unfoldable pub rsplit_extension : String → String
unfolding split_dot
rsplit_extension s = rsplit_extension_of (split_dot s)
