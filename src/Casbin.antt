-- ===== src/Casbin.antt =====
-- The access policy: how `_init_casbin_enforcer` of app/api/main.py loads casbin/policy.csv into
-- an empty store, and what casbin/model.conf makes of the rules. Casbin itself is an argument.
pub mod Matrix
use Prim.Native.Char.{Char, code}
use Prim.Native.String.{[] as empty, ◌∷◌ as ◌:::◌}
use project_6_document_class.Base.{
  ℕ, String, Bool, true, false, not, ◌==◌, ◌&&◌, ◌||◌, ◌≡◌, List, [], ◌∷◌, ◌++◌, map, leb, eqb,
  if◌then◌else◌, exists,
}

-- White space, as `str.strip` takes it.
abbrev is_space : Char → Bool
is_space c =
    let n = code c in
    leb 9 n && leb n 13
    || leb 28 n && leb n 32
    || eqb n 0x85
    || eqb n 0xA0
    || eqb n 0x1680
    || leb 0x2000 n && leb n 0x200A
    || leb 0x2028 n && leb n 0x2029
    || eqb n 0x202F
    || eqb n 0x205F
    || eqb n 0x3000

unfoldable pub lstrip : String → String
lstrip empty = ""
lstrip (c ::: s) = if is_space c then lstrip s else c ::: s

unfoldable pub rstrip : String → String
rstrip empty = ""
rstrip (c ::: s) = let r = rstrip s in if is_space c && r == "" then "" else c ::: r

unfoldable pub strip : String → String
unfolding lstrip rstrip
strip s = rstrip (lstrip s)

abbrev on_front : Char → List String → List String
on_front c [] = []
on_front c (s ∷ rest) = (c ::: s) ∷ rest

-- `line.split(",")`
unfoldable pub split_comma : String → List String
split_comma empty = "" ∷ []
split_comma (c ::: s) = if eqb (code c) b',' then "" ∷ split_comma s else on_front c (split_comma s)

abbrev pub same_rule : List String → List String → Bool
same_rule [] [] = true
same_rule (a ∷ as') (b ∷ bs) = a == b && same_rule as' bs
same_rule _ _ = false

-- `add_policy` of a rule that is there already does nothing.
abbrev pub add_policy : List String → List (List String) → List (List String)
add_policy rule policy = if exists (same_rule rule) policy then policy else policy ++ rule ∷ []

abbrev from_parts : List String → List (List String) → List (List String)
from_parts [] policy = policy
from_parts (kind ∷ rule) policy = if kind == "p" then add_policy rule policy else policy

abbrev is_comment : String → Bool
is_comment empty = true
is_comment (c ::: s) = eqb (code c) b'#'

-- One turn of the loop: a blank line or a comment is passed over.
unfoldable pub load_line : String → List (List String) → List (List String)
unfolding strip split_comma exists
load_line line policy =
    let text = strip line in
    if is_comment text then policy else from_parts (map strip (split_comma text)) policy

unfoldable pub load_policy : List String → List (List String) → List (List String)
unfolding load_line
load_policy [] policy = policy
load_policy (line ∷ lines) policy = load_policy lines (load_line line policy)

-- The matcher of model.conf, and its effect: some rule allows.
abbrev pub enforce : List (List String) → String → String → String → Bool
enforce policy sub obj act = exists (same_rule (sub ∷ obj ∷ act ∷ [])) policy

-- The lines of casbin/policy.csv.
abbrev pub policy_csv : List String
policy_csv =
    "# Admin - full access" ∷ "p, admin, /users, GET" ∷ "p, admin, /users, POST"
    ∷ "p, admin, /users/role, PATCH" ∷ "p, admin, /users/delete, DELETE" ∷ "p, admin, /batches, GET"
    ∷ "p, admin, /batches/detail, GET" ∷ "p, admin, /predictions/recent, GET"
    ∷ "p, admin, /predictions/batch, GET" ∷ "p, admin, /predictions/relabel, PATCH"
    ∷ "p, admin, /audit, GET" ∷ "p, admin, /upload, POST" ∷ ""
    ∷ "# Reviewer - view batches/predictions, relabel, upload" ∷ "p, reviewer, /batches, GET"
    ∷ "p, reviewer, /batches/detail, GET" ∷ "p, reviewer, /predictions/recent, GET"
    ∷ "p, reviewer, /predictions/batch, GET" ∷ "p, reviewer, /predictions/relabel, PATCH"
    ∷ "p, reviewer, /upload, POST" ∷ "" ∷ "# Auditor - read-only on batches and audit log"
    ∷ "p, auditor, /batches, GET" ∷ "p, auditor, /batches/detail, GET"
    ∷ "p, auditor, /predictions/recent, GET" ∷ "p, auditor, /predictions/batch, GET"
    ∷ "p, auditor, /audit, GET" ∷ []
