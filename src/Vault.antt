-- ===== src/Vault.antt =====
-- app/infra/vault.py. The environment variables and the Vault server are arguments.
use project_6_document_class.Base.{
  String, Bool, true, false, ◌==◌, ◌||◌, ◌≡◌, ◌≢◌, Option, none, some, if◌then◌else◌, arith, eq_iff,
  ◌⊎◌,
}

-- `_client`: not asked for yet, the flag `False`, or a client.
pub data Client : Type 0 where
  unset no_vault connected : Client

pub data Secret : Type 0 where
  value : String → Secret
  auth_failed not_in_environment unreadable not_in_vault : Secret

-- What the process finds outside: two variables, whether the token is accepted, whether the
-- secrets can be read, the secrets, and the other variables (an unset one is "").
pub record Outside : Type 0 where
  pub vault_addr : String
  pub vault_token : String
  pub is_authenticated : Bool
  pub readable : Bool
  pub secrets : String → Option String
  pub environ : String → String

-- `none` is the `RuntimeError` of a token that is not accepted.
unfoldable pub get_client : Outside → Client → Option Client
get_client o unset =
    if o.vault_addr == "" || o.vault_token == ""
    then some no_vault
    else if o.is_authenticated
    then some connected
    else none
get_client o c = some c

abbrev from_environment : String → Secret
from_environment text = if text == "" then not_in_environment else value text

abbrev from_vault : Bool → Option String → Secret
from_vault false found = unreadable
from_vault true none = not_in_vault
from_vault true (some text) = value text

abbrev read : Outside → String → Option Client → Secret
read o key none = auth_failed
read o key (some connected) = from_vault o.readable (o.secrets key)
read o key (some _) = from_environment (o.environ key)

abbrev kept : Client → Option Client → Client
kept before none = before
kept before (some c) = c

unfoldable pub get_secret : Outside → String → Client → Secret × Client
unfolding get_client
get_secret o key c = let found = get_client o c in (read o key found, kept c found)

-- The client that is kept between calls changes no answer: after a call for any key, a call for
-- any key answers what it would answer in a fresh process.
pub get_secret_memo :
    (o : Outside) (first key : String)
    → (get_secret o key (get_secret o first unset).1).0 ≡ (get_secret o key unset).0
unfolding get_secret
get_secret_memo o first key = ground arith

-- If the address or the token of Vault is empty, and a fresh process returns a secret, it is the
-- text of the environment variable, and is not empty.
pub get_secret_local :
    (o : Outside) (key : String) {text : String}
    → (o.vault_addr ≡ "") ⊎ (o.vault_token ≡ "")
    → (get_secret o key unset).0 ≡ value text
    → (text ≡ o.environ key) × (text ≢ "")
unfolding get_secret
get_secret_local o key {text} h e =
    ground (arith, eq_iff o.vault_addr "", eq_iff o.vault_token "", eq_iff (o.environ key) "")
