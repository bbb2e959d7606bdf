-- ===== src/Tokens/Redact.antt =====
-- src/mock_idp/tokens.py: `redact`.
pub mod Secrets
use mock_idp.Common.{String, Bool, List, [], ◌∷◌, if◌then◌else◌, elem}
use mock_idp.Value.{Value, null, bool, int, str, list, dict, Items, nil, cons, Fields, end, field}

abbrev pub secret_keys : List String
secret_keys = "password" ∷ "secret" ∷ "admin_token" ∷ []

unfoldable mutual
  pub redact : Value → Value
  redact null = null
  redact (bool b) = bool b
  redact (int z) = int z
  redact (str s) = str s
  redact (list xs) = list (redact_items xs)
  redact (dict fs) = dict (redact_fields fs)

  pub redact_items : Items → Items
  redact_items nil = nil
  redact_items (cons v vs) = cons (redact v) (redact_items vs)

  pub redact_fields : Fields → Fields
  redact_fields end = end
  redact_fields (field k v fs) =
      field k (if elem k secret_keys then str "***" else redact v) (redact_fields fs)
