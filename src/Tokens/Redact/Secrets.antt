-- ===== src/Tokens/Redact/Secrets.antt =====
-- What redaction hides and what it keeps.
use mock_idp.Common.{
  String, false, ◌≡◌, refl, ◌⊎◌, ◌↔◌, subst, inl, inr, if◌then◌else◌, elem, Bool-cases, ap, Option,
  none, some, ◌==◌, eq_iff,
}
use mock_idp.Value.{Value, null, bool, int, str, list, dict, Items, nil, cons, Fields, end, field}
use mock_idp.Tokens.Redact.{secret_keys, redact, redact_items, redact_fields}

-- Every secret key in a value, at any depth, holds the text "***".
abbrev mutual
  pub HidesSecrets : Value → Type 0
  HidesSecrets null = Unit
  HidesSecrets (bool b) = Unit
  HidesSecrets (int z) = Unit
  HidesSecrets (str s) = Unit
  HidesSecrets (list vs) = HidesSecretsItems vs
  HidesSecrets (dict fs) = HidesSecretsFields fs

  pub HidesSecretsItems : Items → Type 0
  HidesSecretsItems nil = Unit
  HidesSecretsItems (cons v vs) = HidesSecrets v × HidesSecretsItems vs

  pub HidesSecretsFields : Fields → Type 0
  HidesSecretsFields end = Unit
  HidesSecretsFields (field k v fs) =
      ((elem k secret_keys ≡ false) ⊎ (v ≡ str "***")) × HidesSecrets v × HidesSecretsFields fs

mutual
  unfolding redact

  redact-Hides : (v : Value) → HidesSecrets (redact v)
  redact-Hides null = tt
  redact-Hides (bool b) = tt
  redact-Hides (int z) = tt
  redact-Hides (str s) = tt
  redact-Hides (list vs) = redact_items-Hides vs
  redact-Hides (dict fs) = redact_fields-Hides fs

  redact_items-Hides : (vs : Items) → HidesSecretsItems (redact_items vs)
  redact_items-Hides nil = tt
  redact_items-Hides (cons v vs) = (redact-Hides v, redact_items-Hides vs)

  redact_fields-Hides : (fs : Fields) → HidesSecretsFields (redact_fields fs)
  redact_fields-Hides end = tt
  redact_fields-Hides (field k v fs) = elim (Bool-cases (elem k secret_keys)) [
    | inl secret ↦ rw secret (inr refl, tt, redact_fields-Hides fs)
    | inr plain ↦ rw plain (inl refl, redact-Hides v, redact_fields-Hides fs)
  ]

masked_field :
    (k : String) (fs : Fields)
    → redact_fields fs ≡ fs
    → redact_fields (field k (str "***") fs) ≡ field k (str "***") fs
unfolding redact
masked_field k fs h = elim (Bool-cases (elem k secret_keys)) [
  | inl secret ↦ rw (secret, h)
  | inr plain ↦ rw (plain, h)
]

mutual
  unfolding redact

  redact-fixed : (v : Value) → HidesSecrets v → redact v ≡ v
  redact-fixed null h = refl
  redact-fixed (bool b) h = refl
  redact-fixed (int z) h = refl
  redact-fixed (str s) h = refl
  redact-fixed (list vs) h = ap list (redact_items-fixed vs h)
  redact-fixed (dict fs) h = ap dict (redact_fields-fixed fs h)

  redact_items-fixed : (vs : Items) → HidesSecretsItems vs → redact_items vs ≡ vs
  redact_items-fixed nil h = refl
  redact_items-fixed (cons v vs) (h, hs) = rw (redact-fixed v h, redact_items-fixed vs hs)

  redact_fields-fixed : (fs : Fields) → HidesSecretsFields fs → redact_fields fs ≡ fs
  redact_fields-fixed end h = refl
  redact_fields-fixed (field k v fs) (inl open_key, h, hs) =
      rw (open_key, redact-fixed v h, redact_fields-fixed fs hs)
  redact_fields-fixed (field k v fs) (inr masked, h, hs) =
      rw masked (masked_field k fs (redact_fields-fixed fs hs))

-- the first value of a key
abbrev pub get_field : String → Fields → Option Value
get_field k end = none
get_field k (field j v fs) = if j == k then some v else get_field k fs

abbrev pub redact_at : String → Option Value → Option Value
redact_at k none = none
redact_at k (some v) = some (if elem k secret_keys then str "***" else redact v)

-- For every value, the redacted value holds "***" under every key `password`, `secret` and
-- `admin_token` at any depth; and exactly the values that already do so are left as they are.
redact-HidesSecrets : (v : Value) → HidesSecrets (redact v) × ((redact v ≡ v) ↔ HidesSecrets v)
redact-HidesSecrets v =
    (redact-Hides v, (λ e. subst HidesSecrets e (redact-Hides v), redact-fixed v))

-- Redaction keeps every key of a dict: a secret key is given "***" and any other key its value
-- redacted, and a missing key stays missing.
get_field-redact :
    (k : String) (fs : Fields) → get_field k (redact_fields fs) ≡ redact_at k (get_field k fs)
unfolding redact
get_field-redact k end = refl
get_field-redact k (field j v fs) = elim (Bool-cases (j == k)) [
  | inl same ↦ rw same (rw ((eq_iff j k).0 same))
  | inr other ↦ rw other (get_field-redact k fs)
]
