-- ===== src/Store/Yaml/Secrets/Resolved.antt =====
-- What the resolution of secrets leaves in a configuration.
use mock_idp.Common.{
  String, Bool, true, false, Option, none, some, ◌≡◌, ◌≢◌, refl, ap, sym, ◌∙◌, subst, arith,
  if◌then◌else◌, ◌==◌, eq_iff, eq_refl, eq_false_of_ne, ne_of_eq_false,
}
use mock_idp.Value.{Value, null, bool, int, str, list, dict, nil, cons, Fields, end, field}
use mock_idp.Result.{Result, ok, err, uncaught, ◌>>=◌}
use mock_idp.Store.Yaml.Secrets.{
  Surroundings, get_value, set_value, resolve_secret, falsy, each, table_loop, over_table,
  resolve_key, resolve_entry, resolve_tenant, resolve_secrets,
}

get-set_value :
    (k j : String) (v : Value) (fs : Fields)
    → get_value j (set_value k v fs) ≡ (if k == j then some v else get_value j fs)
get-set_value k j v end = refl
get-set_value k j v (field i w fs) =
    ground (arith, eq_iff k j, eq_iff i k, eq_iff i j, get-set_value k j v fs)

set_self : (k : String) (v : Value) (fs : Fields) → get_value k (set_value k v fs) ≡ some v
set_self k v fs =
    get-set_value k k v fs ∙ ap (λ b. if b then some v else get_value k fs) (eq_refl k)

set_other :
    (k j : String) (v : Value) (fs : Fields)
    → k ≢ j
    → get_value j (set_value k v fs) ≡ get_value j fs
set_other k j v fs ne =
    get-set_value k j v fs ∙ ap (λ b. if b then some v else get_value j fs) (eq_false_of_ne k j ne)

abbrev pub IsText : Value → Type 0
IsText (str s) = Unit
IsText _ = ⊥

-- there is a text, or nothing
abbrev pub TextOrAbsent : Option Value → Type 0
TextOrAbsent none = Unit
TextOrAbsent (some v) = IsText v

-- every value of a dict
abbrev pub All : (Value → Type 0) → Fields → Type 0
All P end = Unit
All P (field k v fs) = P v × All P fs

-- every value of a dict, if it is one
abbrev pub AllOf : (Value → Type 0) → Option Value → Type 0
AllOf P (some (dict fs)) = All P fs
AllOf P _ = Unit

-- the value under the key is a text, if the entry is a dict that has the key
abbrev pub HasText : String → Value → Type 0
HasText key (dict fs) = TextOrAbsent (get_value key fs)
HasText key _ = Unit

abbrev pub TenantResolved : Value → Type 0
TenantResolved (dict fs) =
    AllOf (HasText "password") (get_value "users" fs)
    × AllOf (HasText "secret") (get_value "service_principals" fs)
TenantResolved _ = Unit

-- The admin token, every user's password and every service principal's secret is a text, where there
-- is one.
abbrev pub IsResolved : Fields → Type 0
IsResolved raw =
    TextOrAbsent (get_value "admin_token" raw) × AllOf TenantResolved (get_value "tenants" raw)

-- what holds of a value that is returned
abbrev Ensures : {T : Type 0} → (T → Type 0) → Result T → Type 0
Ensures P (ok t) = P t
Ensures P (err e) = Unit

bind-Ensures :
    {S T : Type 0} (P : S → Type 0) (Q : T → Type 0) (m : Result S) (f : S → Result T)
    → Ensures P m
    → ((s : S) → P s → Ensures Q (f s))
    → Ensures Q (m >>= f)
bind-Ensures P Q (ok s) f h k = k s h
bind-Ensures P Q (err e) f h k = tt

if_falsy :
    (Q : Fields → Type 0) (b : Bool) (fs : Fields)
    → Q fs
    → Ensures Q (if b then ok fs else err (uncaught "AttributeError"))
if_falsy Q true fs h = h
if_falsy Q false fs h = tt

-- a new dict of which one key has changed
abbrev Changes : (Option Value → Type 0) → String → Fields → Fields → Type 0
Changes P k fs fs' = P (get_value k fs') × ((j : String) → k ≢ j → get_value j fs' ≡ get_value j fs)

module _ (P : Value → Type 0) (f : Value → Result Value)
    (good : (v : Value) → Ensures P (f v)) where
  each-All : (fs : Fields) → Ensures (All P) (each f fs)
  each-All end = tt
  each-All (field k v fs) =
      bind-Ensures P (All P) (f v) (λ v'. each f fs >>= λ fs'. ok (field k v' fs')) (good v)
        λ v' p.
          bind-Ensures (All P) (All P) (each f fs) (λ fs'. ok (field k v' fs')) (each-All fs)
            λ fs' all. (p, all)

  module _ (name : String) (fs : Fields) where
    abbrev AfterLoop : Fields → Type 0
    AfterLoop = Changes (AllOf P) name fs

    kept : (o : Option Value) → get_value name fs ≡ o → AllOf P o → AfterLoop fs
    kept o e h = (subst (AllOf P) (sym e) h, λ j ne. refl)

    loop-AfterLoop : (table : Fields) → Ensures AfterLoop (table_loop f name fs (dict table))
    loop-AfterLoop table =
        bind-Ensures (All P) AfterLoop (each f table)
          (λ table'. ok (set_value name (dict table') fs)) (each-All table)
          λ table' all. (
            subst (AllOf P) (sym (set_self name (dict table') fs)) all,
            λ j ne. set_other name j (dict table') fs ne,
          )

    over_table-AfterLoop :
        (o : Option Value) → get_value name fs ≡ o → Ensures AfterLoop (over_table f name fs o)
    over_table-AfterLoop none e = kept none e tt
    over_table-AfterLoop (some null) e = kept (some null) e tt
    over_table-AfterLoop (some (bool b)) e =
        if_falsy AfterLoop (falsy (bool b)) fs (kept (some (bool b)) e tt)
    over_table-AfterLoop (some (int z)) e =
        if_falsy AfterLoop (falsy (int z)) fs (kept (some (int z)) e tt)
    over_table-AfterLoop (some (str s)) e =
        if_falsy AfterLoop (falsy (str s)) fs (kept (some (str s)) e tt)
    over_table-AfterLoop (some (list nil)) e = kept (some (list nil)) e tt
    over_table-AfterLoop (some (list (cons v vs))) e = tt
    over_table-AfterLoop (some (dict end)) e = kept (some (dict end)) e tt
    over_table-AfterLoop (some (dict (field k v table))) e = loop-AfterLoop (field k v table)

resolve_key-Changes :
    (env : Surroundings) (key : String) (fs : Fields) (o : Option Value)
    → get_value key fs ≡ o
    → Ensures (Changes TextOrAbsent key fs) (resolve_key env key fs o)
resolve_key-Changes env key fs none e = (subst TextOrAbsent (sym e) tt, λ j ne. refl)
resolve_key-Changes env key fs (some v) e =
    bind-Ensures (λ s. Unit {0}) (Changes TextOrAbsent key fs) (resolve_secret env v)
      (λ s. ok (set_value key (str s) fs)) (returned (resolve_secret env v))
      λ s _. (
        subst TextOrAbsent (sym (set_self key (str s) fs)) tt,
        λ j ne. set_other key j (str s) fs ne,
      )
  where
    returned : (r : Result String) → Ensures (λ s. Unit {0}) r
    returned (ok s) = tt
    returned (err e) = tt

resolve_entry-HasText :
    (env : Surroundings) (key : String) (v : Value)
    → Ensures (HasText key) (resolve_entry env key v)
resolve_entry-HasText env key (dict fs) =
    bind-Ensures (Changes TextOrAbsent key fs) (HasText key)
      (resolve_key env key fs (get_value key fs)) (λ fs'. ok (dict fs'))
      (resolve_key-Changes env key fs (get_value key fs) refl) λ fs' h. h.0
resolve_entry-HasText env key null = tt
resolve_entry-HasText env key (bool b) = tt
resolve_entry-HasText env key (int z) = tt
resolve_entry-HasText env key (str s) = tt
resolve_entry-HasText env key (list vs) = tt

sps_users : ◌≢◌ {A = String} "service_principals" "users"
sps_users = ne_of_eq_false "service_principals" "users" refl

resolve_tenant-Resolved :
    (env : Surroundings) (v : Value) → Ensures TenantResolved (resolve_tenant env v)
resolve_tenant-Resolved env (dict fs) =
    let users = resolve_entry env "password" in
    let sps = resolve_entry env "secret" in
    bind-Ensures (Changes (AllOf (HasText "password")) "users" fs) TenantResolved
      (over_table users "users" fs (get_value "users" fs))
      (λ fs'.
        over_table sps "service_principals" fs' (get_value "service_principals" fs') >>= λ fs''.
        ok (dict fs''))
      (over_table-AfterLoop (HasText "password") users (resolve_entry-HasText env "password")
        "users" fs (get_value "users" fs) refl)
      λ fs' h.
        bind-Ensures (Changes (AllOf (HasText "secret")) "service_principals" fs') TenantResolved
          (over_table sps "service_principals" fs' (get_value "service_principals" fs'))
          (λ fs''. ok (dict fs''))
          (over_table-AfterLoop (HasText "secret") sps (resolve_entry-HasText env "secret")
            "service_principals" fs' (get_value "service_principals" fs') refl)
          λ fs'' h'. (subst (AllOf (HasText "password")) (sym (h'.1 "users" sps_users)) h.0, h'.0)
resolve_tenant-Resolved env null = tt
resolve_tenant-Resolved env (bool b) = tt
resolve_tenant-Resolved env (int z) = tt
resolve_tenant-Resolved env (str s) = tt
resolve_tenant-Resolved env (list vs) = tt

weaken :
    {T : Type 0} (P Q : T → Type 0) (r : Result T)
    → Ensures P r
    → ((t : T) → P t → Q t)
    → Ensures Q r
weaken P Q (ok t) h k = k t h
weaken P Q (err e) h k = tt

tenants_admin : ◌≢◌ {A = String} "tenants" "admin_token"
tenants_admin = ne_of_eq_false "tenants" "admin_token" refl

abbrev Resolution : Fields → Fields → Type 0
Resolution raw raw' =
    IsResolved raw'
    × ((k : String) → "admin_token" ≢ k → "tenants" ≢ k → get_value k raw' ≡ get_value k raw)

resolve_secrets-Ensures :
    (env : Surroundings) (raw : Fields) → Ensures (Resolution raw) (resolve_secrets env raw)
unfolding resolve_secrets
resolve_secrets-Ensures env raw =
    bind-Ensures (Changes TextOrAbsent "admin_token" raw) (Resolution raw)
      (resolve_key env "admin_token" raw (get_value "admin_token" raw))
      (λ raw'. over_table (resolve_tenant env) "tenants" raw' (get_value "tenants" raw'))
      (resolve_key-Changes env "admin_token" raw (get_value "admin_token" raw) refl)
      λ raw' h.
        weaken (Changes (AllOf TenantResolved) "tenants" raw') (Resolution raw)
          (over_table (resolve_tenant env) "tenants" raw' (get_value "tenants" raw'))
          (over_table-AfterLoop TenantResolved (resolve_tenant env) (resolve_tenant-Resolved env)
            "tenants" raw' (get_value "tenants" raw') refl)
          λ raw'' h'. (
            (subst TextOrAbsent (sym (h'.1 "admin_token" tenants_admin)) h.0, h'.0),
            λ k ne ne'. h'.1 k ne' ∙ h.1 k ne,
          )

-- When the secrets of a configuration could be resolved, the admin token, every user's password and
-- every service principal's secret is a text, where there is one, and all else but the tenants at the
-- top of the configuration is as it was.
pub resolve_secrets-IsResolved :
    (env : Surroundings) (raw : Fields) {raw' : Fields} (k : String)
    → resolve_secrets env raw ≡ ok raw'
    → "admin_token" ≢ k
    → "tenants" ≢ k
    → IsResolved raw' × (get_value k raw' ≡ get_value k raw)
resolve_secrets-IsResolved env raw k h ne ne' =
    let (resolved, kept) = subst (Ensures (Resolution raw)) h (resolve_secrets-Ensures env raw) in
    (resolved, kept k ne ne')
