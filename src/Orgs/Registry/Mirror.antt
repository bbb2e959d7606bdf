-- ===== src/Orgs/Registry/Mirror.antt =====
-- The organisations in memory are those of the table `orgs`.
use mock_idp.Common.{
  String, Bool, true, false, Option, none, some, ◌≡◌, refl, ap, sym, ◌∙◌, subst, List, [], ◌∷◌,
  ◌++◌, arith, Bool-cases, inl, inr, if◌then◌else◌, ◌==◌, eq_iff,
}
use mock_idp.Dict.{lookup, lookup-insert, lookup-erase, first_of}
use mock_idp.Store.Postgres.{Loads}
use mock_idp.Orgs.Registry.{
  OrgRow, Database, OrgEntry, Registry, org_entry, load_org, load_all, provision, registry_startup,
  registry_get, taken, register, without_slug, has_slug, deregister, push_config, Pushing,
}

-- the row that an entry was made of
abbrev pub row_of : Option OrgEntry → Option OrgRow
row_of none = none
row_of (some e) =
    some (record { org_id = e.org_id; slug = e.slug; tier = e.tier; api_key_hash = e.api_key_hash })

abbrev pub find_slug : String → List OrgRow → Option OrgRow
find_slug slug [] = none
find_slug slug (row ∷ rows) = if row.slug == slug then some row else find_slug slug rows

-- `slug` is unique
abbrev pub UniqueSlugs : List OrgRow → Type 0
UniqueSlugs [] = Unit
UniqueSlugs (row ∷ rows) = (find_slug row.slug rows ≡ none) × UniqueSlugs rows

pub record Mirrors (registry : Registry) : Type 0 where
  pub unique : UniqueSlugs registry.db.orgs
  pub same : (slug : String) → row_of (registry_get slug registry) ≡ find_slug slug registry.db.orgs

row_of-if :
    (b : Bool) (e : OrgEntry) (o : Option OrgEntry)
    → row_of (if b then some e else o) ≡ (if b then row_of (some e) else row_of o)
row_of-if true e o = refl
row_of-if false e o = refl

load_all-db :
    (loads : Loads) (rows : List OrgRow) (r : Registry) → (load_all loads rows r).db ≡ r.db
unfolding load_all load_org
load_all-db loads [] r = refl
load_all-db loads (row ∷ rows) r = load_all-db loads rows (load_org loads row r).1

found_first :
    (row : OrgRow) (rows : List OrgRow) (slug : String) (old : Option OrgRow)
    → find_slug row.slug rows ≡ none
    → first_of (find_slug slug rows) (if row.slug == slug then some row else old)
      ≡ first_of (if row.slug == slug then some row else find_slug slug rows) old
found_first row rows slug old fresh = elim (Bool-cases (row.slug == slug)) [
  | inl same ↦
      let absent : find_slug slug rows ≡ none =
        ap (λ s. find_slug s rows) (sym ((eq_iff row.slug slug).0 same)) ∙ fresh in
      rw same (rw absent refl)
  | inr other ↦ rw other refl
]

load_all-find :
    (loads : Loads) (rows : List OrgRow) (r : Registry) (slug : String)
    → UniqueSlugs rows
    → row_of (registry_get slug (load_all loads rows r))
      ≡ first_of (find_slug slug rows) (row_of (registry_get slug r))
unfolding load_all load_org org_entry
load_all-find loads [] r slug u = refl
load_all-find loads (row ∷ rows) r slug (fresh, u) =
    let entry = org_entry loads r.db row in
    load_all-find loads rows (load_org loads row r).1 slug u
    ∙ ap (λ o. first_of (find_slug slug rows) (row_of o)) (lookup-insert row.slug slug entry r.orgs)
    ∙ ap (first_of (find_slug slug rows)) (row_of-if (row.slug == slug) entry (registry_get slug r))
    ∙ found_first row rows slug (row_of (registry_get slug r)) fresh

no_second : (o : Option OrgRow) → first_of o none ≡ o
no_second none = refl
no_second (some row) = refl

startup-Mirrors :
    (loads : Loads) (db : Database) → UniqueSlugs db.orgs → Mirrors (registry_startup loads db)
unfolding lookup
startup-Mirrors loads db u =
    let start : Registry = record { orgs = []; db = db } in
    let kept = load_all-db loads db.orgs start in
    record {
      unique = subst (λ d. UniqueSlugs d.orgs) (sym kept) u;
      same = λ slug.
          load_all-find loads db.orgs start slug u
          ∙ no_second (find_slug slug db.orgs)
          ∙ ap (λ d. find_slug slug d.orgs) (sym kept);
    }

not_taken :
    (row : OrgRow) (rows : List OrgRow) → taken row rows ≡ false → find_slug row.slug rows ≡ none
not_taken row [] h = refl
not_taken row (other ∷ rows) h = elim (Bool-cases (other.slug == row.slug)) [
  | inl same ↦ absurd (ground arith)
  | inr differs ↦ rw differs (not_taken row rows (ground arith))
]

find-append :
    (slug : String) (rows : List OrgRow) (row : OrgRow)
    → find_slug slug (rows ++ row ∷ [])
      ≡ first_of (find_slug slug rows) (if row.slug == slug then some row else none)
find-append slug [] row = refl
find-append slug (r ∷ rows) row = elim (Bool-cases (r.slug == slug)) [
  | inl same ↦ rw same refl
  | inr other ↦ rw other (find-append slug rows row)
]

UniqueSlugs-append :
    (rows : List OrgRow) (row : OrgRow)
    → UniqueSlugs rows
    → find_slug row.slug rows ≡ none
    → UniqueSlugs (rows ++ row ∷ [])
UniqueSlugs-append [] row u fresh = (refl, tt)
UniqueSlugs-append (r ∷ rows) row (first, u) fresh = elim (Bool-cases (r.slug == row.slug)) [
  | inl same ↦ absurd (ground arith)
  | inr other ↦
      let back : (row.slug == r.slug) ≡ false =
        ground (arith, eq_iff r.slug row.slug, eq_iff row.slug r.slug) in
      let later : find_slug row.slug rows ≡ none = ground arith in
      (find-append r.slug rows row ∙ rw first (rw back refl), UniqueSlugs-append rows row u later)
]

find-without :
    (slug gone : String) (rows : List OrgRow)
    → find_slug slug (without_slug gone rows) ≡ (if gone == slug then none else find_slug slug rows)
find-without slug gone [] = ground arith
find-without slug gone (r ∷ rows) =
    ground
      (arith, eq_iff r.slug gone, eq_iff r.slug slug, eq_iff gone slug, find-without slug gone rows)

UniqueSlugs-without :
    (gone : String) (rows : List OrgRow) → UniqueSlugs rows → UniqueSlugs (without_slug gone rows)
UniqueSlugs-without gone [] u = tt
UniqueSlugs-without gone (r ∷ rows) (first, u) = elim (Bool-cases (r.slug == gone)) [
  | inl same ↦ rw same (UniqueSlugs-without gone rows u)
  | inr other ↦
      rw other
        (find-without r.slug gone rows ∙ ground (arith, first), UniqueSlugs-without gone rows u)
]

first_of-if :
    (b : Bool) (row : OrgRow) (o : Option OrgRow)
    → first_of (if b then some row else o) none ≡ (if b then some row else o)
first_of-if true row o = refl
first_of-if false row o = no_second o

-- a new row, where the slug had none
found_last :
    (row : OrgRow) (slug : String) (rows : List OrgRow)
    → find_slug row.slug rows ≡ none
    → (if row.slug == slug then some row else find_slug slug rows)
      ≡ find_slug slug (rows ++ row ∷ [])
found_last row slug rows fresh = sym (
    find-append slug rows row
    ∙ found_first row rows slug none fresh
    ∙ first_of-if (row.slug == slug) row (find_slug slug rows))

register-Mirrors :
    (loads : Loads) (sha256_hex : String → String) (plaintext admin_token slug tier : String)
    (r : Registry)
    → Mirrors r
    → Mirrors (register loads sha256_hex plaintext admin_token slug tier r).1
unfolding register load_org org_entry provision
register-Mirrors loads sha256_hex plaintext admin_token slug tier r m =
    let row : OrgRow = record {
      org_id = slug;
      slug = slug;
      tier = tier;
      api_key_hash = some (sha256_hex plaintext);
    } in
    elim (Bool-cases (taken row r.db.orgs)) [
      | inl is_taken ↦ rw is_taken m
      | inr free ↦
          let fresh : find_slug slug r.db.orgs ≡ none = not_taken row r.db.orgs free in
          let db = provision slug admin_token (record r.db { orgs = r.db.orgs ++ row ∷ [] }) in
          let entry = org_entry loads db row in
          rw free (record {
            unique = UniqueSlugs-append r.db.orgs row m.unique fresh;
            same = λ s.
                ap row_of (lookup-insert slug s entry r.orgs)
                ∙ row_of-if (slug == s) entry (lookup s r.orgs)
                ∙ ap (λ o. if slug == s then some row else o) (m.same s)
                ∙ found_last row s r.db.orgs fresh;
          })
    ]

row_of-erased :
    (b : Bool) (o : Option OrgEntry)
    → row_of (if b then none else o) ≡ (if b then none else row_of o)
row_of-erased true o = refl
row_of-erased false o = refl

deregister-Mirrors : (slug : String) (r : Registry) → Mirrors r → Mirrors (deregister slug r).1
unfolding deregister
deregister-Mirrors slug r m = elim (Bool-cases (has_slug slug r.db.orgs)) [
  | inr absent ↦ rw absent m
  | inl present ↦ rw present (record {
    unique = UniqueSlugs-without slug r.db.orgs m.unique;
    same = λ s.
        ap row_of (lookup-erase slug s r.orgs)
        ∙ row_of-erased (slug == s) (lookup s r.orgs)
        ∙ ap (λ o. if slug == s then none else o) (m.same s)
        ∙ sym (find-without s slug r.db.orgs);
  })
]

-- What can happen to a registry: a start, registrations, removals and pushed configurations, failing
-- or not.
pub data Reach (loads : Loads) (sha256_hex : String → String) : Registry → Type 0 where
  started :
      (db : Database) → UniqueSlugs db.orgs → Reach loads sha256_hex (registry_startup loads db)
  registered :
      {r : Registry} (plaintext admin_token slug tier : String)
      → Reach loads sha256_hex r
      → Reach loads sha256_hex (register loads sha256_hex plaintext admin_token slug tier r).1
  deregistered :
      {r : Registry} (slug : String)
      → Reach loads sha256_hex r
      → Reach loads sha256_hex (deregister slug r).1
  pushed :
      {r : Registry} (pushing : Pushing) (slug config_yaml : String)
      → Reach loads sha256_hex r
      → Reach loads sha256_hex (push_config loads pushing slug config_yaml r).1

pub Reach-Mirrors :
    (loads : Loads) (sha256_hex : String → String) {r : Registry}
    → Reach loads sha256_hex r
    → Mirrors r
unfolding push_config
Reach-Mirrors loads sha256_hex (started db u) = startup-Mirrors loads db u
Reach-Mirrors loads sha256_hex (registered {r} plaintext admin_token slug tier reach) =
    register-Mirrors loads sha256_hex plaintext admin_token slug tier r
      (Reach-Mirrors loads sha256_hex reach)
Reach-Mirrors loads sha256_hex (deregistered {r} slug reach) =
    deregister-Mirrors slug r (Reach-Mirrors loads sha256_hex reach)
Reach-Mirrors loads sha256_hex (pushed {r} pushing slug config_yaml reach) =
    Reach-Mirrors loads sha256_hex reach

-- Whatever happened to a registry since its start, it has exactly the organisations of the table
-- `orgs`, with their ids, tiers and API keys, and a restart gives the same.
pub registry_get-startup :
    (loads : Loads) (sha256_hex : String → String) {r : Registry} (slug : String)
    → Reach loads sha256_hex r
    → (row_of (registry_get slug r) ≡ find_slug slug r.db.orgs)
      × (row_of (registry_get slug (registry_startup loads r.db)) ≡ row_of (registry_get slug r))
registry_get-startup loads sha256_hex {r} slug reach =
    let m = Reach-Mirrors loads sha256_hex reach in
    let fresh = startup-Mirrors loads r.db m.unique in
    let kept = load_all-db loads r.db.orgs (record { orgs = []; db = r.db }) in
    (m.same slug, fresh.same slug ∙ ap (λ d. find_slug slug d.orgs) kept ∙ sym (m.same slug))
