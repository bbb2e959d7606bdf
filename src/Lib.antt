-- ===== src/Lib.antt =====
-- A model of mock-idp, an identity provider for tests that issues OAuth 2.0 access tokens in the
-- form of four real providers, with theorems about it.
--
-- A request to the token endpoint of an issuer shows the credentials of a user or of a service
-- principal. The handler passes the test hooks and the issuer's fault, finds the identity in the
-- tables of the configuration, asks the audience gate, has the identity's provider build the claims,
-- lets the request override and omit some, signs them with the issuer's key, or corrupts the token if
-- a fault says so, calls the webhooks and writes the event to the audit log. Other endpoints issue
-- tokens that a validator must refuse, publish the keys, and judge tokens that are presented.
--
--   Common, Int, Text, Dict, Value, Result: what the source uses of Python. Text has the methods of
--     `str` and the printing and reading of integers, Dict the dict in insertion order, Value the
--     JSON-like values of claims, Result exceptions as values. Text.Decimal and Text.Suffix hold laws.
--   Models, Config: the records of src/mock_idp/models.py with their validators, and the variables of
--     src/mock_idp/config.py.
--   Tokens: src/mock_idp/tokens.py, function by function under its name there: Resolve (resolve_shape,
--     resolve_aud, resolve_user_aud, resolve_expiry), Roles (resolve_roles, apply_roles_override),
--     Audience (check_audience), Overrides (apply_overrides, omit), Redact (redact), Signing (sign,
--     verify_token, make_unsigned_token, make_wrong_alg_token).
--   Providers: src/mock_idp/providers; each module has `user_claims` and `sp_claims`. `_common`, which
--     stands in each of the four files in the same words, is Providers.Common.common.
--   Keys: src/mock_idp/keys.py. `_IssuerKeys` is the record IssuerKeys, its methods are init, jwks_keys,
--     rotate_keys, signing_key_for_alg and alt_key_for_alg; `_stores` is in KeyStore, `_get` is get,
--     `rotate` is rotate_issuer or rotate_all. Keys.Reach has the steps that a store can take.
--   Chaos: src/mock_idp/chaos.py. Webhooks: src/mock_idp/webhooks.py.
--   World: the state that requests change (keys, faults, audit log, webhook calls, times slept,
--     requests to the sandbox) and the monad of the handlers, which keeps what was written before an exception.
--   Handler: src/mock_idp/token_handler.py. Handler.Context has TokenContext and KeyResolver and, from
--     src/mock_idp/routers/oidc.py, the context of the flat routes; Handler.Hooks has apply_test_hooks
--     and apply_pre; Handler.Issue has _corrupt_or_sign and _emit_event; Handler.Grants has the look-ups
--     and the claims of each grant; Handler.Token has handle_token, whose branches are password_grant,
--     client_grant and twice exchange_grant, and whose end is finish; Handler.BadTokens,
--     Handler.Introspect and Handler.Discovery have the other handlers.
--   Store: Store.Yaml has `_apply` and `reload` of src/mock_idp/store/yaml_store.py,
--     Store.Yaml.Secrets `_resolve_secrets`, Store.Yaml.Secrets.Linter `_lint_raw` and `_validate`.
--     Store.Postgres has the store of src/mock_idp/store/pg_store.py with its startup and reload,
--     Store.Postgres.Rows the records that it makes of the rows, Store.Postgres.Events its audit
--     log. Store.Running has the protocol of src/mock_idp/store/__init__.py, the module variables
--     of src/mock_idp/config.py over a backend, the start in src/mock_idp/main.py and the admin
--     routes that reload and show the log; Store.Running.Backends has both backends and the choice
--     of one.
--     Store.Running.Aliases has src/mock_idp/config.py over the YAML store with the dicts as objects:
--     the module binds the store's dicts once, and `_apply` clears and fills them in place.
--   Debug: src/mock_idp/routers/debug.py.
--   Hosted: src/mock_idp/routers/hosted.py and, from src/mock_idp/org_registry.py, the context of an
--     organisation. Hosted.Context has _get_org and _resolve, Hosted.Sandbox the rate check,
--     Hosted.Token the token routes and Hosted.Other the remaining ones.
--   Admin: src/mock_idp/routers/admin.py, the routes for rotation and for faults; Admin.Organisations has
--     those for organisations.
--   Orgs: src/mock_idp/org_registry.py. Orgs.Keys is the key resolver of an organisation: _load_or_create,
--     rotate and _persist over a cache and the rows of the table, which a restart keeps; Orgs.Keys.Tasks has
--     _load_or_create from one await to the next, for two calls that share the cache and the table.
--     Orgs.Registry is OrgRegistry over the tables of the database: register, deregister, the start and
--     push_config, whose import of a name from the module config is a look at the names that it binds.
--   Service: the routes of src/mock_idp/routers/oidc.py, and those of the admin routes that change keys
--     and faults, as requests that are served one after the other; Handler.Keeps has what they do to the
--     keys.
--   Tests: runs at concrete inputs.
--
-- The clock is a record of the readings that one request makes, the draw of `random.random()` and the
-- time of a webhook body are arguments. A key is its type, its id and the number of the call that made
-- it. The JWT library, JSON, base64 and HMAC are the fields of Codec; theorems that need the library
-- state its contract for the token at hand, Reads: a token is read back by a key set that has its key,
-- and by none that has no key under the id. A form has one value per field.
--
-- All loops are structural recursion. The printing of decimal numbers takes fuel, the number itself and
-- one more, which is enough since each digit divides it by ten. The client that follows the cursors of
-- the audit log makes one request more than the log has rows at most; that this is enough is proved.
--
-- The tables of the database are lists of rows; the SQL of the source is written out as operations on
-- them, with the constraints that the migrations declare. What the driver does with a value that does not
-- fit its column is an exception. Of JSON text only its reading is a parameter.
--
-- Not modelled: the rate limiter and the metrics, which are libraries; the texts of warnings and
-- errors, the redaction of the DSN for the log; floating-point claims; locks and, but for the
-- loading of an organisation's keys, the interleaving of requests, each of which is taken as one
-- step; the playground page and the migrations themselves. An insertion into the audit
-- log that the database refuses uses up no id here, and a NUL character in a text is accepted; JSON of
-- issuer_modes that is no dict counts as text that cannot be read; the overflow of a huge
-- X-Test-Delay-Ms is left out.
pub mod Common
pub mod Int
pub mod Text
pub mod Dict
pub mod Value
pub mod Models
pub mod Config
pub mod Debug
pub mod Service
pub mod Result
pub mod Tokens
pub mod Keys
pub mod Chaos
pub mod Providers
pub mod World
pub mod Webhooks
pub mod Handler
pub mod Hosted
pub mod Admin
pub mod Orgs
pub mod Store
mod Tests
