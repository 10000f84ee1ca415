-- ===== src/Storage/Credentials.antt =====
-- The identity credentials of packages/storage-sqlite/src/sqlite-storage.ts, and the keys of idempotency
-- under which they were created.
use tesserra.Prelude.{
  ℕ, Bool, true, not, Option, none, some, List, ◌∷◌, some_of, find, filter, sort_by, Text, text_eq,
}
use tesserra.Storage.Engine.{Engine, sql_lt, parse_json}
use tesserra.Storage.Guards.{non_empty, assert_no_private_material}
use tesserra.Storage.Keys.{has_agent_id}
use tesserra.Storage.Records.{IdentityCredentialRecord, CredentialRow, IdempotencyRow, Store}
use tesserra.Storage.Result.{
  Result, ok, ◌>>=◌, ◌>>◌, throw_if, expect, read_one, read_all, invalid_idempotency, constraint,
}
use tesserra.Storage.Rows.{take}

abbrev pub has_credential_id : Text → CredentialRow → Bool
has_credential_id id row = text_eq row.id id

abbrev pub has_key : Text → IdempotencyRow → Bool
has_key key row = text_eq row.key key

abbrev pub credential_row : Engine → IdentityCredentialRecord → CredentialRow
credential_row e r = record {
  id = r.id;
  agent_id = r.agent_id;
  credential_json = e.stringify r.credential;
  created_at = r.created_at;
}

unfoldable pub read_credential : Engine → CredentialRow → Result IdentityCredentialRecord
read_credential e row = do
  credential ← parse_json e row.credential_json
  ok (record {
    id = row.id;
    agent_id = row.agent_id;
    credential = credential;
    created_at = row.created_at;
  })

-- getIdentityCredential(id)
unfoldable pub get_identity_credential :
    Engine → Text → Store → Result (Option IdentityCredentialRecord)
get_identity_credential e id s =
    read_one (read_credential e) (find (has_credential_id id) s.credentials)

-- The row of an idempotency key, if one is given.
abbrev pub idempotency_of : Option Text → Store → Option IdempotencyRow
idempotency_of none s = none
idempotency_of (some key) s = find (has_key key) s.idempotency

-- getIdentityCredentialByIdempotency(key)
unfoldable pub get_identity_credential_by_idempotency :
    Engine → Text → Store → Result (Option IdentityCredentialRecord)
get_identity_credential_by_idempotency e key s = elim (idempotency_of (some key) s) [
  | none ↦ ok none
  | some row ↦ get_identity_credential e row.identity_id s
]

abbrev pub remember :
    Option Text → IdentityCredentialRecord → List IdempotencyRow → List IdempotencyRow
remember none r rows = rows
remember (some key) r rows =
    (record { key = key; identity_id = r.id; created_at = r.created_at }) ∷ rows

-- The transaction, when no idempotency key points at a credential: the id is stored or not.
unfoldable pub create_new :
    Engine
    → IdentityCredentialRecord
    → Option Text
    → Store
    → Option IdentityCredentialRecord
    → Result (IdentityCredentialRecord × Store)
create_new e r key s (some prior) = ok (prior, s)
create_new e r key s none = do
  throw_if (not (some_of (has_agent_id r.agent_id) s.agents)) constraint
  ok (
    r,
    record s {
      credentials = credential_row e r ∷ s.credentials;
      idempotency = remember key r s.idempotency;
    },
  )

-- The transaction, for an idempotency key that is known or not.
unfoldable pub create_under :
    Engine
    → IdentityCredentialRecord
    → Option Text
    → Store
    → Option IdempotencyRow
    → Result (IdentityCredentialRecord × Store)
create_under e r key s (some row) = do
  known ← get_identity_credential e row.identity_id s
  identity ← expect known invalid_idempotency
  ok (identity, s)
create_under e r key s none = do
  prior ← get_identity_credential e r.id s
  create_new e r key s prior

-- createIdentityCredential(record, idempotencyKey)
unfoldable pub create_identity_credential :
    Engine
    → IdentityCredentialRecord
    → Option Text
    → Store
    → Result (IdentityCredentialRecord × Store)
create_identity_credential e r key s = do
  non_empty r.id
  non_empty r.agent_id
  assert_no_private_material e r.credential
  create_under e r key s (idempotency_of key s)

abbrev pub is_after : Option Text → CredentialRow → Bool
is_after none row = true
is_after (some id) row = sql_lt id row.id

-- listIdentityCredentials(afterId, limit)
unfoldable pub list_identity_credentials :
    Engine → Option Text → ℕ → Store → Result (List IdentityCredentialRecord)
list_identity_credentials e after_id limit s = read_all (read_credential e) (
    take limit (
      sort_by (λ left right. not (sql_lt right.id left.id))
        (filter (is_after after_id) s.credentials)))
