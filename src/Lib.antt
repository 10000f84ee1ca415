-- ===== src/Lib.antt =====
-- Tesserra: the verifiers of the agent-proof protocol, the wire format that they stand on, the builders of
-- artifacts, the SQLite storage, and the service that joins them.
--
-- The program. An agent's authority is a set of signed JSON artifacts: credentials bind keys to
-- principals, delegations narrow authority from a root credential downwards, requests use it, and status
-- records say which keys still count. packages/protocol defines the format (canonical JSON, content
-- addresses, schemas); packages/core decides, from artifacts, a pinned trust snapshot, a context and a
-- clock, whether the authority holds, and builds signed artifacts. packages/storage-sqlite keeps keys,
-- trust snapshots, artifacts, revocations, events and consumed replay keys; packages/service collects the
-- evidence of a request, has it verified, and reserves its replay key. The other packages carry artifacts
-- to these and back.
--
-- Which file models which part:
--   Prelude, Prelude/*          lists, options, texts (UTF-16 code units) and integers over the native
--                               numbers, with the lemmas that the parts share
--   Json                        packages/protocol/src/types.ts and the accessors on JSON values
--   Runtime                     the parameters: SHA-256, Ed25519, URL parsing, locale order, and rare
--                               conversions of Node and the engine; no theorem about the verifiers assumes
--                               anything of them, those about signing that the signatures made verify
--   Protocol/Regex              regular expressions; Regex/Language: what a pattern means
--   Protocol/Base64url          packages/protocol/src/base64url.ts; Base64url/Roundtrip: its laws
--   Protocol/Canonical          packages/protocol/src/canonical.ts, and canonicalEqual; Canonical/Reorders: the
--                               order of members
--   Protocol/Ids                packages/protocol/src/ids.ts; Ids/Separates: domain separation;
--                               Ids/Reorders: the order of members
--   Protocol/Timestamp, Coerce, Validate, Validate/Patterns, Validate/Kinds
--                               packages/protocol/src/validate.ts: patterns, schemas, validateArtifact
--   Core/Result                 codes and results (packages/protocol/src/types.ts)
--   Core/Run                    a stage as a value: it goes on, returns early, throws, or has run out of
--                               fuel; Run/Sound: the rules for what holds when stages go on;
--                               Run/Ends: for what every result meets
--   Core/Values                 the helpers at the top of packages/core/src/verify.ts
--   Core/Verify                 verifyArtifacts (packages/core/src/verify.ts), a child module per group of
--                               stages: Input, Uri, Admission (PARSE, VERSION), Crypto (CRYPTO), Trust (TIME,
--                               TRUST), Chain, Status, Binding (BINDING, REPLAY). Proofs: Admits, Signs,
--                               Trusts, Walk, Resolves, Authority, Lives, Binds, Accepts, Authorizes,
--                               Reports and Reported (every result, early ones too)
--   Core/Delegation             verifyDelegationChain (packages/core/src/delegation.ts): Input, Stages,
--                               Chain, Status. Proofs: Stands, Climbs, Narrows, Lives, Accepts, Agrees
--   Core/Identity               verifyIdentityCredential (packages/core/src/identity.ts). Proofs: Accepts
--   Core/Artifacts              signArtifact and the builders (packages/core/src/artifacts.ts); Signed:
--                               what they make passes the verifier's checks
--   Storage/Result, Records, Engine, Rows, Guards
--                               packages/storage-sqlite: calls that throw, the records and tables (src/types.ts,
--                               src/migrations.ts), what SQLite and Node give, rows, the checks at the door
--   Storage/Replay, Keys, Trust, Artifacts, Provenance, Credentials, Events, Migrations
--                               the operations of packages/storage-sqlite/src/sqlite-storage.ts, by tables;
--                               proofs about one group of tables: Replay/Once, Trust/Advances,
--                               Provenance/Rounds and Reaches, Events/Pages, Migrations/Completes
--   Storage/Steps               the calls that write as one type, sequences of them, and the step relation
--                               that specifies them; Guarded, Trusted, Refines: every call does a
--                               step; Tables,
--                               Keeps, Lasts: what no call undoes; Secrets, Consistent: what holds of
--                               every reachable store
--   Service/Workflows           packages/service/src/workflows.ts; Ends, Reserves, and Once, which puts it on
--                               the replay table
--   Service/Identity, Issuer    packages/service/src/index.ts: the identity service, the local issuer; proofs:
--                               Identity/Pages, Issuer/Seals
--   Tests, Tests/*              the verifiers, storage and service run on small inputs
--
-- How code and definitions correspond. `return stop(code, ids)` is `stop_if` or `require` with a result;
-- a call that may throw is an Option, which `attempt` turns into `throw`; a `for` loop with early returns
-- is `each`; `input` and the two hashes that `stop` closes over are the record Setup. Instants are
-- milliseconds in ℤ. -0 is identified with 0. `decision_version`, the same in every result, is left out,
-- and `verifier_now` stays an instant.
--
-- In the storage a table is a list of rows, the last inserted first; a statement is a function on it, with
-- the constraints of the migrations as tests that make it throw, and a call that throws leaves the store
-- as it was, since it is one statement or one transaction. An ORDER BY sorts. The tables' JSON columns
-- are texts that JSON.stringify gives, a parameter like the order of julianday. In the service, a
-- repository, an issuer and a key provider are records of functions that pass their state.
--
-- Fuel. The `while` loop of verifyArtifacts walks along references to an artifact that is not on the
-- chain yet, so one more round than there are artifacts is enough; verifyDelegationChain's loop climbs
-- the same way over the root credential and the delegations; requestEvidence's loop has the same bound.
-- The three bounds are proved to suffice. The loop of `chain` in the service asks a repository, and takes
-- its number of rounds as an argument: over a finite repository one more than its artifacts is enough. The
-- recursive query of the provenance graph has a round for each edge, one for the root, and one to stop.
--
-- Not modelled: strict parsing of bytes (packages/protocol/src/parse.ts), so verifyIdentityCredential
-- takes a value; opening and closing a database, and the
-- statements of its migrations, whose tables are taken as they are; calls of a repository that reject; the API
-- server and client, the local host, the adapters and the command line, which call these parts; the user
-- interfaces; SHA-256, Ed25519, URL parsing and JSON.parse, which are Node's and parameters here.
pub mod Prelude
pub mod Json
pub mod Runtime
pub mod Protocol
pub mod Core
pub mod Storage
pub mod Service
pub mod Tests
