-- ===== src/Service/Identity.antt =====
-- packages/service/src/index.ts: identities are created, read and listed. The repository, the issuer and
-- the key provider are the host's; their operations pass the state that they keep.
pub mod Pages
use tesserra.Prelude.{
  ℕ, Bool, true, false, not, ◌&&◌, ◌||◌, Option, none, some, List, [], ◌∷◌, ◌++◌, if◌then◌else◌,
  length, leb, ◌==◌, Text, codes, text_eq, text_lt,
}
use tesserra.Prelude.Int.{ℤ, pos, negsuc, leb_ℤ, ltb_ℤ}
use tesserra.Json.{
  Json, Number, int, string, number, array, object, of_items, Members, end, entry, Artifact, member,
  as_object, is_literal,
}
use tesserra.Runtime.{Runtime}
use tesserra.Core.Artifacts.{set, proof_of, members_of, literal}
use tesserra.Core.Identity.{IdentityInput, verify_identity_credential}
use tesserra.Core.Run.{Outcome}
use tesserra.Core.Values.{id_of}
use tesserra.Protocol.Base64url.{encode_base64url}
use tesserra.Protocol.Canonical.{◌>>=◌}
use tesserra.Protocol.Ids.{artifact_id_for, key_id_for, policy_hash_for, signing_input_for}
use tesserra.Protocol.Regex.{within}
use tesserra.Protocol.Validate.{valid_agent_id}

pub data ServiceErrorCode : Type 0 where
  identity_not_found identity_conflict invalid_input trust_reload_forbidden : ServiceErrorCode
  trust_snapshot_invalid status_authority_required internal : ServiceErrorCode

-- What a call answers, or the code of the ServiceError that it throws.
pub data Answer (A : Type 0) : Type 0 where
  answered : A → Answer A
  refused : ServiceErrorCode → Answer A

-- Constraints, AuthorityCeiling
pub record Constraints : Type 0 where
  pub capabilities : List Json
  pub resources : List Json
  pub tasks : List Json
  pub audiences : List Json
  pub not_before : Text
  pub expires_at : Text
  pub remaining_depth : ℤ

abbrev pub constraints_json : Constraints → Json
constraints_json c = object (
    members_of (
      ("capabilities", array (of_items c.capabilities))
      ∷ ("resources", array (of_items c.resources))
      ∷ ("tasks", array (of_items c.tasks))
      ∷ ("audiences", array (of_items c.audiences))
      ∷ ("not_before", string c.not_before)
      ∷ ("expires_at", string c.expires_at)
      ∷ ("remaining_depth", number (int c.remaining_depth))
      ∷ []))

pub data Purpose : Type 0 where
  agent_root_authority agent_key_binding : Purpose

abbrev pub purpose_text : Option Purpose → Json
purpose_text none = literal "agent-root-authority"
purpose_text (some Purpose.agent_root_authority) = literal "agent-root-authority"
purpose_text (some Purpose.agent_key_binding) = literal "agent-key-binding"

pub record CreateIdentityInput : Type 0 where
  pub subject : Json
  pub issuer : Members
  pub authority_ceiling : Constraints
  pub credential_purpose : Option Purpose
  pub idempotency_key : Option Text

pub record IdentityRecord : Type 0 where
  pub id : Text
  pub credential : Artifact
  pub created_at : Text

pub record Page : Type 0 where
  pub items : List IdentityRecord
  pub next_cursor : Option Text

pub record IdentityRepository (S : Type 0) : Type 0 where
  pub create : IdentityRecord → Option Text → S → Answer IdentityRecord × S
  pub get_by_idempotency : Option (Text → S → Option IdentityRecord)
  pub get : Text → S → Option IdentityRecord
  pub list : Option Text → ℕ → S → Page

pub record IdentityIssuer (S : Type 0) : Type 0 where
  pub issue : CreateIdentityInput → ℤ → S → Answer Artifact × S

abbrev pub is_empty : List Json → Bool
is_empty [] = true
is_empty (v ∷ vs) = false

-- validateCreateInput(input) returns
unfoldable pub is_valid_input : Runtime → CreateIdentityInput → Bool
is_valid_input rt input =
    let ceiling = input.authority_ceiling in
    valid_agent_id rt (some input.subject)
    && (is_literal "human" (member "type" input.issuer)
        || is_literal "service" (member "type" input.issuer))
    && not (
        is_empty ceiling.capabilities
        || is_empty ceiling.resources
        || is_empty ceiling.tasks
        || is_empty ceiling.audiences)
    && not (
        ltb_ℤ ceiling.remaining_depth (pos 0)
        || ltb_ℤ (pos 8) ceiling.remaining_depth
        || text_lt ceiling.expires_at ceiling.not_before)

-- text.replace('.000Z', 'Z')
unfoldable pub without_zero_millis : Text → Text
without_zero_millis (p ∷ a ∷ b ∷ c ∷ z ∷ s) =
    let rest = without_zero_millis (a ∷ b ∷ c ∷ z ∷ s) in
    if text_eq (p ∷ a ∷ b ∷ c ∷ z ∷ []) (codes ".000Z") then codes "Z" ++ s else p ∷ rest
without_zero_millis s = s

-- credential.subject.type === 'agent' && credential.subject.id.scheme === 'agid'; an issuer answers with
-- a subject that has an id.
unfoldable pub has_agent_subject : Artifact → Bool
has_agent_subject credential = elim (as_object (member "subject" credential)) [
  | none ↦ false
  | some subject ↦
      is_literal "agent" (member "type" subject) && (elim (as_object (member "id" subject)) [
        | none ↦ false
        | some id ↦ is_literal "agid" (member "scheme" id)
      ])
]

module _ (rt : Runtime) (iso : ℤ → Text) {S : Type 0} (identities : IdentityRepository S)
    (issuer : IdentityIssuer S) where
  abbrev pub prior_of :
      Option Text → Option (Text → S → Option IdentityRecord) → S → Option IdentityRecord
  prior_of (some key) (some lookup) s = lookup key s
  prior_of _ _ s = none

  -- The credential that the issuer answers with is checked, and stored.
  unfoldable pub keep : CreateIdentityInput → ℤ → Answer Artifact × S → Answer IdentityRecord × S
  keep input now (refused code, s) = (refused code, s)
  keep input now (answered credential, s) =
      if has_agent_subject credential
      then identities.create
          (record {
            id = id_of credential;
            credential = credential;
            created_at = without_zero_millis (iso now);
          })
          input.idempotency_key s
      else (refused internal, s)

  -- What follows the check of the input and the look for an earlier record; the clock is read twice.
  unfoldable pub create_unless :
      CreateIdentityInput → (now issued : ℤ) → S → Option IdentityRecord → Answer IdentityRecord × S
  create_unless input now issued s (some prior) = (answered prior, s)
  create_unless input now issued s none = keep input now (issuer.issue input issued s)

  -- createIdentity(input)
  unfoldable pub create_identity :
      CreateIdentityInput → (now issued : ℤ) → S → Answer IdentityRecord × S
  create_identity input now issued s =
      if is_valid_input rt input
      then create_unless input now issued s
          (prior_of input.idempotency_key identities.get_by_idempotency s)
      else (refused invalid_input, s)

  -- getIdentity(id)
  unfoldable pub get_identity : Text → S → Answer IdentityRecord
  get_identity id s = elim (identities.get id s) [
    | none ↦ refused identity_not_found
    | some identity ↦ answered identity
  ]

  -- limit ?? defaultPageSize, where it is an integer between 1 and maxPageSize
  unfoldable pub page_size : Option Number → Option ℕ
  page_size none = some 25
  page_size (some (int (pos n))) = if leb 1 n && leb n 100 then some n else none
  page_size (some _) = none

  -- listAgents(cursor, limit)
  unfoldable pub list_agents : Option Text → Option Number → S → Answer Page
  list_agents cursor limit s = elim (page_size limit) [
    | none ↦ refused invalid_input
    | some n ↦ answered (identities.list cursor n s)
  ]
