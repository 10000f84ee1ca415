-- ===== src/Core/Verify/Authorizes.antt =====
-- What a VALID result of verifyArtifacts says of authority: every credential and delegation between the
-- request and the root grants what the caller asked for.
use tesserra.Prelude.{
  ◌≡◌, refl, sym, ap, ◌∙◌, true, Option, none, some, List, [], ◌∷◌, ◌++◌, All, Any, here, there,
  arith, String, Option-cases, inl, inr, ◌⊎◌, find, find-test, last?, text_eq,
}
use tesserra.Json.{Json, string, Members, Artifact, member}
use tesserra.Runtime.{Runtime}
use tesserra.Protocol.Canonical.{canonical_equal}
use tesserra.Core.Result.{valid, VerificationResult}
use tesserra.Core.Run.{returned}
use tesserra.Core.Values.{is_kind, id_of, contains, local_member, constraints}
use tesserra.Core.Verify.Input.{VerificationInput, Setup}
use tesserra.Core.Verify.Admission.{is_root_credential}
use tesserra.Core.Verify.Chain.{behind_request, ends_at_root}
use tesserra.Core.Verify.Walk.{IsPath, begin, extend, IsRooted}
use tesserra.Core.Verify.Authority.{IsAttenuated, Grants, contains_trans}
use tesserra.Core.Verify.Binding.{second_or, effective_member, allows}
use tesserra.Core.Verify.Accepts.{IsAccepted, valid-Acceptance, granted_by_all}
use tesserra.Core.Verify.{verify_artifacts}

-- A path has one artifact or a second one behind its start.
path-second :
    {rt : Runtime} {s : Setup} {start end : Artifact} {chain : List Artifact}
    → IsPath rt s start end chain
    → ((end ≡ start) × (chain ≡ start ∷ []))
      ⊎ ((first : Artifact) × (rest : List Artifact) × (chain ≡ start ∷ first ∷ rest))
path-second begin = inl (refl, refl)
path-second (extend {parent} path linked new e) = elim (path-second path) [
  | inl (same, f) ↦ inr (parent, [], rw (e, f) refl)
  | inr (first, rest, f) ↦ inr (first, rest ++ (parent ∷ []), rw (e, f) refl)
]

same_member :
    (field : String) (o : Option Members)
    → effective_member field o ≡ (elim o [ none ↦ none | some ms ↦ member field ms ])
same_member field none = refl
same_member field (some ms) = refl

allows-granted :
    (rt : Runtime) (s : Setup) (root request : Artifact) (chain : List Artifact) (field : String)
    (v : Json)
    → allows rt s root request chain field (some v) ≡ true
    → contains rt (local_member field (second_or root chain)) (some v) ≡ true
allows-granted rt s root request chain field v h =
    ap (λ o. contains rt o (some v)) (sym (same_member field (constraints (second_or root chain))))
    ∙ h

-- The nearest authority of a chain allows a value, so all its authorities grant it.
all_grant :
    (rt : Runtime) (s : Setup) (root request : Artifact) (chain : List Artifact) (field : String)
    (v : Json)
    → Any (λ f. f ≡ field) ("capabilities" ∷ "resources" ∷ "tasks" ∷ "audiences" ∷ [])
    → IsAttenuated rt (behind_request chain)
    → allows rt s root request chain field (some v) ≡ true
    → All (Grants rt field v) (behind_request chain)
all_grant rt s root request chain field v limited h g =
    granted_by_all rt field v root request chain limited h
      (allows-granted rt s root request chain field v g)

-- What the authorities behind a request grant: the artifacts of the path from the request, `nearest` the
-- first behind it and the root the last, each of them found among the artifacts of the input.
pub record IsAuthorized (rt : Runtime) (input : VerificationInput) : Type 0 where
  pub setup : Setup
  pub same : setup.input ≡ input
  pub request : Artifact
  pub root : Artifact
  pub nearest : Artifact
  pub above : List Artifact
  pub found : find (is_kind "request") input.artifacts ≡ some request
  pub root_found : find is_root_credential input.artifacts ≡ some root
  pub rooted : IsRooted rt setup root request (request ∷ nearest ∷ above)
  pub attenuated : IsAttenuated rt (nearest ∷ above)
  pub top : Artifact
  pub ends : last? (nearest ∷ above) ≡ some top
  pub at_root : text_eq (id_of top) (id_of root) ≡ true
  pub action : All (Grants rt "capabilities" (string input.context.action)) (nearest ∷ above)
  pub resource : All (Grants rt "resources" input.context.resource) (nearest ∷ above)
  pub task : All (Grants rt "tasks" (string input.context.task)) (nearest ∷ above)

top_of :
    (rt : Runtime) (s : Setup) (root : Artifact) (chain : List Artifact)
    → ends_at_root rt s root chain ≡ true
    → (top : Artifact) × (last? chain ≡ some top) × (text_eq (id_of top) (id_of root) ≡ true)
top_of rt s root chain h = elim (Option-cases (last? chain)) [
  | inl e ↦ absurd (ground arith)
  | inr (top, e) ↦ (top, e, ground arith)
]

allowed_resource :
    (rt : Runtime) (s : Setup) (root request : Artifact) (chain : List Artifact) (o : Option Json)
    → allows rt s root request chain "resources" o ≡ true
    → canonical_equal rt o (some s.input.context.resource) ≡ true
    → allows rt s root request chain "resources" (some s.input.context.resource) ≡ true
unfolding canonical_equal
allowed_resource rt s root request chain none g e = cc
allowed_resource rt s root request chain (some v) g e =
    contains_trans rt (effective_member "resources" (constraints (second_or root chain))) v
      s.input.context.resource e g

second-IsAuthorized :
    (rt : Runtime) (s : Setup) (r : VerificationResult) (a : IsAccepted rt s r) (nearest : Artifact)
    (above : List Artifact)
    → a.chain ≡ a.request ∷ nearest ∷ above
    → IsAuthorized rt s.input
second-IsAuthorized rt s r a nearest above e =
    let limited = rw e at a.attenuated in
    let bound = rw e at a.bound in
    let (top, ends, same) =
      top_of rt s a.root (a.request ∷ nearest ∷ above) (rw e at a.rooted.at_root) in
    record {
      setup = s;
      same = refl;
      rooted = rw e at a.rooted;
      attenuated = limited;
      request = a.request;
      root = a.root;
      nearest = nearest;
      above = above;
      found = a.expected.found;
      root_found = a.trusted.found;
      top = top;
      ends = ends;
      at_root = same;
      action =
          all_grant rt s a.root a.request (a.request ∷ nearest ∷ above) "capabilities" _ (here refl)
            limited bound.context_action;
      resource =
          all_grant rt s a.root a.request (a.request ∷ nearest ∷ above) "resources" _
            (there (here refl)) limited
            (allowed_resource rt s a.root a.request (a.request ∷ nearest ∷ above) _ bound.resource
              bound.context_resource);
      task =
          all_grant rt s a.root a.request (a.request ∷ nearest ∷ above) "tasks" _
            (there (there (here refl))) limited (rw bound.context_task at bound.task);
    }

accepted-IsAuthorized :
    (rt : Runtime) (s : Setup) (r : VerificationResult)
    → IsAccepted rt s r
    → IsAuthorized rt s.input
accepted-IsAuthorized rt s r a = elim (path-second a.rooted.complete.path) [
  | inl (same, e) ↦
      let link = find-test (is_kind "request") s.input.artifacts a.request a.expected.found in
      let stopped = rw same at a.rooted.complete.stopped in absurd (ground arith)
  | inr (nearest, above, e) ↦ second-IsAuthorized rt s r a nearest above e
]

-- Where verifyArtifacts returns VALID, the path of parents that leads through the input from its request
-- to its root credential has authorities behind the request, each narrower than the next one up, the last
-- with the root's id, and every one of them lists the action, the resource and the task that the caller
-- asked for.
pub valid-IsAuthorized :
    (rt : Runtime) (input : VerificationInput) (r : VerificationResult)
    → verify_artifacts rt input ≡ returned r
    → r.code ≡ valid
    → IsAuthorized rt input
valid-IsAuthorized rt input r h v =
    let a = valid-Acceptance rt input r h v in
    let authorized = accepted-IsAuthorized rt a.setup r a.accepted in
    rw a.is_set_up.same at authorized
