-- ===== src/Core/Verify/Binds.antt =====
-- What holds of the request and of the result behind BINDING and REPLAY of verifyArtifacts.
use tesserra.Prelude.{
  ◌≡◌, refl, Bool, true, false, not, ◌&&◌, ◌||◌, Option, none, some, List, arith, not-eq-false,
  Bool-cases, inl, inr,
}
use tesserra.Json.{Json, string, Members, Artifact, member}
use tesserra.Runtime.{Runtime}
use tesserra.Protocol.Canonical.{canonical_equal}
use tesserra.Core.Result.{valid, VerificationResult}
use tesserra.Core.Run.Sound.{
  Sound, passes, Sound-bind, Sound-map, Sound-then, Sound-stop_if, Sound-attempt,
}
use tesserra.Core.Verify.Input.{Setup}
use tesserra.Core.Verify.Admits.{is_text_sound}
use tesserra.Core.Verify.Status.{offline_inspection, is_offline, chain_ids}
use tesserra.Core.Verify.Binding.{
  allows, is_duplicate, check_binding, same_status, same_hashes, historical_valid, historical,
  conclude, check_online, check_replay,
}

-- The request is what the caller asked for, and the nearest authority of its chain allows it.
pub record IsBound (rt : Runtime) (s : Setup) (root request : Artifact) (chain : List Artifact)
    : Type 0 where
  pub signer :
      canonical_equal rt (member "signer" request) (some s.input.context.expected_signer) ≡ true
  pub audience : member "audience" request ≡ some (string s.input.context.audience)
  pub action : allows rt s root request chain "capabilities" (member "action" request) ≡ true
  pub context_action :
      allows rt s root request chain "capabilities" (some (string s.input.context.action)) ≡ true
  pub resource : allows rt s root request chain "resources" (member "resource" request) ≡ true
  pub context_resource :
      canonical_equal rt (member "resource" request) (some s.input.context.resource) ≡ true
  pub task : allows rt s root request chain "tasks" (member "task" request) ≡ true
  pub context_task : member "task" request ≡ some (string s.input.context.task)

both : (a b : Bool) → (not a || not b) ≡ false → (a ≡ true) × (b ≡ true)
both a b h = ground arith

pub check_binding-IsBound :
    (rt : Runtime) (s : Setup) (root request : Artifact) (chain : List Artifact)
    → Sound (λ _. IsBound rt s root request chain) (check_binding rt s root request chain)
unfolding check_binding
check_binding-IsBound rt s root request chain = Sound-then (Sound-stop_if _ _ refl) λ signer.
    Sound-then (Sound-stop_if _ _ refl) λ audience. Sound-then (Sound-stop_if _ _ refl) λ action.
      Sound-then (Sound-stop_if _ _ refl) λ resource.
        Sound-map
          (λ _ task. record {
            signer = not-eq-false _ signer;
            audience = is_text_sound _ _ (not-eq-false _ audience);
            action = (both _ _ action).0;
            context_action = (both _ _ action).1;
            resource = (both _ _ resource).0;
            context_resource = (both _ _ resource).1;
            task = (both _ _ task).0;
            context_task = is_text_sound _ _ (both _ _ task).1;
          })
          (Sound-stop_if _ _ refl)

-- The result says what was checked: fresh status unless the caller inspects offline, and a replay check
-- exactly where one is required; a required check was made online and found no duplicate.
pub record IsConcluded (s : Setup) (chain : List Artifact) (r : VerificationResult) : Type 0 where
  pub code : r.code ≡ valid
  pub evidence : r.evidence_ids ≡ chain_ids chain
  pub fresh : r.status_fresh ≡ not (offline_inspection s)
  pub checked : r.replay_checked ≡ (not (offline_inspection s) && s.input.context.replay_required)
  pub online :
      offline_inspection s ≡ false
      → s.input.context.replay_required ≡ true
      → (is_offline s.input.replay_mode ≡ false) × (is_duplicate s.input.replay ≡ false)

guarded : (a b : Bool) → (a && b) ≡ false → a ≡ true → b ≡ false
guarded a b h e = ground arith

same_status-Sound :
    (rt : Runtime) (archived : Members) (records : List Json) (b : Bool)
    → Sound (λ _. Unit {0}) (same_status rt archived records b)
unfolding same_status
same_status-Sound rt archived records false = passes tt
same_status-Sound rt archived records true = Sound-bind (Sound-attempt _) (λ t _. passes tt)

same_hashes-Sound :
    (rt : Runtime) (archived content : Members) (records : List Json)
    → Sound (λ _. Unit {0}) (same_hashes rt archived content records)
unfolding same_hashes
same_hashes-Sound rt archived content records =
    Sound-bind (Sound-attempt _) (λ t _. same_status-Sound rt archived records _)

historical-Sound :
    (rt : Runtime) (archived : Members) (content : Option Members) (records : Option (List Json))
    (b : Bool)
    → Sound (λ _. Unit {0}) (historical rt archived content records b)
unfolding historical
historical-Sound rt archived none records b = passes tt
historical-Sound rt archived (some content) none b = passes tt
historical-Sound rt archived (some content) (some records) true =
    same_hashes-Sound rt archived content records
historical-Sound rt archived (some content) (some records) false = passes tt

conclude-IsConcluded :
    (rt : Runtime) (s : Setup) (root request : Artifact) (chain : List Artifact)
    (o : Option Members)
    → offline_inspection s ≡ false
    → (s.input.context.replay_required ≡ true
        → (is_offline s.input.replay_mode ≡ false) × (is_duplicate s.input.replay ≡ false))
    → Sound (IsConcluded s chain) (conclude rt s root request chain o)
unfolding conclude historical_valid
conclude-IsConcluded rt s root request chain none e online =
    passes
      (record { code = refl; evidence = refl; fresh = rw e; checked = rw e; online = λ _. online })
conclude-IsConcluded rt s root request chain (some archived) e online =
    Sound-bind (historical-Sound rt archived _ _ _) λ b _. Sound-then (Sound-stop_if _ _ refl) λ _.
      passes (record {
        code = refl;
        evidence = refl;
        fresh = rw e;
        checked = rw e;
        online = λ _. online;
      })

check_online-IsConcluded :
    (rt : Runtime) (s : Setup) (root request : Artifact) (chain : List Artifact)
    → offline_inspection s ≡ false
    → Sound (IsConcluded s chain) (check_online rt s root request chain)
unfolding check_online
check_online-IsConcluded rt s root request chain e = Sound-then (Sound-stop_if _ _ refl) λ mode.
    Sound-then (Sound-stop_if _ _ refl) λ replay.
      conclude-IsConcluded rt s root request chain _ e
        (λ required. (guarded _ _ mode required, guarded _ _ replay required))

pub check_replay-IsConcluded :
    (rt : Runtime) (s : Setup) (root request : Artifact) (chain : List Artifact)
    → Sound (IsConcluded s chain) (check_replay rt s root request chain)
unfolding check_replay
check_replay-IsConcluded rt s root request chain = elim (Bool-cases (offline_inspection s)) [
  | inl e ↦
      rw (e, check_replay)
        (passes (record {
          code = refl;
          evidence = refl;
          fresh = rw e;
          checked = rw e;
          online = λ off. cc (e, off);
        }))
  | inr e ↦ rw (e, check_replay) (check_online-IsConcluded rt s root request chain e)
]
