-- ===== src/Service/Workflows/Ends.antt =====
-- The loop of chain comes to an end over a finite repository.
use tesserra.Prelude.{
  ℕ, zero, suc, ◌<◌, ◌≡◌, refl, some, List, [], ◌∷◌, ◌++◌, arith, length, Option-cases, Bool-cases,
  inl, inr, Text,
}
use tesserra.Json.{Artifact, member, as_string}
use tesserra.Core.Values.{id_of, find_id}
use tesserra.Core.Verify.Crypto.{artifact_ref, has_id, is_link}
use tesserra.Core.Verify.Walk.{fresh, fresh-append-lt, fresh-le-length}
use tesserra.Service.Workflows.{EvidenceRepository, parent_in, collect, chain}

-- What the repository gives is among some artifacts, under its id or another.
unfoldable pub GivesFrom : {S : Type 0} → EvidenceRepository S → S → List Artifact → Type 0
GivesFrom repository s artifacts =
    (id : Text) (p : Artifact)
    → repository.get id s ≡ some p
    → (k : Text) × (find_id k artifacts ≡ some p)

module _ {S : Type 0} (repository : EvidenceRepository S) (s : S) (artifacts : List Artifact) where
  parent_in-given :
      (current p : Artifact)
      → GivesFrom repository s artifacts
      → parent_in repository s current ≡ some p
      → (k : Text) × (find_id k artifacts ≡ some p)
  unfolding parent_in GivesFrom
  parent_in-given current p gives h = elim (Option-cases (artifact_ref current)) [
    | inl e ↦ absurd (let g = rw (e, parent_in) at h in cc g)
    | inr (reference, e) ↦ elim (Option-cases (as_string (member "id" reference))) [
      | inl f ↦ absurd (let g = rw (e, f, parent_in) at h in cc g)
      | inr (id, f) ↦ gives id p (rw (e, f, parent_in) at h)
    ]
  ]

  collect-some :
      (fuel : ℕ) (current : Artifact) (result : List Artifact)
      → GivesFrom repository s artifacts
      → fresh result artifacts < fuel
      → (found : List Artifact) × (collect repository s fuel current result ≡ some found)
  unfolding collect
  collect-some zero current result gives h = elim h [ ]
  collect-some (suc fuel) current result gives h = elim (Bool-cases (is_link current)) [
    | inr e ↦ (result, rw (e, collect) refl)
    | inl e ↦ elim (Option-cases (parent_in repository s current)) [
      | inl f ↦ (result, rw (e, f, collect) refl)
      | inr (parent, f) ↦ elim (Bool-cases (has_id (id_of parent) result)) [
        | inl g ↦ (result, rw (e, f, g, collect) refl)
        | inr g ↦
            let (k, found) = parent_in-given current parent gives f in
            let less = fresh-append-lt k result artifacts parent found g in
            let (all, done) =
              collect-some fuel parent (result ++ (parent ∷ [])) gives (omega arith) in
            (all, rw (e, f, g, collect) done)
      ]
    ]
  ]

-- Where the repository gives only artifacts of a finite list, as many rounds as the list is long and one
-- more are enough for the loop that collects the evidence of a request.
pub chain_ends :
    {S : Type 0} (repository : EvidenceRepository S) (s : S) (artifacts : List Artifact)
    (request : Artifact)
    → GivesFrom repository s artifacts
    → (found : List Artifact) × (chain repository s (suc (length artifacts)) request ≡ some found)
unfolding chain
chain_ends repository s artifacts request gives =
    collect-some repository s artifacts (suc (length artifacts)) request (request ∷ []) gives
      (omega (arith, fresh-le-length (request ∷ []) artifacts))
