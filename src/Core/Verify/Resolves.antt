-- ===== src/Core/Verify/Resolves.antt =====
-- The loop of requestEvidence in verifyArtifacts: its fuel is enough.
use tesserra.Prelude.{
  ℕ, zero, suc, ◌≤◌, ◌<◌, ◌≡◌, refl, List, [], ◌∷◌, ◌++◌, arith, length, Option-cases, Bool-cases,
  inl, inr,
}
use tesserra.Json.{Artifact}
use tesserra.Core.Values.{id_of}
use tesserra.Core.Verify.Crypto.{parent_of, has_id, is_link, resolve}
use tesserra.Core.Verify.Walk.{fresh, fresh-append-lt, fresh-le-length, parent_of-find_id}

-- With more fuel than there are artifacts that are not resolved, further fuel changes nothing.
resolve-more :
    (artifacts : List Artifact) (fuel more : ℕ) (current : Artifact) (resolved : List Artifact)
    → fresh resolved artifacts < fuel
    → fuel ≤ more
    → resolve artifacts more current resolved ≡ resolve artifacts fuel current resolved
unfolding resolve
resolve-more artifacts zero more current resolved h le = elim h [ ]
resolve-more artifacts (suc fuel) zero current resolved h le = absurd (omega arith)
resolve-more artifacts (suc fuel) (suc more) current resolved h le =
    elim (Bool-cases (is_link current)) [
      | inr e ↦ rw (e, resolve) refl
      | inl e ↦ elim (Option-cases (parent_of artifacts current)) [
        | inl f ↦ rw (e, f, resolve) refl
        | inr (parent, f) ↦ elim (Bool-cases (has_id (id_of parent) resolved)) [
          | inl g ↦ rw (e, f, g, resolve) refl
          | inr g ↦
              let (id, found) = parent_of-find_id _ _ _ f in
              let less = fresh-append-lt id resolved artifacts parent found g in
              rw (e, f, g, resolve)
                (resolve-more artifacts fuel more parent (resolved ++ (parent ∷ [])) (omega arith)
                  (omega arith))
        ]
      ]
    ]

-- The evidence that verifyArtifacts resolves behind a request is whole: one more round than there are
-- artifacts finds what any larger number of rounds finds.
pub resolve_whole :
    (artifacts : List Artifact) (request : Artifact) (fuel : ℕ)
    → suc (length artifacts) ≤ fuel
    → resolve artifacts fuel request (request ∷ [])
      ≡ resolve artifacts (suc (length artifacts)) request (request ∷ [])
resolve_whole artifacts request fuel le =
    let bound = fresh-le-length (request ∷ []) artifacts in
    resolve-more artifacts (suc (length artifacts)) fuel request (request ∷ []) (omega arith) le
