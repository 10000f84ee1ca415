-- ===== src/Protocol/Ids/Reorders.antt =====
-- The addresses, digests and signing inputs of packages/protocol/src/ids.ts and the order of members.
use tesserra.Prelude.{
  ◌≡◌, refl, ◌∙◌, false, some, List, [], ◌∷◌, arith, Text, text_eq, text_eq_sound, text_eq_refl,
  Bool-cases, inl, inr, String, codes, some_of,
}
use tesserra.Json.{Json, object, Members, end, entry, Artifact, member_text, as_string}
use tesserra.Runtime.{Runtime}
use tesserra.Protocol.Canonical.{canonical_bytes, omit}
use tesserra.Protocol.Canonical.Reorders.{
  Same, itself, objects, arrays, Reordered, no_members, kept, swapped, chained, canonicalize-Same,
}
use tesserra.Protocol.Ids.{
  prefixed_bytes, hash, artifact_id_for, policy_hash_for, signing_input_for, semantic_digest_for,
}

Reordered-refl : (ms : Members) → Reordered ms ms
Reordered-refl end = no_members
Reordered-refl (entry k v ms) = kept (itself v) (Reordered-refl ms)

omit-swapped :
    (keys : List String) (k l : Text) (v w : Json) (ms : Members)
    → text_eq k l ≡ false
    → Reordered (omit keys (entry k v (entry l w ms))) (omit keys (entry l w (entry k v ms)))
unfolding omit
omit-swapped keys k l v w ms h = elim (Bool-cases (some_of (λ x. text_eq (codes x) k) keys)) [
  | inl e ↦ rw (e, omit) (Reordered-refl (omit keys (entry l w ms)))
  | inr e ↦ elim (Bool-cases (some_of (λ x. text_eq (codes x) l) keys)) [
    | inl f ↦ rw (e, f, omit) (kept (itself v) (Reordered-refl (omit keys ms)))
    | inr f ↦ rw (e, f, omit) (swapped h)
  ]
]

omit-Reordered :
    {a b : Members} (keys : List String) → Reordered a b → Reordered (omit keys a) (omit keys b)
unfolding omit
omit-Reordered keys no_members = no_members
omit-Reordered keys (kept {k} s r) = elim (Bool-cases (some_of (λ x. text_eq (codes x) k) keys)) [
  | inl e ↦ rw e (omit-Reordered keys r)
  | inr e ↦ rw e (kept s (omit-Reordered keys r))
]
omit-Reordered keys (swapped {k} {l} {v} {w} {ms} h) = omit-swapped keys k l v w ms h
omit-Reordered keys (chained r t) = chained (omit-Reordered keys r) (omit-Reordered keys t)

string-Same : {v w : Json} → Same v w → as_string (some v) ≡ as_string (some w)
string-Same (itself v) = refl
string-Same (objects r) = refl
string-Same (arrays r) = refl

-- A member that is a text is the same in both orders.
text-Reordered :
    {a b : Members} (key : Text)
    → Reordered a b
    → as_string (member_text key a) ≡ as_string (member_text key b)
unfolding member_text
text-Reordered key no_members = refl
text-Reordered key (kept {k} s r) = elim (Bool-cases (text_eq k key)) [
  | inl e ↦ rw e (string-Same s)
  | inr e ↦ rw e (text-Reordered key r)
]
text-Reordered key (swapped {k} {l} {v} {w} {ms} h) = elim (Bool-cases (text_eq k key)) [
  | inl e ↦ elim (Bool-cases (text_eq l key)) [
    | inl f ↦
        let one = text_eq_sound k key e in
        let two = text_eq_sound l key f in
        let same : k ≡ l = cc (one, two) in
        let apart = rw same at h in absurd (ground (arith, text_eq_refl l))
    | inr f ↦ rw (e, f) refl
  ]
  | inr e ↦ elim (Bool-cases (text_eq l key)) [ inl f ↦ rw (e, f) refl | inr f ↦ rw (e, f) refl ]
]
text-Reordered key (chained r t) = text-Reordered key r ∙ text-Reordered key t

module _ (rt : Runtime) where
  bytes-Reordered :
      (keys : List String) (a b : Members)
      → Reordered a b
      → canonical_bytes rt (object (omit keys a)) ≡ canonical_bytes rt (object (omit keys b))
  unfolding canonical_bytes
  bytes-Reordered keys a b r =
      rw (canonicalize-Same rt _ _ (objects (omit-Reordered keys r)), canonical_bytes) refl

  -- Artifacts that differ in the order of members only, at any depth and among different keys, have one
  -- content address, one semantic digest and one signing input, and snapshots that do so one policy hash.
  pub addresses-Reordered :
      (a b : Artifact)
      → Reordered a b
      → (artifact_id_for rt a ≡ artifact_id_for rt b)
        × (semantic_digest_for rt a ≡ semantic_digest_for rt b)
        × (signing_input_for rt a ≡ signing_input_for rt b)
        × (policy_hash_for rt a ≡ policy_hash_for rt b)
  unfolding artifact_id_for semantic_digest_for signing_input_for policy_hash_for hash
      prefixed_bytes
  addresses-Reordered a b r =
      let unsigned = bytes-Reordered ("id" ∷ "proof" ∷ []) a b r in
      let signed = bytes-Reordered ("proof" ∷ []) a b r in
      let policy = bytes-Reordered ("policy_hash" ∷ []) a b r in
      let kind = text-Reordered (codes "kind") r in
      (rw unsigned refl, rw signed refl, rw (kind, signed) refl, rw policy refl)
