-- ===== src/Storage/Steps/Guarded.antt =====
-- The guards at the head of the calls, and the calls on artifacts, revocations and events: each does a
-- step.
use tesserra.Prelude.{
  ◌≡◌, refl, Bool, true, false, not, Option, none, some, List, [], ◌∷◌, All, some_of, find,
  if◌then◌else◌, Bool-cases, inl, inr, Text, text_eq, text_eq_sound, find-eq-none, not-eq-false,
  ||-eq-false,
}
use tesserra.Json.{Json}
use tesserra.Storage.Artifacts.{
  same_kind, revocation_row, has_artifact_id, read_artifact, get_artifact, put_known, put_artifact,
  has_revocation_id, revoke_artifact,
}
use tesserra.Storage.Engine.{Engine, parse_json}
use tesserra.Storage.Events.{record_verification_event}
use tesserra.Storage.Guards.{
  non_empty, assert_public_jwk, assert_no_private_material, assert_redacted,
}
use tesserra.Storage.Records.{
  TrustSnapshotRecord, TrustAnchorRecord, StoredArtifactKind, SignedArtifactRecord, ArtifactRow,
  RevocationRecord, VerificationEventRecord, Store,
}
use tesserra.Storage.Result.{
  Result, ok, ◌>>◌, throw_if, each, Ensures, done, failed, Ensures-bind, Ensures-then, Ensures-map,
  Ensures-throw_if, Ensures-self, Ensures-ok, Ensures-read_one, StorageError,
}
use tesserra.Storage.Steps.{
  drop_value, IsPublic, IsClean, IsRedacted, putting_artifact, revoking, recording, Step, stay,
  artifact_known, revocation_known, artifact_put, revocation_added, event_recorded,
}

-- A call that a guard stops, or that the rest of it completes.
pub Ensures-guarded :
    {B : Type 0} {Q : B → Type 0} (b : Bool) (x : StorageError) {k : Result B}
    → (b ≡ false → Ensures Q k)
    → Ensures Q (throw_if b x >> k)
Ensures-guarded b x f = Ensures-then (Ensures-throw_if b x) f

pub Ensures-non_empty :
    {B : Type 0} {Q : B → Type 0} (s : Text) {k : Result B}
    → Ensures Q k
    → Ensures Q (non_empty s >> k)
unfolding non_empty
Ensures-non_empty s f = Ensures-guarded _ _ (λ h. f)

pub Ensures-IsPublic : (v : Json) → Ensures (λ u. IsPublic v) (assert_public_jwk v)
unfolding assert_public_jwk
Ensures-IsPublic v = Ensures-guarded _ _ (λ shape.
    Ensures-map (λ u none_private. (not-eq-false _ shape, none_private)) (Ensures-throw_if _ _))

pub Ensures-IsClean :
    (e : Engine) (v : Json) → Ensures (λ u. IsClean e v) (assert_no_private_material e v)
unfolding assert_no_private_material
Ensures-IsClean e v = Ensures-throw_if _ _

pub Ensures-IsRedacted : (v : Option Json) → Ensures (λ u. IsRedacted v) (assert_redacted v)
unfolding assert_redacted
Ensures-IsRedacted none = done tt
Ensures-IsRedacted (some v) = Ensures-throw_if _ _

pub Ensures-each :
    {A : Type 0} {P : A → Type 0} {body : A → Result (Unit {0})}
    → ((x : A) → Ensures (λ u. P x) (body x))
    → (xs : List A) → Ensures (λ u. All P xs) (each body xs)
unfolding each
Ensures-each holds [] = done tt
Ensures-each holds (x ∷ xs) =
    Ensures-then (holds x) (λ p. Ensures-map (λ u ps. (p, ps)) (Ensures-each holds xs))

pub Ensures-drop_value :
    {A : Type 0} {Q : Store → Type 0} {m : Result (A × Store)}
    → Ensures (λ out. Q out.1) m
    → Ensures Q (drop_value m)
Ensures-drop_value (done p) = done p
Ensures-drop_value failed = failed

pub own_and_IsPublic :
    (snapshot : TrustSnapshotRecord) (anchors : List TrustAnchorRecord)
    → some_of (λ a. not (text_eq a.snapshot_id snapshot.snapshot_id)) anchors ≡ false
    → All (λ a. IsPublic a.public_jwk) anchors
    → All (λ a. (a.snapshot_id ≡ snapshot.snapshot_id) × IsPublic a.public_jwk) anchors
own_and_IsPublic snapshot [] own public = tt
own_and_IsPublic snapshot (a ∷ rest) own (p, ps) =
    let (first, others) = ||-eq-false _ _ own in
    (
      (text_eq_sound a.snapshot_id snapshot.snapshot_id (not-eq-false _ first), p),
      own_and_IsPublic snapshot rest others ps,
    )

module _ (e : Engine) where
  pub refine-putting_artifact :
      (r : SignedArtifactRecord) (s : Store)
      → Ensures (Step e s (putting_artifact r)) (put_artifact e r s)
  unfolding put_artifact get_artifact put_known
  refine-putting_artifact r s = Ensures-then (Ensures-IsClean e r.artifact) (λ clean.
      Ensures-bind (Ensures-read_one (read_artifact e) (find (has_artifact_id r.id) s.artifacts))
        (λ o h. elim h [
          | inl (absent, eo) ↦ rw eo (done (artifact_put r clean absent))
          | inr (x, y, found, eo, read) ↦ rw eo (
              Ensures-guarded _ _ (λ same.
                let (kind, text) = ||-eq-false _ _ same in
                done (
                  stay (
                    artifact_known r y x found read (not-eq-false _ kind)
                      (text_eq_sound _ _ (not-eq-false _ text))))))
        ]))

  read_artifact-kind :
      (x : ArtifactRow) (y : SignedArtifactRecord) → read_artifact e x ≡ ok y → y.kind ≡ x.kind
  unfolding read_artifact
  read_artifact-kind x y h =
      Ensures-ok {P = λ z. z.kind ≡ x.kind}
        (Ensures-bind (Ensures-self (parse_json e x.artifact_json)) (λ v g. done refl)) h

  add_revocation :
      (r : RevocationRecord) (row : ArtifactRow) (s : Store)
      → IsClean e r.artifact
      → find (has_artifact_id r.id) s.artifacts ≡ some row
      → same_kind row.kind StoredArtifactKind.revocation ≡ true
      → Ensures (Step e s (revoking r)) (
          ok (record s {
            revocations =
                if some_of (has_revocation_id r.id) s.revocations
                then s.revocations
                else revocation_row e r ∷ s.revocations;
          }))
  add_revocation r row s clean found kind =
      elim (Bool-cases (some_of (has_revocation_id r.id) s.revocations)) [
        | inl known ↦ rw known (done (stay (revocation_known r known)))
        | inr absent ↦
            rw absent
              (done (revocation_added r row clean found kind (find-eq-none _ s.revocations absent)))
      ]

  pub refine-revoking :
      (r : RevocationRecord) (s : Store) → Ensures (Step e s (revoking r)) (revoke_artifact e r s)
  unfolding revoke_artifact get_artifact throw_if
  refine-revoking r s = Ensures-then (Ensures-IsClean e r.artifact) (λ clean.
      Ensures-bind (Ensures-read_one (read_artifact e) (find (has_artifact_id r.id) s.artifacts))
        (λ o h. elim h [
          | inl (absent, eo) ↦ rw eo failed
          | inr (x, y, found, eo, read) ↦ rw eo (
              Ensures-guarded _ _ (λ kind.
                add_revocation r x s clean found
                  (rw (← read_artifact-kind x y read) (not-eq-false _ kind))))
        ]))

  pub refine-recording :
      (event : VerificationEventRecord) (s : Store)
      → Ensures (Step e s (recording event)) (record_verification_event e event s)
  unfolding record_verification_event
  refine-recording event s = Ensures-then (Ensures-IsRedacted event.redacted_evidence) (λ clean.
      Ensures-guarded _ _
        (λ h. done (event_recorded event clean (find-eq-none _ s.events (||-eq-false _ _ h).0))))
