-- ===== src/Storage/Steps/Lasts.antt =====
-- What lasts through any sequence of calls, those that throw among them.
use tesserra.Prelude.{
  ◌≡◌, refl, ◌∙◌, true, false, Option, some, List, [], ◌∷◌, arith, find, inl, inr, ◌⊎◌, Text,
}
use tesserra.Prelude.Int.{◌<ℤ◌}
use tesserra.Storage.Artifacts.{read_artifact, get_artifact, revokes, is_revoked}
use tesserra.Storage.Credentials.{
  idempotency_of, read_credential, get_identity_credential, create_under,
  create_identity_credential,
}
use tesserra.Storage.Engine.{Engine}
use tesserra.Storage.Guards.{is_empty, non_empty, assert_no_private_material}
use tesserra.Storage.Keys.{has_key_id}
use tesserra.Storage.Records.{
  KeyRow, StatusPublisherHighWater, SignedArtifactRecord, TargetType, IdentityCredentialRecord,
  IdempotencyRow, Store,
}
use tesserra.Storage.Result.{
  Result, ok, err, throw_if, expect, read_one, Ensures-ok, Ensures-read_one,
}
use tesserra.Storage.Steps.{Operation, run, run_all, after, IsClean}
use tesserra.Storage.Steps.Keeps.{Keeps, Keeps-refl, Step-Keeps}
use tesserra.Storage.Steps.Refines.{run_refines}
use tesserra.Storage.Steps.Tables.{Follows}
use tesserra.Storage.Trust.{get_status_high_water}

Follows-trans : (a b c : KeyRow) → Follows a b → Follows b c → Follows a c
Follows-trans a b c (agent, jwk, move) (agent2, jwk2, move2) = (
  agent2 ∙ agent,
  jwk2 ∙ jwk,
  elim move [
    | inl same ↦ rw (← same) move2
    | inr less ↦ elim move2 [
      | inl same ↦ rw same (inr less)
      | inr more ↦ inr (omega (arith, less, more))
    ]
  ],
)

advanced_trans :
    (a b c : StatusPublisherHighWater)
    → (b ≡ a) ⊎ (a.sequence <ℤ b.sequence)
    → (c ≡ b) ⊎ (b.sequence <ℤ c.sequence)
    → (c ≡ a) ⊎ (a.sequence <ℤ c.sequence)
advanced_trans a b c (inl same) move = rw (← same) move
advanced_trans a b c (inr less) (inl same) = rw same (inr less)
advanced_trans a b c (inr less) (inr more) = inr (omega (arith, less, more))

Keeps-trans : (s t u : Store) → Keeps s t → Keeps t u → Keeps s u
Keeps-trans s t u k l = record {
  artifacts = λ id row h. l.artifacts id row (k.artifacts id row h);
  credentials = λ id row h. l.credentials id row (k.credentials id row h);
  idempotency = λ id row h. l.idempotency id row (k.idempotency id row h);
  snapshots = λ id row h. l.snapshots id row (k.snapshots id row h);
  events = λ id row h. l.events id row (k.events id row h);
  revocations = λ test h. l.revocations test (k.revocations test h);
  keys = λ id row h.
      let (b, at_b, f) = k.keys id row h in
      let (c, at_c, g) = l.keys id b at_b in (c, at_c, Follows-trans row b c f g);
  publishers = λ x y z mark h.
      let (b, at_b, f) = k.publishers x y z mark h in
      let (c, at_c, g) = l.publishers x y z b at_b in (c, at_c, advanced_trans mark b c f g);
}

after-Keeps :
    (e : Engine) (operation : Operation) (s : Store) → Keeps s (after (run e operation s) s)
after-Keeps e operation s = go (run e operation s) refl
  where
    go : (m : Result Store) → run e operation s ≡ m → Keeps s (after m s)
    go (ok t) h = Step-Keeps e operation s t (run_refines e operation s t h)
    go (err x) h = Keeps-refl s

run_all-Keeps :
    (e : Engine) (operations : List Operation) (s : Store) → Keeps s (run_all e operations s)
unfolding run_all
run_all-Keeps e [] s = Keeps-refl s
run_all-Keeps e (operation ∷ rest) s =
    let t = after (run e operation s) s in
    Keeps-trans s t (run_all e rest t) (after-Keeps e operation s) (run_all-Keeps e rest t)

read_kept :
    {A B : Type 0} (read : A → Result B) (before later : Option A) (value : B)
    → ((row : A) → before ≡ some row → later ≡ some row)
    → read_one read before ≡ ok (some value)
    → read_one read later ≡ ok (some value)
read_kept read before later value keeps h = elim (Ensures-ok (Ensures-read_one read before) h) [
  | inl (absent, gone) ↦ cc gone
  | inr (x, y, found, same, reads) ↦ rw (keeps x found) (rw (← found) h)
]

-- A stored artifact reads back the same after any further calls.
pub artifact_lasts :
    (e : Engine) (operations : List Operation) (s : Store) (id : Text) (r : SignedArtifactRecord)
    → get_artifact e id s ≡ ok (some r)
    → get_artifact e id (run_all e operations s) ≡ ok (some r)
unfolding get_artifact
artifact_lasts e operations s id r h =
    read_kept (read_artifact e) _ _ r ((run_all-Keeps e operations s).artifacts id) h

-- What is revoked at an instant is still so at that instant after any further calls.
pub revocation_lasts :
    (e : Engine) (operations : List Operation) (s : Store) (target : TargetType) (id at : Text)
    → is_revoked e target id at s ≡ true
    → is_revoked e target id at (run_all e operations s) ≡ true
unfolding is_revoked
revocation_lasts e operations s target id at h =
    (run_all-Keeps e operations s).revocations (revokes e target id at) h

-- Through any further calls a stored key keeps its agent and its public key; its row stays, or gets a
-- greater history sequence.
pub key_identity_lasts :
    (e : Engine) (operations : List Operation) (s : Store) (id : Text) (row : KeyRow)
    → find (has_key_id id) s.keys ≡ some row
    → (next : KeyRow) × (find (has_key_id id) (run_all e operations s).keys ≡ some next)
      × ((next.agent_id ≡ row.agent_id)
          × (next.public_jwk_json ≡ row.public_jwk_json)
          × ((next ≡ row) ⊎ (row.history_sequence <ℤ next.history_sequence)))
key_identity_lasts e operations s id row h = (run_all-Keeps e operations s).keys id row h

-- Through any further calls the high-water mark of a status publisher for a key stays, or gets a greater
-- sequence: it is neither rolled back nor replaced by another of the same sequence.
pub high_water_lasts :
    (e : Engine) (operations : List Operation) (s : Store)
    (snapshot_id publisher_id target_key_id : Text) (mark : StatusPublisherHighWater)
    → get_status_high_water snapshot_id publisher_id target_key_id s ≡ some mark
    → (next : StatusPublisherHighWater) × (get_status_high_water snapshot_id publisher_id
          target_key_id
          (run_all e operations s)
        ≡ some next)
      × ((next ≡ mark) ⊎ (mark.sequence <ℤ next.sequence))
unfolding get_status_high_water
high_water_lasts e operations s a b c mark h =
    (run_all-Keeps e operations s).publishers a b c mark h

credential_lasts :
    (e : Engine) (operations : List Operation) (s : Store) (id : Text)
    (r : IdentityCredentialRecord)
    → get_identity_credential e id s ≡ ok (some r)
    → get_identity_credential e id (run_all e operations s) ≡ ok (some r)
unfolding get_identity_credential
credential_lasts e operations s id r h =
    read_kept (read_credential e) _ _ r ((run_all-Keeps e operations s).credentials id) h

-- A creation under a key of idempotency that is stored gives the stored credential, whatever was called
-- in between and whatever it asks for, and changes nothing; what it asks for has passed the checks.
pub creation_idempotent :
    (e : Engine) (operations : List Operation) (s : Store) (key : Text) (row : IdempotencyRow)
    (stored asked : IdentityCredentialRecord)
    → idempotency_of (some key) s ≡ some row
    → get_identity_credential e row.identity_id s ≡ ok (some stored)
    → is_empty asked.id ≡ false
    → is_empty asked.agent_id ≡ false
    → IsClean e asked.credential
    → create_identity_credential e asked (some key) (run_all e operations s)
      ≡ ok (stored, run_all e operations s)
unfolding create_identity_credential create_under non_empty assert_no_private_material throw_if
    expect
creation_idempotent e operations s key row stored asked known reads id agent clean =
    let keeps = run_all-Keeps e operations s in
    rw (id, agent, clean, keeps.idempotency key row known)
      (rw (credential_lasts e operations s row.identity_id stored reads) refl)
