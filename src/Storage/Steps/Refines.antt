-- ===== src/Storage/Steps/Refines.antt =====
-- Every call of packages/storage-sqlite/src/sqlite-storage.ts that writes does one of the steps.
use tesserra.Prelude.{
  ◌≡◌, refl, false, some_of, Option, some, List, [], ◌∷◌, find, Bool-cases, Option-cases, inl, inr,
  Text, text_eq_sound, found-some_of, none-some_of, not-eq-false, ||-eq-false,
}
use tesserra.Storage.Credentials.{
  has_credential_id, idempotency_of, read_credential, get_identity_credential, create_new,
  create_under, create_identity_credential,
}
use tesserra.Storage.Engine.{Engine, parse_json}
use tesserra.Storage.Keys.{
  has_agent_id, has_key_id, replaced_key, history_row, read_key, get_key, changes_identity,
  is_stale, upsert_key, put_agent, put_key,
}
use tesserra.Storage.Records.{
  AgentRecord, ReplayKey, KeyRecord, KeyRow, IdentityCredentialRecord, Store,
}
use tesserra.Storage.Replay.{
  conflicts, at_most, consume, purge, consume_replay_key, purge_expired_replay_keys,
}
use tesserra.Storage.Result.{
  Result, ok, err, Ensures, done, Ensures-bind, Ensures-then, Ensures-self, Ensures-expect,
  Ensures-ok, invalid_idempotency, IsReadFrom, Ensures-read_one,
}
use tesserra.Storage.Rows.{update}
use tesserra.Storage.Steps.{
  Operation, putting_agent, putting_key, accepting_snapshot, accepting_mark, consuming, purging,
  creating_credential, putting_artifact, revoking, recording, run, run_all, after, Step, stay,
  replay_expired, replay_known, creation_remembered, credential_known, agent_added, agent_replaced,
  key_consumed, keys_purged, agents_moved, key_added, key_changed, replays_moved,
  credential_created,
}
use tesserra.Storage.Trust.Advances.{leb_ℤ-eq-false}
use tesserra.Storage.Steps.Guarded.{
  Ensures-guarded, Ensures-non_empty, Ensures-IsPublic, Ensures-IsClean, Ensures-drop_value,
  refine-putting_artifact, refine-revoking, refine-recording,
}
use tesserra.Storage.Steps.Trusted.{refine-accepting_mark, refine-accepting_snapshot}

module _ (e : Engine) where
  read_key-same :
      (x : KeyRow) (y : KeyRecord)
      → read_key e x ≡ ok y
      → (y.agent_id ≡ x.agent_id) × (y.history_sequence ≡ x.history_sequence)
  unfolding read_key
  read_key-same x y h =
      Ensures-ok {P = λ z. (z.agent_id ≡ x.agent_id) × (z.history_sequence ≡ x.history_sequence)}
        (Ensures-bind (Ensures-self (parse_json e x.public_jwk_json))
          (λ v g. Ensures-guarded _ _ (λ safe. done (refl, refl))))
        h

  change_key :
      (key : KeyRecord) (x : KeyRow) (y : KeyRecord) (s : Store)
      → find (has_key_id key.id) s.keys ≡ some x
      → read_key e x ≡ ok y
      → changes_identity e key (some y) ≡ false
      → is_stale key (some y) ≡ false
      → Step e s (putting_key key) (record s {
        keys = update (has_key_id key.id) (replaced_key e key) s.keys;
        key_history = history_row key ∷ s.key_history;
      })
  change_key key x y s found read identity stale =
      let (agent, sequence) = read_key-same x y read in
      let same =
        text_eq_sound y.agent_id key.agent_id (not-eq-false _ (||-eq-false _ _ identity).0) in
      let less = leb_ℤ-eq-false key.history_sequence y.history_sequence stale in
      key_changed key x found (cc (agent, same)) (rw sequence at less)

  refine-putting_key :
      (key : KeyRecord) (s : Store) → Ensures (Step e s (putting_key key)) (put_key e key s)
  unfolding put_key get_key upsert_key
  refine-putting_key key s = Ensures-non_empty key.id (
      Ensures-non_empty key.agent_id (
        Ensures-then (Ensures-IsPublic key.public_jwk) (λ public. Ensures-guarded _ _ (λ interval.
          Ensures-bind (Ensures-read_one (read_key e) (find (has_key_id key.id) s.keys)) (λ o h.
            elim h [
              | inl (absent, eo) ↦
                  rw (eo, none-some_of (has_key_id key.id) s.keys absent)
                    (Ensures-guarded _ _ (λ identity. Ensures-guarded _ _ (λ stale.
                      Ensures-guarded _ _ (λ fit.
                        Ensures-guarded _ _ (λ version. done (key_added key public absent))))))
              | inr (x, y, found, eo, read) ↦
                  rw (eo, found-some_of (has_key_id key.id) s.keys x found)
                    (Ensures-guarded _ _ (λ identity. Ensures-guarded _ _ (λ stale.
                      Ensures-guarded _ _ (λ fit.
                        Ensures-guarded _ _
                          (λ version. done (change_key key x y s found read identity stale))))))
            ])))))

  Ensures-credential :
      (id : Text) (s : Store)
      → Ensures
          (IsReadFrom (read_credential e) (find (has_credential_id id) s.credentials))
          (get_identity_credential e id s)
  unfolding get_identity_credential
  Ensures-credential id s =
      Ensures-read_one (read_credential e) (find (has_credential_id id) s.credentials)

  refine-creating :
      (r : IdentityCredentialRecord) (key : Option Text) (s : Store)
      → Ensures
          (λ out. Step e s (creating_credential r key) out.1)
          (create_identity_credential e r key s)
  unfolding create_identity_credential create_under create_new
  refine-creating r key s = Ensures-non_empty r.id (
      Ensures-non_empty r.agent_id (
        Ensures-then (Ensures-IsClean e r.credential) (λ clean.
          elim (Option-cases (idempotency_of key s)) [
            | inr (row, known) ↦ rw known (
                Ensures-bind (Ensures-self (get_identity_credential e row.identity_id s)) (λ o h.
                  Ensures-bind (Ensures-expect o invalid_idempotency)
                    (λ identity g. done (stay (creation_remembered r key row known)))))
            | inl fresh ↦ rw fresh (
                Ensures-bind (Ensures-credential r.id s) (λ o h. elim h [
                  | inl (absent, eo) ↦ rw eo (
                      Ensures-guarded _ _ (λ agent.
                        done (credential_created r key clean (not-eq-false _ agent) absent fresh)))
                  | inr (x, y, found, eo, read) ↦
                      rw eo (done (stay (credential_known r key x found)))
                ]))
          ])))

  refine-putting_agent :
      (agent : AgentRecord) (s : Store)
      → Ensures (Step e s (putting_agent agent)) (put_agent e agent s)
  unfolding put_agent
  refine-putting_agent agent s =
      Ensures-non_empty agent.id (elim (Option-cases (find (has_agent_id agent.id) s.agents)) [
        | inl absent ↦
            rw (none-some_of (has_agent_id agent.id) s.agents absent)
              (done (agents_moved agent _ (agent_added absent)))
        | inr (row, found) ↦
            rw (found-some_of (has_agent_id agent.id) s.agents row found)
              (done (agents_moved agent _ (agent_replaced row found)))
      ])

  consuming-Step :
      (key : ReplayKey) (now : Text) (s : Store)
      → Step e s (consuming key now) (consume_replay_key key now s).1
  unfolding consume_replay_key consume
  consuming-Step key now s = elim (Bool-cases (at_most key.expires_at now)) [
    | inl late ↦ rw late (stay (replay_expired key now late))
    | inr early ↦ elim (Bool-cases (some_of (conflicts key) s.replays)) [
      | inl known ↦ rw (early, known) (stay (replay_known key now known))
      | inr new ↦ rw (early, new) (replays_moved _ (key_consumed key now early new))
    ]
  ]

  purging-Step :
      (now : Text) (s : Store) → Step e s (purging now) (purge_expired_replay_keys now s).1
  unfolding purge_expired_replay_keys purge
  purging-Step now s = replays_moved _ (keys_purged now)

refine :
    (e : Engine) (operation : Operation) (s : Store)
    → Ensures (Step e s operation) (run e operation s)
unfolding run
refine e (putting_agent agent) s = refine-putting_agent e agent s
refine e (putting_key key) s = refine-putting_key e key s
refine e (accepting_snapshot snapshot anchors) s = refine-accepting_snapshot e snapshot anchors s
refine e (accepting_mark value) s = refine-accepting_mark e value s
refine e (consuming key now) s = done (consuming-Step e key now s)
refine e (purging now) s = done (purging-Step e now s)
refine e (creating_credential r key) s = Ensures-drop_value (refine-creating e r key s)
refine e (putting_artifact r) s = refine-putting_artifact e r s
refine e (revoking r) s = refine-revoking e r s
refine e (recording event) s = refine-recording e event s

-- What a call that returns makes of the database is a step that the specification allows that very call:
-- a row for an id that is new, or later than the one it replaces; the agent that was put; a replay key in
-- time and free of conflicts, or the rows without the expired ones; or the same database, where what was
-- given is already there or a replay key is refused.
pub run_refines :
    (e : Engine) (operation : Operation) (s t : Store)
    → run e operation s ≡ ok t
    → Step e s operation t
unfolding run
run_refines e operation s t h = Ensures-ok (refine e operation s) h

-- What every step keeps holds after every sequence of calls.
pub run_all_keeps :
    (e : Engine) (P : Store → Type 0)
    → ((operation : Operation) (s t : Store) → Step e s operation t → P s → P t)
    → (operations : List Operation) (s : Store) → P s
    → P (run_all e operations s)
unfolding run_all
run_all_keeps e P keeps [] s p = p
run_all_keeps e P keeps (operation ∷ rest) s p =
    run_all_keeps e P keeps rest (after (run e operation s) s) (go (run e operation s) refl)
  where
    go : (m : Result Store) → run e operation s ≡ m → P (after m s)
    go (ok t) h = keeps operation s t (run_refines e operation s t h) p
    go (err x) h = p
