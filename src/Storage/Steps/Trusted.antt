-- ===== src/Storage/Steps/Trusted.antt =====
-- The calls of packages/storage-sqlite/src/sqlite-storage.ts on trust snapshots and marks: each does a step.
use tesserra.Prelude.{
  ◌≡◌, refl, &&-eq-true, ◌&&◌, List, [], ◌∷◌, find, Bool-cases, Option-cases, inl, inr, text_eq,
  text_eq_sound, not-eq-false, ||-eq-false,
}
use tesserra.Prelude.Int.{pos, ◌+ℤ◌, eqb_ℤ, eqb_ℤ_iff}
use tesserra.Storage.Engine.{Engine}
use tesserra.Storage.Records.{
  TrustSnapshotRecord, TrustAnchorRecord, AnchorRow, StatusPublisherHighWater, Store,
}
use tesserra.Storage.Result.{Ensures, done, Ensures-bind, Ensures-then}
use tesserra.Storage.Steps.{
  accepting_snapshot, accepting_mark, anchored, Step, stay, snapshot_known, mark_known,
  snapshot_accepted, mark_opened, mark_advanced,
}
use tesserra.Storage.Trust.{
  has_snapshot_id, anchor_row, get_trust_snapshot, insert_anchors, accept_known,
  accept_trust_snapshot, mark_of, advance, accept_status_high_water,
}
use tesserra.Storage.Trust.Advances.{advances}
use tesserra.Storage.Steps.Guarded.{
  Ensures-guarded, Ensures-non_empty, Ensures-IsPublic, Ensures-each, own_and_IsPublic,
}

module _ (e : Engine) where
  pub refine-accepting_mark :
      (value : StatusPublisherHighWater) (s : Store)
      → Ensures (Step e s (accepting_mark value)) (accept_status_high_water value s)
  unfolding accept_status_high_water advance
  refine-accepting_mark value s = Ensures-guarded _ _ (λ fit.
      elim (Option-cases (mark_of value s)) [
        | inl absent ↦ rw absent (
            Ensures-guarded _ _ (λ first. Ensures-guarded _ _ (λ known. done (
              mark_opened value absent
                ((eqb_ℤ_iff value.sequence (pos 1)).0 (not-eq-false _ first))))))
        | inr (previous, found) ↦
            rw found
              (elim (Bool-cases
                (eqb_ℤ value.sequence previous.sequence && text_eq value.digest previous.digest)) [
                  | inl same ↦ rw same (
                      let (sequence, digest) = &&-eq-true _ _ same in
                      done (
                        stay (
                          mark_known value previous found ((eqb_ℤ_iff _ _).0 sequence)
                            (text_eq_sound _ _ digest))))
                  | inr other ↦ rw other (
                      Ensures-guarded _ _ (λ next. done (
                        mark_advanced value previous found (
                          (eqb_ℤ_iff value.sequence (previous.sequence +ℤ pos 1)).0
                            (not-eq-false _ next)))))
                ])
      ])

  Ensures-insert_anchors :
      (anchors : List TrustAnchorRecord) (rows : List AnchorRow)
      → Ensures (λ out. out ≡ anchored e anchors rows) (insert_anchors e anchors rows)
  unfolding insert_anchors anchored
  Ensures-insert_anchors [] rows = done refl
  Ensures-insert_anchors (anchor ∷ rest) rows =
      Ensures-guarded _ _ (λ h. Ensures-insert_anchors rest (anchor_row e anchor ∷ rows))

  pub refine-accepting_snapshot :
      (snapshot : TrustSnapshotRecord) (anchors : List TrustAnchorRecord) (s : Store)
      → Ensures
          (Step e s (accepting_snapshot snapshot anchors))
          (accept_trust_snapshot e snapshot anchors s)
  unfolding accept_trust_snapshot accept_known get_trust_snapshot
  refine-accepting_snapshot snapshot anchors s = Ensures-non_empty snapshot.snapshot_id (
      Ensures-non_empty snapshot.policy_hash (
        Ensures-guarded _ _ (λ interval. Ensures-guarded _ _ (λ own.
          Ensures-then (Ensures-each (λ a. Ensures-IsPublic a.public_jwk) anchors) (λ public.
            Ensures-guarded _ _ (λ reads.
              elim (Option-cases (find (has_snapshot_id snapshot.snapshot_id) s.snapshots)) [
                | inr (same, found) ↦ rw found (
                    Ensures-guarded _ _ (λ safe. Ensures-guarded _ _ (λ agrees.
                      let (policy, sequence) = ||-eq-false _ _ agrees in
                      done (
                        stay (
                          snapshot_known snapshot same anchors found
                            (text_eq_sound _ _ (not-eq-false _ policy))
                            ((eqb_ℤ_iff _ _).0 (not-eq-false _ sequence)))))))
                | inl absent ↦ rw absent (
                    Ensures-guarded _ _ (λ forward. Ensures-guarded _ _ (λ fit.
                      Ensures-bind (Ensures-insert_anchors anchors s.anchors) (λ rows same.
                        rw same (
                          done (
                            snapshot_accepted snapshot anchors absent
                              (advances snapshot s.snapshots forward)
                              (own_and_IsPublic snapshot anchors own public)))))))
              ]))))))
