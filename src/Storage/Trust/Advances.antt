-- ===== src/Storage/Trust/Advances.antt =====
-- Trust snapshots and high-water marks only move forward.
use tesserra.Prelude.{
  ◌≡◌, ◌≢◌, false, none, some, List, [], ◌∷◌, arith, All, Bool-cases, Option-cases, inl, inr,
  All-map_imp,
}
use tesserra.Prelude.Int.{ℤ, ◌<ℤ◌, ◌≤ℤ◌, ltb_ℤ, leb_ℤ, ltb_ℤ_iff, ltb_ℤ-eq-false}
use tesserra.Storage.Records.{TrustSnapshotRecord}
use tesserra.Storage.Trust.{newest, rolls_back}

pub leb_ℤ-eq-false : (a b : ℤ) → leb_ℤ a b ≡ false → b <ℤ a
unfolding leb_ℤ
leb_ℤ-eq-false a b h = ground arith

newest-cons :
    (row : TrustSnapshotRecord) (rows : List TrustSnapshotRecord) (m : TrustSnapshotRecord)
    → newest (row ∷ rows) ≡ some m
    → (row.sequence ≤ℤ m.sequence)
      × ((r : TrustSnapshotRecord) → newest rows ≡ some r → r.sequence ≤ℤ m.sequence)
unfolding newest
newest-cons row rows m h = elim (Option-cases (newest rows)) [
  | inl e ↦
      (let f = rw e at h in let same : row ≡ m = cc f in rw same (omega arith), λ r g. cc (e, g))
  | inr (other, e) ↦ elim (Bool-cases (ltb_ℤ other.sequence row.sequence)) [
    | inl lt ↦
        let f = rw (e, lt) at h in
        let same : row ≡ m = cc f in
        let less = (ltb_ℤ_iff other.sequence row.sequence).0 lt in
        rw (← same)
          (omega arith, λ r g. let q : other ≡ r = cc (e, g) in rw (← q) (omega (arith, less)))
    | inr ge ↦
        let f = rw (e, ge) at h in
        let same : other ≡ m = cc f in
        let le = ltb_ℤ-eq-false other.sequence row.sequence ge in
        rw (← same) (le, λ r g. let q : other ≡ r = cc (e, g) in rw (← q) (omega arith))
  ]
]

newest-some :
    (row : TrustSnapshotRecord) (rows : List TrustSnapshotRecord) → newest (row ∷ rows) ≢ none
unfolding newest
newest-some row rows = λ h. elim (Option-cases (newest rows)) [
  | inl e ↦ let f = rw e at h in cc f
  | inr (other, e) ↦ elim (Bool-cases (ltb_ℤ other.sequence row.sequence)) [
    | inl lt ↦ let f = rw (e, lt) at h in cc f
    | inr ge ↦ let f = rw (e, ge) at h in cc f
  ]
]

-- The newest snapshot has the greatest sequence.
pub newest-greatest :
    (rows : List TrustSnapshotRecord) (m : TrustSnapshotRecord)
    → newest rows ≡ some m
    → All (λ r. r.sequence ≤ℤ m.sequence) rows
newest-greatest [] m h = tt
newest-greatest (row ∷ []) m h = ((newest-cons row [] m h).0, tt)
newest-greatest (row ∷ x ∷ xs) m h =
    let rows = x ∷ xs in
    let (first, rest) = newest-cons row rows m h in
    (
      first,
      elim (Option-cases (newest rows)) [
        | inl e ↦ absurd (newest-some x xs e)
        | inr (other, e) ↦
            let less = rest other e in
            All-map_imp (λ r le. omega (arith, le, less)) rows (newest-greatest (x ∷ xs) other e)
      ],
    )

-- A snapshot that does not roll back comes after every stored one.
pub advances :
    (snapshot : TrustSnapshotRecord) (rows : List TrustSnapshotRecord)
    → rolls_back snapshot (newest rows) ≡ false
    → All (λ r. r.sequence <ℤ snapshot.sequence) rows
advances snapshot [] h = tt
advances snapshot (row ∷ rows) h = elim (Option-cases (newest (row ∷ rows))) [
  | inl e ↦ absurd (newest-some row rows e)
  | inr (m, e) ↦
      let f = rw e at h in
      let less = leb_ℤ-eq-false snapshot.sequence m.sequence f in
      All-map_imp (λ r le. omega (arith, le, less)) (row ∷ rows) (newest-greatest (row ∷ rows) m e)
]
