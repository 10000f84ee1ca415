-- ===== src/Protocol/Ids/Separates.antt =====
-- Domain separation of the bytes that are signed: they determine the kind and the content.
use tesserra.Prelude.{
  ℕ, ◌<◌, ◌%◌, arith, All-map_imp, ◌≡◌, ◌≢◌, refl, sym, ◌∙◌, Option, some, List, [], ◌∷◌, ◌++◌, All,
  Option-cases, inl, inr, codes, Text,
}
use tesserra.Json.{object, Artifact, member, as_string}
use tesserra.Runtime.{Runtime}
use tesserra.Protocol.Canonical.{canonical_bytes, omit}
use tesserra.Protocol.Ids.{ascii, signing_input_for}

-- Two texts without a zero that are followed by one are equal where the whole texts are.
zero_splits :
    (k l x y : List ℕ)
    → All (λ c. c ≢ 0) k
    → All (λ c. c ≢ 0) l
    → k ++ (0 ∷ x) ≡ l ++ (0 ∷ y)
    → (k ≡ l) × (x ≡ y)
zero_splits [] [] x y hk hl e = (refl, cc)
zero_splits [] (c ∷ l) x y hk (hc, hl) e = absurd (let same : c ≡ 0 = cc in hc same)
zero_splits (c ∷ k) [] x y (hc, hk) hl e = absurd (let same : c ≡ 0 = cc in hc same)
zero_splits (c ∷ k) (d ∷ l) x y (hc, hk) (hd, hl) e =
    let first : c ≡ d = cc in let (rest, later) = zero_splits k l x y hk hl cc in (cc, later)

prefix_cancels : (p x y : List ℕ) → p ++ x ≡ p ++ y → x ≡ y
prefix_cancels [] x y e = e
prefix_cancels (c ∷ p) x y e = prefix_cancels p x y cc

-- The content that is signed: everything but the proof.
abbrev pub signed_bytes : Runtime → Artifact → Option (List ℕ)
signed_bytes rt a = canonical_bytes rt (object (omit ("proof" ∷ []) a))

-- A text that a byte encoding keeps apart: its code units are bytes, and none of them is zero.
abbrev pub IsPlain : Text → Type 0
IsPlain = All (λ c. (c ≢ 0) × (c < 256))

ascii-IsPlain : (k : Text) → IsPlain k → ascii k ≡ k
unfolding ascii
ascii-IsPlain [] h = refl
ascii-IsPlain (c ∷ k) ((hc, lt), hk) =
    let first : c % 256 ≡ c = ground arith in let rest = ascii-IsPlain k hk in cc

IsPlain-nonzero : (k : Text) → IsPlain k → All (λ c. c ≢ 0) k
IsPlain-nonzero k h = All-map_imp (λ c p. p.0) k h

signing_input-parts :
    (rt : Runtime) (a : Artifact) (k : Text) (m : List ℕ)
    → as_string (member "kind" a) ≡ some k
    → signing_input_for rt a ≡ some m
    → (c : List ℕ) × (signed_bytes rt a ≡ some c)
      × (m ≡ codes "AGENT-PROOF-SIGN-V1" ++ (0 ∷ (ascii k ++ (0 ∷ c))))
unfolding signing_input_for
signing_input-parts rt a k m e h = elim (Option-cases (signed_bytes rt a)) [
  | inl f ↦ absurd (let g = rw (e, f) at h in cc g)
  | inr (c, f) ↦ (c, f, (let g = rw (e, f) at h in cc g))
]

-- Where two artifacts whose kinds are made of bytes other than zero have one signing input, they are of
-- one kind and have one canonical content outside their proofs: a signature for one kind never counts for
-- another.
pub signing_input-separates :
    (rt : Runtime) (a b : Artifact) (k l : Text) (m : List ℕ)
    → as_string (member "kind" a) ≡ some k
    → as_string (member "kind" b) ≡ some l
    → IsPlain k
    → IsPlain l
    → signing_input_for rt a ≡ some m
    → signing_input_for rt b ≡ some m
    → (k ≡ l) × (c : List ℕ) × (signed_bytes rt a ≡ some c) × (signed_bytes rt b ≡ some c)
signing_input-separates rt a b k l m ka kb pk pl ha hb =
    let (c, ca, ma) = signing_input-parts rt a k m ka ha in
    let (d, cb, mb) = signing_input-parts rt b l m kb hb in
    let na = rw (ascii-IsPlain k pk) at ma in
    let nb = rw (ascii-IsPlain l pl) at mb in
    let tails =
      prefix_cancels (codes "AGENT-PROOF-SIGN-V1") (0 ∷ (k ++ (0 ∷ c))) (0 ∷ (l ++ (0 ∷ d)))
        (sym na ∙ nb) in
    let (kinds, contents) = zero_splits k l c d (IsPlain-nonzero k pk) (IsPlain-nonzero l pl) cc in
    (kinds, c, ca, rw contents cb)
