-- ===== src/Protocol/Regex/Language.antt =====
-- The language of a pattern, and that the derivative test decides it.
use tesserra.Prelude.{
  ℕ, zero, suc, ◌≡◌, refl, sym, ap, ◌∙◌, ◌⊎◌, inl, inr, ◌↔◌, Bool, true, false, [], ◌∷◌, ◌++◌,
  arith, Text, Bool-cases, &&-eq-true, if◌then◌else◌,
}
use tesserra.Protocol.Regex.{
  Regex, never, empty, class, between, seq, alt, star, nullable, derive, matches,
}

-- `Language r s`: the pattern `r` describes the text `s`.
pub data Language : Regex → Text → Type 0 where
  is_empty : {s : Text} → s ≡ [] → Language empty s
  is_class : {c : ℕ → Bool} {s : Text} (a : ℕ) → c a ≡ true → s ≡ a ∷ [] → Language (class c) s
  stop : {c : ℕ → Bool} {n : ℕ} {s : Text} → s ≡ [] → Language (between zero n c) s
  optional :
      {c : ℕ → Bool} {n : ℕ} {s : Text} (a : ℕ) (t : Text)
      → c a ≡ true
      → Language (between zero n c) t
      → s ≡ a ∷ t
      → Language (between zero (suc n) c) s
  required :
      {c : ℕ → Bool} {low n : ℕ} {s : Text} (a : ℕ) (t : Text)
      → c a ≡ true
      → Language (between low n c) t
      → s ≡ a ∷ t
      → Language (between (suc low) n c) s
  is_seq :
      {r q : Regex} {s : Text} (t u : Text)
      → Language r t
      → Language q u
      → s ≡ t ++ u
      → Language (seq r q) s
  left : {r q : Regex} {s : Text} → Language r s → Language (alt r q) s
  right : {r q : Regex} {s : Text} → Language q s → Language (alt r q) s
  finish : {r : Regex} {s : Text} → s ≡ [] → Language (star r) s
  again :
      {r : Regex} {s : Text} (t u : Text)
      → Language r t
      → Language (star r) u
      → s ≡ t ++ u
      → Language (star r) s

nullable-Language : (r : Regex) → nullable r ≡ true → Language r []
unfolding nullable
nullable-Language never h = cc
nullable-Language empty h = is_empty refl
nullable-Language (class c) h = cc
nullable-Language (between zero n c) h = stop refl
nullable-Language (between (suc low) n c) h = cc
nullable-Language (seq r q) h =
    let (hr, hq) = &&-eq-true _ _ h in
    is_seq [] [] (nullable-Language r hr) (nullable-Language q hq) refl
nullable-Language (alt r q) h = elim (Bool-cases (nullable r)) [
  | inl e ↦ left (nullable-Language r e)
  | inr e ↦ right (nullable-Language q (ground arith))
]
nullable-Language (star r) h = finish refl

not_never : {s : Text} → Language never s → ⊥
not_never h = elim h [ ]

if-Language :
    (b : Bool) (r : Regex) {s : Text}
    → Language (if b then r else never) s
    → (b ≡ true) × Language r s
if-Language true r h = (refl, h)
if-Language false r h = absurd (not_never h)

Language-if :
    {b : Bool} (r : Regex) {s : Text}
    → b ≡ true
    → Language r s
    → Language (if b then r else never) s
Language-if r e h = rw e h

of_empty : {s : Text} → Language empty s → s ≡ []
of_empty (is_empty e) = e

cons_path : (a : ℕ) {s t : Text} → s ≡ t → ◌≡◌ {A = Text} (a ∷ s) (a ∷ t)
cons_path a e = ap (λ t. a ∷ t) e

seq_parts :
    {r q : Regex} {s : Text}
    → Language (seq r q) s
    → (t : Text) × (u : Text) × Language r t × Language q u × (s ≡ t ++ u)
seq_parts (is_seq t u hr hq e) = (t, u, hr, hq, e)

abbrev Derives : ℕ → Regex → Regex → Type 0
Derives a d r = (s : Text) → Language d s → Language r (a ∷ s)

-- The derivative of `r` in front of `q` says what follows `a` in `r` in front of `q`.
seq-Derives-first : (a : ℕ) {d r q : Regex} → Derives a d r → Derives a (seq d q) (seq r q)
seq-Derives-first a hr s l =
    let (t, u, l₁, l₂, e) = seq_parts l in is_seq (a ∷ t) u (hr t l₁) l₂ (cons_path a e)

seq-Derives-either :
    (a : ℕ) {d r q p : Regex}
    → Language r []
    → Derives a d r
    → Derives a p q
    → Derives a (alt (seq d q) p) (seq r q)
seq-Derives-either a n hr hq s (left l) = seq-Derives-first a hr s l
seq-Derives-either a n hr hq s (right l) = is_seq [] (a ∷ s) n (hq s l) refl

alt-Derives :
    (a : ℕ) {d r q p : Regex} → Derives a d r → Derives a p q → Derives a (alt d p) (alt r q)
alt-Derives a hr hq s (left l) = left (hr s l)
alt-Derives a hr hq s (right l) = right (hq s l)

derive_sound : (a : ℕ) (r : Regex) → Derives a (derive a r) r
unfolding derive
derive_sound a never s h = absurd (not_never h)
derive_sound a empty s h = absurd (not_never h)
derive_sound a (class c) s h =
    let (e, l) = if-Language (c a) empty h in is_class a e (cons_path a (of_empty l))
derive_sound a (between zero zero c) s h = absurd (not_never h)
derive_sound a (between zero (suc n) c) s h =
    let (e, l) = if-Language (c a) (between zero n c) h in optional a s e l refl
derive_sound a (between (suc low) n c) s h =
    let (e, l) = if-Language (c a) (between low n c) h in required a s e l refl
derive_sound a (seq r q) s h = elim (Bool-cases (nullable r)) [
  | inl e ↦
      seq-Derives-either a (nullable-Language r e) (derive_sound a r) (derive_sound a q) s
        (rw e at h)
  | inr e ↦ seq-Derives-first a (derive_sound a r) s (rw e at h)
]
derive_sound a (alt r q) s h = alt-Derives a (derive_sound a r) (derive_sound a q) s h
derive_sound a (star r) s h =
    let (t, u, hr, hs, e) = seq_parts h in
    again (a ∷ t) u (derive_sound a r t hr) hs (cons_path a e)

append-eq-nil : (t u : Text) → [] ≡ t ++ u → (t ≡ []) × (u ≡ [])
append-eq-nil [] u e = (refl, sym e)
append-eq-nil (b ∷ t) u e = cc

-- Only a nullable pattern describes the empty text.
Language-nullable : {r : Regex} {s : Text} → Language r s → s ≡ [] → nullable r ≡ true
unfolding nullable
Language-nullable (is_empty e) h = refl
Language-nullable (is_class a p e) h = cc
Language-nullable (stop e) h = refl
Language-nullable (optional a t p l e) h = refl
Language-nullable (required a t p l e) h = cc
Language-nullable (is_seq t u l₁ l₂ e) h =
    let (et, eu) = append-eq-nil t u (sym h ∙ e) in
    ground (arith, Language-nullable l₁ et, Language-nullable l₂ eu)
Language-nullable (left l) h = ground (arith, Language-nullable l h)
Language-nullable (right l) h = ground (arith, Language-nullable l h)
Language-nullable (finish e) h = refl
Language-nullable (again t u l₁ l₂ e) h = refl

-- A text that begins with `a`, cut in two: the cut is in front of `a`, or behind it.
cut :
    (a : ℕ) (s t u : Text)
    → a ∷ s ≡ t ++ u
    → ((t ≡ []) × (u ≡ a ∷ s)) ⊎ ((t' : Text) × (t ≡ a ∷ t') × (s ≡ t' ++ u))
cut a s [] u e = inl (refl, sym e)
cut a s (b ∷ t) u e = inr (t, cc, cc)

-- A rest that follows the first part of a sequence follows the sequence, whether or not the first
-- part may be empty.
derive-seq :
    (b : Bool) {d q : Regex} (p : Regex) {s : Text}
    → Language (seq d q) s
    → Language (if b then alt (seq d q) p else seq d q) s
derive-seq true p l = left l
derive-seq false p l = l

derive_complete :
    (a : ℕ) (s : Text) {r : Regex} {s' : Text}
    → Language r s'
    → s' ≡ a ∷ s
    → Language (derive a r) s
unfolding derive
derive_complete a s (is_empty e) h = absurd (cc)
derive_complete a s (is_class {c} b p e) h = Language-if empty (cc) (is_empty cc)
derive_complete a s (stop e) h = absurd (cc)
derive_complete a s (optional {c} {n} b t p l e) h =
    Language-if (between zero n c) (cc) (let q : t ≡ s = cc in rw (← q) l)
derive_complete a s (required {c} {low} {n} b t p l e) h =
    Language-if (between low n c) (cc) (let q : t ≡ s = cc in rw (← q) l)
derive_complete a s (is_seq {r} {q} t u l₁ l₂ e) h = elim (cut a s t u (sym h ∙ e)) [
  | inl (et, eu) ↦ rw (Language-nullable l₁ et) (right (derive_complete a s l₂ eu))
  | inr (t', et, es) ↦
      derive-seq (nullable r) (derive a q) (is_seq t' u (derive_complete a t' l₁ et) l₂ es)
]
derive_complete a s (left l) h = left (derive_complete a s l h)
derive_complete a s (right l) h = right (derive_complete a s l h)
derive_complete a s (finish e) h = absurd (cc)
derive_complete a s (again t u l₁ l₂ e) h = elim (cut a s t u (sym h ∙ e)) [
  | inl (et, eu) ↦ derive_complete a s l₂ eu
  | inr (t', et, es) ↦ is_seq t' u (derive_complete a t' l₁ et) l₂ es
]

matches_sound : (r : Regex) (s : Text) → matches r s ≡ true → Language r s
unfolding matches
matches_sound r [] h = nullable-Language r h
matches_sound r (a ∷ s) h = derive_sound a r s (matches_sound (derive a r) s h)

matches_complete : (s : Text) {r : Regex} → Language r s → matches r s ≡ true
unfolding matches
matches_complete [] l = Language-nullable l refl
matches_complete (a ∷ s) l = matches_complete s (derive_complete a s l refl)

-- The test of a pattern answers true exactly for the texts that the pattern describes.
pub matches_iff : (r : Regex) (s : Text) → (matches r s ≡ true) ↔ Language r s
matches_iff r s = (matches_sound r s, matches_complete s)
