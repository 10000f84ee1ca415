-- ===== src/Storage/Replay/Once.antt =====
-- A replay key is consumed at most once, also across the purges.
use tesserra.Prelude.{
  ◌<◌, ◌≡◌, refl, sym, true, false, ◌||◌, List, [], ◌∷◌, arith, All, Any, here, there, some_of,
  Bool-cases, inl, inr, ◌⊎◌, Text, text_lt, text_lt_negative_trans, text_lt_asym,
}
use tesserra.Protocol.Canonical.{utf8_scalar, utf8}
use tesserra.Storage.Engine.{sql_lt}
use tesserra.Storage.Records.{ReplayKey, ReplayRow}
use tesserra.Storage.Replay.{conflicts, at_most, consume, purge}

abbrev pub IsAscii : Text → Type 0
IsAscii s = All (λ c. c < 128) s

utf8_ascii : (s : Text) → IsAscii s → utf8 s ≡ s
unfolding utf8 utf8_scalar
utf8_ascii [] h = refl
utf8_ascii (c ∷ []) h = ground arith
utf8_ascii (c ∷ d ∷ s) h = ground (arith, utf8_ascii (d ∷ s) h.1)

-- On ASCII texts, such as printed instants, a statement and the program order alike.
pub sql_lt_ascii : (s t : Text) → IsAscii s → IsAscii t → sql_lt s t ≡ text_lt s t
unfolding sql_lt
sql_lt_ascii s t h k = rw (utf8_ascii s h, utf8_ascii t k) refl

-- What may happen to the table between two calls, with the instant that it happens at.
pub data Event : Type 0 where
  consuming : ReplayKey → Text → Event
  purging : Text → Event

abbrev pub time_of : Event → Text
time_of (consuming key now) = now
time_of (purging now) = now

abbrev pub happen : Event → List ReplayRow → List ReplayRow
happen (consuming key now) rows = (consume key now rows).1
happen (purging now) rows = purge now rows

unfoldable pub all_happen : List Event → List ReplayRow → List ReplayRow
all_happen [] rows = rows
all_happen (event ∷ rest) rows = all_happen rest (happen event rows)

-- The events lie between two instants, in order; instants are printed in ASCII.
unfoldable pub IsOrdered : Text → List Event → Text → Type 0
IsOrdered from [] to = at_most from to ≡ true
IsOrdered from (event ∷ rest) to =
    (at_most from (time_of event) ≡ true)
    × IsAscii (time_of event)
    × IsOrdered (time_of event) rest to

-- A row that a key conflicts with and that stays as long as the key lasts.
abbrev Holds : ReplayKey → List ReplayRow → Type 0
Holds key rows =
    Any (λ row. (conflicts key row ≡ true) × (row.key.expires_at ≡ key.expires_at)) rows

-- The key has expired, or its row is there.
abbrev IsBlocked : ReplayKey → Text → List ReplayRow → Type 0
IsBlocked key now rows = (at_most key.expires_at now ≡ true) ⊎ Holds key rows

at_most_trans : (a b c : Text) → at_most a b ≡ true → at_most b c ≡ true → at_most a c ≡ true
at_most_trans a b c h k = ground (arith, text_lt_negative_trans a b c)

Holds-purge :
    (key : ReplayKey) (now : Text) (rows : List ReplayRow)
    → IsAscii now
    → IsAscii key.expires_at
    → Holds key rows
    → IsBlocked key now (purge now rows)
unfolding purge
Holds-purge key now [] an ak h = elim h [ ]
Holds-purge key now (row ∷ rows) an ak (here (c, same)) =
    elim (Bool-cases (text_lt key.expires_at now)) [
      | inl e ↦ inl (ground (arith, text_lt_asym key.expires_at now e))
      | inr e ↦
          let kept : sql_lt row.key.expires_at now ≡ false =
            rw same (rw (sql_lt_ascii key.expires_at now ak an) e) in
          inr (rw kept (here (c, same)))
    ]
Holds-purge key now (row ∷ rows) an ak (there a) = elim (Holds-purge key now rows an ak a) [
  | inl e ↦ inl e
  | inr b ↦ elim (Bool-cases (sql_lt row.key.expires_at now)) [
    | inl e ↦ inr (rw e b)
    | inr e ↦ inr (rw e (there b))
  ]
]

Holds-consume :
    (key other : ReplayKey) (now : Text) (rows : List ReplayRow)
    → Holds key rows
    → Holds key (consume other now rows).1
unfolding consume
Holds-consume key other now rows h =
    elim (Bool-cases (at_most other.expires_at now || some_of (conflicts other) rows)) [
      | inl e ↦ rw e h
      | inr e ↦ rw e (there h)
    ]

happen-IsBlocked :
    (key : ReplayKey) (from : Text) (event : Event) (rows : List ReplayRow)
    → IsAscii key.expires_at
    → at_most from (time_of event) ≡ true
    → IsAscii (time_of event)
    → IsBlocked key from rows
    → IsBlocked key (time_of event) (happen event rows)
happen-IsBlocked key from event rows ak le at (inl e) =
    inl (at_most_trans key.expires_at from (time_of event) e le)
happen-IsBlocked key from (consuming other now) rows ak le at (inr h) =
    inr (Holds-consume key other now rows h)
happen-IsBlocked key from (purging now) rows ak le at (inr h) = Holds-purge key now rows at ak h

all_happen-IsBlocked :
    (key : ReplayKey) (from to : Text) (events : List Event) (rows : List ReplayRow)
    → IsAscii key.expires_at
    → IsOrdered from events to
    → IsBlocked key from rows
    → IsBlocked key to (all_happen events rows)
unfolding all_happen IsOrdered
all_happen-IsBlocked key from to [] rows ak le (inl e) =
    inl (at_most_trans key.expires_at from to e le)
all_happen-IsBlocked key from to [] rows ak le (inr h) = inr h
all_happen-IsBlocked key from to (event ∷ rest) rows ak (le, at, ordered) h =
    all_happen-IsBlocked key (time_of event) to rest (happen event rows) ak ordered
      (happen-IsBlocked key from event rows ak le at h)

Any-some_of :
    (key : ReplayKey) {rows : List ReplayRow} → Holds key rows → some_of (conflicts key) rows ≡ true
Any-some_of key (here (c, same)) = rw c
Any-some_of key (there a) = ground (arith, Any-some_of key a)

IsBlocked-refused :
    (key : ReplayKey) (now : Text) (rows : List ReplayRow)
    → IsBlocked key now rows
    → (consume key now rows).0 ≡ false
unfolding consume
IsBlocked-refused key now rows (inl e) = ground arith
IsBlocked-refused key now rows (inr h) = ground (arith, Any-some_of key h)

accepted-Holds :
    (first second : ReplayKey) (now : Text) (rows : List ReplayRow)
    → (consume first now rows).0 ≡ true
    → conflicts second (record { key = first; consumed_at = now }) ≡ true
    → second.expires_at ≡ first.expires_at
    → Holds second (consume first now rows).1
unfolding consume
accepted-Holds first second now rows h c same =
    elim (Bool-cases (at_most first.expires_at now || some_of (conflicts first) rows)) [
      | inl e ↦ absurd (let f = rw e at h in cc f)
      | inr e ↦ rw e (here (c, sym same))
    ]

-- Once a replay key is consumed, a key with the same expiry that agrees with it in audience and signing
-- key, and in the request id or the nonce's digest, is refused at every later instant, whatever is
-- consumed and purged in between at instants in order.
pub replay_once :
    (first second : ReplayKey) (now later : Text) (rows : List ReplayRow) (events : List Event)
    → IsAscii second.expires_at
    → (consume first now rows).0 ≡ true
    → conflicts second (record { key = first; consumed_at = now }) ≡ true
    → second.expires_at ≡ first.expires_at
    → IsOrdered now events later
    → (consume second later (all_happen events (consume first now rows).1)).0 ≡ false
replay_once first second now later rows events ascii accepted c same ordered =
    IsBlocked-refused second later (all_happen events (consume first now rows).1) (
      all_happen-IsBlocked second now later events (consume first now rows).1 ascii ordered
        (inr (accepted-Holds first second now rows accepted c same)))
