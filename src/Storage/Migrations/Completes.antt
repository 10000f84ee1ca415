-- ===== src/Storage/Migrations/Completes.antt =====
-- What a run of the migrations leaves behind.
use tesserra.Prelude.{
  ◌≡◌, refl, ap, true, List, [], ◌∷◌, ◌++◌, map, Text, text_eq_sound, &&-eq-true, not-eq-false,
}
use tesserra.Storage.Migrations.{
  Migration, MigrationRow, agrees, remaining, applied_row, by_id, configure_and_migrate,
}
use tesserra.Storage.Result.{ok, Ensures, done, Ensures-ok, Ensures-then, Ensures-throw_if}

-- What a row of the table of migrations and a migration have in common.
abbrev pub name_of : Migration → Text × Text
name_of m = (m.id, m.checksum)

abbrev pub name_in : MigrationRow → Text × Text
name_in row = (row.id, row.checksum)

applied-map :
    (now : Text) (migrations : List Migration)
    → map name_in (map (applied_row now) migrations) ≡ map name_of migrations
applied-map now [] = refl
applied-map now (m ∷ migrations) = ap (λ rest. name_of m ∷ rest) (applied-map now migrations)

agrees-completes :
    (now : Text) (migrations : List Migration) (rows : List MigrationRow)
    → agrees migrations rows ≡ true
    → map name_in (rows ++ map (applied_row now) (remaining migrations rows))
      ≡ map name_of migrations
unfolding agrees remaining
agrees-completes now migrations [] h = applied-map now migrations
agrees-completes now [] (row ∷ rows) h = cc h
agrees-completes now (m ∷ migrations) (row ∷ rows) h =
    let (both, rest) = &&-eq-true _ _ h in
    let (id, checksum) = &&-eq-true _ _ both in
    let same = text_eq_sound row.id m.id id in
    let sum = text_eq_sound row.checksum m.checksum checksum in
    let whole = agrees-completes now migrations rows rest in rw (same, sum, whole) refl

configure-completes :
    (migrations : List Migration) (now : Text) (rows : List MigrationRow)
    → Ensures
        (λ out. map name_in out ≡ map name_of migrations)
        (configure_and_migrate migrations now rows)
unfolding configure_and_migrate
configure-completes migrations now rows = Ensures-then (Ensures-throw_if _ _) (λ few.
    Ensures-then (Ensures-throw_if _ _)
      (λ agree. done (agrees-completes now migrations (by_id rows) (not-eq-false _ agree))))

-- Where the migrations run without an error, the table lists each of them once, in order and with its
-- checksum, and nothing else: what was there before was a beginning of them.
pub migrations_complete :
    (migrations : List Migration) (now : Text) (rows out : List MigrationRow)
    → configure_and_migrate migrations now rows ≡ ok out
    → map name_in out ≡ map name_of migrations
migrations_complete migrations now rows out h =
    Ensures-ok (configure-completes migrations now rows) h
