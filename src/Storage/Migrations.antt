-- ===== src/Storage/Migrations.antt =====
-- The run of the migrations in packages/storage-sqlite/src/sqlite-storage.ts. The statements of a migration
-- make the tables that the other modules take as they are; one that fails is left out.
pub mod Completes
use tesserra.Prelude.{
  Bool, true, false, not, ◌&&◌, List, [], ◌∷◌, ◌++◌, length, ltb, map, sort_by, Text, text_eq,
}
use tesserra.Storage.Engine.{sql_lt}
use tesserra.Storage.Result.{
  Result, ok, ◌>>=◌, ◌>>◌, throw_if, unknown_migrations, migration_mismatch,
}

-- Without its statements.
pub record Migration : Type 0 where
  pub id : Text
  pub checksum : Text

pub record MigrationRow : Type 0 where
  pub id : Text
  pub checksum : Text
  pub applied_at : Text

-- The loop over what has been applied: each row is the migration at its place.
unfoldable pub agrees : List Migration → List MigrationRow → Bool
agrees migrations [] = true
agrees [] (row ∷ rows) = false
agrees (m ∷ migrations) (row ∷ rows) =
    text_eq row.id m.id && text_eq row.checksum m.checksum && agrees migrations rows

-- migrations.slice(applied.length)
unfoldable pub remaining : List Migration → List MigrationRow → List Migration
remaining migrations [] = migrations
remaining [] (row ∷ rows) = []
remaining (m ∷ migrations) (row ∷ rows) = remaining migrations rows

abbrev pub applied_row : Text → Migration → MigrationRow
applied_row now m = record { id = m.id; checksum = m.checksum; applied_at = now }

-- ORDER BY id
abbrev pub by_id : List MigrationRow → List MigrationRow
by_id rows = sort_by (λ left right. not (sql_lt right.id left.id)) rows

-- #configureAndMigrate(), on the table of migrations: the rows in the order of their application
unfoldable pub configure_and_migrate :
    List Migration → Text → List MigrationRow → Result (List MigrationRow)
configure_and_migrate migrations now rows = do
  let applied = by_id rows
  throw_if (ltb (length migrations) (length applied)) unknown_migrations
  throw_if (not (agrees migrations applied)) migration_mismatch
  ok (applied ++ map (applied_row now) (remaining migrations applied))
