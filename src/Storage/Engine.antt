-- ===== src/Storage/Engine.antt =====
-- What the storage takes from SQLite and Node: the texts of the JSON columns, the order of julianday,
-- and the printed clock. The tables themselves are lists of rows, and the statements are modelled.
use tesserra.Prelude.{Bool, Option, Text, text_lt}
use tesserra.Prelude.Int.{ℤ}
use tesserra.Json.{Json}
use tesserra.Runtime.{Runtime}
use tesserra.Protocol.Canonical.{utf8}
use tesserra.Storage.Result.{Result, expect, corrupt}

pub record Engine : Type 0 where
  pub runtime : Runtime
  -- JSON.stringify(value)
  pub stringify : Json → Text
  -- JSON.parse(text); `none` where it throws
  pub parse : Text → Option Json
  -- julianday(left) <= julianday(right); false where one is NULL
  pub no_later : Text → Text → Bool
  -- date.toISOString()
  pub iso : ℤ → Text

-- left < right in a statement: BINARY order, of the texts' UTF-8 bytes
unfoldable pub sql_lt : Text → Text → Bool
sql_lt left right = text_lt (utf8 left) (utf8 right)

-- parseJson(row.column)
unfoldable pub parse_json : Engine → Text → Result Json
parse_json e s = expect (e.parse s) corrupt
