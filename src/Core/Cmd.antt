-- ===== src/Core/Cmd.antt =====
-- src/core/cmd_executor.go: a command, how it is built from a request, and which commands write.
use skiffdb.Prelude.{◌++◌, Option, none, some, List, [], ◌∷◌, Bool, ◌||◌, Bytes, codes, eq_bytes}
use skiffdb.Go.Strings.{to_upper, join}

pub record Cmd : Type 0 where
  pub op : Bytes
  pub args : List Bytes

unfoldable pub is_write_op : Cmd → Bool
is_write_op cmd =
    eq_bytes cmd.op (codes "SET")
    || eq_bytes cmd.op (codes "DEL")
    || eq_bytes cmd.op (codes "INCR")
    || eq_bytes cmd.op (codes "DECR")
    || eq_bytes cmd.op (codes "INCRBY")

-- `none` is the error for a request without arguments; `unicode` is `to_upper`'s.
unfoldable pub build_cmd : (Bytes → Bytes) → List Bytes → Option Cmd
build_cmd unicode [] = none
build_cmd unicode (name ∷ args) = some (record { op = to_upper unicode name; args = args })

-- `ToString`; `%v` prints the arguments with a space between them.
unfoldable pub to_string : Cmd → Bytes
to_string cmd =
    codes "RESP Command: Op="
    ++ (cmd.op ++ (codes ", Args=[" ++ (join (codes " ") cmd.args ++ codes "]")))
