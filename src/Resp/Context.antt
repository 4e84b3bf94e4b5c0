-- ===== src/Resp/Context.antt =====
-- src/resp/parser.go: the parser's context, its methods, and the outcomes of a parsing step.
use skiffdb.Prelude.{
  ℕ, ◌+◌, ◌^◌, Option, none, some, List, [], ltb, leb, if◌then◌else◌, Bytes, length, set, replicate,
}
use skiffdb.Prelude.Int.{ℤ, pos, negsuc}

-- The constants `CommandStart`, `BulkStringLen`, `BulkStringBody` and `Array`.
pub data ParserState : Type 0 where
  command_start bulk_string_len bulk_string_body array : ParserState

-- `cmd_args` is `none` for a nil slice.
pub record ParserContext : Type 0 where
  pub cmd_args : Option (List Bytes)
  pub index : ℤ
  pub bulk_str_len : ℤ
  pub state : ParserState

abbrev pub init_parser_context : ParserContext
init_parser_context = record {
  cmd_args = none;
  index = pos 0;
  bulk_str_len = pos 0;
  state = command_start;
}

-- `Reset` assigns every field, whatever the context held.
unfoldable pub reset : ParserContext → ParserContext
reset ctx = record ctx {
  bulk_str_len = negsuc 0;
  cmd_args = none;
  index = negsuc 0;
  state = command_start;
}

-- What the client has sent and the server has not read (then the stream ends), and the context.
pub record Reader : Type 0 where
  pub input : Bytes
  pub ctx : ParserContext

pub data ParseError : Type 0 where
  eof unexpected_eof too_short no_separator bad_length negative_array : ParseError
  no_array array_full unknown_prefix : ParseError

-- `panicked` is a run-time panic. `out_of_fuel` is no outcome of the program.
pub data Outcome (A : Type 0) : Type 0 where
  ok : A → Outcome A
  err : ParseError → Outcome A
  panicked : Outcome A
  out_of_fuel : Outcome A

abbrev pub Parser : Type 0 → Type 0
Parser A = Reader → Outcome A × Reader

abbrev pub continue : {A B : Type 0} → Outcome A × Reader → (A → Parser B) → Outcome B × Reader
continue (ok a, r) f = f a r
continue (err e, r) f = (err e, r)
continue (panicked, r) f = (panicked, r)
continue (out_of_fuel, r) f = (out_of_fuel, r)

infixl 5 ◌>>=◌ ◌>>◌
abbrev pub ◌>>=◌ : {A B : Type 0} → Parser A → (A → Parser B) → Parser B
◌>>=◌ m f r = continue (m r) f

abbrev pub ◌>>◌ : {A B : Type 0} → Parser A → Parser B → Parser B
◌>>◌ m n r = continue (m r) (λ _. n)

-- `make` panics above the address space of linux/amd64: 2^48 bytes, or 2^44 strings of 16 bytes.
abbrev pub max_bytes : ℕ
max_bytes = 2 ^ 48

abbrev pub max_strings : ℕ
max_strings = 2 ^ 44

unfoldable pub init_cmd_args : ℤ → Parser (Unit {0})
init_cmd_args (negsuc n) r = (err negative_array, r)
init_cmd_args (pos n) r = if ltb max_strings n then (panicked, r) else (
  ok tt,
  record r { ctx = record r.ctx { cmd_args = some (replicate n []); index = pos 0 } },
)

store : Option (List Bytes) → ℤ → Bytes → Parser (Unit {0})
store none i arg r = (err no_array, r)
store (some args) (negsuc i) arg r = (panicked, r)
store (some args) (pos i) arg r = if leb (length args) i then (err array_full, r) else (
  ok tt,
  record r { ctx = record r.ctx { cmd_args = some (set args i arg); index = pos (i + 1) } },
)

unfoldable pub set_arg : Bytes → Parser (Unit {0})
unfolding store
set_arg arg r = store r.ctx.cmd_args r.ctx.index arg r
