-- ===== src/Resp/Parser.antt =====
-- src/resp/parser.go: the command parser, a state machine over a buffered reader.
pub mod Line
pub mod Argument
pub mod RoundTrip
pub mod Progress
pub mod Faults
use skiffdb.Prelude.{
  ℕ, zero, suc, ◌+◌, Option, none, some, List, [], ◌∷◌, Bool, true, false, ◌||◌, ltb, ◌==◌,
  if◌then◌else◌, Bytes, length, take, drop, is_empty,
}
use skiffdb.Prelude.Int.{ℤ, pos, negsuc, add_int}
use skiffdb.Go.Strconv.{atoi}
use skiffdb.Resp.Context.{
  ParserState, command_start, bulk_string_len, bulk_string_body, array, ParserContext, Reader,
  ParseError, eof, unexpected_eof, too_short, no_separator, bad_length, unknown_prefix, Outcome, ok,
  err, panicked, out_of_fuel, Parser, continue, ◌>>=◌, ◌>>◌, max_bytes, init_cmd_args, set_arg,
}

-- `reader.ReadBytes('\n')`: the bytes up to the first newline, and what follows.
push : ℕ → Option (Bytes × Bytes) → Option (Bytes × Bytes)
push c none = none
push c (some (line, rest)) = some (c ∷ line, rest)

pub read_bytes : Bytes → Option (Bytes × Bytes)
unfolding push
read_bytes [] = none
read_bytes (c ∷ s) = let more = push c (read_bytes s) in if c == 10 then some (c ∷ [], s) else more

-- `bytes.HasSuffix` and `bytes.TrimSuffix` with the separator, in one pass.
cons_some : ℕ → Option Bytes → Option Bytes
cons_some c none = none
cons_some c (some s) = some (c ∷ s)

pub trim_separator : Bytes → Option Bytes
unfolding cons_some
trim_separator [] = none
trim_separator (c ∷ []) = none
trim_separator (c ∷ d ∷ []) = if c == 13 then (if d == 10 then some [] else none) else none
trim_separator (c ∷ d ∷ e ∷ s) = cons_some c (trim_separator (d ∷ e ∷ s))

abbrev or_no_separator : Option Bytes → Outcome Bytes
or_no_separator none = err no_separator
or_no_separator (some s) = ok s

pub check_line : ℕ → Bytes → Outcome Bytes
unfolding trim_separator
check_line least cmd =
    if ltb (length cmd) least then err too_short else or_no_separator (trim_separator cmd)

-- At the end of the stream `ReadBytes` has read all that was left.
split_line : Option (Bytes × Bytes) → Parser Bytes
split_line none r = (err eof, record r { input = [] })
split_line (some (cmd, rest)) r = (check_line 4 cmd, record r { input = rest })

unfoldable pub read_next_cmd : Parser Bytes
unfolding read_bytes check_line split_line
read_next_cmd r = split_line (read_bytes r.input) r

-- `make([]byte, n)` and `io.ReadFull`.
read_full : ℤ → Parser Bytes
unfolding check_line
read_full (negsuc n) r = (panicked, r)
read_full (pos n) r =
    if ltb max_bytes n
    then (panicked, r)
    else if ltb (length r.input) n
    then (err (if is_empty r.input then eof else unexpected_eof), record r { input = [] })
    else (check_line 2 (take n r.input), record r { input = drop n r.input })

unfoldable pub read_next_cmd_fixed_length : ℤ → Parser Bytes
unfolding read_full
read_next_cmd_fixed_length n = read_full (add_int n (pos 2))

-- `getLengthInHeader` and the two cases of `readCommandStart`.
bulk_header : Option ℤ → Parser (Unit {0})
bulk_header none r = (err bad_length, r)
bulk_header (some n) r =
    (ok tt, record r { ctx = record r.ctx { bulk_str_len = n; state = bulk_string_body } })

set_state : ParserState → Parser (Unit {0})
set_state s r = (ok tt, record r { ctx = record r.ctx { state = s } })

array_header : Option ℤ → Parser (Unit {0})
unfolding init_cmd_args set_state
array_header none r = (err bad_length, r)
array_header (some n) r = (init_cmd_args n >> set_state array) r

unfoldable pub read_command_start : Bytes → Parser (Unit {0})
unfolding bulk_header array_header
read_command_start [] r = (panicked, r)
read_command_start (c ∷ s) r =
    if c == b'$'
    then bulk_header (atoi s) r
    else if c == b'*'
    then array_header (atoi s) r
    else (err unknown_prefix, r)

-- The state `BulkStringBody`.
unfoldable pub read_body : Parser (Unit {0})
read_body r = (read_next_cmd_fixed_length r.ctx.bulk_str_len >>= set_arg) r

not_body : ParserState → Bool
not_body bulk_string_body = false
not_body command_start = true
not_body bulk_string_len = true
not_body array = true

-- `ctx.bulkStrLen <= 0 || ctx.state != BulkStringBody`.
no_body : ParserContext → Bool
unfolding not_body
no_body ctx = elim ctx.bulk_str_len [ negsuc n ↦ true | pos n ↦ n == 0 ] || not_body ctx.state

-- The state `BulkStringLen`: where no body is to follow, the error returned is nil.
unfoldable pub body_or_return : Parser (Unit {0})
unfolding no_body
body_or_return r = if no_body r.ctx then (ok tt, r) else read_body r

unfoldable pub read_bulk_string : Parser (Unit {0})
read_bulk_string = do cmd ← read_next_cmd; read_command_start cmd; body_or_return

-- `len(ctx.CmdArgs)`, read anew in each round.
abbrev pub arg_count : Option (List Bytes) → ℕ
arg_count none = 0
arg_count (some args) = length args

-- The state `Array`. A round that goes on reads a byte or more, so the length of the input is enough.
unfoldable pub array_loop : ℕ → ℕ → Parser (Unit {0})
unfolding set_state
array_loop zero i r = (out_of_fuel, r)
array_loop (suc f) i r = elim (ltb i (arg_count r.ctx.cmd_args)) [
  | true ↦ (set_state bulk_string_len >> read_bulk_string >> array_loop f (i + 1)) r
  | false ↦ (ok tt, r)
]

unfoldable pub read_array : Parser (Unit {0})
read_array r = array_loop (suc (length r.input)) 0 r

-- The call of `ParseRESPCommand` after a header, which has set one of two states.
unfoldable pub resume : ParserState → Parser (Unit {0})
resume bulk_string_body r = read_body r
resume array r = read_array r
resume command_start r = (out_of_fuel, r)
resume bulk_string_len r = (out_of_fuel, r)

unfoldable pub read_command : Parser (Unit {0})
read_command = do cmd ← read_next_cmd; read_command_start cmd; λ r. resume r.ctx.state r

unfoldable pub parse_resp_command : Parser (Unit {0})
parse_resp_command r = elim r.ctx.state [
  | command_start ↦ read_command r
  | bulk_string_len ↦ read_bulk_string r
  | bulk_string_body ↦ read_body r
  | array ↦ read_array r
]
