-- ===== src/Harness/Client.antt =====
-- benchmarks/harness/client.go: how the benchmark's client writes a command and reads a reply.
pub mod Replies
pub mod Protocol
use skiffdb.Prelude.{
  ℕ, ◌+◌, Option, none, some, List, [], ◌∷◌, ◌++◌, Bool, true, false, not, ◌||◌, ltb, ◌==◌,
  if◌then◌else◌, Bytes, length, take, drop, eq_bytes,
}
use skiffdb.Prelude.Int.{ℤ, pos, negsuc, add_int}
use skiffdb.Go.Strconv.{itoa, atoi}
use skiffdb.Resp.Build.{separator}
use skiffdb.Resp.Context.{max_bytes}
use skiffdb.Resp.Parser.{read_bytes, trim_separator}

-- The bytes that `writeCommand` writes, if no write fails.
write_args : List Bytes → Bytes
write_args [] = []
write_args (arg ∷ args) =
    (b'$' ∷ (itoa (pos (length arg)) ++ (separator ++ (arg ++ separator)))) ++ write_args args

unfoldable pub write_command : List Bytes → Bytes
unfolding write_args
write_command args = b'*' ∷ (itoa (pos (length args)) ++ (separator ++ write_args args))

-- A reply as it was read and what follows it; or an error, or a panic of `make`.
pub data Read : Type 0 where
  reply : Bytes → Bytes → Read
  failed panicked : Read

read_tail : Bytes → Bytes → ℕ → ℕ → Read
read_tail line rest n size =
    if ltb max_bytes size
    then panicked
    else if ltb (length rest) size
    then failed
    else if eq_bytes (drop n (take size rest)) separator
    then reply (line ++ take size rest) (drop size rest)
    else failed

-- `make([]byte, n+2)` and what is read into it.
read_sized : Bytes → Bytes → ℕ → ℤ → Read
unfolding read_tail
read_sized line rest n (negsuc m) = panicked
read_sized line rest n (pos size) = read_tail line rest n size

read_length : Bytes → Bytes → Option ℤ → Read
unfolding read_sized
read_length line rest none = failed
read_length line rest (some (negsuc n)) = reply line rest
read_length line rest (some (pos n)) = read_sized line rest n (add_int (pos n) (pos 2))

-- The line without its separator decides. The first byte of a line that is read is there.
read_prefix : Bytes → Bytes → Option Bytes → Read
unfolding read_length
read_prefix line rest none = failed
read_prefix line rest (some []) = failed
read_prefix line rest (some (c ∷ s)) =
    if c == b'+' || c == b'-' || c == b':'
    then reply line rest
    else if c == b'$'
    then read_length line rest (atoi s)
    else failed

read_line : Option (Bytes × Bytes) → Read
unfolding read_prefix
read_line none = failed
read_line (some (line, rest)) =
    if ltb (length line) 3 then failed else read_prefix line rest (trim_separator line)

unfoldable pub read_response : Bytes → Read
unfolding read_line
read_response input = read_line (read_bytes input)

unfoldable pub response_ok : Bytes → Bool
response_ok [] = false
response_ok (c ∷ s) = not (c == b'-')
