-- ===== src/Resp/Parser/Line.antt =====
-- What the reader does on well-formed input: a header line, and a counted body.
use skiffdb.Prelude.{
  suc, ltb, true, false, ℕ, ◌+◌, ◌≤◌, ◌≡◌, refl, ◌∙◌, some, [], ◌∷◌, ◌++◌, append_assoc, arith,
  Bytes, length, length-append, take-append, drop-append, Lacks,
}
use skiffdb.Prelude.Int.{pos, add_int_pos}
use skiffdb.Resp.Build.{separator}
use skiffdb.Resp.Context.{
  command_start, err, eof, Reader, ParserContext, ok, max_bytes, bulk_string_len, continue,
}
use skiffdb.Resp.Parser.{
  parse_resp_command, read_command, arg_count, array_loop, read_bulk_string, read_bytes,
  trim_separator, check_line, read_full, read_next_cmd, read_next_cmd_fixed_length,
}

abbrev pub at_input : Bytes → ParserContext → Reader
at_input s c = record { input = s; ctx = c }

pub read_bytes_line :
    (s rest : Bytes) → Lacks 10 s → read_bytes (s ++ 13 ∷ 10 ∷ rest) ≡ some (s ++ separator, rest)
unfolding read_bytes
read_bytes_line [] rest h = refl
read_bytes_line (c ∷ s) rest (hc, h) = ground (arith, read_bytes_line s rest h)

pub trim_separator_append : (s : Bytes) → trim_separator (s ++ separator) ≡ some s
unfolding trim_separator
trim_separator_append [] = refl
trim_separator_append (c ∷ []) = refl
trim_separator_append (c ∷ d ∷ []) = refl
trim_separator_append (c ∷ d ∷ e ∷ s) = rw (trim_separator_append (d ∷ e ∷ s))

check_line_append : (n : ℕ) (s : Bytes) → n ≤ length s + 2 → check_line n (s ++ separator) ≡ ok s
unfolding check_line
check_line_append n s h = rw (trim_separator_append s) (ground (arith, length-append s separator))

-- A line without a newline, of two bytes or more, is read up to its separator.
pub read_next_cmd_line :
    (s rest : Bytes) (c : ParserContext)
    → Lacks 10 s
    → 2 ≤ length s
    → read_next_cmd (at_input (s ++ 13 ∷ 10 ∷ rest) c) ≡ (ok s, at_input rest c)
unfolding read_next_cmd
read_next_cmd_line s rest c h n =
    rw (read_bytes_line s rest h) (rw (check_line_append 4 s (omega arith)))

read_full_append :
    (t rest : Bytes) (c : ParserContext)
    → length t ≤ max_bytes
    → read_full (pos (length t)) (at_input (t ++ rest) c) ≡ (check_line 2 t, at_input rest c)
unfolding read_full
read_full_append t rest c h =
    ground (arith, take-append t rest, drop-append t rest, length-append t rest)

-- A body is read by its length, whatever bytes it holds.
pub read_next_cmd_fixed_length_body :
    (s rest : Bytes) (c : ParserContext)
    → length s + 2 ≤ max_bytes
    → read_next_cmd_fixed_length (pos (length s)) (at_input (s ++ 13 ∷ 10 ∷ rest) c)
      ≡ (ok s, at_input rest c)
unfolding read_next_cmd_fixed_length
read_next_cmd_fixed_length_body s rest c fits = rw (add_int_pos (length s) 2 (omega arith)) (
    let e : length s + 2 ≡ length (s ++ separator) = omega (arith, length-append s separator) in
    rw (e, ← append_assoc s separator rest)
      (read_full_append (s ++ separator) rest c (omega (arith, length-append s separator))
        ∙ rw (check_line_append 2 s (omega arith))))

-- The test of the loop over the arguments.
module _ (f i : ℕ) (s : Bytes) (c : ParserContext) where
  pub array_loop_more :
      ltb i (arg_count c.cmd_args) ≡ true
      → array_loop (suc f) i (at_input s c)
        ≡ continue
            (read_bulk_string (at_input s (record c { state = bulk_string_len })))
            (λ _. array_loop f (i + 1))
  unfolding array_loop
  array_loop_more e = rw (e, array_loop)

  pub array_loop_done :
      ltb i (arg_count c.cmd_args) ≡ false
      → array_loop (suc f) i (at_input s c) ≡ (ok tt, at_input s c)
  unfolding array_loop
  array_loop_done e = rw (e, array_loop)

pub parse_start : (r : Reader) → r.ctx.state ≡ command_start → parse_resp_command r ≡ read_command r
unfolding parse_resp_command
parse_start r start = simp (start, parse_resp_command)

-- At the end of the stream.
pub parse_at_eof :
    (c : ParserContext)
    → c.state ≡ command_start
    → parse_resp_command (at_input [] c) ≡ (err eof, at_input [] c)
unfolding read_command read_next_cmd
parse_at_eof c start = parse_start (at_input [] c) start
