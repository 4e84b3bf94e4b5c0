-- ===== src/Resp/Parser/Argument.antt =====
-- One argument of a command, as `BuildBulkString` prints it, and the headers of a command.
use skiffdb.Prelude.{
  ℕ, suc, ◌+◌, ◌^◌, ◌≤◌, ◌<◌, ◌≡◌, ◌≢◌, refl, some, List, [], ◌∷◌, ◌++◌, append_assoc, arith, Bytes,
  length, set, replicate, All, Lacks,
}
use skiffdb.Prelude.Int.{pos}
use skiffdb.Go.Strconv.{itoa, format_nat, atoi-itoa, IsDigit, format_nat-IsDigit, format_nat-ne-nil}
use skiffdb.Resp.Build.{separator, build_bulk_string}
use skiffdb.Resp.Context.{
  ParserContext, bulk_string_body, array, ok, max_bytes, max_strings, set_arg, init_cmd_args,
}
use skiffdb.Resp.Parser.{
  read_next_cmd, read_command_start, read_body, body_or_return, read_bulk_string,
}
use skiffdb.Resp.Parser.Line.{at_input, read_next_cmd_line, read_next_cmd_fixed_length_body}

pub digits-Lacks : (s : Bytes) → All IsDigit s → Lacks 10 s
digits-Lacks [] h = tt
digits-Lacks (c ∷ s) (hc, h) = (ground arith, digits-Lacks s h)

length-pos : (s : Bytes) → s ≢ [] → 1 ≤ length s
length-pos [] h = absurd (h refl)
length-pos (c ∷ s) h = omega arith

module _ (c : ParserContext) (n : ℕ) where
  pub header_ok :
      (b : ℕ) (rest : Bytes)
      → b ≢ 10
      → read_next_cmd (at_input (b ∷ (itoa (pos n) ++ (separator ++ rest))) c)
        ≡ (ok (b ∷ itoa (pos n)), at_input rest c)
  unfolding itoa
  header_ok b rest h =
      read_next_cmd_line (b ∷ format_nat n) rest c (h, digits-Lacks _ (format_nat-IsDigit n))
        (omega (arith, length-pos _ (format_nat-ne-nil n)))

  abbrev pub with_body : ParserContext
  with_body = record c { bulk_str_len = pos n; state = bulk_string_body }

  pub bulk_header_ok :
      (rest : Bytes)
      → n < 2 ^ 63
      → read_command_start (b'$' ∷ itoa (pos n)) (at_input rest c)
        ≡ (ok tt, at_input rest with_body)
  unfolding read_command_start
  bulk_header_ok rest h = rw (atoi-itoa (pos n) (omega arith))

  abbrev pub with_args : ParserContext
  with_args = record c { cmd_args = some (replicate n []); index = pos 0; state = array }

  pub array_header_ok :
      (rest : Bytes)
      → n ≤ max_strings
      → read_command_start (b'*' ∷ itoa (pos n)) (at_input rest c)
        ≡ (ok tt, at_input rest with_args)
  unfolding read_command_start init_cmd_args
  array_header_ok rest h = rw (atoi-itoa (pos n) (omega arith)) (ground arith)

pub set_arg_ok :
    (c : ParserContext) (args : List Bytes) (i : ℕ) (s rest : Bytes)
    → c.cmd_args ≡ some args
    → c.index ≡ pos i
    → i < length args
    → set_arg s (at_input rest c)
      ≡ (ok tt, at_input rest (record c { cmd_args = some (set args i s); index = pos (i + 1) }))
unfolding set_arg
set_arg_ok c args i s rest ha hi h = rw (ha, set_arg) (rw (hi, set_arg) (ground arith))

pub bulk_string_append :
    (s rest : Bytes)
    → build_bulk_string (some s) ++ rest
      ≡ b'$' ∷ (itoa (pos (length s)) ++ (separator ++ (s ++ (separator ++ rest))))
unfolding build_bulk_string
bulk_string_append s rest = simp append_assoc

pub body_or_return_ok :
    (c : ParserContext) (n : ℕ) (t : Bytes)
    → body_or_return (at_input t (with_body c (suc n)))
      ≡ read_body (at_input t (with_body c (suc n)))
unfolding body_or_return
body_or_return_ok c n t = ground arith

abbrev pub after_arg : ParserContext → List Bytes → ℕ → Bytes → ParserContext
after_arg c args i s = record c {
  cmd_args = some (set args i s);
  index = pos (i + 1);
  bulk_str_len = pos (length s);
  state = bulk_string_body;
}

-- One argument: its header, its body, and the write into the array.
pub read_bulk_string_ok :
    (c : ParserContext) (args : List Bytes) (i : ℕ) (s rest : Bytes)
    → c.cmd_args ≡ some args
    → c.index ≡ pos i
    → i < length args
    → s ≢ []
    → length s + 2 ≤ max_bytes
    → read_bulk_string (at_input (build_bulk_string (some s) ++ rest) c)
      ≡ (ok tt, at_input rest (after_arg c args i s))
unfolding read_bulk_string read_body
read_bulk_string_ok c args i [] rest ha hi h ne fits = absurd (ne refl)
read_bulk_string_ok c args i (b ∷ s) rest ha hi h ne fits =
    let n : ℕ = length (b ∷ s) in
    rw (bulk_string_append (b ∷ s) rest) (
      rw (header_ok c n b'$' ((b ∷ s) ++ (separator ++ rest)) (omega arith)) (
        rw (bulk_header_ok c n ((b ∷ s) ++ (separator ++ rest)) (omega arith)) (
          rw (body_or_return_ok c (length s) ((b ∷ s) ++ (separator ++ rest))) (
            rw (read_next_cmd_fixed_length_body (b ∷ s) rest (with_body c n) fits)
              (set_arg_ok (with_body c n) args i (b ∷ s) rest ha hi h)))))
