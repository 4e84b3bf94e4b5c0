-- ===== src/Resp/Parser/Faults.antt =====
-- Inputs that the parser does not treat as its callers expect: empty arguments and negative lengths.
use skiffdb.Prelude.{
  ℕ, zero, suc, ◌+◌, ◌-◌, ◌^◌, ◌≤◌, ◌<◌, ◌≡◌, refl, ap, ◌∙◌, some, List, [], ◌∷◌, ◌++◌,
  append_assoc, arith, Bytes, length, length-append, All, replicate,
}
use skiffdb.Prelude.Int.{pos, negsuc, add_int}
use skiffdb.Go.Strconv.{format_nat, format_nat-IsDigit, itoa, atoi-itoa}
use skiffdb.Resp.Build.{separator, build_bulk_string, build_elements, build_array}
use skiffdb.Resp.Context.{
  ParserContext, command_start, bulk_string_len, bulk_string_body, ok, continue, err, too_short,
  panicked, max_strings,
}
use skiffdb.Resp.Parser.{
  read_next_cmd, read_command_start, body_or_return, read_bulk_string, parse_resp_command,
  array_loop, read_full, read_next_cmd_fixed_length, read_body, resume, read_command,
}
use skiffdb.Resp.Parser.Line.{at_input, read_next_cmd_line}
use skiffdb.Resp.Parser.Argument.{
  digits-Lacks, header_ok, bulk_header_ok, with_body, with_args, bulk_string_append,
}
use skiffdb.Resp.Parser.RoundTrip.{
  IsArgument, array_loop_prefix, array_loop_step, array_loop_end, parse_header, elements_room,
  elements_append,
}

-- An empty bulk string: its header is read, its body is not, and no error is returned.
read_bulk_string_empty :
    (c : ParserContext) (rest : Bytes)
    → read_bulk_string (at_input (build_bulk_string (some []) ++ rest) c)
      ≡ (ok tt, at_input (13 ∷ 10 ∷ rest) (with_body c 0))
unfolding read_bulk_string body_or_return
read_bulk_string_empty c rest = rw (bulk_string_append [] rest) (
    rw (header_ok c 0 b'$' (13 ∷ 10 ∷ rest) (omega arith))
      (rw (bulk_header_ok c 0 (13 ∷ 10 ∷ rest) (omega arith)) refl))

build_elements-append :
    (done more : List Bytes) (rest : Bytes)
    → build_elements (done ++ more) ++ rest ≡ build_elements done ++ (build_elements more ++ rest)
unfolding build_elements
build_elements-append [] more rest = refl
build_elements-append (s ∷ done) more rest =
    elements_append s (done ++ more) rest
    ∙ rw (build_elements-append done more rest) (rw append_assoc)

replicate-append :
    (n m k : ℕ) → k ≡ n + m → replicate {A = Bytes} k [] ≡ replicate n [] ++ replicate m []
replicate-append zero m k e = let e' : k ≡ m = omega arith in rw e'
replicate-append (suc n) m zero e = absurd (omega arith)
replicate-append (suc n) m (suc k) e =
    ap (λ (l : List Bytes). [] ∷ l) (replicate-append n m k (omega arith))

module _ (done more : List Bytes) (rest : Bytes) (c : ParserContext) where
  -- Up to the empty argument.
  up_to_empty :
      c.state ≡ command_start
      → length (done ++ [] ∷ more) ≤ max_strings
      → All IsArgument done
      → (c' : ParserContext) × (g : ℕ) × (parse_resp_command
            (at_input (build_array (some (done ++ [] ∷ more)) ++ rest) c)
          ≡ array_loop
              (suc g)
              (suc (length done))
              (at_input (13 ∷ 10 ∷ (build_elements more ++ rest)) c'))
        × (c'.cmd_args ≡ some (done ++ [] ∷ replicate (length more) []))
  up_to_empty start few all =
      let args : List Bytes = done ++ [] ∷ more in
      let later : Bytes = build_elements more ++ rest in
      let size : ℕ = length (build_elements args ++ rest) in
      let g : ℕ = size - length done - 1 in
      let tail : List Bytes = replicate (suc (length more)) [] in
      let count : length args ≡ length done + suc (length more) =
        length-append {0} done ([] ∷ more) in
      let (c', run, filled, at_index) =
        array_loop_prefix done [] tail (suc size) (suc (suc g)) 0
          (build_bulk_string (some []) ++ later) (with_args c (length args))
          (omega (arith, elements_room args rest, count)) all
          (ap some (replicate-append (length done) (suc (length more)) (length args) count)) refl
          refl in
      let c'' : ParserContext = with_body (record c' { state = bulk_string_len }) 0 in
      let i : 0 + length done + 1 ≡ suc (length done) = omega arith in
      let split : build_elements args ++ rest
          ≡ build_elements done ++ (build_bulk_string (some []) ++ later) =
        build_elements-append done ([] ∷ more) rest
        ∙ ap (λ (s : Bytes). build_elements done ++ s) (elements_append [] more rest) in
      (
        c'',
        g,
        parse_header args rest c start few
            ∙ ap (λ (s : Bytes). array_loop (suc size) 0 (at_input s (with_args c (length args))))
                split
            ∙ run
            ∙ array_loop_step (suc g) (0 + length done) (build_bulk_string (some []) ++ later) c'
                (done ++ tail) filled (omega (arith, length-append {0} done tail))
            ∙ ap (λ p. continue p (λ _. array_loop (suc g) (0 + length done + 1)))
                (read_bulk_string_empty (record c' { state = bulk_string_len }) later)
            ∙ ap (λ j. array_loop (suc g) j (at_input (13 ∷ 10 ∷ later) c'')) i,
        filled,
      )

-- A command of at most `max_strings` arguments whose last is empty, the others not, is accepted with
-- that argument, but the separator behind it stays unread: the next command starts with its two bytes.
pub parse-empty_last :
    (done : List Bytes) (rest : Bytes) (c : ParserContext)
    → c.state ≡ command_start
    → length (done ++ [] ∷ []) ≤ max_strings
    → All IsArgument done
    → (c' : ParserContext) × (parse_resp_command
          (at_input (build_array (some (done ++ [] ∷ [])) ++ rest) c)
        ≡ (ok tt, at_input (13 ∷ 10 ∷ rest) c'))
      × (c'.cmd_args ≡ some (done ++ [] ∷ []))
unfolding build_elements
parse-empty_last done rest c start few all =
    let (c', g, run, filled) = up_to_empty done [] rest c start few all in
    let last : length (done ++ [] ∷ []) ≤ suc (length done) =
      omega (arith, length-append {0} done ([] ∷ [])) in
    (
      c',
      run ∙ array_loop_end g (suc (length done)) (13 ∷ 10 ∷ rest) c' (done ++ [] ∷ []) filled last,
      filled,
    )

-- A command with an empty argument before another one is refused: the separator behind the empty
-- argument is read as the header of the next one, and is too short. The arguments behind it stay
-- unread, and are read as commands of their own.
pub parse-empty_inner :
    (done more : List Bytes) (s rest : Bytes) (c : ParserContext)
    → c.state ≡ command_start
    → length (done ++ [] ∷ s ∷ more) ≤ max_strings
    → All IsArgument done
    → (c' : ParserContext) × (parse_resp_command
          (at_input (build_array (some (done ++ [] ∷ s ∷ more)) ++ rest) c)
        ≡ (err too_short, at_input (build_elements (s ∷ more) ++ rest) c'))
unfolding read_bulk_string read_next_cmd
parse-empty_inner done more s rest c start few all =
    let (c', g, run, filled) = up_to_empty done (s ∷ more) rest c start few all in
    let free : List Bytes = [] ∷ replicate (length more) [] in
    let room : suc (length done) < length (done ++ [] ∷ free) =
      omega (arith, length-append {0} done ([] ∷ free)) in
    let later : Bytes = build_elements (s ∷ more) ++ rest in
    (
      record c' { state = bulk_string_len },
      run
          ∙ array_loop_step g (suc (length done)) (13 ∷ 10 ∷ later) c' (done ++ [] ∷ free) filled
              room,
    )

module _ (n : ℕ) (rest : Bytes) (c : ParserContext) where
  negative_line :
      read_next_cmd (at_input (b'$' ∷ (itoa (negsuc n) ++ (separator ++ rest))) c)
      ≡ (ok (b'$' ∷ itoa (negsuc n)), at_input rest c)
  unfolding itoa
  negative_line =
      read_next_cmd_line (b'$' ∷ b'-' ∷ format_nat (suc n)) rest c
        (omega arith, (omega arith, digits-Lacks _ (format_nat-IsDigit (suc n)))) (omega arith)

  negative_header :
      n < 2 ^ 63
      → read_command_start (b'$' ∷ itoa (negsuc n)) (at_input rest c)
        ≡ (ok tt, at_input rest (record c { bulk_str_len = negsuc n; state = bulk_string_body }))
  unfolding read_command_start
  negative_header h = rw (atoi-itoa (negsuc n) (omega arith))

  -- A client that sends `$-k` as a command, with k above 2, makes the server panic: the length of the
  -- buffer that is made for the body, k less 2, is negative.
  pub parse-negative_length :
      c.state ≡ command_start
      → 2 ≤ n
      → n < 2 ^ 63
      → (c' : ParserContext) × (parse_resp_command
            (at_input (b'$' ∷ (itoa (negsuc n) ++ (separator ++ rest))) c)
          ≡ (panicked, at_input rest c'))
  unfolding parse_resp_command read_command read_body resume read_next_cmd_fixed_length
  parse-negative_length start least most =
      let sum : add_int (negsuc n) (pos 2) ≡ negsuc (n - 2) = unfold add_int in ground arith in
      (
        record c { bulk_str_len = negsuc n; state = bulk_string_body },
        rw (start, parse_resp_command)
            (rw negative_line (rw (negative_header most) (rw sum (unfold read_full in refl)))),
      )
