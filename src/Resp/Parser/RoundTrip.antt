-- ===== src/Resp/Parser/RoundTrip.antt =====
-- Reading back what `BuildArray` and a client's command writer print.
use skiffdb.Prelude.{
  ℕ, zero, suc, ◌+◌, ◌≤◌, ◌<◌, ◌≡◌, ◌≢◌, refl, sym, ap, ◌∙◌, some, List, [], ◌∷◌, ◌++◌,
  append_assoc, append-nil, ◌-◌, arith, true, false, ltb, lt→ltb, Bytes, length, length-append, set,
  set-append, replicate, All,
}
use skiffdb.Prelude.Int.{pos}
use skiffdb.Resp.Build.{build_bulk_string, build_elements, build_array}
use skiffdb.Resp.Context.{
  ParserContext, command_start, bulk_string_len, ok, continue, max_bytes, max_strings,
}
use skiffdb.Resp.Parser.{
  read_bulk_string, arg_count, array_loop, read_array, resume, read_command, parse_resp_command,
}
use skiffdb.Resp.Parser.Line.{array_loop_more, array_loop_done, at_input}
use skiffdb.Resp.Parser.Argument.{
  after_arg, array_header_ok, header_ok, read_bulk_string_ok, with_args,
}

-- What the client may send as an argument.
abbrev pub IsArgument : Bytes → Type 0
IsArgument s = (s ≢ []) × (length s + 2 ≤ max_bytes)

module _ (f i : ℕ) (s : Bytes) (c : ParserContext) (args : List Bytes)
    (ha : c.cmd_args ≡ some args) where
  pub array_loop_end : length args ≤ i → array_loop (suc f) i (at_input s c) ≡ (ok tt, at_input s c)
  array_loop_end h =
      let e : ltb i (arg_count c.cmd_args) ≡ false = rw (ha, arg_count) (ground arith) in
      array_loop_done f i s c e

  pub array_loop_step :
      i < length args
      → array_loop (suc f) i (at_input s c)
        ≡ continue
            (read_bulk_string (at_input s (record c { state = bulk_string_len })))
            (λ _. array_loop f (i + 1))
  array_loop_step h =
      let e : ltb i (arg_count c.cmd_args) ≡ true = rw (ha, arg_count) (lt→ltb i _ h) in
      array_loop_more f i s c e

set_next :
    (done todo : List Bytes) (i : ℕ) (s : Bytes)
    → i ≡ length done
    → set (done ++ [] ∷ todo) i s ≡ done ++ s ∷ [] ++ todo
set_next done todo i s e = rw e (set-append done [] todo s ∙ sym (append_assoc done (s ∷ []) todo))

pub elements_append :
    (s : Bytes) (todo : List Bytes) (rest : Bytes)
    → build_elements (s ∷ todo) ++ rest
      ≡ build_bulk_string (some s) ++ (build_elements todo ++ rest)
unfolding build_elements
elements_append s todo rest = append_assoc (build_bulk_string (some s)) (build_elements todo) rest

-- The rounds that read `todo` into the places behind `done`, with `tail` behind those.
pub array_loop_prefix :
    (todo done tail : List Bytes) (f g i : ℕ) (rest : Bytes) (c : ParserContext)
    → f ≡ length todo + g
    → All IsArgument todo
    → c.cmd_args ≡ some (done ++ (replicate (length todo) [] ++ tail))
    → i ≡ length done
    → c.index ≡ pos i
    → (c' : ParserContext) × (array_loop f i (at_input (build_elements todo ++ rest) c)
        ≡ array_loop g (i + length todo) (at_input rest c'))
      × (c'.cmd_args ≡ some (done ++ (todo ++ tail)))
      × (c'.index ≡ pos (i + length todo))
array_loop_prefix [] done tail f g i rest c k all ha e hi =
    let j : i + 0 ≡ i = omega arith in
    let k' : f ≡ g = omega arith in (c, rw (j, k') (unfold build_elements in refl), ha, rw j hi)
array_loop_prefix (s ∷ todo) done tail zero g i rest c k all ha e hi = absurd (omega arith)
array_loop_prefix (s ∷ todo) done tail (suc f) g i rest c k ((ne, fits), all) ha e hi =
    let free : List Bytes = replicate (length todo) [] ++ tail in
    let args : List Bytes = done ++ [] ∷ free in
    let room : i < length args = omega (arith, length-append {0} done ([] ∷ free)) in
    let (c', run, filled, at_index) =
      array_loop_prefix todo (done ++ s ∷ []) tail f g (i + 1) rest (after_arg c args i s)
        (omega arith) all (ap some (set_next done free i s e))
        (omega (arith, length-append {0} done (s ∷ []))) refl in
    let j : i + suc (length todo) ≡ i + 1 + length todo = omega arith in
    (
      c',
      rw j (
          array_loop_step f i _ c _ ha room
          ∙ rw (elements_append s todo rest) (
              rw
                (read_bulk_string_ok (record c { state = bulk_string_len }) _ i s
                  (build_elements todo ++ rest) ha hi room ne fits)
                run)),
      filled ∙ ap some (append_assoc done (s ∷ []) (todo ++ tail)),
      rw j at_index,
    )

pub elements_room :
    (args : List Bytes) (rest : Bytes) → length args < suc (length (build_elements args ++ rest))
unfolding build_elements build_bulk_string
elements_room [] rest = omega arith
elements_room (s ∷ args) rest = omega (
  arith,
  elements_room args rest,
  length-append {0} (build_elements (s ∷ args)) rest,
  length-append {0} (build_bulk_string (some s)) (build_elements args),
  length-append {0} (build_elements args) rest,
)

-- The command's header: the loop over the arguments starts.
module _ (args : List Bytes) (rest : Bytes) (c : ParserContext) (start : c.state ≡ command_start)
    (few : length args ≤ max_strings) where
  pub parse_header :
      parse_resp_command (at_input (build_array (some args) ++ rest) c)
      ≡ array_loop
          (suc (length (build_elements args ++ rest)))
          0
          (at_input (build_elements args ++ rest) (with_args c (length args)))
  unfolding build_array parse_resp_command read_command resume read_array
  parse_header =
      let n : ℕ = length args in
      let s : Bytes = build_elements args ++ rest in
      rw (start, parse_resp_command)
        (rw (append_assoc, append_assoc)
          (rw (header_ok c n b'*' s (omega arith)) (rw (array_header_ok c n s few))))

-- A client's command, read from the start of a command: the arguments are those that were sent, and
-- what follows is left to be read. There are at most `max_strings` of them, each of one byte or more
-- and, with its separator, at most `max_bytes`.
pub parse_resp_command-build_array :
    (args : List Bytes) (rest : Bytes) (c : ParserContext)
    → c.state ≡ command_start
    → length args ≤ max_strings
    → All IsArgument args
    → (c' : ParserContext) × (parse_resp_command (at_input (build_array (some args) ++ rest) c)
        ≡ (ok tt, at_input rest c'))
      × (c'.cmd_args ≡ some args)
parse_resp_command-build_array args rest c start few all =
    let n : ℕ = length args in
    let s : Bytes = build_elements args ++ rest in
    let g : ℕ = length s - n in
    let (c', run, filled, at_index) =
      array_loop_prefix args [] [] (suc (length s)) (suc g) 0 rest (with_args c n)
        (omega (arith, elements_room args rest)) all (rw append-nil) refl refl in
    (
      c',
      parse_header args rest c start few
          ∙ run
          ∙ array_loop_end g (0 + n) rest c' (args ++ []) filled (rw append-nil (omega arith)),
      filled ∙ ap some (append-nil args),
    )
