-- ===== src/Resp/Parser/Progress.antt =====
-- Termination: the parser always has an outcome, and all but the end of the stream use up input.
use skiffdb.Prelude.{
  ℕ, zero, suc, ◌+◌, ◌≤◌, ◌<◌, ◌≡◌, refl, ◌⊎◌, inl, inr, Option, none, some, [], ◌∷◌, arith, ltb,
  Bool-cases, ◌==◌, Bytes, length, length-drop,
}
use skiffdb.Prelude.Int.{ℤ, pos, negsuc, add_int}
use skiffdb.Resp.Context.{
  ParserState, ParserContext, command_start, bulk_string_len, bulk_string_body, array, Reader, eof,
  Outcome, ok, err, panicked, out_of_fuel, Parser, continue, set_arg, init_cmd_args,
}
use skiffdb.Resp.Parser.Line.{array_loop_more, array_loop_done}
use skiffdb.Resp.Parser.{
  read_bytes, split_line, check_line, read_next_cmd, read_full, read_next_cmd_fixed_length, push,
  read_command_start, read_body, body_or_return, read_bulk_string, arg_count, array_loop,
  read_array, resume, read_command, parse_resp_command,
}

-- At most `n` bytes are left, unless the stream has ended or the server has panicked.
abbrev pub Within : {A : Type 0} → ℕ → Outcome A × Reader → Type 0
Within n (ok a, r) = length r.input ≤ n
Within n (err e, r) = (e ≡ eof) ⊎ (length r.input ≤ n)
Within n (panicked, r) = Unit
Within n (out_of_fuel, r) = ⊥

module _ {A B : Type 0} (n : ℕ) (f : A → Parser B) where
  continue-Within :
      (o : Outcome A) (r : Reader)
      → Within n (o, r)
      → ((a : A) → o ≡ ok a → length r.input ≤ n → Within n (f a r))
      → Within n (continue (o, r) f)
  continue-Within (ok a) r w k = k a refl w
  continue-Within (err e) r w k = w
  continue-Within panicked r w k = tt
  continue-Within out_of_fuel r w k = w

Within-mono :
    {A : Type 0} {m n : ℕ} (o : Outcome A) (r : Reader) → m ≤ n → Within m (o, r) → Within n (o, r)
Within-mono (ok a) r h w = omega arith
Within-mono (err e) r h (inl w) = inl w
Within-mono (err e) r h (inr w) = inr (omega arith)
Within-mono panicked r h w = tt
Within-mono out_of_fuel r h w = w

abbrev Shorter : ℕ → Option (Bytes × Bytes) → Type 0
Shorter n none = Unit
Shorter n (some (line, rest)) = length rest < n

push-Shorter : (n c : ℕ) (o : Option (Bytes × Bytes)) → Shorter n o → Shorter (suc n) (push c o)
unfolding push
push-Shorter n c none h = tt
push-Shorter n c (some (line, rest)) h = omega arith

read_bytes-Shorter : (s : Bytes) → Shorter (length s) (read_bytes s)
unfolding read_bytes
read_bytes-Shorter [] = tt
read_bytes-Shorter (c ∷ s) = elim (Bool-cases (c == 10)) [
  | inl newline ↦ rw newline (omega arith)
  | inr other ↦ rw other (push-Shorter (length s) c (read_bytes s) (read_bytes-Shorter s))
]

split_line-Within :
    (n : ℕ) (o : Option (Bytes × Bytes)) (r : Reader)
    → Shorter (suc n) o
    → Within n (split_line o r)
unfolding split_line check_line
split_line-Within n none r h = inl refl
split_line-Within n (some (cmd, rest)) r h = ground arith

Shorter-mono : {m n : ℕ} (o : Option (Bytes × Bytes)) → m ≤ n → Shorter m o → Shorter n o
Shorter-mono none h w = tt
Shorter-mono (some (line, rest)) h w = omega arith

read_next_cmd-Within : (n : ℕ) (r : Reader) → length r.input ≤ suc n → Within n (read_next_cmd r)
unfolding read_next_cmd
read_next_cmd-Within n r h =
    split_line-Within n (read_bytes r.input) r (Shorter-mono _ h (read_bytes-Shorter r.input))

read_fixed-Within : (n : ℕ) (z : ℤ) (r : Reader) → length r.input ≤ n → Within n (read_full z r)
unfolding read_full check_line
read_fixed-Within n (negsuc z) r h = tt
read_fixed-Within n (pos z) r h = ground (arith, length-drop z r.input)

set_arg-Within : (n : ℕ) (s : Bytes) (r : Reader) → length r.input ≤ n → Within n (set_arg s r)
unfolding set_arg
set_arg-Within n s r h = ground arith

read_body-Within : (n : ℕ) (r : Reader) → length r.input ≤ n → Within n (read_body r)
unfolding read_body read_next_cmd_fixed_length
read_body-Within n r h =
    let p = read_full (add_int r.ctx.bulk_str_len (pos 2)) r in
    continue-Within n set_arg p.0 p.1 (read_fixed-Within n (add_int r.ctx.bulk_str_len (pos 2)) r h)
      (λ s e k. set_arg-Within n s p.1 k)

read_command_start-Within :
    (n : ℕ) (s : Bytes) (r : Reader) → length r.input ≤ n → Within n (read_command_start s r)
unfolding read_command_start init_cmd_args
read_command_start-Within n [] r h = tt
read_command_start-Within n (c ∷ s) r h = ground arith

body_or_return-Within : (n : ℕ) (r : Reader) → length r.input ≤ n → Within n (body_or_return r)
unfolding body_or_return
body_or_return-Within n r h = ground (arith, read_body-Within n r h)

read_bulk_string-Within :
    (n : ℕ) (r : Reader) → length r.input ≤ suc n → Within n (read_bulk_string r)
unfolding read_bulk_string
read_bulk_string-Within n r h =
    let p = read_next_cmd r in
    continue-Within n _ p.0 p.1 (read_next_cmd-Within n r h) λ s e k.
      let q = read_command_start s p.1 in
      continue-Within n _ q.0 q.1 (read_command_start-Within n s p.1 k)
        λ u e' k'. body_or_return-Within n q.1 k'

module _ (f i : ℕ) (c : ParserContext) where
  loop_on_empty : Within 0 (array_loop (suc f) i (record { input = []; ctx = c }))
  unfolding read_bulk_string read_next_cmd
  loop_on_empty = elim (Bool-cases (ltb i (arg_count c.cmd_args))) [
    | inl more ↦ rw (array_loop_more f i [] c more) (inl refl)
    | inr done ↦ rw (array_loop_done f i [] c done) (omega arith)
  ]

array_loop-Within :
    (f i n : ℕ) (s : Bytes) (c : ParserContext)
    → length s ≤ n
    → n < f
    → Within n (array_loop f i (record { input = s; ctx = c }))
array_loop-Within zero i n s c h k = absurd (omega arith)
array_loop-Within (suc f) i n [] c h k =
    let p = array_loop (suc f) i (record { input = []; ctx = c }) in
    Within-mono p.0 p.1 (omega arith) (loop_on_empty f i c)
array_loop-Within (suc f) i zero (b ∷ s) c h k = absurd (omega arith)
array_loop-Within (suc f) i (suc n) (b ∷ s) c h k =
    elim (Bool-cases (ltb i (arg_count c.cmd_args))) [
      | inl more ↦
          let p =
            read_bulk_string
              (record { input = b ∷ s; ctx = record c { state = bulk_string_len } }) in
          let q = continue p (λ _. array_loop f (i + 1)) in
          rw (array_loop_more f i (b ∷ s) c more) (
            Within-mono q.0 q.1 (omega arith) (
              continue-Within n (λ _. array_loop f (i + 1)) p.0 p.1
                (read_bulk_string-Within n _ (omega arith))
                (λ u e k'. array_loop-Within f (i + 1) n p.1.input p.1.ctx k' (omega arith))))
      | inr done ↦ rw (array_loop_done f i (b ∷ s) c done) h
    ]

abbrev Resumable : Outcome (Unit {0}) × Reader → Type 0
Resumable (ok a, r) = (r.ctx.state ≡ bulk_string_body) ⊎ (r.ctx.state ≡ array)
Resumable (err e, r) = Unit
Resumable (panicked, r) = Unit
Resumable (out_of_fuel, r) = Unit

read_command_start-Resumable : (s : Bytes) (r : Reader) → Resumable (read_command_start s r)
unfolding read_command_start init_cmd_args
read_command_start-Resumable [] r = tt
read_command_start-Resumable (c ∷ s) r = ground arith

resume-Within :
    (n : ℕ) (st : ParserState) (r : Reader)
    → length r.input ≤ n
    → (st ≡ bulk_string_body) ⊎ (st ≡ array)
    → Within n (resume st r)
unfolding resume read_array
resume-Within n bulk_string_body r h e = read_body-Within n r h
resume-Within n array r h e =
    let p = array_loop (suc (length r.input)) 0 r in
    Within-mono p.0 p.1 h (
      array_loop-Within (suc (length r.input)) 0 (length r.input) r.input r.ctx (omega arith)
        (omega arith))
resume-Within n command_start r h (inl e) = cc
resume-Within n command_start r h (inr e) = cc
resume-Within n bulk_string_len r h (inl e) = cc
resume-Within n bulk_string_len r h (inr e) = cc

module _ {B : Type 0} (n : ℕ) (f : Unit {0} → Parser B) where
  continue-Resumable :
      (o : Outcome (Unit {0})) (r : Reader)
      → Within n (o, r)
      → Resumable (o, r)
      → (length r.input ≤ n → Resumable (ok tt, r) → Within n (f tt r))
      → Within n (continue (o, r) f)
  continue-Resumable (ok a) r w s k = k w s
  continue-Resumable (err e) r w s k = w
  continue-Resumable panicked r w s k = tt
  continue-Resumable out_of_fuel r w s k = w

-- From the start of a command the parser always has an outcome: its loops end. Unless the stream has
-- ended or the server has panicked, a command uses up one byte of its input or more.
pub parse_resp_command-Within :
    (n : ℕ) (r : Reader)
    → r.ctx.state ≡ command_start
    → length r.input ≤ suc n
    → Within n (parse_resp_command r)
unfolding parse_resp_command read_command
parse_resp_command-Within n r start h =
    let p = read_next_cmd r in
    let run : Within n (read_command r) =
      continue-Within n _ p.0 p.1 (read_next_cmd-Within n r h) λ s e k.
        let q = read_command_start s p.1 in
        continue-Resumable n _ q.0 q.1 (read_command_start-Within n s p.1 k)
          (read_command_start-Resumable s p.1) λ k' st. resume-Within n q.1.ctx.state q.1 k' st in
    simp (start, parse_resp_command) run
