-- ===== src/Harness/Client/Replies.antt =====
-- The client reads each reply of the server whole, and its writer and the server's printer agree.
use skiffdb.Prelude.{
  subst, ℕ, ◌+◌, ◌≤◌, ◌≡◌, ◌≢◌, ◌⊎◌, inl, inr, refl, ap, ◌∙◌, none, some, List, [], ◌∷◌, ◌++◌,
  append_assoc, false, arith, Bytes, codes, length, length-append, drop, take-append, drop-append,
  All-append, Lacks, eq_bytes_self, ltb,
}
use skiffdb.Prelude.Int.{pos, negsuc, add_int_pos}
use skiffdb.Go.Strconv.{itoa, format_nat, format_nat-IsDigit, atoi-itoa}
use skiffdb.Resp.Build.{
  separator, build_simple_string, build_error_msg, build_bulk_string, build_integer, build_elements,
  build_array,
}
use skiffdb.Resp.Context.{max_bytes}
use skiffdb.Resp.Parser.Line.{read_bytes_line, trim_separator_append}
use skiffdb.Resp.Parser.Argument.{digits-Lacks, bulk_string_append}
use skiffdb.Harness.Client.{
  write_args, write_command, reply, read_tail, read_length, read_prefix, read_response,
}

write_args_lem : (args : List Bytes) → write_args args ≡ build_elements args
unfolding write_args build_elements build_bulk_string
write_args_lem [] = refl
write_args_lem (arg ∷ args) = rw (write_args_lem args)

-- The client writes a command as the server's `BuildArray` prints it.
pub write_command-build_array : (args : List Bytes) → write_command args ≡ build_array (some args)
unfolding write_command build_array
write_command-build_array args = rw (write_args_lem args)

-- The client reads `r` as one reply, and nothing of what follows.
abbrev pub IsWhole : Bytes → Type 0
IsWhole r = (rest : Bytes) → read_response (r ++ rest) ≡ reply r rest

read_response_line :
    (c : ℕ) (s rest : Bytes)
    → Lacks 10 (c ∷ s)
    → read_response (c ∷ (s ++ (13 ∷ 10 ∷ rest)))
      ≡ read_prefix (c ∷ (s ++ separator)) rest (some (c ∷ s))
unfolding read_response
read_response_line c s rest h =
    let long : ltb (length (c ∷ (s ++ separator))) 3 ≡ false =
      ground (arith, length-append s separator) in
    rw (read_bytes_line (c ∷ s) rest h) (rw (trim_separator_append (c ∷ s)) (rw long refl))

read_prefix_line :
    (c : ℕ) (line s rest : Bytes)
    → (c ≡ b'+') ⊎ ((c ≡ b'-') ⊎ (c ≡ b':'))
    → read_prefix line rest (some (c ∷ s)) ≡ reply line rest
unfolding read_prefix
read_prefix_line c line s rest k = ground arith

line-IsWhole :
    (c : ℕ) (s : Bytes)
    → Lacks 10 s
    → (c ≡ b'+') ⊎ ((c ≡ b'-') ⊎ (c ≡ b':'))
    → IsWhole (c ∷ (s ++ separator))
line-IsWhole c s h k rest = rw (append_assoc s separator rest) (
    read_response_line c s rest ((λ e. ground arith), h)
    ∙ read_prefix_line c (c ∷ (s ++ separator)) s rest k)

read_tail_append :
    (line t rest : Bytes) (n : ℕ)
    → length t ≤ max_bytes
    → drop n t ≡ separator
    → read_tail line (t ++ rest) n (length t) ≡ reply (line ++ t) rest
unfolding read_tail
read_tail_append line t rest n fits e =
    ground
      (arith, take-append t rest, drop-append t rest, length-append t rest, eq_bytes_self separator)

read_tail_body :
    (line v rest : Bytes)
    → length v + 2 ≤ max_bytes
    → read_tail line (v ++ (separator ++ rest)) (length v) (length v + 2)
      ≡ reply (line ++ (v ++ separator)) rest
read_tail_body line v rest fits =
    let e : length v + 2 ≡ length (v ++ separator) = omega (arith, length-append v separator) in
    rw (e, ← append_assoc v separator rest)
      (read_tail_append line (v ++ separator) rest (length v)
        (omega (arith, length-append v separator)) (drop-append v separator))

bulk_prefix :
    (v rest : Bytes)
    → length v + 2 ≤ max_bytes
    → read_prefix
        (b'$' ∷ (itoa (pos (length v)) ++ separator))
        (v ++ (separator ++ rest))
        (some (b'$' ∷ itoa (pos (length v))))
      ≡ reply (build_bulk_string (some v)) rest
unfolding read_prefix build_bulk_string
bulk_prefix v rest fits = rw (atoi-itoa (pos (length v)) (omega arith)) (
    rw (add_int_pos (length v) 2 (omega arith)) (
      read_tail_body (b'$' ∷ (itoa (pos (length v)) ++ separator)) v rest fits
      ∙ ap (λ s. reply (b'$' ∷ s) rest)
          (append_assoc (itoa (pos (length v))) separator (v ++ separator))))

pub bulk-IsWhole : (v : Bytes) → length v + 2 ≤ max_bytes → IsWhole (build_bulk_string (some v))
bulk-IsWhole v fits rest = rw (bulk_string_append v rest) (
    read_response_line b'$' (itoa (pos (length v))) (v ++ (separator ++ rest))
      ((λ e. ground arith), digits-Lacks _ (unfold itoa in format_nat-IsDigit (length v)))
    ∙ bulk_prefix v rest fits)

pub null-IsWhole : IsWhole (build_bulk_string none)
unfolding build_bulk_string
null-IsWhole rest =
    read_response_line b'$' (codes "-1") rest (omega arith)
    ∙ (unfold read_prefix itoa in
        ap (λ o. read_length (codes "$-1\r\n") rest o) (atoi-itoa (negsuc 0) (omega arith)))

pub simple-IsWhole : (s : Bytes) → Lacks 10 s → IsWhole (build_simple_string s)
unfolding build_simple_string
simple-IsWhole s h = line-IsWhole b'+' s h (inl refl)

pub error-IsWhole :
    (code msg : Bytes) → Lacks 10 code → Lacks 10 msg → IsWhole (build_error_msg code msg)
unfolding build_error_msg
error-IsWhole code msg h k =
    subst (λ (s : Bytes). IsWhole (b'-' ∷ s)) (append_assoc code (b' ' ∷ msg) separator)
      (line-IsWhole b'-' (code ++ b' ' ∷ msg)
        (All-append (λ c. c ≢ 10) code (b' ' ∷ msg) h ((λ e. ground arith), k)) (inr (inl refl)))

pub integer-IsWhole : (n : ℕ) → IsWhole (build_integer (pos n))
unfolding build_integer itoa
integer-IsWhole n =
    line-IsWhole b':' (format_nat n) (digits-Lacks _ (format_nat-IsDigit n)) (inr (inr refl))
