-- ===== src/Core/Calls/Trace.antt =====
-- What a trace of calls leaves open, function by function.
use skiffdb.Prelude.{
  not, ◌≢◌, List, [], ◌∷◌, ◌++◌, ◌≡◌, refl, ap, ◌∙◌, Bool, true, false, All, All-append,
  if◌then◌else◌,
}
use skiffdb.Core.Calls.{
  Op, make_dir, chmod_dir, open_store, chmod_store, open_snapshots, chmod_snapshots,
  check_snapshots, inspect_state, resolve_address, new_transport, new_raft, bootstrap_cluster,
  join_cluster, wait_for_configuration, persist_identity, publish, shutdown_raft, close_transport,
  close_store, Call, call, attempt, and_then,
}

-- What is open: the store, the transport, Raft.
pub record Held : Type 0 where
  pub store : Bool
  pub transport : Bool
  pub raft : Bool

abbrev pub all_held : Bool → Held
all_held b = record { store = b; transport = b; raft = b }

-- A call that opens something does so without an error only; one that closes it is made once.
abbrev pub move : Held → Call → Held
move h (call open_store ok) = record h { store = ok }
move h (call new_transport ok) = record h { transport = ok }
move h (call new_raft ok) = record h { raft = ok }
move h (call close_store ok) = record h { store = false }
move h (call close_transport ok) = record h { transport = false }
move h (call shutdown_raft ok) = record h { raft = false }
move h (call make_dir ok) = h
move h (call chmod_dir ok) = h
move h (call chmod_store ok) = h
move h (call open_snapshots ok) = h
move h (call chmod_snapshots ok) = h
move h (call check_snapshots ok) = h
move h (call inspect_state ok) = h
move h (call resolve_address ok) = h
move h (call (bootstrap_cluster servers) ok) = h
move h (call join_cluster ok) = h
move h (call wait_for_configuration ok) = h
move h (call persist_identity ok) = h
move h (call publish ok) = h

abbrev pub left_held : Held → List Call → Held
left_held h [] = h
left_held h (c ∷ rest) = left_held (move h c) rest

pub left_held-append :
    (h : Held) (xs ys : List Call) → left_held h (xs ++ ys) ≡ left_held (left_held h xs) ys
left_held-append h [] ys = refl
left_held-append h (c ∷ xs) ys = left_held-append (move h c) xs ys

-- The calls that only open, close or inspect.
abbrev pub is_plain : Op → Bool
is_plain make_dir = true
is_plain chmod_dir = true
is_plain open_store = true
is_plain chmod_store = true
is_plain open_snapshots = true
is_plain chmod_snapshots = true
is_plain check_snapshots = true
is_plain inspect_state = true
is_plain resolve_address = true
is_plain new_transport = true
is_plain new_raft = true
is_plain wait_for_configuration = true
is_plain publish = true
is_plain shutdown_raft = true
is_plain close_transport = true
is_plain close_store = true
is_plain (bootstrap_cluster servers) = false
is_plain join_cluster = false
is_plain persist_identity = false

-- A property of calls that is no condition on the plain ones.
abbrev pub FreeOfPlain : (Call → Type 0) → Type 0
FreeOfPlain P = (op : Op) (ok : Bool) → is_plain op ≡ true → P (call op ok)

-- The calls of a function's trace are all allowed, and leave open what the result says.
pub record Safe {A : Type 0} (P : Call → Type 0) (held : Held) (after : A → Held)
    (r : A × List Call) : Type 0 where
  pub kept : left_held held r.1 ≡ after r.0
  pub allowed : All P r.1

module _ {A : Type 0} (P : Call → Type 0) (after : A → Held) where
  pub Safe-if :
      (held : Held) (b : Bool) (x y : A × List Call)
      → (b ≡ true → Safe P held after x)
      → (b ≡ false → Safe P held after y)
      → Safe P held after (if b then x else y)
  Safe-if held true x y hx hy = hx refl
  Safe-if held false x y hx hy = hy refl

  pub attempt-Safe :
      (held : Held) (b : Bool) (op : Op) (x y : A × List Call)
      → P (call op true)
      → P (call op false)
      → (b ≡ true → Safe P (move held (call op true)) after x)
      → (b ≡ false → Safe P (move held (call op false)) after y)
      → Safe P held after (attempt b op x y)
  unfolding attempt
  attempt-Safe held true op x y p q hx hy =
      let s = hx refl in record { kept = s.kept; allowed = (p, s.allowed) }
  attempt-Safe held false op x y p q hx hy =
      let s = hy refl in record { kept = s.kept; allowed = (q, s.allowed) }

pub and_then-Safe :
    {A B : Type 0} (P : Call → Type 0) (held : Held) (mid : A → Held) (after : B → Held)
    (r : A × List Call) (next : A → B × List Call)
    → Safe P held mid r
    → Safe P (mid r.0) after (next r.0)
    → Safe P held after (and_then r next)
unfolding and_then
and_then-Safe P held mid after r next s t = record {
  kept =
      left_held-append held r.1 (next r.0).1 ∙ ap (λ h. left_held h (next r.0).1) s.kept ∙ t.kept;
  allowed = All-append P r.1 (next r.0).1 s.allowed t.allowed;
}

module _ {A : Type 0} (Q : A → Type 0) where
  pub if_cases :
      (b : Bool) (x y : A × List Call)
      → (b ≡ true → Q x.0)
      → (b ≡ false → Q y.0)
      → Q (if b then x else y).0
  if_cases true x y p q = p refl
  if_cases false x y p q = q refl

  pub attempt_cases :
      (b : Bool) (op : Op) (x y : A × List Call)
      → (b ≡ true → Q x.0)
      → (b ≡ false → Q y.0)
      → Q (attempt b op x y).0
  unfolding attempt
  attempt_cases true op x y p q = p refl
  attempt_cases false op x y p q = q refl

  pub if_result : (b : Bool) (x y : A × List Call) → Q x.0 → Q y.0 → Q (if b then x else y).0
  if_result b x y p q = if_cases b x y (λ t. p) (λ t. q)

  pub attempt_result :
      (b : Bool) (op : Op) (x y : A × List Call) → Q x.0 → Q y.0 → Q (attempt b op x y).0
  attempt_result b op x y p q = attempt_cases b op x y (λ t. p) (λ t. q)

not_refused : (b : Bool) → b ≡ false → not b ≢ false
not_refused true h e = cc
not_refused false h e = cc

-- A call that does not fail: the result is that of what follows.
pub attempt_done :
    {A : Type 0} (fails : Op → Bool) (op : Op) (x y : A × List Call) (r : A)
    → ((o : Op) → fails o ≡ false)
    → x.0 ≡ r
    → (attempt (not (fails op)) op x y).0 ≡ r
attempt_done fails op x y r none_fails h =
    attempt_cases (λ z. z ≡ r) _ op x y (λ t. h)
      (λ t. absurd (not_refused (fails op) (none_fails op) t))
