-- ===== src/Server/Connection/Session.antt =====
-- A whole session: every request is answered in order, and the loop ends.
use skiffdb.Prelude.{
  ℕ, zero, suc, ◌≤◌, ◌<◌, ◌≡◌, refl, ap, sym, ◌∙◌, Option, none, some, List, [], ◌∷◌, ◌++◌,
  append_assoc, append-nil, arith, Bytes, length, All,
}
use skiffdb.Resp.Build.{build_array, err_invalid_command}
use skiffdb.Resp.Context.{
  ParserContext, command_start, reset, Reader, Outcome, ok, err, panicked, out_of_fuel, max_strings,
}
use skiffdb.Resp.Parser.{parse_resp_command}
use skiffdb.Resp.Parser.Line.{at_input, parse_at_eof}
use skiffdb.Resp.Parser.RoundTrip.{IsArgument, parse_resp_command-build_array}
use skiffdb.Resp.Parser.Progress.{Within, parse_resp_command-Within}
use skiffdb.Core.Cmd.{Cmd, build_cmd}
use skiffdb.Core.Fsm.{Process, CmdJson}
use skiffdb.Server.Connection.{
  RaftView, execute_resp_cmd, Connection, Round, goes_on, closed, crashed, serve_cmd, args_of,
  after_parse, round, handle_connection,
}

module _ (J : CmdJson) (unicode : Bytes → Bytes) (node : Option (RaftView J)) where
  -- The reply to one request, and the process afterwards.
  abbrev pub answer : Process → Option Cmd → Bytes × Process
  answer p none = (err_invalid_command, p)
  answer p (some cmd) = execute_resp_cmd J node p cmd

  -- The replies to the requests, in order, and the process afterwards.
  abbrev pub answers : Process → List (List Bytes) → Bytes × Process
  answers p [] = ([], p)
  answers p (args ∷ requests) =
      let (reply, p') = answer p (build_cmd unicode args) in
      let (replies, p'') = answers p' requests in (reply ++ replies, p'')

  -- The bytes of the requests.
  abbrev pub sent : List (List Bytes) → Bytes
  sent [] = []
  sent (args ∷ requests) = build_array (some args) ++ sent requests

  abbrev pub IsRequest : List Bytes → Type 0
  IsRequest args = (length args ≤ max_strings) × All IsArgument args

  abbrev at : Bytes → ParserContext → Process → Bytes → Connection J
  at s c p out = record { reader = at_input s c; process = p; output = out }

  serve_cmd_lem :
      (s : Bytes) (c : ParserContext) (p : Process) (out : Bytes) (o : Option Cmd)
      → serve_cmd J unicode node (at s c p out) o
        ≡ goes_on (at s c (answer p o).1 (out ++ (answer p o).0))
  unfolding serve_cmd
  serve_cmd_lem s c p out none = refl
  serve_cmd_lem s c p out (some cmd) = refl

  module _ (f : ℕ) (s t : Connection J) where
    handle_goes_on :
        round J unicode node s ≡ goes_on t
        → handle_connection J unicode node (suc f) s ≡ handle_connection J unicode node f t
    unfolding handle_connection
    handle_goes_on e = rw (e, handle_connection)

    handle_closed :
        round J unicode node s ≡ closed t
        → handle_connection J unicode node (suc f) s ≡ some (closed t)
    unfolding handle_connection
    handle_closed e = rw (e, handle_connection)

    handle_crashed :
        round J unicode node s ≡ crashed t
        → handle_connection J unicode node (suc f) s ≡ some (crashed t)
    unfolding handle_connection
    handle_crashed e = rw (e, handle_connection)

  round_request :
      (args : List Bytes) (rest : Bytes) (c : ParserContext) (p : Process) (out : Bytes)
      → c.state ≡ command_start
      → IsRequest args
      → (c' : ParserContext) × (round J unicode node (at (build_array (some args) ++ rest) c p out)
          ≡ goes_on (
              at rest
                (reset c')
                (answer p (build_cmd unicode args)).1
                (out ++ (answer p (build_cmd unicode args)).0)))
  unfolding round
  round_request args rest c p out start (few, all) =
      let (c', run, filled) = parse_resp_command-build_array args rest c start few all in
      (
        c',
        rw run
            (rw (filled, args_of) (serve_cmd_lem rest (reset c') p out (build_cmd unicode args))),
      )

  round_end :
      (c : ParserContext) (p : Process) (out : Bytes)
      → c.state ≡ command_start
      → round J unicode node (at [] c p out) ≡ closed (at [] (reset c) p out)
  unfolding round
  round_end c p out start = rw (parse_at_eof c start) refl

  -- A client that sends any number of requests and closes its side: the server writes the replies in the
  -- order of the requests and closes the connection. A request has at most `max_strings` arguments, each
  -- of one byte or more and, with its separator, at most `max_bytes`; the parser is at the start of a
  -- command, and the fuel is above the number of requests.
  pub handle_connection-answers :
      (requests : List (List Bytes)) (f : ℕ) (c : ParserContext) (p : Process) (out : Bytes)
      → c.state ≡ command_start
      → length requests < f
      → All IsRequest requests
      → (c' : ParserContext) × (handle_connection J unicode node f (at (sent requests) c p out)
          ≡ some (closed (at [] c' (answers p requests).1 (out ++ (answers p requests).0))))
  handle_connection-answers requests zero c p out start few all = absurd (omega arith)
  handle_connection-answers [] (suc f) c p out start few all = (
    reset c,
    handle_closed f _ _ (round_end c p out start)
        ∙ ap (λ s. some (closed (at [] (reset c) p s))) (sym (append-nil out)),
  )
  handle_connection-answers (args ∷ requests) (suc f) c p out start few (request, all) =
      let (c', step) = round_request args (sent requests) c p out start request in
      let r : Bytes × Process = answer p (build_cmd unicode args) in
      let (c'', run) =
        handle_connection-answers requests f (reset c') r.1 (out ++ r.0) (unfold reset in refl)
          (omega arith) all in
      (
        c'',
        handle_goes_on f _ _ step
            ∙ run
            ∙ ap (λ s. some (closed (at [] c'' (answers r.1 requests).1 s)))
                (append_assoc out r.0 (answers r.1 requests).0),
      )

  abbrev RoundWithin : ℕ → Round J → Type 0
  RoundWithin n (goes_on t) = (length t.reader.input ≤ n) × (t.reader.ctx.state ≡ command_start)
  RoundWithin n (closed t) = Unit
  RoundWithin n (crashed t) = Unit

  serve_cmd-Within :
      (n : ℕ) (s : Connection J) (o : Option Cmd)
      → length s.reader.input ≤ n
      → s.reader.ctx.state ≡ command_start
      → RoundWithin n (serve_cmd J unicode node s o)
  unfolding serve_cmd
  serve_cmd-Within n s none h e = (h, e)
  serve_cmd-Within n s (some cmd) h e = (h, e)

  after_parse-Within :
      (n : ℕ) (s : Connection J) (o : Outcome (Unit {0})) (r : Reader)
      → Within n (o, r)
      → RoundWithin n (after_parse J unicode node s (o, r))
  unfolding after_parse reset
  after_parse-Within n s (ok u) r w =
      serve_cmd-Within n _ (build_cmd unicode (args_of J unicode node r.ctx.cmd_args)) w refl
  after_parse-Within n s (err e) r w = ground arith
  after_parse-Within n s panicked r w = tt
  after_parse-Within n s out_of_fuel r w = tt

  round-Within :
      (n : ℕ) (s : Connection J)
      → s.reader.ctx.state ≡ command_start
      → length s.reader.input ≤ suc n
      → RoundWithin n (round J unicode node s)
  unfolding round
  round-Within n s start h =
      let p = parse_resp_command s.reader in
      after_parse-Within n s p.0 p.1 (parse_resp_command-Within n s.reader start h)

  -- The loop of a connection ends, whatever the client sends before it closes its side: from the start of
  -- a command, fuel above the length of the input is enough.
  pub handle_connection_ends :
      (f : ℕ) (input : Bytes) (c : ParserContext) (p : Process) (out : Bytes)
      → c.state ≡ command_start
      → length input < f
      → (r : Round J) × (handle_connection J unicode node f (at input c p out) ≡ some r)
  handle_connection_ends zero input c p out start h = absurd (omega arith)
  handle_connection_ends (suc f) [] c p out start h =
      (closed (at [] (reset c) p out), handle_closed f _ _ (round_end c p out start))
  handle_connection_ends (suc f) (b ∷ input) c p out start h =
      go (round J unicode node (at (b ∷ input) c p out)) refl
        (round-Within (length input) (at (b ∷ input) c p out) start (omega arith))
        (λ s c' p' out' st k. handle_connection_ends f s c' p' out' st (omega arith))
    where
      go :
          (o : Round J)
          → round J unicode node (at (b ∷ input) c p out) ≡ o
          → RoundWithin (length input) o
          → ((s : Bytes) (c' : ParserContext) (p' : Process) (out' : Bytes)
              → c'.state ≡ command_start
              → length s ≤ length input
              → (r : Round J) × (handle_connection J unicode node f (at s c' p' out') ≡ some r))
          → (r : Round J) × (handle_connection J unicode node (suc f) (at (b ∷ input) c p out)
              ≡ some r)
      go (goes_on t) e (k, st) ih =
          let (r, run) = ih t.reader.input t.reader.ctx t.process t.output st k in
          (r, handle_goes_on f _ t e ∙ run)
      go (closed t) e w ih = (closed t, handle_closed f _ t e)
      go (crashed t) e w ih = (crashed t, handle_crashed f _ t e)
