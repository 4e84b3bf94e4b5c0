-- ===== src/Examples/Session.antt =====
-- Examples of a client's connection to one process, and to a follower.
use skiffdb.Core.Cmd.{to_string}
use skiffdb.Go.Strings.{contains, join}
use skiffdb.Server.Connection.{is_broken_pipe}
use skiffdb.Prelude.{
  true, Option, none, some, List, [], ◌∷◌, ◌++◌, ◌≡◌, refl, arith, false, Bytes, codes, All,
}
use skiffdb.Resp.Context.{ParserContext, init_parser_context}
use skiffdb.Resp.Parser.Line.{at_input}
use skiffdb.Core.Cluster.{started}
use skiffdb.Server.Connection.{Connection, RaftView, Round, closed, handle_connection}
use skiffdb.Server.Connection.Session.{
  answers, sent, IsRequest, handle_connection-answers, handle_connection_ends,
}
use skiffdb.Examples.Replica.{set_cmd, cmd_json, raft_apply}

abbrev requests : List (List Bytes)
requests = (codes "SET" ∷ codes "k" ∷ codes "v" ∷ []) ∷ (codes "GET" ∷ codes "k" ∷ []) ∷ []

abbrev single : Option (RaftView cmd_json)
single = none

abbrev follower : RaftView cmd_json
follower = record { leader = false; apply = raft_apply; snapshot_error = none }

abbrev unicode : Bytes → Bytes
unicode s = s

requests-IsRequest : All (IsRequest cmd_json unicode single) requests
requests-IsRequest = (
  (
    omega arith,
    (((λ h. cc), omega arith), (((λ h. cc), omega arith), (((λ h. cc), omega arith), tt))),
  ),
  ((omega arith, (((λ h. cc), omega arith), (((λ h. cc), omega arith), tt))), tt),
)

abbrev first : Connection cmd_json
first = record {
  reader = at_input (sent cmd_json unicode single requests) init_parser_context;
  process = started;
  output = [];
}

handle_connection-answers_example :
    (c' : ParserContext) × (handle_connection cmd_json unicode single 3 first
      ≡ some (
          closed (record {
            reader = at_input [] c';
            process = (answers cmd_json unicode single started requests).1;
            output = [] ++ (answers cmd_json unicode single started requests).0;
          })))
handle_connection-answers_example =
    handle_connection-answers cmd_json unicode single requests 3 init_parser_context started [] refl
      (omega arith) requests-IsRequest

-- Bytes that are no command: the loop ends at the end of the stream.
handle_connection_ends_example :
    (r : Round cmd_json) × (handle_connection cmd_json unicode single 4 (record {
      reader = at_input (codes "\r\n$") init_parser_context;
      process = started;
      output = [];
    })
      ≡ some r)
handle_connection_ends_example =
    handle_connection_ends cmd_json unicode single 4 (codes "\r\n$") init_parser_context started []
      refl (omega arith)

connection_lost : is_broken_pipe (codes "write tcp: broken pipe") ≡ true
unfolding is_broken_pipe contains
connection_lost = refl

prints : to_string set_cmd ≡ codes "RESP Command: Op=SET, Args=[k v]"
unfolding to_string join
prints = refl
