-- ===== src/Server/Main.antt =====
-- src/main.go, `InitRaft` of src/server/raft_server.go and the accept loop of `InitRESPTCPServer` in
-- src/server/resp_server.go: the life of a process, with the calls on Raft that it makes.
use skiffdb.Prelude.{
  ℕ, Option, none, some, List, [], ◌∷◌, ◌++◌, ◌≡◌, refl, ap, sym, ◌∙◌, Bool, true, false,
  if◌then◌else◌,
}
use skiffdb.Core.Calls.{Op, Call, and_then}
use skiffdb.Core.Config.{Config, Flags, init_db_config}
use skiffdb.Core.Node.{RaftNode, shutdown_raft_node}
use skiffdb.Core.Startup.{Answers, Outcome, ignored, failed, started, start_raft}
pub mod Exits

-- What happens outside: the answers to the start, whether the two listeners are made, and which calls
-- fail when Raft is shut down.
pub record World : Type 0 where
  pub answers : Answers
  pub admin_listens : Bool
  pub resp_listens : Bool
  pub shutdown_fails : Op → Bool

-- `log.Fatal` at one of three places, or the return of `main`.
pub data Exit : Type 0 where
  fatal_start fatal_admin all_stopped : Exit
  fatal_resp : Option RaftNode → Exit

-- The admin server stops when the context is done, or on an error; then Raft is shut down.
serve : World → Option RaftNode → Exit × List Call
serve w node = (all_stopped, (shutdown_raft_node w.shutdown_fails node).1)

-- `InitRESPTCPServer` and what follows in `main`.
init_resp_tcp_server : World → Option RaftNode → Exit × List Call
unfolding serve
init_resp_tcp_server w node = if w.resp_listens then serve w node else (fatal_resp node, [])

-- `InitRaft`, from the listener on.
listen_admin : World → Option RaftNode → Exit × List Call
unfolding init_resp_tcp_server
listen_admin w node =
    if w.admin_listens
    then init_resp_tcp_server w node
    else (fatal_admin, (shutdown_raft_node w.shutdown_fails node).1)

after_start : World → Outcome → Exit × List Call
unfolding listen_admin
after_start w failed = (fatal_start, [])
after_start w ignored = listen_admin w none
after_start w (started n) = listen_admin w (some n)

init_raft : Config → World → Exit × List Call
unfolding after_start
init_raft config w =
    if config.enable_raft
    then and_then (start_raft false config w.answers) (after_start w)
    else listen_admin w none

-- `main`.
unfoldable pub main : Flags → World → Exit × List Call
unfolding init_raft
main flags w = init_raft (init_db_config flags) w

-- What `Accept` returns: a connection, or an error, and whether it is that of a closed listener or the
-- context is done.
pub data Accepted : Type 0 where
  connection : ℕ → Accepted
  accept_failed : Bool → Accepted

-- The connections that get a handler.
unfoldable pub accept_loop : List Accepted → List ℕ
accept_loop [] = []
accept_loop (connection c ∷ rest) = c ∷ accept_loop rest
accept_loop (accept_failed true ∷ rest) = []
accept_loop (accept_failed false ∷ rest) = accept_loop rest
