-- ===== src/Examples/Restart.antt =====
-- An example of a second start.
use skiffdb.Prelude.{codes}
use skiffdb.Core.Config.{Config}
use skiffdb.Core.Identity.{holds, new_identity}
use skiffdb.Core.Startup.{Answers}
use skiffdb.Examples.Member.{config}
use skiffdb.Examples.Start.{old_store}

-- The configuration of the start that has written the identity.
abbrev earlier : Config
earlier = record config { raft_id = codes "n1" }

abbrev identified_store : Answers
identified_store = record old_store {
  identity_file = holds (new_identity earlier (codes "10.0.0.1:7000"));
}
