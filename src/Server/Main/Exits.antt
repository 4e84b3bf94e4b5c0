-- ===== src/Server/Main/Exits.antt =====
-- How a process ends: what it has open then.
use skiffdb.Core.Config.{Config}
use skiffdb.Prelude.{List, ◌≡◌, false}
use skiffdb.Core.Calls.{Call}
use skiffdb.Core.Calls.Trace.{Held, all_held, left_held}
use skiffdb.Core.Lifecycle.{is_running}
use skiffdb.Server.Main.{Exit, fatal_start, fatal_admin, all_stopped, fatal_resp}

-- Only the exit for want of the RESP listener leaves a node open.
abbrev pub exit_held : Exit → Held
exit_held fatal_start = all_held false
exit_held fatal_admin = all_held false
exit_held all_stopped = all_held false
exit_held (fatal_resp node) = all_held (is_running node)

record Ends (held : Held) (r : Exit × List Call) : Type 0 where
  ends : left_held held r.1 ≡ exit_held r.0
