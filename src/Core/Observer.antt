-- ===== src/Core/Observer.antt =====
-- src/core/raft.go, `observeClusterLeaderChange`: an observer that Raft fills, and two goroutines, as
-- steps that a schedule orders. No code closes the channels.
pub mod Once
use skiffdb.Prelude.{
  ℕ, ◌+◌, Option, none, some, List, [], ◌∷◌, ◌++◌, Bool, true, false, ltb, if◌then◌else◌, Bytes,
  eq_bytes, length,
}

-- The two channels, the value that the first goroutine waits to send, `lastLeader` of the second, the
-- number of announcements that it has replicated, and which of the two have not returned.
pub record Observer : Type 0 where
  pub obs_ch : List Bytes
  pub sending : Option Bytes
  pub work_ch : List Bytes
  pub last_leader : Bytes
  pub announced : ℕ
  pub filtering : Bool
  pub working : Bool

abbrev pub channel_size : ℕ
channel_size = 64

abbrev pub new_observer : Observer
new_observer = record {
  obs_ch = [];
  sending = none;
  work_ch = [];
  last_leader = [];
  announced = 0;
  filtering = true;
  working = true;
}

-- Raft observes a leader; the first goroutine receives, or its send goes through; the second one
-- receives, and replicates an announcement; or one of them sees that the context is done.
pub data Event : Type 0 where
  observe : Bytes → Event
  receive send work stop_filtering stop_working : Event

-- An observer that does not block drops what its channel has no room for.
on_observe : Bytes → Observer → Observer
on_observe leader o =
    if ltb (length o.obs_ch) channel_size then record o { obs_ch = o.obs_ch ++ leader ∷ [] } else o

filter_event : Bytes → Observer → Bytes → List Bytes → Observer
filter_event local_id o leader rest =
    if eq_bytes leader local_id
    then record o { obs_ch = rest; sending = some leader }
    else record o { obs_ch = rest }

-- The goroutine is at its `select`, so nothing is being sent.
on_receive : Bytes → Observer → List Bytes → Option Bytes → Bool → Observer
unfolding filter_event
on_receive local_id o (leader ∷ rest) none true = filter_event local_id o leader rest
on_receive local_id o [] none true = o
on_receive local_id o obs (some leader) true = o
on_receive local_id o obs sending false = o

-- A send to a channel without room waits.
on_send : Observer → Option Bytes → Observer
on_send o none = o
on_send o (some leader) =
    if ltb (length o.work_ch) channel_size
    then record o { work_ch = o.work_ch ++ leader ∷ []; sending = none }
    else o

-- The first goroutine looks at the context in its `select` only, not while it waits to send.
on_done : Observer → Option Bytes → Observer
on_done o none = record o { filtering = false }
on_done o (some leader) = o

announce : Observer → Bytes → List Bytes → Observer
announce o leader rest =
    if eq_bytes leader o.last_leader
    then record o { work_ch = rest }
    else record o { work_ch = rest; last_leader = leader; announced = o.announced + 1 }

on_work : Observer → List Bytes → Bool → Observer
unfolding announce
on_work o (leader ∷ rest) true = announce o leader rest
on_work o [] true = o
on_work o queue false = o

unfoldable pub step : Bytes → Observer → Event → Observer
unfolding on_observe on_receive on_send on_work on_done
step local_id o (observe leader) = on_observe leader o
step local_id o receive = on_receive local_id o o.obs_ch o.sending o.filtering
step local_id o send = on_send o o.sending
step local_id o work = on_work o o.work_ch o.working
step local_id o stop_filtering = on_done o o.sending
step local_id o stop_working = record o { working = false }

unfoldable pub run : Bytes → Observer → List Event → Observer
run local_id o [] = o
run local_id o (e ∷ events) = run local_id (step local_id o e) events
