-- ===== src/Examples/Schedules.antt =====
-- Examples of the schedules of the leader observer.
use skiffdb.Prelude.{◌≤◌, List, [], ◌∷◌, ◌≡◌, refl, codes, eq_bytes}
use skiffdb.Core.Observer.{new_observer, Event, observe, receive, send, work, step, run}
use skiffdb.Core.Observer.Once.{run-announced}

-- The node leads, another one does, and it leads again.
abbrev regained : List Event
regained =
    observe (codes "n1")
    ∷ receive
    ∷ send
    ∷ work
    ∷ observe (codes "n2")
    ∷ receive
    ∷ observe (codes "n1")
    ∷ receive
    ∷ send
    ∷ work
    ∷ []

run-announced_example : (run (codes "n1") new_observer regained).announced ≤ 1
run-announced_example = run-announced (codes "n1") regained

-- The second term is not announced, and nothing waits to be.
regained_once : (run (codes "n1") new_observer regained).announced ≡ 1
unfolding run step eq_bytes
regained_once = refl
