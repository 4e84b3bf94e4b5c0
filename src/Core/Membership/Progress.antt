-- ===== src/Core/Membership/Progress.antt =====
-- `recordJoinProgress`: what it keeps of a joining member.
use skiffdb.Prelude.{
  ℕ, Option, none, some, ◌∙◌, eq_bytes, eq_bytes_self, ◌≡◌, refl, arith, ltb, ◌==◌, Bytes,
  eq_bytes_self, if◌then◌else◌, max,
}
use skiffdb.Go.Map.{Map, lookup, lookup-insert}
use skiffdb.Core.Membership.{
  MemberJoinProgress, record_join_progress, advance, or_new, new_progress,
}

-- The target of a member that is in the map already stands; a new one gets the target asked for, and
-- 0 asks for what the leader has applied.
abbrev pub target_after : Option MemberJoinProgress → ℕ → ℕ → ℕ
target_after none target raft_applied = if target == 0 then raft_applied else target
target_after (some p) target raft_applied = p.target_index

abbrev pub applied_before : Option MemberJoinProgress → ℕ
applied_before none = 0
applied_before (some p) = p.applied_index

abbrev pub progress_time : Option MemberJoinProgress → ℕ → ℕ → ℕ
progress_time none applied now = now
progress_time (some p) applied now = if ltb p.applied_index applied then now else p.last_progress_at

abbrev pub Recorded : Option MemberJoinProgress → ℕ → ℕ → ℕ → ℕ → MemberJoinProgress → Type 0
Recorded before raft_applied target applied now p =
    (p.target_index ≡ target_after before target raft_applied)
    × (p.applied_index ≡ max (applied_before before) applied)
    × (p.last_progress_at ≡ progress_time before applied now)

advance-Recorded :
    (before : Option MemberJoinProgress) (raft_applied target applied now : ℕ)
    → Recorded before raft_applied target applied now
        (advance (or_new before (new_progress raft_applied target now)) applied now)
unfolding advance or_new new_progress
advance-Recorded none raft_applied target applied now = ground arith
advance-Recorded (some p) raft_applied target applied now = ground arith

record_join_progress-lookup :
    (raft_applied : ℕ) (id : Bytes) (target applied now : ℕ) (progress : Map MemberJoinProgress)
    (other : Bytes)
    → (let (p, after) = record_join_progress raft_applied id target applied now progress in
        lookup other after ≡ (if eq_bytes id other then some p else lookup other progress))
unfolding record_join_progress
record_join_progress-lookup raft_applied id target applied now progress other =
    lookup-insert id other _ progress

-- Recording a report of a member keeps the target that the member has, never lowers its applied index
-- and moves the time of progress only when that index grows. The map then holds the entry that is
-- returned, and every other member's entry is as before.
pub record_join_progress_lem :
    (raft_applied : ℕ) (id : Bytes) (target applied now : ℕ) (progress : Map MemberJoinProgress)
    (other : Bytes)
    → (let (p, after) = record_join_progress raft_applied id target applied now progress in
        Recorded (lookup id progress) raft_applied target applied now p
        × (lookup other after ≡ (if eq_bytes id other then some p else lookup other progress)))
unfolding record_join_progress
record_join_progress_lem raft_applied id target applied now progress other = (
  advance-Recorded (lookup id progress) raft_applied target applied now,
  record_join_progress-lookup raft_applied id target applied now progress other,
)

pub record_join_progress-own :
    (raft_applied : ℕ) (id : Bytes) (target applied now : ℕ) (progress : Map MemberJoinProgress)
    → (let (p, after) = record_join_progress raft_applied id target applied now progress in
        lookup id after ≡ some p)
record_join_progress-own raft_applied id target applied now progress =
    record_join_progress-lookup raft_applied id target applied now progress id
    ∙ rw (eq_bytes_self id) refl
