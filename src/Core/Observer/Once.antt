-- ===== src/Core/Observer/Once.antt =====
-- Every schedule of the observer: a node announces its leadership at most once.
use skiffdb.Prelude.{
  ℕ, ◌+◌, ◌≤◌, Option, none, some, List, [], ◌∷◌, ◌≡◌, ◌⊎◌, inl, inr, refl, arith, Bool, true,
  false, ltb, if◌then◌else◌, Bytes, eq_bytes, eq_bytes_iff, length, All, All-append,
}
use skiffdb.Core.Observer.{
  Observer, new_observer, channel_size, Event, observe, receive, send, work, stop_filtering,
  stop_working, on_observe, filter_event, on_receive, on_send, announce, on_work, on_done, step,
  run,
}

abbrev pub OwnOption : Bytes → Option Bytes → Type 0
OwnOption local_id none = Unit
OwnOption local_id (some leader) = leader ≡ local_id

-- Only this node's leadership goes to the second goroutine, which has announced nothing yet, or this.
pub record Own (local_id : Bytes) (o : Observer) : Type 0 where
  pub sent : OwnOption local_id o.sending
  pub queued : All (λ leader. leader ≡ local_id) o.work_ch
  pub once : (o.announced ≡ 0) ⊎ ((o.announced ≡ 1) × (o.last_leader ≡ local_id))

Own-if :
    (local_id : Bytes) (b : Bool) (x y : Observer)
    → (b ≡ true → Own local_id x)
    → (b ≡ false → Own local_id y)
    → Own local_id (if b then x else y)
Own-if local_id true x y hx hy = hx refl
Own-if local_id false x y hx hy = hy refl

on_observe-Own :
    (local_id leader : Bytes) (o : Observer) → Own local_id o → Own local_id (on_observe leader o)
unfolding on_observe
on_observe-Own local_id leader o v =
    Own-if local_id (ltb (length o.obs_ch) channel_size) _ o
      (λ room. record { sent = v.sent; queued = v.queued; once = v.once }) (λ full. v)

filter_event-Own :
    (local_id : Bytes) (o : Observer) (leader : Bytes) (rest : List Bytes)
    → Own local_id o
    → Own local_id (filter_event local_id o leader rest)
unfolding filter_event
filter_event-Own local_id o leader rest v =
    Own-if local_id (eq_bytes leader local_id) _ _
      (λ own. record {
        sent = (eq_bytes_iff leader local_id).0 own;
        queued = v.queued;
        once = v.once;
      })
      (λ other. record { sent = v.sent; queued = v.queued; once = v.once })

on_receive-Own :
    (local_id : Bytes) (o : Observer) (obs : List Bytes) (sending : Option Bytes) (filtering : Bool)
    → Own local_id o
    → Own local_id (on_receive local_id o obs sending filtering)
unfolding on_receive
on_receive-Own local_id o (leader ∷ rest) none true v = filter_event-Own local_id o leader rest v
on_receive-Own local_id o [] none true v = v
on_receive-Own local_id o obs (some leader) true v = v
on_receive-Own local_id o obs sending false v = v

on_send-Own :
    (local_id : Bytes) (o : Observer) (sending : Option Bytes)
    → OwnOption local_id sending
    → Own local_id o
    → Own local_id (on_send o sending)
unfolding on_send
on_send-Own local_id o none own v = v
on_send-Own local_id o (some leader) own v =
    Own-if local_id (ltb (length o.work_ch) channel_size) _ o
      (λ room. record {
        sent = tt;
        queued = All-append _ o.work_ch (leader ∷ []) v.queued (own, tt);
        once = v.once;
      })
      (λ full. v)

announced_new :
    (local_id leader : Bytes) (o : Observer)
    → leader ≡ local_id
    → eq_bytes leader o.last_leader ≡ false
    → (o.announced ≡ 0) ⊎ ((o.announced ≡ 1) × (o.last_leader ≡ local_id))
    → o.announced + 1 ≡ 1
announced_new local_id leader o own new once = ground (arith, eq_bytes_iff leader o.last_leader)

announce-Own :
    (local_id : Bytes) (o : Observer) (leader : Bytes) (rest : List Bytes)
    → leader ≡ local_id
    → All (λ l. l ≡ local_id) rest
    → Own local_id o
    → Own local_id (announce o leader rest)
unfolding announce
announce-Own local_id o leader rest own queued v =
    Own-if local_id (eq_bytes leader o.last_leader) _ _
      (λ same. record { sent = v.sent; queued = queued; once = v.once })
      (λ new. record {
        sent = v.sent;
        queued = queued;
        once = inr (announced_new local_id leader o own new v.once, own);
      })

on_work-Own :
    (local_id : Bytes) (o : Observer) (queue : List Bytes) (working : Bool)
    → All (λ l. l ≡ local_id) queue
    → Own local_id o
    → Own local_id (on_work o queue working)
unfolding on_work
on_work-Own local_id o (leader ∷ rest) true (own, queued) v =
    announce-Own local_id o leader rest own queued v
on_work-Own local_id o [] true queued v = v
on_work-Own local_id o queue false queued v = v

on_done-Own :
    (local_id : Bytes) (o : Observer) (sending : Option Bytes)
    → Own local_id o
    → Own local_id (on_done o sending)
unfolding on_done
on_done-Own local_id o none v = record { sent = v.sent; queued = v.queued; once = v.once }
on_done-Own local_id o (some leader) v = v

step-Own :
    (local_id : Bytes) (o : Observer) (e : Event)
    → Own local_id o
    → Own local_id (step local_id o e)
unfolding step
step-Own local_id o (observe leader) v = on_observe-Own local_id leader o v
step-Own local_id o receive v = on_receive-Own local_id o o.obs_ch o.sending o.filtering v
step-Own local_id o send v = on_send-Own local_id o o.sending v.sent v
step-Own local_id o work v = on_work-Own local_id o o.work_ch o.working v.queued v
step-Own local_id o stop_filtering v = on_done-Own local_id o o.sending v
step-Own local_id o stop_working v = record { sent = v.sent; queued = v.queued; once = v.once }

run-Own :
    (local_id : Bytes) (o : Observer) (events : List Event)
    → Own local_id o
    → Own local_id (run local_id o events)
unfolding run
run-Own local_id o [] v = v
run-Own local_id o (e ∷ events) v =
    run-Own local_id (step local_id o e) events (step-Own local_id o e v)

once-le : (n : ℕ) {P : Type 0} → (n ≡ 0) ⊎ ((n ≡ 1) × P) → n ≤ 1
once-le n (inl z) = omega arith
once-le n (inr (one, p)) = omega arith

-- Over every schedule of its observer, however often it becomes the leader, a node announces its
-- address at most once.
pub run-announced :
    (local_id : Bytes) (events : List Event) → (run local_id new_observer events).announced ≤ 1
run-announced local_id events =
    once-le _
      (run-Own local_id new_observer events
        (record { sent = tt; queued = tt; once = inl refl })).once
