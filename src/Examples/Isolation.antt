-- ===== src/Examples/Isolation.antt =====
-- An example of two clients with different keys.
use mathlib.Core.Quot.{Quot}
use skiffdb.Prelude.{
  none, List, [], ◌∷◌, ◌≡◌, arith, Bool, true, false, Bytes, codes, eq_bytes, eq_bytes_iff,
}
use skiffdb.Core.Cmd.{Cmd}
use skiffdb.Core.Executor.Isolation.{replies, own_replies, own, Separate, own_replies-replies}
use skiffdb.Core.Executor.Abstract.{both, other_way, Apart, execute_comm}
use skiffdb.Examples.Store.{a, b, store}

-- The client increments and reads `a`; another one sets `b` in between, and asks for it.
abbrev schedule : List (Bool × Cmd)
schedule =
    (true, record { op = codes "INCR"; args = a ∷ [] })
    ∷ (false, record { op = codes "SET"; args = b ∷ a ∷ [] })
    ∷ (true, record { op = codes "GET"; args = a ∷ [] })
    ∷ (false, record { op = codes "EXISTS"; args = b ∷ b ∷ [] })
    ∷ []

other : (k : Bytes) → eq_bytes a k ≡ true → eq_bytes b k ≡ false
unfolding eq_bytes
other k h = ground (arith, eq_bytes_iff a k, eq_bytes_iff b k)

schedule-Separate : Separate none (a ∷ []) schedule
unfolding eq_bytes
schedule-Separate = (
  (λ k h. h),
  ((λ k h. ground (arith, other k)), ((λ k h. h), ((λ k h. ground (arith, other k)), tt))),
)

own_replies-replies_example :
    own_replies none store schedule ≡ replies none store (own none schedule)
own_replies-replies_example = own_replies-replies none (a ∷ []) schedule store schedule-Separate

abbrev count : Cmd
count = record { op = codes "INCR"; args = a ∷ [] }

abbrev put : Cmd
put = record { op = codes "SET"; args = b ∷ a ∷ [] }

count-put-Apart : Apart none count put
unfolding eq_bytes
count-put-Apart k h = ground (arith, other k)

execute_comm_example :
    both none count put (Quot.mk store) ≡ other_way (both none put count (Quot.mk store))
execute_comm_example = execute_comm none count put (Quot.mk store) count-put-Apart
