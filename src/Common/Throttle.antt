-- ===== src/Common/Throttle.antt =====
-- common/throttle.cc: the counting throttle with its queue of waiting threads. Every method holds
-- the lock, so a run is a sequence of whole critical sections; a thread that waits is the size of
-- its request in the queue, in the order of arrival. `notified` says that the condition variable
-- of the first waiter has a notification it has not yet acted on. A thread that wakes tests its
-- predicate again, so wake-ups without a notification need no case of their own.
pub mod Wakeup
pub mod Drain
pub mod Limit
pub mod Tests
use cxxlab.Prelude.{
  ℕ, ◌+◌, ◌-◌, ◌/◌, Bool, true, false, not, ◌&&◌, ◌||◌, List, [], ◌∷◌, ◌++◌, Option, none, some,
  ltb, leb, ◌==◌, if◌then◌else◌, add64, zero, suc,
}

pub record Throttle : Type 0 where
  pub count : ℕ
  pub max : ℕ
  pub waiters : List ℕ
  pub notified : Bool

abbrev pub new_throttle : ℕ → Throttle
new_throttle m = record { count = 0; max = m; waiters = []; notified = false }

-- The test of a request against max_ and count_.
unfoldable pub should_wait : ℕ → ℕ → ℕ → Bool
should_wait n m cur = not (m == 0) && ((leb n m && ltb m (add64 cur n)) || (leb m n && ltb m cur))

abbrev pub is_empty : List ℕ → Bool
is_empty [] = true
is_empty (n ∷ ns) = false

-- if (!conds_.empty()) conds_.front().notify_one()
unfoldable pub notify : Throttle → Throttle
notify s = record s { notified = not (is_empty s.waiters) }

unfoldable pub can_pass : ℕ → Throttle → Bool
can_pass n s = not (should_wait n s.max s.count) && is_empty s.waiters

abbrev pub add_count : ℕ → Throttle → Throttle
add_count n s = record s { count = add64 s.count n }

-- get and try_get, up to where the thread returns or blocks. The predicate of a thread that has
-- just queued is false, so it blocks.
unfoldable pub get : ℕ → Throttle → Throttle
get n s = if can_pass n s then add_count n s else record s { waiters = s.waiters ++ n ∷ [] }

unfoldable pub get_or_fail : ℕ → Throttle → Bool × Throttle
get_or_fail n s = if can_pass n s then (true, add_count n s) else (false, s)

-- The first waiter takes its resources, leaves the queue and notifies the next one.
unfoldable pub acquire : ℕ → List ℕ → Throttle → Throttle
acquire n ns s = notify (record s { count = add64 s.count n; waiters = ns })

-- The first waiter wakes: its predicate decides whether it goes on.
abbrev pub wake_front : List ℕ → Throttle → Throttle
wake_front [] s = s
wake_front (n ∷ ns) s =
    if should_wait n s.max s.count then record s { notified = false } else acquire n ns s

unfoldable pub wake : Throttle → Throttle
wake s = wake_front s.waiters s

-- The queue without the waiter at a position.
unfoldable pub drop_at : ℕ → List ℕ → List ℕ
drop_at i [] = []
drop_at zero (n ∷ ns) = ns
drop_at (suc i) (n ∷ ns) = n ∷ drop_at i ns

unfoldable pub leave_queue : ℕ → Throttle → Throttle
leave_queue i s = notify (record s { waiters = drop_at i s.waiters })

abbrev pub time_out_front : List ℕ → Throttle → Throttle
time_out_front [] s = s
time_out_front (n ∷ ns) s = if should_wait n s.max s.count then leave_queue 0 s else acquire n ns s

-- The waiter at a position reaches its time limit in try_get: wait_for then tests the predicate
-- once more, which only the first waiter can pass.
unfoldable pub time_out : ℕ → Throttle → Throttle
time_out zero s = time_out_front s.waiters s
time_out (suc i) s = leave_queue (suc i) s

unfoldable pub take : ℕ → Throttle → ℕ × Throttle
take n s = if s.max == 0 then (0, s) else (add64 s.count n, add_count n s)

-- None where the assertion fails.
unfoldable pub put : ℕ → Throttle → Option Throttle
put n s = if leb n s.count then some (notify (record s { count = s.count - n })) else none

unfoldable pub reset_max : ℕ → Throttle → Throttle
reset_max m s = if s.max == m then s else notify (record s { max = m })

unfoldable pub reset : Throttle → Throttle
reset s = notify (record s { count = 0 })

unfoldable pub get_available : Throttle → ℕ
get_available s = if ltb s.count s.max then s.max - s.count else 0

unfoldable pub past_midpoint : Throttle → Bool
past_midpoint s = leb (s.max / 2) s.count
