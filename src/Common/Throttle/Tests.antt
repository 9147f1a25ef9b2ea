-- ===== src/Common/Throttle/Tests.antt =====
-- Runs of common/throttle.cc.
use cxxlab.Prelude.{◌≡◌, refl, true, [], ◌∷◌, some, arith, add64}
use cxxlab.Common.Throttle.{
  Throttle, new_throttle, get, can_pass, should_wait, wake, time_out, put, notify, acquire,
}
use cxxlab.Common.Throttle.Wakeup.{IsAlert, Reach-IsAlert}
use cxxlab.Common.Throttle.Wakeup as Wakeup
use cxxlab.Common.Throttle.Drain.{wakes, wakes_lem, IsDrained}
use cxxlab.Common.Throttle.Limit.{IsWithin, Requests-IsWithin}
use cxxlab.Common.Throttle.Limit as Limit
use cxxlab.Common.Throttle.Wakeup.{sum}

-- Ten resources, of which eight are held; five and one wait.
abbrev held : Throttle
held = get 1 (get 5 (get 8 (new_throttle 10)))

abbrev after_put : Throttle
after_put = record { count = 2; max = 10; waiters = 5 ∷ 1 ∷ []; notified = true }

put_notifies : put 6 held ≡ some after_put
unfolding put get can_pass should_wait add64 notify
put_notifies = refl

served : (wakes 2 after_put).count ≡ 8
unfolding wakes wake acquire notify should_wait add64
served = refl

wakes_lem_example : IsDrained 10 8 (wakes 2 after_put)
unfolding sum
wakes_lem_example = wakes_lem after_put (omega arith) (omega arith)

-- The first waiter reaches its time limit: the next one is notified.
abbrev timed : Throttle
timed = time_out 0 held

Reach-IsAlert_example : IsAlert timed
unfolding get can_pass should_wait add64 sum
Reach-IsAlert_example = Reach-IsAlert 10 timed (
    Wakeup.next
      (Wakeup.next
        (Wakeup.next (Wakeup.next Wakeup.start (Wakeup.got 8 (omega arith)))
          (Wakeup.got 5 (omega arith)))
        (Wakeup.got 1 (omega arith)))
      (Wakeup.timed_out 0))

Requests-IsWithin_example : IsWithin 10 timed
unfolding get can_pass should_wait add64
Requests-IsWithin_example = Requests-IsWithin 10 (omega arith) (omega arith) timed (
    Limit.next
      (Limit.next
        (Limit.next (Limit.next Limit.start (Limit.got 8 (omega arith)))
          (Limit.got 5 (omega arith)))
        (Limit.got 1 (omega arith)))
      (Limit.timed_out 0))
