-- ===== src/Common/Throttle/Drain.antt =====
-- common/throttle.cc: the wake-ups pass down the queue.
use cxxlab.Prelude.{
  ℕ, ◌+◌, ◌^◌, ◌≤◌, ◌<◌, ◌≡◌, refl, false, List, [], ◌∷◌, arith, if◌then◌else◌, add64-eq, ap, sym,
  ◌∙◌, zero, suc, length,
}
use mathlib.Core.Path.{subst}
use cxxlab.Common.Throttle.{Throttle, should_wait, notify, acquire, wake, wake_front}
use cxxlab.Common.Throttle.Wakeup.{sum}

-- The first waiter wakes, a number of times.
unfoldable pub wakes : ℕ → Throttle → Throttle
wakes zero s = s
wakes (suc k) s = wakes k (wake s)

passes : (n m cur r : ℕ) → cur + (n + r) ≤ m → m < 2 ^ 64 → should_wait n m cur ≡ false
unfolding should_wait
passes n m cur r h k = ground (arith, add64-eq cur n)

wake_passes :
    (n : ℕ) (ns : List ℕ) (s : Throttle)
    → s.waiters ≡ n ∷ ns
    → should_wait n s.max s.count ≡ false
    → wake s ≡ acquire n ns s
unfolding wake
wake_passes n ns s e h =
    ap (λ l. wake_front l s) e
    ∙ ap (λ b. if b then record s { notified = false } else acquire n ns s) h

-- A throttle whose queue is empty, under a limit and with a number of resources held.
abbrev pub IsDrained : ℕ → ℕ → Throttle → Type 0
IsDrained m n s = (s.waiters ≡ []) × (s.count ≡ n) × (s.max ≡ m)

drains :
    (ns : List ℕ) (s : Throttle)
    → s.waiters ≡ ns
    → s.count + sum ns ≤ s.max
    → s.max < 2 ^ 64
    → IsDrained s.max (s.count + sum ns) (wakes (length ns) s)
unfolding wakes sum acquire notify
drains [] s e h k = (e, ground arith, refl)
drains (n ∷ ns) s e h k =
    let one = add64-eq s.count n (omega (arith, h, k)) in
    let rest = drains ns (acquire n ns s) refl (omega (arith, h, one)) k in
    subst (λ t. IsDrained s.max (s.count + (n + sum ns)) (wakes (length ns) t))
      (sym (wake_passes n ns s e (passes n s.max s.count (sum ns) h k)))
      (rest.0, omega (arith, rest.1, one), rest.2)

-- When all waiting requests fit under the limit together with what is held, as many wake-ups of the
-- first waiter as there are waiters serve them all.
pub wakes_lem :
    (s : Throttle)
    → s.count + sum s.waiters ≤ s.max
    → s.max < 2 ^ 64
    → IsDrained s.max (s.count + sum s.waiters) (wakes (length s.waiters) s)
wakes_lem s = drains s.waiters s refl
