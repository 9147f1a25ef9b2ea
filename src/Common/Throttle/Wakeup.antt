-- ===== src/Common/Throttle/Wakeup.antt =====
-- No wake-up of common/throttle.cc is lost: a first waiter that could go on has been notified.
use cxxlab.Prelude.{
  ℕ, ◌+◌, ◌-◌, ◌^◌, ◌≤◌, ◌<◌, ◌≡◌, refl, Bool, true, false, not, ◌&&◌, List, [], ◌∷◌, ◌++◌, none,
  some, arith, leb, ◌==◌, if◌then◌else◌, add64, add64-eq, if-cases, ap, sym, ◌∙◌, Bool-cases, inl,
  inr, zero, suc,
}
use mathlib.Core.Path.{subst}
use mathlib.Core.Option.{some-injective}
use cxxlab.Common.Throttle.{
  Throttle, new_throttle, should_wait, is_empty, notify, can_pass, add_count, get, get_or_fail,
  acquire, wake, wake_front, drop_at, leave_queue, time_out, time_out_front, take, put, reset_max,
  reset,
}

unfoldable pub sum : List ℕ → ℕ
sum [] = 0
sum (n ∷ ns) = n + sum ns

-- What is held and asked for together.
abbrev pub demand : Throttle → ℕ
demand s = s.count + sum s.waiters

-- Whether the first waiter, if there is one, may go on.
abbrev pub may_go : List ℕ → ℕ → ℕ → Bool
may_go [] m cur = false
may_go (n ∷ ns) m cur = not (should_wait n m cur)

-- The calls, wake-ups and time limits that change a throttle, where the demand stays below 2^64.
pub data Step (s : Throttle) : Throttle → Type 0 where
  got : (n : ℕ) → demand s + n < 2 ^ 64 → Step s (get n s)
  tried : (n : ℕ) → demand s + n < 2 ^ 64 → Step s (get_or_fail n s).1
  took : (n : ℕ) → demand s + n < 2 ^ 64 → Step s (take n s).1
  woke : Step s (wake s)
  timed_out : (i : ℕ) → Step s (time_out i s)
  gave : (n : ℕ) {t : Throttle} → put n s ≡ some t → Step s t
  set_max : (m : ℕ) → Step s (reset_max m s)
  cleared : Step s (reset s)

pub data Reach (m : ℕ) : Throttle → Type 0 where
  start : Reach m (new_throttle m)
  next : {s t : Throttle} → Reach m s → Step s t → Reach m t

pub record IsAlert (s : Throttle) : Type 0 where
  pub bounded : demand s < 2 ^ 64
  pub alert : may_go s.waiters s.max s.count ≡ true → s.notified ≡ true

sum-++ : (ns : List ℕ) (n : ℕ) → sum (ns ++ n ∷ []) ≡ sum ns + n
unfolding sum
sum-++ [] n = omega arith
sum-++ (m ∷ ns) n = ground (arith, sum-++ ns n)

sum-drop_at : (i : ℕ) (ns : List ℕ) → sum (drop_at i ns) ≤ sum ns
unfolding sum drop_at
sum-drop_at i [] = omega arith
sum-drop_at zero (n ∷ ns) = omega arith
sum-drop_at (suc i) (n ∷ ns) = ground (arith, sum-drop_at i ns)

-- A notification goes to the first waiter, whoever it is.
notify-IsAlert : (s : Throttle) → demand s < 2 ^ 64 → IsAlert (notify s)
unfolding notify
notify-IsAlert s h = record { bounded = h; alert = go s.waiters }
  where
    go : (ns : List ℕ) → may_go ns s.max s.count ≡ true → not (is_empty ns) ≡ true
    go [] g = g
    go (n ∷ ns) g = refl

-- A first waiter that has to wait still has to when more is held.
waits_more :
    (n k : ℕ) (s : Throttle)
    → s.count + n + k < 2 ^ 64
    → should_wait n s.max (add64 s.count k) ≡ false
    → should_wait n s.max s.count ≡ false
unfolding should_wait
waits_more n k s h =
    ground (arith, add64-eq s.count k, add64-eq s.count n, add64-eq (s.count + k) n)

may_go_more :
    (k : ℕ) (ns : List ℕ) (s : Throttle)
    → s.count + sum ns + k < 2 ^ 64
    → may_go ns s.max (add64 s.count k) ≡ true
    → may_go ns s.max s.count ≡ true
unfolding sum
may_go_more k [] s h g = g
may_go_more k (n ∷ ns) s h g = ground (arith, g, waits_more n k s)

may_go_queued :
    (n : ℕ) (ns : List ℕ) (s : Throttle)
    → (not (should_wait n s.max s.count) && is_empty ns) ≡ false
    → may_go (ns ++ n ∷ []) s.max s.count ≡ true
    → may_go ns s.max s.count ≡ true
may_go_queued n [] s h g = ground (arith, h, g)
may_go_queued n (m ∷ ns) s h g = g

add_count-IsAlert :
    (k : ℕ) (s : Throttle) → demand s + k < 2 ^ 64 → IsAlert s → IsAlert (add_count k s)
add_count-IsAlert k s h a = record {
  bounded = ground (arith, add64-eq s.count k);
  alert = λ g. a.alert (may_go_more k s.waiters s h g);
}

get-IsAlert : (n : ℕ) (s : Throttle) → demand s + n < 2 ^ 64 → IsAlert s → IsAlert (get n s)
unfolding get can_pass
get-IsAlert n s h a =
    if-cases IsAlert (can_pass n s) (λ p. add_count-IsAlert n s h a)
      (λ p. record {
        bounded = ground (arith, sum-++ s.waiters n);
        alert = λ g. a.alert (may_go_queued n s.waiters s p g);
      })

acquire-IsAlert :
    (n : ℕ) (ns : List ℕ) (s : Throttle)
    → s.count + (n + sum ns) < 2 ^ 64
    → IsAlert (acquire n ns s)
unfolding acquire
acquire-IsAlert n ns s h =
    notify-IsAlert (record s { count = add64 s.count n; waiters = ns })
      (ground (arith, add64-eq s.count n))

-- The first waiter goes on, or stays since its predicate is false.
front_sum :
    (n : ℕ) (ns : List ℕ) (s : Throttle) → s.waiters ≡ n ∷ ns → demand s ≡ s.count + (n + sum ns)
unfolding sum
front_sum n ns s e = ap (λ l. s.count + sum l) e

wake_front-IsAlert :
    (ns : List ℕ) (s : Throttle) → s.waiters ≡ ns → IsAlert s → IsAlert (wake_front ns s)
wake_front-IsAlert [] s e a = a
wake_front-IsAlert (n ∷ ns) s e a =
    if-cases IsAlert (should_wait n s.max s.count)
      (λ w. record {
        bounded = a.bounded;
        alert = λ g. ground (arith, w, g, ap (λ l. may_go l s.max s.count) e);
      })
      (λ w. acquire-IsAlert n ns s (ground (arith, a.bounded, front_sum n ns s e)))

leave_queue-IsAlert : (i : ℕ) (s : Throttle) → IsAlert s → IsAlert (leave_queue i s)
unfolding leave_queue
leave_queue-IsAlert i s a =
    notify-IsAlert (record s { waiters = drop_at i s.waiters })
      (ground (arith, a.bounded, sum-drop_at i s.waiters))

time_out_front-IsAlert :
    (ns : List ℕ) (s : Throttle) → s.waiters ≡ ns → IsAlert s → IsAlert (time_out_front ns s)
time_out_front-IsAlert [] s e a = a
time_out_front-IsAlert (n ∷ ns) s e a =
    if-cases IsAlert (should_wait n s.max s.count) (λ w. leave_queue-IsAlert 0 s a)
      (λ w. acquire-IsAlert n ns s (ground (arith, a.bounded, front_sum n ns s e)))

time_out-IsAlert : (i : ℕ) (s : Throttle) → IsAlert s → IsAlert (time_out i s)
unfolding time_out
time_out-IsAlert zero s a = time_out_front-IsAlert s.waiters s refl a
time_out-IsAlert (suc i) s a = leave_queue-IsAlert (suc i) s a

put-IsAlert : (n : ℕ) (s t : Throttle) → put n s ≡ some t → IsAlert s → IsAlert t
unfolding put
put-IsAlert n s t h a = elim (Bool-cases (leb n s.count)) [
  | inl g ↦
      subst IsAlert
        (some-injective _ _ (
          ap (λ b. if b then some (notify (record s { count = s.count - n })) else none) (sym g)
          ∙ h))
        (notify-IsAlert (record s { count = s.count - n }) (ground (arith, a.bounded)))
  | inr g ↦ ground (arith, g, h)
]

Step-IsAlert : {s t : Throttle} → Step s t → IsAlert s → IsAlert t
unfolding get_or_fail take wake reset_max reset
Step-IsAlert {s} (got n h) a = get-IsAlert n s h a
Step-IsAlert {s} (tried n h) a =
    if-cases (λ (r : Bool × Throttle). IsAlert r.1) (can_pass n s) (λ p. add_count-IsAlert n s h a)
      (λ p. a)
Step-IsAlert {s} (took n h) a =
    if-cases (λ (r : ℕ × Throttle). IsAlert r.1) (s.max == 0) (λ p. a)
      (λ p. add_count-IsAlert n s h a)
Step-IsAlert {s} woke a = wake_front-IsAlert s.waiters s refl a
Step-IsAlert {s} (timed_out i) a = time_out-IsAlert i s a
Step-IsAlert {s} {t} (gave n h) a = put-IsAlert n s t h a
Step-IsAlert {s} (set_max m) a =
    if-cases IsAlert (s.max == m) (λ p. a) (λ p. notify-IsAlert (record s { max = m }) a.bounded)
Step-IsAlert {s} cleared a = notify-IsAlert (record s { count = 0 }) (ground (arith, a.bounded))

-- In every state reached by calls, wake-ups and time limits in any order, where held and requested
-- resources stay below 2^64: if the first waiter may go on, it has been notified.
pub Reach-IsAlert : (m : ℕ) (s : Throttle) → Reach m s → IsAlert s
unfolding sum
Reach-IsAlert m _ start = record { bounded = omega arith; alert = λ g. ground (arith, g) }
Reach-IsAlert m t (next {s} r h) = Step-IsAlert h (Reach-IsAlert m s r)
