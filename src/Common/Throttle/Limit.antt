-- ===== src/Common/Throttle/Limit.antt =====
-- common/throttle.cc: requests within the limit keep the count within it.
use cxxlab.Prelude.{
  ℕ, ◌-◌, ◌^◌, ◌≤◌, ◌<◌, ◌≡◌, refl, Bool, true, false, List, [], ◌∷◌, ◌++◌, none, some, arith, leb,
  if◌then◌else◌, add64, add64-eq, if-cases, ap, sym, ◌∙◌, zero, suc, All, Bool-cases, inl, inr,
}
use mathlib.Core.Path.{subst}
use mathlib.Core.Option.{some-injective}
use cxxlab.Common.Throttle.{
  Throttle, new_throttle, should_wait, notify, can_pass, add_count, get, get_or_fail, acquire, wake,
  wake_front, drop_at, leave_queue, time_out, time_out_front, put, reset,
}

-- Requests of at most the limit, without take and without a change of the limit.
pub data Request (s : Throttle) : Throttle → Type 0 where
  got : (n : ℕ) → n ≤ s.max → Request s (get n s)
  tried : (n : ℕ) → n ≤ s.max → Request s (get_or_fail n s).1
  woke : Request s (wake s)
  timed_out : (i : ℕ) → Request s (time_out i s)
  gave : (n : ℕ) {t : Throttle} → put n s ≡ some t → Request s t
  cleared : Request s (reset s)

pub data Requests (m : ℕ) : Throttle → Type 0 where
  start : Requests m (new_throttle m)
  next : {s t : Throttle} → Requests m s → Request s t → Requests m t

pub record IsWithin (m : ℕ) (s : Throttle) : Type 0 where
  pub limit : s.max ≡ m
  pub within : s.count ≤ m
  pub small : All (λ n. n ≤ m) s.waiters

admitted :
    (n m cur : ℕ)
    → n ≤ m
    → cur ≤ m
    → 0 < m
    → m < 2 ^ 63
    → should_wait n m cur ≡ false
    → add64 cur n ≤ m
unfolding should_wait
admitted n m cur h k p q w = ground (arith, w, add64-eq cur n)

-- What the first waiter leaves when it goes on.
acquire-IsWithin :
    (n m : ℕ) (ns : List ℕ) (s : Throttle)
    → 0 < m
    → m < 2 ^ 63
    → IsWithin m s
    → n ≤ m
    → All (λ k. k ≤ m) ns
    → should_wait n s.max s.count ≡ false
    → IsWithin m (acquire n ns s)
unfolding acquire notify
acquire-IsWithin n m ns s p q v h a w = record {
  limit = v.limit;
  within =
      admitted n m s.count h v.within p q (ap (λ l. should_wait n l s.count) (sym v.limit) ∙ w);
  small = a;
}

drop_at-All : (m i : ℕ) (ns : List ℕ) → All (λ k. k ≤ m) ns → All (λ k. k ≤ m) (drop_at i ns)
unfolding drop_at
drop_at-All m i [] a = a
drop_at-All m zero (n ∷ ns) a = a.1
drop_at-All m (suc i) (n ∷ ns) a = (a.0, drop_at-All m i ns a.1)

queue-All :
    {m : ℕ} (n : ℕ) (ns : List ℕ) → n ≤ m → All (λ k. k ≤ m) ns → All (λ k. k ≤ m) (ns ++ n ∷ [])
queue-All n [] h a = (h, tt)
queue-All n (k ∷ ns) h a = (a.0, queue-All n ns h a.1)

leave_queue-IsWithin : (i m : ℕ) (s : Throttle) → IsWithin m s → IsWithin m (leave_queue i s)
unfolding leave_queue notify
leave_queue-IsWithin i m s v = record {
  limit = v.limit;
  within = v.within;
  small = drop_at-All m i s.waiters v.small;
}

module _ (m : ℕ) (p : 0 < m) (q : m < 2 ^ 63) where
  pass-IsWithin :
      (n : ℕ) (s : Throttle)
      → n ≤ s.max
      → can_pass n s ≡ true
      → IsWithin m s
      → IsWithin m (add_count n s)
  unfolding can_pass
  pass-IsWithin n s h c v = record {
    limit = v.limit;
    within =
        admitted n m s.count (omega (arith, h, v.limit)) v.within p q
          (ground (arith, c, ap (λ l. should_wait n l s.count) v.limit));
    small = v.small;
  }

  front-IsWithin :
      (ns : List ℕ) (s t : Throttle)
      → s.waiters ≡ ns
      → IsWithin m s
      → IsWithin m t
      → (n : ℕ) (rest : List ℕ) → ns ≡ n ∷ rest
      → IsWithin m (if should_wait n s.max s.count then t else acquire n rest s)
  front-IsWithin ns s t e v w n rest d =
      let a = subst (All (λ k. k ≤ m)) (e ∙ d) v.small in
      if-cases (IsWithin m) (should_wait n s.max s.count) (λ g. w)
        (λ g. acquire-IsWithin n m rest s p q v a.0 a.1 g)

  wake_front-IsWithin :
      (ns : List ℕ) (s : Throttle) → s.waiters ≡ ns → IsWithin m s → IsWithin m (wake_front ns s)
  wake_front-IsWithin [] s e v = v
  wake_front-IsWithin (n ∷ ns) s e v =
      front-IsWithin (n ∷ ns) s (record s { notified = false }) e v
        (record { limit = v.limit; within = v.within; small = v.small }) n ns refl

  time_out_front-IsWithin :
      (ns : List ℕ) (s : Throttle)
      → s.waiters ≡ ns
      → IsWithin m s
      → IsWithin m (time_out_front ns s)
  time_out_front-IsWithin [] s e v = v
  time_out_front-IsWithin (n ∷ ns) s e v =
      front-IsWithin (n ∷ ns) s (leave_queue 0 s) e v (leave_queue-IsWithin 0 m s v) n ns refl

  time_out-IsWithin : (i : ℕ) (s : Throttle) → IsWithin m s → IsWithin m (time_out i s)
  unfolding time_out
  time_out-IsWithin zero s v = time_out_front-IsWithin s.waiters s refl v
  time_out-IsWithin (suc i) s v = leave_queue-IsWithin (suc i) m s v

  put-IsWithin : (n : ℕ) (s t : Throttle) → put n s ≡ some t → IsWithin m s → IsWithin m t
  unfolding put notify
  put-IsWithin n s t h v = elim (Bool-cases (leb n s.count)) [
    | inl g ↦
        subst (IsWithin m)
          (some-injective _ _ (
            ap (λ b. if b then some (notify (record s { count = s.count - n })) else none) (sym g)
            ∙ h))
          (record { limit = v.limit; within = omega (arith, v.within); small = v.small })
    | inr g ↦ ground (arith, g, h)
  ]

  Request-IsWithin : {s t : Throttle} → Request s t → IsWithin m s → IsWithin m t
  unfolding get get_or_fail wake reset notify
  Request-IsWithin {s} (got n h) v =
      if-cases (IsWithin m) (can_pass n s) (λ c. pass-IsWithin n s h c v)
        (λ c. record {
          limit = v.limit;
          within = v.within;
          small = queue-All n s.waiters (omega (arith, h, v.limit)) v.small;
        })
  Request-IsWithin {s} (tried n h) v =
      if-cases (λ (r : Bool × Throttle). IsWithin m r.1) (can_pass n s)
        (λ c. pass-IsWithin n s h c v) (λ c. v)
  Request-IsWithin {s} woke v = wake_front-IsWithin s.waiters s refl v
  Request-IsWithin {s} (timed_out i) v = time_out-IsWithin i s v
  Request-IsWithin {s} {t} (gave n h) v = put-IsWithin n s t h v
  Request-IsWithin {s} cleared v = record { limit = v.limit; within = omega arith; small = v.small }

  -- Where the limit is positive and below 2^63: requests of at most the limit, wake-ups, time
  -- limits, releases and resets, in any order, keep the count within the limit.
  pub Requests-IsWithin : (s : Throttle) → Requests m s → IsWithin m s
  Requests-IsWithin _ start = record { limit = refl; within = omega arith; small = tt }
  Requests-IsWithin t (next {s} r h) = Request-IsWithin h (Requests-IsWithin s r)
