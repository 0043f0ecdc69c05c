-- ===== src/Store/Queue/Retry.antt =====
-- `retry_or_dead_letter` of agent_resilience/store.py: its delays, and the choice between another
-- attempt and the dead letters.
use agent_resilience_runtime.Prelude.{
  ◌⊎◌, inl, inr, sym, Bool-cases, leb, ℕ, ◌+◌, ◌-◌, ◌*◌, ◌^◌, ◌≤◌, ◌<◌, min, String, false, none,
  some, ◌≡◌, refl, ◌∙◌, if◌then◌else◌, arith, le→leb,
}
use native.Mathlib.Nat.{pow-le-pow_right}
use agent_resilience_runtime.Prelude.Rows.{find_sound}
use agent_resilience_runtime.Exec.{ok, err, ok_inj}
use agent_resilience_runtime.Models.{QueueDelivery}
use agent_resilience_runtime.Store.Tables.{World, QueueRow, QueueStatus}
use agent_resilience_runtime.Store.Queue.{
  second, overflow_error, put_back, retry_delay, retry_or_dead_letter, is_exhausted, requeue,
  has_id, stored_error,
}
use agent_resilience_runtime.Store.Queue.Claim.{row_of, row_of-update}

grows : (base i j : ℕ) → i ≤ j → base * 2 ^ i ≤ base * 2 ^ j
grows base i j h = let e : 2 ^ i ≤ 2 ^ j = pow-le-pow_right (omega arith) h in grind arith

once : (base : ℕ) → base * 2 ^ 0 ≡ base
once base = omega arith

-- The delay of an attempt that it is computed for.
pub delay_of :
    (base attempts : ℕ)
    → attempts ≤ 1_024
    → retry_delay base attempts ≡ ok (min (60 * second) (base * 2 ^ (attempts - 1)))
unfolding retry_delay
delay_of base attempts h = rw (le→leb attempts 1_024 h) refl

delay_overflows :
    (base attempts : ℕ) → 1_024 < attempts → retry_delay base attempts ≡ err overflow_error
unfolding retry_delay
delay_overflows base attempts h = rw (late attempts h) refl
  where
    late : (attempts : ℕ) → 1_024 < attempts → leb attempts 1_024 ≡ false
    late attempts h = ground arith

-- Up to 1024 attempts there is a delay before another attempt: at most a minute, the base delay after
-- the first attempt unless that is longer than a minute, and never shorter than the delay before the
-- attempt before. From 1025 attempts on its computation raises `OverflowError`.
pub retry_delay-bounds :
    (base attempts : ℕ)
    → (1_024 < attempts → retry_delay base attempts ≡ err overflow_error)
      × (attempts ≤ 1_024
          → (delay : ℕ) × (retry_delay base attempts ≡ ok delay) × (delay ≤ 60 * second))
      × (retry_delay base 1 ≡ ok (min (60 * second) base))
      × ((delay later : ℕ)
          → retry_delay base attempts ≡ ok delay
          → retry_delay base (attempts + 1) ≡ ok later
          → delay ≤ later)
retry_delay-bounds base attempts = (
  delay_overflows base attempts,
  λ h. (_, delay_of base attempts h, omega arith),
  delay_of base 1 (omega arith) ∙ rw (once base) refl,
  longer base attempts,
)
  where
    longer :
        (base attempts delay later : ℕ)
        → retry_delay base attempts ≡ ok delay
        → retry_delay base (attempts + 1) ≡ ok later
        → delay ≤ later
    longer base attempts delay later h k = elim (le_or_gt (attempts + 1)) [
      | inr late ↦ absurd (cc (sym (delay_overflows base (attempts + 1) late) ∙ k))
      | inl soon ↦
          let a = ok_inj (sym (delay_of base attempts (omega (arith, soon))) ∙ h) in
          let b = ok_inj (sym (delay_of base (attempts + 1) soon) ∙ k) in
          let g = grows base (attempts - 1) (attempts + 1 - 1) (omega arith) in
          omega (arith, a, b, g)
    ]
      where
        le_or_gt : (n : ℕ) → (n ≤ 1_024) ⊎ (1_024 < n)
        le_or_gt n = elim (Bool-cases (leb n 1_024)) [
          | inl h ↦ inl (ground arith)
          | inr h ↦ inr (ground arith)
        ]

-- What becomes of the row, given the delay.
put_back-decides :
    (d : QueueDelivery) (error : String) (delay : ℕ) (w : World) (r : QueueRow)
    → row_of d.id w ≡ some r
    → row_of d.id (put_back d error (ok delay) w).1
      ≡ some (
          requeue
            (is_exhausted d)
            (if is_exhausted d then w.now else w.now + delay)
            w.now
            (stored_error error)
            r)
put_back-decides d error delay w r found =
    row_of-update d.id (has_id d.id) _ w (λ q. refl)
    ∙ rw (found, find_sound (has_id d.id) w.queue r found) refl

-- A failed delivery that has a row and at most 1024 attempts is dead exactly if the attempts have
-- reached the maximum. Its row then is `DEAD` and has no lease; otherwise it is pending again, available
-- after the delay. From 1025 attempts on, dead or not, `OverflowError` is raised and nothing is written.
pub retry_or_dead_letter-decides :
    (d : QueueDelivery) (error : String) (base : ℕ) (w : World) (r : QueueRow)
    → row_of d.id w ≡ some r
    → let (answer, w') = retry_or_dead_letter d error base w in
      (1_024 < d.attempts → (answer ≡ err overflow_error) × (w' ≡ w))
      × (d.attempts ≤ 1_024 → answer ≡ ok (is_exhausted d))
      × (d.attempts ≤ 1_024
          → d.max_attempts ≤ d.attempts
          → row_of d.id w'
            ≡ some (record r {
              status = QueueStatus.dead;
              available_at = w.now;
              lease_until = none;
              worker_id = none;
              last_error = some (stored_error error);
              updated_at = w.now;
            }))
      × (d.attempts ≤ 1_024
          → d.attempts < d.max_attempts
          → row_of d.id w'
            ≡ some (record r {
              status = QueueStatus.pending;
              available_at = w.now + min (60 * second) (base * 2 ^ (d.attempts - 1));
              lease_until = none;
              worker_id = none;
              last_error = some (stored_error error);
              updated_at = w.now;
            }))
unfolding retry_or_dead_letter
retry_or_dead_letter-decides d error base w r found = (
  λ late. rw (delay_overflows base d.attempts late) (refl, refl),
  λ soon. rw (delay_of base d.attempts soon) refl,
  λ soon spent.
      rw (delay_of base d.attempts soon)
        (put_back-decides d error _ w r found ∙ rw (le→leb _ _ spent) refl),
  λ soon left.
      rw (delay_of base d.attempts soon)
        (put_back-decides d error _ w r found ∙ rw (unspent d left) refl),
)
  where
    unspent : (d : QueueDelivery) → d.attempts < d.max_attempts → is_exhausted d ≡ false
    unspent d h = ground arith
