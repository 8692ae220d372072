-- ===== src/Delivery/Lifecycle.antt =====
-- node_delivery.py: the ways in which the code changes an item, as a step relation, and the abstract
-- life cycle of a delivery, which looks at the status and the number of attempts only.
use cyber_hive.Prelude.{string_eq, nat_eq, ℕ, ◌+◌, ◌≤◌, ◌<◌, String, ◌≡◌, true, false, arith}
use cyber_hive.Delivery.Changes.{
  mark_dispatched, mark_acked, mark_expired, mark_dead_letter, wait_for_retry, mark_cancelled,
}
use cyber_hive.Delivery.Item.{
  DeliveryStatus, queued, dispatched, acked, retry_wait, expired, dead_letter, cancelled,
  DeliveryItem, is_terminal, terminal, is_waiting,
}

-- One change of an item with what the code has tested before it.
pub data Move (r : DeliveryItem) : DeliveryItem → Type 0 where
  sends :
      (envelope : String) (now : ℕ)
      → is_waiting r.status ≡ true
      → Move r (mark_dispatched r envelope now)
  waits :
      (reason : String) (now : ℕ)
      → terminal r ≡ false
      → r.attempts < r.policy.max_attempts
      → Move r (wait_for_retry r reason now)
  gives_up :
      (reason : String) (now : ℕ)
      → terminal r ≡ false
      → r.policy.max_attempts ≤ r.attempts
      → Move r (mark_dead_letter r reason now)
  completes : (reason : String) (now : ℕ) → terminal r ≡ false → Move r (mark_acked r reason now)
  lapses :
      (reason : String) (now : ℕ)
      → terminal r ≡ false
      → r.expires_at ≤ now
      → Move r (mark_expired r reason now)
  stops : (reason : String) (now : ℕ) → terminal r ≡ false → Move r (mark_cancelled r reason now)

-- The abstract life cycle: a status with the attempts so far, out of `most`.
pub record Stage : Type 0 where
  pub status : DeliveryStatus
  pub attempts : ℕ

abbrev stage_at : DeliveryStatus → ℕ → Stage
stage_at status attempts = record { status = status; attempts = attempts }

-- the statuses that a delivery can leave
pub data IsLive : DeliveryStatus → Type 0 where
  live_queued : IsLive queued
  live_dispatched : IsLive dispatched
  live_waiting : IsLive retry_wait

pub data Advance (most : ℕ) : Stage → Stage → Type 0 where
  dispatch_first : {n : ℕ} → Advance most (stage_at queued n) (stage_at dispatched (n + 1))
  dispatch_again : {n : ℕ} → Advance most (stage_at retry_wait n) (stage_at dispatched (n + 1))
  wait :
      {s : DeliveryStatus} {n : ℕ}
      → IsLive s
      → n < most
      → Advance most (stage_at s n) (stage_at retry_wait n)
  give_up :
      {s : DeliveryStatus} {n : ℕ}
      → IsLive s
      → most ≤ n
      → Advance most (stage_at s n) (stage_at dead_letter n)
  complete :
      {s : DeliveryStatus} {n : ℕ} → IsLive s → Advance most (stage_at s n) (stage_at acked n)
  lapse : {s : DeliveryStatus} {n : ℕ} → IsLive s → Advance most (stage_at s n) (stage_at expired n)
  stop :
      {s : DeliveryStatus} {n : ℕ} → IsLive s → Advance most (stage_at s n) (stage_at cancelled n)

pub data Reaches (most : ℕ) (s : Stage) : Stage → Type 0 where
  here : Reaches most s s
  then : {t u : Stage} → Reaches most s t → Advance most t u → Reaches most s u

abbrev pub stage : DeliveryItem → Stage
stage r = stage_at r.status r.attempts

terminal-IsLive : (s : DeliveryStatus) → is_terminal s ≡ false → IsLive s
unfolding is_terminal
terminal-IsLive queued h = live_queued
terminal-IsLive dispatched h = live_dispatched
terminal-IsLive retry_wait h = live_waiting
terminal-IsLive acked h = ground arith
terminal-IsLive expired h = ground arith
terminal-IsLive dead_letter h = ground arith
terminal-IsLive cancelled h = ground arith

sent_from :
    (most n : ℕ) (s : DeliveryStatus)
    → is_waiting s ≡ true
    → Advance most (stage_at s n) (stage_at dispatched (n + 1))
sent_from most n queued h = dispatch_first
sent_from most n retry_wait h = dispatch_again
sent_from most n dispatched h = ground arith
sent_from most n acked h = ground arith
sent_from most n expired h = ground arith
sent_from most n dead_letter h = ground arith
sent_from most n cancelled h = ground arith

pub Move-Advance :
    {r r' : DeliveryItem} → Move r r' → Advance r.policy.max_attempts (stage r) (stage r')
unfolding mark_dispatched wait_for_retry mark_dead_letter mark_acked mark_expired mark_cancelled
    terminal
Move-Advance {r = r} (sends envelope now w) = sent_from r.policy.max_attempts r.attempts r.status w
Move-Advance {r = r} (waits reason now l m) = wait (terminal-IsLive r.status l) m
Move-Advance {r = r} (gives_up reason now l m) = give_up (terminal-IsLive r.status l) m
Move-Advance {r = r} (completes reason now l) = complete (terminal-IsLive r.status l)
Move-Advance {r = r} (lapses reason now l e) = lapse (terminal-IsLive r.status l)
Move-Advance {r = r} (stops reason now l) = stop (terminal-IsLive r.status l)
