-- ===== src/Delivery/Backoff.antt =====
-- node_delivery.py: the waits between the attempts.
use Prim.Native.Nat.{◌^◌}
use native.Mathlib.Nat.{
  pow-le-pow_left, pow-succ', pow-suc, mul_assoc, mul-le-mul_left, le-div_iff_mul-le,
  div-mul-le_self, mul-div-mul_right,
}
use cyber_hive.Prelude.{
  string_eq, nat_eq, is_ok, ℕ, zero, suc, ◌-◌, ◌*◌, ◌/◌, ◌≤◌, ◌<◌, ◌≡◌, sym, ◌⊎◌, inl, inr, true,
  arith,
}
use cyber_hive.Delivery.Item.{DeliveryPolicy, new_policy, second, backoff_for_attempt}

le_refl : (n : ℕ) → n ≤ n
le_refl n = omega arith

power_pos : (k : ℕ) → 0 < 1000 ^ k
power_pos zero = omega arith
power_pos (suc k) = omega (arith, power_pos k, pow-succ' 1000 k)

div_le_div : (a b c : ℕ) → 0 < c → a ≤ b → a / c ≤ b / c
div_le_div a b c p h = (le-div_iff_mul-le p).1 (omega (arith, div-mul-le_self a c))

-- the delay before it is capped, with `k` for the exponent
abbrev delay : DeliveryPolicy → ℕ → ℕ
delay p k = p.initial_backoff_seconds * p.backoff_multiplier ^ k / 1000 ^ k

delay_first :
    (p : DeliveryPolicy) (k : ℕ)
    → 1000 ≤ p.backoff_multiplier
    → p.initial_backoff_seconds ≤ delay p k
delay_first p k h =
    (le-div_iff_mul-le (power_pos k)).1
      (mul-le-mul_left p.initial_backoff_seconds (pow-le-pow_left h k))

delay_next :
    (p : DeliveryPolicy) (k : ℕ) → 1000 ≤ p.backoff_multiplier → delay p k ≤ delay p (suc k)
delay_next p k h =
    let n = p.initial_backoff_seconds * p.backoff_multiplier ^ k in
    let more : n * 1000 ≤ p.initial_backoff_seconds * p.backoff_multiplier ^ suc k =
      rw
        (
          pow-suc p.backoff_multiplier k,
          sym (mul_assoc p.initial_backoff_seconds (p.backoff_multiplier ^ k) p.backoff_multiplier),
        )
        (mul-le-mul_left n h) in
    let wider : n * 1000 / 1000 ^ suc k ≡ delay p k =
      rw (pow-suc 1000 k) (mul-div-mul_right n (1000 ^ k) (omega arith)) in
    rw (sym wider) (
      div_le_div (n * 1000) (p.initial_backoff_seconds * p.backoff_multiplier ^ suc k)
        (1000 ^ suc k) (power_pos (suc k)) more)

le_cases : (k j : ℕ) → k ≤ suc j → (k ≡ suc j) ⊎ (k ≤ j)
le_cases k j h = ground arith

delay_mono :
    (p : DeliveryPolicy) (k j : ℕ) → 1000 ≤ p.backoff_multiplier → k ≤ j → delay p k ≤ delay p j
delay_mono p k zero h le = let same : k ≡ 0 = omega arith in rw same (le_refl (delay p 0))
delay_mono p k (suc j) h le = elim (le_cases k j le) [
  | inl same ↦ rw same (le_refl (delay p (suc j)))
  | inr below ↦ omega (arith, delay_mono p k j h below, delay_next p j h)
]

new_policy-valid :
    (p : DeliveryPolicy)
    → is_ok (new_policy p) ≡ true
    → (1000 ≤ p.backoff_multiplier) × (p.initial_backoff_seconds ≤ p.max_backoff_seconds)
unfolding new_policy
new_policy-valid p h = ground arith

-- Under a policy that the constructor accepts the waits never fall from one attempt to a later one, and
-- each lies between the initial and the greatest backoff.
pub backoff_for_attempt-bounds :
    (p : DeliveryPolicy) (first later : ℕ)
    → is_ok (new_policy p) ≡ true
    → first ≤ later
    → (backoff_for_attempt p first ≤ backoff_for_attempt p later)
      × (second * p.initial_backoff_seconds ≤ backoff_for_attempt p first)
      × (backoff_for_attempt p later ≤ second * p.max_backoff_seconds)
unfolding backoff_for_attempt
backoff_for_attempt-bounds p first later h le =
    let valid = new_policy-valid p h in
    let low = delay_first p (first - 1) valid.0 in
    let rise = delay_mono p (first - 1) (later - 1) valid.0 (omega arith) in
    (
      omega (arith, low, rise, valid.1),
      omega (arith, low, rise, valid.1),
      omega (arith, low, rise, valid.1),
    )
