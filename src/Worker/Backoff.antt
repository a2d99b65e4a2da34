-- ===== src/Worker/Backoff.antt =====
-- `nextBackoff` of internal/worker/processor.go, in the int64 arithmetic of time.Duration.
use glsync.Base.{
  pow-step, pow_pos, ℕ, zero, suc, ◌-◌, ◌*◌, ◌%◌, ◌^◌, ◌≤◌, ℤ, pos, negsuc, Bool, false, ◌≡◌, arith,
  ltb, if◌then◌else◌, Bool-cases, inl, inr,
}
use glsync.Config.{second, minute}

abbrev pub base_backoff : ℕ
base_backoff = 30 * second

abbrev pub max_backoff : ℕ
max_backoff = 30 * minute

abbrev max_exp : ℕ
max_exp = 20

-- The integer that 64 bits stand for in two's complement.
abbrev to_i64 : ℕ → ℤ
to_i64 n = if ltb n (2 ^ 63) then pos n else negsuc (2 ^ 64 - 1 - n)

-- The product of two non-negative int64 values, which wraps.
mul_i64 : ℕ → ℕ → ℤ
mul_i64 a b = to_i64 (a * b % 2 ^ 64)

-- `d > maxBackoff`
exceeds : ℤ → ℕ → Bool
exceeds (pos n) limit = ltb limit n
exceeds (negsuc n) limit = false

-- `math.Pow(2, float64(attempts))` is exact up to the clamp.
unfoldable pub next_backoff : ℕ → ℤ
unfolding mul_i64 exceeds
next_backoff attempts =
    let d = mul_i64 (2 ^ attempts) base_backoff in
    if ltb max_exp attempts
    then pos max_backoff
    else if exceeds d max_backoff
    then pos max_backoff
    else d

-- min(2^attempts * baseBackoff, maxBackoff), in unbounded arithmetic
abbrev pub capped : ℕ → ℕ
capped attempts =
    if ltb max_backoff (2 ^ attempts * base_backoff)
    then max_backoff
    else 2 ^ attempts * base_backoff

pow_mono : (n m : ℕ) → n ≤ m → 2 ^ n ≤ 2 ^ m
pow_mono zero m h = pow_pos m
pow_mono (suc n) zero h = absurd (omega arith)
pow_mono (suc n) (suc m) h = omega (arith, pow-step n, pow-step m, pow_mono n m (omega arith))

-- Up to the clamp nothing wraps.
to_i64-product : (p : ℕ) → p ≤ 2 ^ 20 → mul_i64 p base_backoff ≡ pos (p * base_backoff)
unfolding mul_i64
to_i64-product p h = ground arith

capped_beyond :
    (p : ℕ)
    → 2 ^ 21 ≤ p
    → (if ltb max_backoff (p * base_backoff) then max_backoff else p * base_backoff) ≡ max_backoff
capped_beyond p h = ground arith

exceeds_lem :
    (p : ℕ)
    → (if exceeds (pos p) max_backoff then pos max_backoff else pos p)
      ≡ pos (if ltb max_backoff p then max_backoff else p)
unfolding exceeds
exceeds_lem p = ground arith

-- For every number of attempts the delay is 2^attempts times 30 seconds, capped at 30 minutes, as in
-- arithmetic without overflow.
pub next_backoff-capped : (attempts : ℕ) → next_backoff attempts ≡ pos (capped attempts)
unfolding next_backoff
next_backoff-capped a = elim (Bool-cases (ltb max_exp a)) [
  | inl big ↦ rw (big, capped_beyond (2 ^ a) (pow_mono 21 a (ground arith)))
  | inr small ↦
      rw (small, to_i64-product (2 ^ a) (pow_mono a 20 (ground arith)))
        (exceeds_lem (2 ^ a * base_backoff))
]

capped_bounds :
    (a : ℕ) → (base_backoff ≤ capped a) × (capped a ≤ max_backoff) × (capped a ≤ capped (suc a))
capped_bounds a = ground (arith, pow-step a, pow_pos a)

-- The delay lies between 30 seconds and 30 minutes, and one more attempt never shortens it.
next_backoff_bounds :
    (attempts d e : ℕ)
    → next_backoff attempts ≡ pos d
    → next_backoff (suc attempts) ≡ pos e
    → (30 * second ≤ d) × (d ≤ 30 * minute) × (d ≤ e)
next_backoff_bounds a d e p q =
    ground (arith, next_backoff-capped a, next_backoff-capped (suc a), capped_bounds a)
