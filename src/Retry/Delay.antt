-- ===== src/Retry/Delay.antt =====
-- Bounds and the closed form of the delay cap (internal/retry/retry.go).
use native.Mathlib.Nat.{pow-suc}
use webhookery.Common.{
  Option-cases, ℕ, zero, suc, ◌+◌, ◌*◌, ◌^◌, ◌≤◌, ◌<◌, min, ◌≡◌, refl, false, Option, none, some,
  arith, leb, if◌then◌else◌, Bool-cases, inl, inr, ◌∙◌, ap,
}
use webhookery.Common.Int.{ℤ, pos, negsuc, pos_part, ◌+ℤ◌, wrap64, wrap64_small, leb_ℤ}
use webhookery.Retry.{
  Policy, Rng, crypto, seeded, draw, min_duration, normalize_attempt, double_until, delay_cap,
  next_delay,
}

-- A policy whose delays are not negative and leave room for one doubling in 64 bits. The service
-- accepts at most 86400 s, which is far below.
pub record IsSane (p : Policy) (initial cap : ℕ) : Type 0 where
  pub initial_is : p.initial_delay ≡ pos initial
  pub max_is : p.max_delay ≡ pos cap
  pub initial_small : initial < 2 ^ 62
  pub cap_small : cap ≤ 2 ^ 62

one-le-pow : (n : ℕ) → 1 ≤ 2 ^ n
one-le-pow zero = omega arith
one-le-pow (suc n) = rw (pow-suc 2 n) (omega (arith, one-le-pow n))

wrap64-double : (i : ℕ) → i < 2 ^ 62 → wrap64 (pos i +ℤ pos i) ≡ pos (i + i)
wrap64-double i h = ap wrap64 (sum_lem i) ∙ wrap64_small (i + i) (omega arith)
  where
    sum_lem : (k : ℕ) → pos k +ℤ pos k ≡ pos (k + k)
    sum_lem k = unfold ◌+ℤ◌ in ground arith

double_until-step :
    (n i m : ℕ)
    → i < 2 ^ 62
    → double_until (suc n) (pos i) (pos m)
      ≡ (if leb m (i + i) then pos m else double_until n (pos (i + i)) (pos m))
unfolding double_until
double_until-step n i m h = rw (wrap64-double i h) (ground arith)

min-double : (i n m : ℕ) → m ≤ i + i → min (i * 2 ^ suc n) m ≡ m
min-double i n m h = rw (pow-suc 2 n) (grind (arith, one-le-pow n))

times-double : (i n : ℕ) → (i + i) * 2 ^ n ≡ i * 2 ^ suc n
times-double i n = rw (pow-suc 2 n) (omega arith)

double_until-min :
    (n i m : ℕ)
    → i < 2 ^ 62
    → m ≤ 2 ^ 62
    → min_duration (double_until n (pos i) (pos m)) (pos m) ≡ pos (min (i * 2 ^ n) m)
double_until-min zero i m h k = unfold min_duration double_until in ground arith
double_until-min (suc n) i m h k = elim (Bool-cases (leb m (i + i))) [
  | inl large ↦
      rw (double_until-step n i m h, large, min-double i n m (ground arith))
        (unfold min_duration in ground arith)
  | inr small ↦
      rw (double_until-step n i m h, small, ← times-double i n)
        (double_until-min n (i + i) m (ground arith) k)
]

-- For a policy with delays `initial` and `cap` that do not overflow, the delay cap of an attempt
-- is `initial * 2 ^ attempt`, cut off at `cap`; a negative attempt counts as attempt 0.
pub delay_cap-min :
    (p : Policy) (initial cap : ℕ) (attempt : ℤ)
    → IsSane p initial cap
    → delay_cap p attempt ≡ pos (min (initial * 2 ^ normalize_attempt attempt) cap)
unfolding delay_cap
delay_cap-min p initial cap attempt s =
    rw (s.initial_is, s.max_is)
      (double_until-min (normalize_attempt attempt) initial cap s.initial_small s.cap_small)

-- Both generators stay below the bound that they are given.
abbrev pub IsWithin : Rng → Type 0
IsWithin (crypto int) = (n v : ℕ) → int n ≡ some v → v < n
IsWithin (seeded int63n) = (n : ℕ) → 0 < n → int63n n < n

-- What a delay between 0 and `c` looks like.
abbrev pub UpTo : ℕ → Option ℤ → Type 0
UpTo c none = ⊥
UpTo c (some (pos d)) = d ≤ c
UpTo c (some (negsuc d)) = ⊥

draw-UpTo : (rng : Rng) (c : ℕ) → IsWithin rng → UpTo c (draw rng (pos c) (suc c))
unfolding draw
draw-UpTo (crypto int) c w = elim (Option-cases (int (suc c))) [
  | inl failed ↦ rw failed (omega arith)
  | inr (v, drawn) ↦ rw drawn (omega (arith, w (suc c) v drawn))
]
draw-UpTo (seeded int63n) c w = omega (arith, w (suc c) (omega arith))

pub bound_lem : (c : ℕ) → c ≤ 2 ^ 62 → pos_part (wrap64 (pos c +ℤ pos 1)) ≡ suc c
bound_lem c h = rw (sum_lem c, wrap64_small (suc c) (omega arith)) refl
  where
    sum_lem : (k : ℕ) → pos k +ℤ pos 1 ≡ pos (suc k)
    sum_lem k = unfold ◌+ℤ◌ in ground arith

pub positive : (c : ℕ) → leb_ℤ (pos (suc c)) (pos 0) ≡ false
positive c = ground arith

next_delay_at :
    (p : Policy) (attempt : ℤ) (rng : Rng) (c : ℕ)
    → delay_cap p attempt ≡ pos c
    → c ≤ 2 ^ 62
    → IsWithin rng
    → UpTo c (next_delay p attempt rng)
unfolding next_delay
next_delay_at p attempt rng zero e h w = rw e (omega arith)
next_delay_at p attempt rng (suc c) e h w =
    rw (e, bound_lem (suc c) h, positive c) (draw-UpTo rng (suc c) w)

-- For a policy that does not overflow and a generator that stays below its bound, the random delay
-- is always produced, and lies between 0 and the smaller of `initial * 2 ^ attempt` and `cap`.
pub next_delay-UpTo :
    (p : Policy) (initial cap : ℕ) (attempt : ℤ) (rng : Rng)
    → IsSane p initial cap
    → IsWithin rng
    → UpTo (min (initial * 2 ^ normalize_attempt attempt) cap) (next_delay p attempt rng)
next_delay-UpTo p initial cap attempt rng s w =
    next_delay_at p attempt rng _ (delay_cap-min p initial cap attempt s)
      (omega (arith, s.cap_small)) w
