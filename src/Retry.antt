-- ===== src/Retry.antt =====
-- internal/retry/retry.go: delays between delivery attempts, and which answers are tried again.
-- A `time.Duration` is an int64 count of nanoseconds, an integer that wraps at 64 bits.
pub mod Delay
pub mod Status
pub mod Seeded
use webhookery.Common.{
  ℕ, zero, suc, ◌+◌, ◌*◌, ◌^◌, ◌%◌, String, Bool, true, false, ◌&&◌, ◌||◌, Option, none, some, leb,
  ltb, ◌==◌, nat_eq, if◌then◌else◌, List, [], ◌∷◌, ◌++◌, map, string_eq, length,
}
use Prim.Native.String.{◌++◌ as append}
use webhookery.Common.Bytes.{utf8, big_endian, from_big_endian, hex}
use webhookery.Common.Decimal.{itoa}
use webhookery.Common.Int.{ℤ, pos, negsuc, pos_part, neg_part, wrap64, ◌+ℤ◌, ltb_ℤ, leb_ℤ}

pub record Policy : Type 0 where
  pub max_attempts : ℤ
  pub max_duration : ℤ
  pub initial_delay : ℤ
  pub max_delay : ℤ

pub record Classification : Type 0 where
  pub retryable : Bool
  pub reason : String

abbrev pub second : ℕ
second = 1_000_000_000

abbrev pub hour : ℕ
hour = 3600 * second

abbrev pub default_policy : Policy
default_policy = record {
  max_attempts = pos 12;
  max_duration = pos (72 * hour);
  initial_delay = pos (10 * second);
  max_delay = pos (6 * hour);
}

unfoldable pub min_duration : ℤ → ℤ → ℤ
min_duration a b = if ltb_ℤ a b then a else b

unfoldable pub normalize_attempt : ℤ → ℕ
normalize_attempt attempt = pos_part attempt

-- The loop of `delayCap`, on the rounds that are left: `capDelay *= 2`, and the early `break`.
unfoldable pub double_until : ℕ → ℤ → ℤ → ℤ
unfolding ◌+ℤ◌
double_until zero cap_delay max_delay = cap_delay
double_until (suc rounds) cap_delay max_delay =
    let doubled = wrap64 (cap_delay +ℤ cap_delay) in
    let rest = double_until rounds doubled max_delay in
    if leb_ℤ max_delay doubled then max_delay else rest

unfoldable pub delay_cap : Policy → ℤ → ℤ
delay_cap p attempt =
    min_duration (double_until (normalize_attempt attempt) p.initial_delay p.max_delay) p.max_delay

-- Where the jitter comes from: `crypto/rand`, which may fail, or a seeded generator.
pub data Rng : Type 0 where
  crypto : (ℕ → Option ℕ) → Rng
  seeded : (ℕ → ℕ) → Rng

-- One draw below `cap_delay + 1`; both generators panic at a bound that is not positive, which
-- here can only be the wrapped `cap_delay + 1`. A panic is `none`.
draw : Rng → ℤ → ℕ → Option ℤ
draw (crypto int) cap_delay zero = none
draw (crypto int) cap_delay (suc k) = elim (int (suc k)) [
  | none ↦ some cap_delay
  | some n ↦ some (pos n)
]
draw (seeded int63n) cap_delay zero = none
draw (seeded int63n) cap_delay (suc k) = some (pos (int63n (suc k)))

unfoldable pub next_delay : Policy → ℤ → Rng → Option ℤ
unfolding draw ◌+ℤ◌
next_delay p attempt rng =
    let cap_delay = delay_cap p attempt in
    if leb_ℤ cap_delay (pos 0)
    then some (pos 0)
    else draw rng cap_delay (pos_part (wrap64 (cap_delay +ℤ pos 1)))

-- `sha256.Sum256`, on bytes.
unfoldable pub Digest : Type 0
Digest = List ℕ → List ℕ

-- What `Seed` hashes: every part behind its length in 8 bytes.
unfoldable pub seed_material : List (List ℕ) → List ℕ
seed_material [] = []
seed_material (part ∷ parts) = big_endian 8 (length part) ++ (part ++ seed_material parts)

unfoldable pub seed : Digest → List String → String
unfolding Digest
seed sum256 parts = append "retryseed:v1:" (hex (sum256 (seed_material (map utf8 parts))))

-- The number that the seed and the attempt hash to.
unfoldable pub seeded_number : Digest → ℤ → String → ℕ
unfolding Digest
seeded_number sum256 attempt retry_seed =
    let seed_text = if retry_seed == "" then seed sum256 ("empty" ∷ []) else retry_seed in
    from_big_endian (sum256 (utf8 seed_text ++ 0 ∷ utf8 (itoa (normalize_attempt attempt))))

-- `big.Int.Mod` is Euclidean: its bound counts without its sign, which only a wrapped
-- `cap_delay + 1` has.
unfoldable pub next_deterministic_delay : Digest → Policy → ℤ → String → ℤ
unfolding ◌+ℤ◌
next_deterministic_delay sum256 p attempt retry_seed =
    let cap_delay = delay_cap p attempt in
    let bound = wrap64 (cap_delay +ℤ pos 1) in
    if leb_ℤ cap_delay (pos 0)
    then pos 0
    else pos (seeded_number sum256 attempt retry_seed % (pos_part bound + neg_part bound))

unfoldable pub classify_status : ℕ → Classification
classify_status status =
    if leb 200 status && leb status 299
    then record { retryable = false; reason = "success" }
    else if status == 408 || status == 409 || status == 425 || status == 429
    then record { retryable = true; reason = "temporary_http" }
    else if leb 500 status && leb status 599
    then record { retryable = true; reason = "temporary_http" }
    else record { retryable = false; reason = "permanent_http" }
