-- ===== src/Retry/Seeded.antt =====
-- The delay drawn from a seed, and what a seed tells apart (internal/retry/retry.go).
use webhookery.Common.{
  ℕ, zero, suc, ◌+◌, ◌*◌, ◌%◌, ◌^◌, ◌≤◌, ◌<◌, min, ◌≡◌, ◌≢◌, refl, sym, ap, ◌∙◌, String, List, [],
  ◌∷◌, ◌++◌, arith, All, length, length-append, append_cancel,
}
use webhookery.Common.Bytes.{
  big_endian, from_big_endian, length-big_endian, from_big_endian-big_endian,
}
use webhookery.Common.Int.{ℤ, pos, neg_part, wrap64, wrap64_small, ◌+ℤ◌}
use webhookery.Retry.{
  Policy, Digest, seed_material, normalize_attempt, next_deterministic_delay, delay_cap,
  seeded_number,
}
use webhookery.Retry.Delay.{IsSane, delay_cap-min, bound_lem, positive}

-- The bytes of a part are fewer than an 8-byte length counts.
abbrev pub IsShort : List ℕ → Type 0
IsShort part = length part < 256 ^ 8

length-eq : (m n : ℕ) → m < 256 ^ 8 → n < 256 ^ 8 → big_endian 8 m ≡ big_endian 8 n → m ≡ n
length-eq m n hm hn e =
    sym (from_big_endian-big_endian 8 m hm)
    ∙ ap from_big_endian e
    ∙ from_big_endian-big_endian 8 n hn

nil-material : (part rest : List ℕ) → [] ≢ big_endian 8 (length part) ++ (part ++ rest)
nil-material part rest e =
    let lengths : length {A = ℕ} [] ≡ length (big_endian 8 (length part) ++ (part ++ rest)) =
      ap length e in
    omega (
      arith,
      lengths,
      length-append (big_endian 8 (length part)) (part ++ rest),
      length-big_endian 8 (length part),
    )

-- Two lists of parts that are hashed as the same bytes are the same list: no boundary between two
-- parts can move.
pub seed_material-eq :
    (ps qs : List (List ℕ))
    → All IsShort ps
    → All IsShort qs
    → seed_material ps ≡ seed_material qs
    → ps ≡ qs
unfolding seed_material
seed_material-eq [] [] hp hq e = refl
seed_material-eq [] (q ∷ qs) hp hq e = absurd (nil-material q (seed_material qs) e)
seed_material-eq (p ∷ ps) [] hp hq e = absurd (nil-material p (seed_material ps) (sym e))
seed_material-eq (p ∷ ps) (q ∷ qs) (p-short, hp) (q-short, hq) e =
    let (headers, behind) =
      append_cancel (big_endian 8 (length p)) (big_endian 8 (length q))
        (length-big_endian 8 (length p) ∙ sym (length-big_endian 8 (length q))) e in
    let (part, rest) =
      append_cancel p q (length-eq (length p) (length q) p-short q-short headers) behind in
    rw (part, seed_material-eq ps qs hp hq rest) refl

bound_at : (c : ℕ) → c ≤ 2 ^ 62 → neg_part (wrap64 (pos c +ℤ pos 1)) ≡ 0
bound_at c h = rw (sum_lem c, wrap64_small (suc c) (omega arith)) refl
  where
    sum_lem : (k : ℕ) → pos k +ℤ pos 1 ≡ pos (suc k)
    sum_lem k = unfold ◌+ℤ◌ in ground arith

seeded_at :
    (sum256 : Digest) (p : Policy) (attempt : ℤ) (retry_seed : String) (c : ℕ)
    → delay_cap p attempt ≡ pos c
    → c ≤ 2 ^ 62
    → (d : ℕ) × (next_deterministic_delay sum256 p attempt retry_seed ≡ pos d) × (d ≤ c)
unfolding next_deterministic_delay
seeded_at sum256 p attempt retry_seed zero e h = (0, rw e refl, omega arith)
seeded_at sum256 p attempt retry_seed (suc c) e h = (
  seeded_number sum256 attempt retry_seed % (suc (suc c) + 0),
  rw (e, positive c, bound_lem (suc c) h, bound_at (suc c) h) refl,
  omega arith,
)

-- For a policy that does not overflow, the delay drawn from a seed lies between 0 and the smaller
-- of `initial * 2 ^ attempt` and `cap`, whatever SHA-256 returns.
pub next_deterministic_delay_bounded :
    (sum256 : Digest) (p : Policy) (initial cap : ℕ) (attempt : ℤ) (retry_seed : String)
    → IsSane p initial cap
    → (d : ℕ) × (next_deterministic_delay sum256 p attempt retry_seed ≡ pos d)
      × (d ≤ min (initial * 2 ^ normalize_attempt attempt) cap)
next_deterministic_delay_bounded sum256 p initial cap attempt retry_seed s =
    seeded_at sum256 p attempt retry_seed _ (delay_cap-min p initial cap attempt s)
      (omega (arith, s.cap_small))
