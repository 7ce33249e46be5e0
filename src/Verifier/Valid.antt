-- ===== src/Verifier/Valid.antt =====
-- When a timestamped signature is valid (pkg/verifier/verifier.go).
use webhookery.Common.{
  ℕ, zero, suc, ◌-◌, ◌^◌, ◌≤◌, ◌<◌, String, Bool, true, false, ◌&&◌, ◌||◌, List, [], ◌∷◌, Option,
  none, some, ◌==◌, nat_eq, string_eq, if◌then◌else◌, ◌≡◌, ◌≢◌, ◌↔◌, ◌⊎◌, refl, ap, inl, inr, arith,
  All, Bool-cases, Option-cases, eq_iff, some-eq, subst,
}
use webhookery.Common.Bytes.{unhex, unhex-hex}
use webhookery.Common.Int.{ℤ, pos, negsuc, pos_part, ◌-ℤ◌, wrap64}
use webhookery.Verifier.Header.{value_of, parse_kv_header}
use webhookery.Verifier.Verify.{
  Primitives, VerifyTimestampedHmacInput, parse_int, time_of, saturate, magnitude, age_of,
  is_expired, payload_of, same_bytes, same_decoded, verify_hmac_sha256_hex,
  verify_hmac_sha256_base64, verdict, verify_at, verify_timestamped_hmac,
}

-- A timestamp that a tolerance accepts, by the nanoseconds that it lies behind now: it is close
-- enough on either side, or it lies 2 ^ 63 ns or more ahead of now, where the duration overflows.
abbrev pub IsFresh : ℤ → ℤ → Type 0
IsFresh (pos (suc tolerance)) (pos behind) = behind ≤ suc tolerance
IsFresh (pos (suc tolerance)) (negsuc ahead) = (suc ahead ≤ suc tolerance) ⊎ (2 ^ 63 ≤ suc ahead)
IsFresh _ d = Unit

pub is_expired_iff :
    (tolerance d : ℤ)
    → pos_part tolerance < 2 ^ 63 - 1
    → (is_expired tolerance (magnitude (saturate d)) ≡ false) ↔ IsFresh tolerance d
unfolding is_expired magnitude saturate wrap64
is_expired_iff (negsuc t) d small = (λ h. tt, λ h. ground arith)
is_expired_iff (pos zero) d small = (λ h. tt, λ h. ground arith)
is_expired_iff (pos (suc t)) (pos n) small = ground arith
is_expired_iff (pos (suc t)) (negsuc n) small = ground arith

pub same_bytes_iff : (xs ys : List ℕ) → (same_bytes xs ys ≡ true) ↔ (xs ≡ ys)
same_bytes_iff [] [] = (λ h. refl, λ h. refl)
same_bytes_iff [] (y ∷ ys) = (λ h. cc, λ h. cc)
same_bytes_iff (x ∷ xs) [] = (λ h. cc, λ h. cc)
same_bytes_iff (x ∷ xs) (y ∷ ys) = (
  λ h. cons_lem ((nat_eq.same_iff x y).0 (left _ _ h)) ((same_bytes_iff xs ys).0 (right _ _ h)),
  λ h. both _ _ ((nat_eq.same_iff x y).1 cc) ((same_bytes_iff xs ys).1 cc),
)
  where
    left : (a b : Bool) → (a && b) ≡ true → a ≡ true
    left a b h = ground arith

    right : (a b : Bool) → (a && b) ≡ true → b ≡ true
    right a b h = ground arith

    both : (a b : Bool) → a ≡ true → b ≡ true → (a && b) ≡ true
    both a b h k = ground arith

    cons_lem : {a b : ℕ} {us vs : List ℕ} → a ≡ b → us ≡ vs → a ∷ us ≡ b ∷ vs
    cons_lem h k = rw (h, k) refl

pub same_decoded_iff :
    (got : Option (List ℕ)) (want : List ℕ)
    → (same_decoded got (some want) ≡ true) ↔ (got ≡ some want)
same_decoded_iff none want = (λ h. cc, λ h. cc)
same_decoded_iff (some got) want =
    (λ h. ap some ((same_bytes_iff got want).0 h), λ h. (same_bytes_iff got want).1 (some-eq h))

-- HMAC returns bytes, and base64 decodes what it encodes of bytes.
pub record IsSound (p : Primitives) : Type 0 where
  pub mac_bytes : (secret payload : List ℕ) → All (λ b. b < 256) (p.mac secret payload)
  pub base64_read :
      (bytes : List ℕ) → All (λ b. b < 256) bytes → p.unbase64 (p.base64 bytes) ≡ some bytes

module _ (p : Primitives) (sound : IsSound p) where
  -- The signature decodes, in the encoding that is asked for, to the code of the timestamp and body.
  abbrev pub IsAuthentic : VerifyTimestampedHmacInput → ℤ → String → Type 0
  IsAuthentic input unix signature =
      ((input.encoding ≡ "") ⊎ (input.encoding ≡ "hex"))
        × (unhex signature ≡ some (p.mac input.secret (payload_of unix input.raw_body)))
      ⊎ (input.encoding ≡ "base64")
        × (p.unbase64 signature ≡ some (p.mac input.secret (payload_of unix input.raw_body)))

  pub hex_iff :
      (secret payload : List ℕ) (signature : String)
      → (verify_hmac_sha256_hex p secret payload signature ≡ true)
        ↔ (unhex signature ≡ some (p.mac secret payload))
  unfolding verify_hmac_sha256_hex
  hex_iff secret payload signature =
      rw (unhex-hex (p.mac secret payload) (sound.mac_bytes secret payload))
        (same_decoded_iff (unhex signature) (p.mac secret payload))

  pub base64_iff :
      (secret payload : List ℕ) (signature : String)
      → (verify_hmac_sha256_base64 p secret payload signature ≡ true)
        ↔ (p.unbase64 signature ≡ some (p.mac secret payload))
  unfolding verify_hmac_sha256_base64
  base64_iff secret payload signature =
      rw (sound.base64_read (p.mac secret payload) (sound.mac_bytes secret payload))
        (same_decoded_iff (p.unbase64 signature) (p.mac secret payload))

  verdict-valid :
      (input : VerifyTimestampedHmacInput) (unix : ℤ) (signature : String)
      → (verdict p input unix signature).valid ≡ (
          if input.encoding == "" || input.encoding == "hex"
          then verify_hmac_sha256_hex p input.secret (payload_of unix input.raw_body) signature
          else if input.encoding == "base64"
          then verify_hmac_sha256_base64 p input.secret (payload_of unix input.raw_body) signature
          else false)
  unfolding verdict
  verdict-valid input unix signature = ground arith

  pub choice_iff :
      {A B : Type 0} (encoding : String) (by_hex by_base64 : Bool)
      → (by_hex ≡ true) ↔ A
      → (by_base64 ≡ true) ↔ B
      → ((if encoding == "" || encoding == "hex"
            then by_hex
            else if encoding == "base64"
            then by_base64
            else false)
          ≡ true)
        ↔ (((encoding ≡ "") ⊎ (encoding ≡ "hex")) × A ⊎ (encoding ≡ "base64") × B)
  choice_iff encoding by_hex by_base64 a b =
      elim (Bool-cases (encoding == "" || encoding == "hex")) [
        | inl hexadecimal ↦ rw hexadecimal (
          λ h. inl (named hexadecimal, a.0 h),
          λ h. elim h [
            | inl (encoded, x) ↦ a.1 x
            | inr (encoded, y) ↦ absurd (apart (base64_not_hex encoded) hexadecimal)
          ],
        )
        | inr other ↦ rw other (elim (Bool-cases (encoding == "base64")) [
          | inl base64 ↦ rw base64 (
            λ h. inr ((eq_iff encoding "base64").0 base64, b.0 h),
            λ h. elim h [
              | inl (encoded, x) ↦ absurd (apart other (unnamed encoded))
              | inr (encoded, y) ↦ b.1 y
            ],
          )
          | inr neither ↦ rw neither (
            λ h. cc,
            λ h. elim h [
              | inl (encoded, x) ↦ absurd (apart other (unnamed encoded))
              | inr (encoded, y) ↦ absurd (apart neither ((eq_iff encoding "base64").1 encoded))
            ],
          )
        ])
      ]
    where
      apart : {t : Bool} → t ≡ false → t ≡ true → ⊥
      apart f t = cc

      named : (encoding == "" || encoding == "hex") ≡ true → (encoding ≡ "") ⊎ (encoding ≡ "hex")
      named h = ground (arith, eq_iff encoding "", eq_iff encoding "hex")

      unnamed : (encoding ≡ "") ⊎ (encoding ≡ "hex") → (encoding == "" || encoding == "hex") ≡ true
      unnamed h = ground (arith, eq_iff encoding "", eq_iff encoding "hex")

      base64_not_hex : encoding ≡ "base64" → (encoding == "" || encoding == "hex") ≡ false
      base64_not_hex same = rw same refl

  -- What a valid signature consists of.
  abbrev pub IsSigned : VerifyTimestampedHmacInput → Type 0
  IsSigned input =
      (unix : ℤ) × (parse_int (value_of "t" (parse_kv_header input.header)) ≡ some unix)
      × IsFresh input.tolerance (input.now -ℤ time_of unix)
      × (value_of input.expected_version (parse_kv_header input.header) ≢ "")
      × IsAuthentic input unix (value_of input.expected_version (parse_kv_header input.header))

  verify_at_iff :
      (input : VerifyTimestampedHmacInput) (values : List (String × String)) (unix : ℤ)
      → pos_part input.tolerance < 2 ^ 63 - 1
      → ((verify_at p input values unix).valid ≡ true) ↔ (
          IsFresh input.tolerance (input.now -ℤ time_of unix)
          × (value_of input.expected_version values ≢ "")
          × IsAuthentic input unix (value_of input.expected_version values))
  unfolding verify_at age_of
  verify_at_iff input values unix small =
      let signature = value_of input.expected_version values in
      let fresh = is_expired_iff input.tolerance (input.now -ℤ time_of unix) small in
      let authentic =
        choice_iff input.encoding _ _
          (hex_iff input.secret (payload_of unix input.raw_body) signature)
          (base64_iff input.secret (payload_of unix input.raw_body) signature) in
      elim (Bool-cases
        (is_expired input.tolerance (magnitude (saturate (input.now -ℤ time_of unix))))) [
          | inl expired ↦ rw expired (λ h. cc, λ (f, named, a). absurd (apart (fresh.1 f) expired))
          | inr current ↦ rw current (elim (Bool-cases (signature == "")) [
            | inl missing ↦
                rw missing
                  (λ h. cc, λ (f, named, a). absurd (named ((eq_iff signature "").0 missing)))
            | inr given ↦
                rw (given, verdict-valid input unix signature)
                  (
                    λ h. (
                      fresh.0 current,
                      λ e. apart given ((eq_iff signature "").1 e),
                      authentic.0 h,
                    ),
                    λ (f, named, a). authentic.1 a,
                  )
          ])
        ]
    where
      apart : {t : Bool} → t ≡ false → t ≡ true → ⊥
      apart f t = cc

  -- With a tolerance below the longest duration, a timestamped signature is valid exactly when the
  -- header holds a decimal 64-bit timestamp that is fresh, and under the expected version a text
  -- that decodes, in the encoding that is asked for, to the code of that timestamp and the raw body
  -- under the secret.
  pub verify_timestamped_hmac_iff :
      (input : VerifyTimestampedHmacInput)
      → pos_part input.tolerance < 2 ^ 63 - 1
      → ((verify_timestamped_hmac p input).valid ≡ true) ↔ IsSigned input
  unfolding verify_timestamped_hmac
  verify_timestamped_hmac_iff input small =
      let values = parse_kv_header input.header in
      elim (Bool-cases (value_of "t" values == "")) [
        | inl blank ↦ rw blank (
          λ h. cc,
          λ (unix, read, f, named, a).
              absurd (blank_unread (value_of "t" values) unix ((eq_iff _ _).0 blank) read),
        )
        | inr given ↦ rw given (elim (Option-cases (parse_int (value_of "t" values))) [
          | inl unread ↦ rw unread (λ h. cc, λ (unix, read, f, named, a). cc)
          | inr (unix, read) ↦ rw read (
            λ h.
                let (f, named, a) = (verify_at_iff input values unix small).0 h in
                (unix, refl, f, named, a),
            λ (other, same, f, named, a).
                (verify_at_iff input values unix small).1 (rw (some-eq same) (f, named, a)),
          )
        ])
      ]
    where
      blank_unread : (s : String) (unix : ℤ) → s ≡ "" → parse_int s ≡ some unix → ⊥
      blank_unread s unix e read = none-some (subst (λ t. parse_int t ≡ some unix) e read)
        where
          none-some : parse_int "" ≡ some unix → ⊥
          none-some h = unfold parse_int in cc
