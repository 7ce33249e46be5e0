-- ===== src/Verifier/Verify.antt =====
-- `VerifyTimestampedHMAC` in pkg/verifier/verifier.go. HMAC-SHA-256 and base64 are parameters.
use webhookery.Common.{
  ℕ, zero, suc, ◌+◌, ◌-◌, ◌*◌, ◌^◌, String, Bool, true, false, ◌&&◌, ◌||◌, List, [], ◌∷◌, ◌++◌,
  Option, none, some, ◌==◌, nat_eq, string_eq, ltb, leb, if◌then◌else◌, cut_prefix,
}
use webhookery.Common.Bytes.{utf8, hex, unhex}
use webhookery.Common.Decimal.{itoa_ℤ, parse_digits}
use webhookery.Common.Int.{ℤ, pos, negsuc, ◌+ℤ◌, ◌-ℤ◌, ltb_ℤ, wrap64}
use webhookery.Verifier.Header.{value_of, parse_kv_header}

pub record Primitives : Type 0 where
  pub mac : List ℕ → List ℕ → List ℕ
  pub base64 : List ℕ → String
  pub unbase64 : String → Option (List ℕ)

-- Times are nanoseconds since 1970.
pub record VerifyTimestampedHmacInput : Type 0 where
  pub secret : List ℕ
  pub raw_body : List ℕ
  pub header : String
  pub now : ℤ
  pub tolerance : ℤ
  pub expected_version : String
  pub encoding : String

-- `Timestamp` is kept as the seconds that were read.
pub record VerificationResult : Type 0 where
  pub valid : Bool
  pub reason : String
  pub timestamp : ℤ
  pub age : ℤ
  pub signature_version : String

unfoldable pub in_int64 : Option ℕ → ℕ → Option ℕ
in_int64 none bound = none
in_int64 (some n) bound = if leb n bound then some n else none

unfoldable pub digits : String → Option ℕ
digits s = if s == "" then none else parse_digits s

unfoldable pub positive : Option ℕ → Option ℤ
positive none = none
positive (some n) = some (pos n)

negative : Option ℕ → Option ℤ
negative none = none
negative (some zero) = some (pos 0)
negative (some (suc n)) = some (negsuc n)

unfoldable pub signed : Option String → Option String → String → Option ℤ
unfolding in_int64 digits positive negative
signed (some plus) minus s = positive (in_int64 (digits plus) (2 ^ 63 - 1))
signed none (some minus) s = negative (in_int64 (digits minus) (2 ^ 63))
signed none none s = positive (in_int64 (digits s) (2 ^ 63 - 1))

-- `strconv.ParseInt(s, 10, 64)`, none for an error.
unfoldable pub parse_int : String → Option ℤ
unfolding signed cut_prefix
parse_int s = signed (cut_prefix s "+") (cut_prefix s "-") s

-- Seconds from the year 1 to 1970, which `time.Unix` adds with the wrap of an int64.
abbrev pub unix_to_internal : ℕ
unix_to_internal = 62_135_596_800

abbrev pub nanoseconds : ℤ → ℤ
nanoseconds (pos n) = pos (n * 1_000_000_000)
nanoseconds (negsuc n) = negsuc ((n + 1) * 1_000_000_000 - 1)

-- `time.Unix(unix, 0)`
unfoldable pub time_of : ℤ → ℤ
unfolding ◌+ℤ◌ ◌-ℤ◌
time_of unix = nanoseconds (wrap64 (unix +ℤ pos unix_to_internal) -ℤ pos unix_to_internal)

-- `Sub` returns the nearest duration when the difference does not fit.
unfoldable pub saturate : ℤ → ℤ
saturate (pos n) = if ltb n (2 ^ 63) then pos n else pos (2 ^ 63 - 1)
saturate (negsuc n) = if ltb n (2 ^ 63) then negsuc n else negsuc (2 ^ 63 - 1)

-- `if age < 0 { age = -age }` on an int64.
unfoldable pub magnitude : ℤ → ℤ
magnitude (pos n) = pos n
magnitude (negsuc n) = wrap64 (pos (suc n))

unfoldable pub age_of : ℤ → ℤ → ℤ
unfolding ◌-ℤ◌
age_of now unix = magnitude (saturate (now -ℤ time_of unix))

-- `input.Tolerance > 0 && age > input.Tolerance`
unfoldable pub is_expired : ℤ → ℤ → Bool
is_expired tolerance age = ltb_ℤ (pos 0) tolerance && ltb_ℤ tolerance age

-- The bytes that are signed: `%d.%s` of the seconds and the body.
unfoldable pub payload_of : ℤ → List ℕ → List ℕ
payload_of unix raw_body = utf8 (itoa_ℤ unix) ++ utf8 "." ++ raw_body

abbrev pub same_bytes : List ℕ → List ℕ → Bool
same_bytes [] [] = true
same_bytes (x ∷ xs) (y ∷ ys) = x == y && same_bytes xs ys
same_bytes _ _ = false

-- `hmac.Equal` of what both texts decode to.
abbrev pub same_decoded : Option (List ℕ) → Option (List ℕ) → Bool
same_decoded (some got) (some want) = same_bytes got want
same_decoded _ _ = false

module _ (p : Primitives) where
  unfoldable pub verify_hmac_sha256_hex : List ℕ → List ℕ → String → Bool
  verify_hmac_sha256_hex secret payload signature =
      same_decoded (unhex signature) (unhex (hex (p.mac secret payload)))

  unfoldable pub verify_hmac_sha256_base64 : List ℕ → List ℕ → String → Bool
  verify_hmac_sha256_base64 secret payload signature =
      same_decoded (p.unbase64 signature) (p.unbase64 (p.base64 (p.mac secret payload)))

  -- The verdict on a signature that is present.
  unfoldable pub verdict : VerifyTimestampedHmacInput → ℤ → String → VerificationResult
  verdict input unix signature =
      let payload = payload_of unix input.raw_body in
      let answer : Bool → String → VerificationResult = λ valid reason. record {
        valid = valid;
        reason = reason;
        timestamp = unix;
        age = age_of input.now unix;
        signature_version = input.expected_version;
      } in
      let judged : Bool → VerificationResult =
        λ valid. if valid then answer true "ok" else answer false "invalid_signature" in
      if input.encoding == "" || input.encoding == "hex"
      then judged (verify_hmac_sha256_hex input.secret payload signature)
      else if input.encoding == "base64"
      then judged (verify_hmac_sha256_base64 input.secret payload signature)
      else answer false "unsupported_algorithm"

  abbrev pub malformed : VerificationResult
  malformed = record {
    valid = false;
    reason = "malformed_header";
    timestamp = pos 0;
    age = pos 0;
    signature_version = "";
  }

  unfoldable pub verify_at :
      VerifyTimestampedHmacInput → List (String × String) → ℤ → VerificationResult
  verify_at input values unix =
      let age = age_of input.now unix in
      let signature = value_of input.expected_version values in
      if is_expired input.tolerance age
      then record {
        valid = false;
        reason = "expired_timestamp";
        timestamp = unix;
        age = age;
        signature_version = "";
      }
      else if signature == ""
      then record {
        valid = false;
        reason = "missing_signature";
        timestamp = unix;
        age = age;
        signature_version = input.expected_version;
      }
      else verdict input unix signature

  unfoldable pub verify_timestamped_hmac : VerifyTimestampedHmacInput → VerificationResult
  verify_timestamped_hmac input =
      let values = parse_kv_header input.header in
      let ts_raw = value_of "t" values in
      if ts_raw == ""
      then malformed
      else elim (parse_int ts_raw) [ none ↦ malformed | some unix ↦ verify_at input values unix ]
