-- ===== src/Tests/VerifierRuns.antt =====
-- Runs of pkg/verifier/verifier.go, with a code that is the secret itself.
use webhookery.Common.{
  String, true, [], ◌∷◌, ◌≡◌, ◌↔◌, refl, arith, split, trim_space, to_lower, cut_prefix, onto,
}
use webhookery.Common.Bytes.{hex, unhex, unhex-hex}
use webhookery.Common.Decimal.{itoa, itoa_ℤ, parse_digits}
use webhookery.Common.Int.{pos, ◌-ℤ◌, ◌+ℤ◌, wrap64}
use webhookery.Verifier.Header.{cut_equals, store_cut, store_part, store_parts, parse_kv_header}
use webhookery.Verifier.Verify.{
  Primitives, VerifyTimestampedHmacInput, parse_int, time_of, saturate, magnitude, age_of,
  is_expired, verify_hmac_sha256_hex, verdict, verify_at, verify_timestamped_hmac,
}
use webhookery.Verifier.Sign.{
  sign_hmac_sha256_hex, timestamped_header, verify_timestamped_hmac-timestamped_header,
}
use webhookery.Verifier.Valid.{IsFresh, IsSound, IsSigned, verify_timestamped_hmac_iff}

-- A code of one byte, and no base64 but that of this byte list.
abbrev pub constant : Primitives
constant = record {
  mac = λ secret payload. 0xab ∷ [];
  base64 = λ bytes. hex bytes;
  unbase64 = λ s. unhex s;
}

abbrev input : String → VerifyTimestampedHmacInput
input header = record {
  secret = [];
  raw_body = [];
  header = header;
  now = pos 1_700_000_100_000_000_000;
  tolerance = pos 300_000_000_000;
  expected_version = "v1";
  encoding = "";
}

header_run : parse_kv_header " T=1700000000, v1=AB,=x,y" ≡ ("v1", "AB") ∷ ("t", "1700000000") ∷ []
unfolding parse_kv_header store_parts store_part store_cut cut_equals split trim_space to_lower
header_run = refl

-- A signature of 100 seconds ago, in upper case.
accepted : (verify_timestamped_hmac constant (input "t=1700000000,v1=AB")).reason ≡ "ok"
unfolding verify_timestamped_hmac verify_at parse_kv_header store_parts store_part store_cut
    cut_equals split trim_space to_lower parse_int cut_prefix parse_digits age_of magnitude saturate
    time_of is_expired verdict verify_hmac_sha256_hex hex unhex wrap64 ◌-ℤ◌ ◌+ℤ◌
accepted = refl

-- A timestamp 400 seconds ago is refused, and one in the year 5138 is not.
late : (verify_timestamped_hmac constant (input "t=1699999700,v1=AB")).reason ≡ "expired_timestamp"
unfolding verify_timestamped_hmac verify_at parse_kv_header store_parts store_part store_cut
    cut_equals split trim_space to_lower parse_int cut_prefix parse_digits age_of magnitude saturate
    time_of is_expired wrap64 ◌-ℤ◌ ◌+ℤ◌
late = refl

far_ahead : (verify_timestamped_hmac constant (input "t=99999999999,v1=ab")).reason ≡ "ok"
unfolding verify_timestamped_hmac verify_at parse_kv_header store_parts store_part store_cut
    cut_equals split trim_space to_lower parse_int cut_prefix parse_digits age_of magnitude saturate
    time_of is_expired verdict verify_hmac_sha256_hex hex unhex wrap64 ◌-ℤ◌ ◌+ℤ◌
far_ahead = refl

pub sound : IsSound constant
sound = record {
  mac_bytes = λ secret payload. (omega arith, tt);
  base64_read = λ bytes all. unhex-hex bytes all;
}

verify_timestamped_hmac_iff_example :
    ((verify_timestamped_hmac constant (input "t=1700000000,v1=AB")).valid ≡ true)
    ↔ IsSigned constant sound (input "t=1700000000,v1=AB")
verify_timestamped_hmac_iff_example =
    verify_timestamped_hmac_iff constant sound (input "t=1700000000,v1=AB") (omega arith)

fresh : IsFresh (pos 300_000_000_000) (pos 1_700_000_100_000_000_000 -ℤ time_of (pos 1_700_000_000))
unfolding ◌-ℤ◌ ◌+ℤ◌ time_of wrap64
fresh = omega arith

verify_timestamped_hmac-timestamped_header_example :
    (verify_timestamped_hmac constant (record {
      secret = 1 ∷ [];
      raw_body = 2 ∷ [];
      header = timestamped_header constant "v1" (pos 1_700_000_000) (1 ∷ []) (2 ∷ []);
      now = pos 1_700_000_100_000_000_000;
      tolerance = pos 300_000_000_000;
      expected_version = "v1";
      encoding = "hex";
    })).valid
    ≡ true
verify_timestamped_hmac-timestamped_header_example =
    verify_timestamped_hmac-timestamped_header constant sound (1 ∷ []) (2 ∷ []) 1_700_000_000
      (pos 1_700_000_100_000_000_000) (pos 300_000_000_000) (omega arith) (omega arith) refl fresh

signed_text : timestamped_header constant "v1" (pos 1_700_000_000) [] [] ≡ "t=1700000000,v1=ab"
unfolding timestamped_header sign_hmac_sha256_hex itoa_ℤ itoa onto hex
signed_text = refl
