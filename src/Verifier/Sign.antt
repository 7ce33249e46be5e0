-- ===== src/Verifier/Sign.antt =====
-- Signing a body, and the round trip to its verification (pkg/verifier/verifier.go).
use webhookery.Common.{
  ℕ, ◌-◌, ◌^◌, ◌<◌, String, Bool, true, false, List, [], ◌∷◌, some, nat_eq, string_eq, ◌≡◌, ◌≢◌,
  refl, ap, inl, inr, arith, is_nil, ◌▸◌, is_space, onto, to_lower, eq_iff,
}
use webhookery.Common.Bytes.{hex, unhex-hex}
use webhookery.Common.Decimal.{itoa, itoa_ℤ, parse_digits-itoa}
use webhookery.Common.Int.{ℤ, pos, pos_part, ◌-ℤ◌}
use webhookery.Common.Plain.{
  is_plain, all_plain, split-plain, split-onto, trim_space-plain, hex-plain, itoa-plain, unsigned,
  named_eq,
}
use webhookery.Verifier.Header.{cut_equals, store_cut, store_part, store_parts, parse_kv_header}
use webhookery.Verifier.Verify.{
  Primitives, parse_int, time_of, payload_of, verify_timestamped_hmac, signed, in_int64, digits,
  positive,
}
use webhookery.Verifier.Valid.{IsSound, IsFresh, verify_timestamped_hmac_iff}

module _ (p : Primitives) where
  unfoldable pub sign_hmac_sha256_hex : List ℕ → List ℕ → String
  sign_hmac_sha256_hex secret payload = hex (p.mac secret payload)

  -- `t=%d,%s=%s`
  unfoldable pub timestamped_header : String → ℤ → List ℕ → List ℕ → String
  timestamped_header version unix secret raw = onto "t=" (
      onto (itoa_ℤ unix)
        (onto "," (onto version (onto "=" (sign_hmac_sha256_hex secret (payload_of unix raw))))))

parse_int-itoa : (n : ℕ) → n < 2 ^ 63 → parse_int (itoa n) ≡ some (pos n)
unfolding parse_int signed digits
parse_int-itoa n h =
    let (no_plus, no_minus, named) = unsigned (itoa n) (itoa-plain n).1 in
    rw (no_plus, no_minus, named, parse_digits-itoa n (omega arith)) (fits n h)
  where
    fits : (n : ℕ) → n < 2 ^ 63 → positive (in_int64 (some n) (2 ^ 63 - 1)) ≡ some (pos n)
    fits n h = unfold positive in_int64 in ground arith

timestamp_plain :
    (number : String) → all_plain number ≡ true → all_plain ("t" ▸ ("=" ▸ number)) ≡ true
unfolding is_plain is_space
timestamp_plain number h = h

signature_plain :
    (signature : String)
    → all_plain signature ≡ true
    → all_plain ("v" ▸ ("1" ▸ ("=" ▸ signature))) ≡ true
unfolding is_plain is_space
signature_plain signature h = h

stored_timestamp :
    (number : String) (values : List (String × String))
    → all_plain number ≡ true
    → store_part ("t" ▸ ("=" ▸ number)) values ≡ ("t", number) ∷ values
unfolding store_part store_cut cut_equals to_lower
stored_timestamp number values h =
    ap (λ part. store_cut (cut_equals part) values)
      (trim_space-plain ("t" ▸ ("=" ▸ number)) (timestamp_plain number h))

stored_signature :
    (signature : String) (values : List (String × String))
    → all_plain signature ≡ true
    → store_part ("v" ▸ ("1" ▸ ("=" ▸ signature))) values ≡ ("v1", signature) ∷ values
unfolding store_part store_cut cut_equals to_lower
stored_signature signature values h =
    ap (λ part. store_cut (cut_equals part) values)
      (trim_space-plain ("v" ▸ ("1" ▸ ("=" ▸ signature))) (signature_plain signature h))

-- The two parts of a header are stored under their names.
header_lem :
    (number signature : String)
    → all_plain number ≡ true
    → all_plain signature ≡ true
    → parse_kv_header (onto "t=" (onto number (onto "," (onto "v1" (onto "=" signature)))))
      ≡ ("v1", signature) ∷ ("t", number) ∷ []
unfolding parse_kv_header onto store_parts
header_lem number signature hn hs =
    rw
      (
        split-onto ("t" ▸ ("=" ▸ number)) ("v" ▸ ("1" ▸ ("=" ▸ signature)))
            (timestamp_plain number hn),
        split-plain ("v" ▸ ("1" ▸ ("=" ▸ signature))) (signature_plain signature hs),
        stored_timestamp number [] hn,
        stored_signature signature (("t", number) ∷ []) hs,
      )
      refl

module _ (p : Primitives) (sound : IsSound p) where
  -- What `IsSigned` asks of the signer's own header.
  signed_header :
      (secret raw : List ℕ) (n : ℕ)
      → parse_kv_header (timestamped_header p "v1" (pos n) secret raw)
        ≡ ("v1", hex (p.mac secret (payload_of (pos n) raw))) ∷ ("t", itoa n) ∷ []
  unfolding timestamped_header sign_hmac_sha256_hex itoa_ℤ
  signed_header secret raw n =
      header_lem (itoa n) _ (itoa-plain n).0
        (hex-plain _ (sound.mac_bytes secret (payload_of (pos n) raw)))

  hex_named : (bytes : List ℕ) → is_nil bytes ≡ false → hex bytes ≢ ""
  unfolding hex
  hex_named [] h e = absurd (apart h)
    where
      apart : true ≡ false → ⊥
      apart q = cc
  hex_named (b ∷ bytes) h e = apart (named_eq _ _) ((eq_iff _ "").1 e)
    where
      apart : {t : Bool} → t ≡ false → t ≡ true → ⊥
      apart f t = cc

  -- A header that is made for a timestamp, a body and a secret verifies as valid for that body and
  -- secret, under version v1 and hexadecimal encoding, while the timestamp is fresh, if the code is
  -- not empty and the tolerance is below the longest duration.
  pub verify_timestamped_hmac-timestamped_header :
      (secret raw : List ℕ) (n : ℕ) (now tolerance : ℤ)
      → n < 2 ^ 63
      → pos_part tolerance < 2 ^ 63 - 1
      → is_nil (p.mac secret (payload_of (pos n) raw)) ≡ false
      → IsFresh tolerance (now -ℤ time_of (pos n))
      → (verify_timestamped_hmac p (record {
        secret = secret;
        raw_body = raw;
        header = timestamped_header p "v1" (pos n) secret raw;
        now = now;
        tolerance = tolerance;
        expected_version = "v1";
        encoding = "hex";
      })).valid
        ≡ true
  verify_timestamped_hmac-timestamped_header secret raw n now tolerance small near some_code fresh =
      (verify_timestamped_hmac_iff p sound _ near).1 (
        rw (signed_header secret raw n) (
          pos n,
          parse_int-itoa n small,
          fresh,
          hex_named _ some_code,
          inl (inr refl, unhex-hex _ (sound.mac_bytes secret (payload_of (pos n) raw))),
        ))
