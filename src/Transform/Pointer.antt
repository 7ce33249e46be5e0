-- ===== src/Transform/Pointer.antt =====
-- JSON pointers and protected paths in internal/transform/transform.go.
use webhookery.Common.{
  ℕ, zero, suc, ◌^◌, String, Bool, false, not, ◌||◌, ◌&&◌, List, [], ◌∷◌, Option, none, some, map,
  contains, ◌==◌, nat_eq, string_eq, ltb, if◌then◌else◌, split, replace_pair, trim_prefix,
  has_suffix, has_prefix, cut_prefix,
}
use webhookery.Common.Decimal.{parse_digits}

-- Digits behind a sign, or without one.
digits_of : String → Option ℕ
digits_of s = if s == "" then none else parse_digits s

in_int : Option ℕ → Option ℕ
in_int none = none
in_int (some n) = if ltb n (2 ^ 63) then some n else none

-- The caller refuses every number below zero.
negated : Option ℕ → Option ℕ
negated (some zero) = some zero
negated _ = none

signed : Option String → Option String → String → Option ℕ
unfolding digits_of negated
signed (some plus) minus s = digits_of plus
signed none (some minus) s = negated (digits_of minus)
signed none none s = digits_of s

-- `strconv.Atoi`, none for an error and for a negative number, which every caller refuses too.
unfoldable pub atoi : String → Option ℕ
unfolding cut_prefix in_int signed
atoi s = in_int (signed (cut_prefix s "+") (cut_prefix s "-") s)

unfoldable pub pointer_tokens : String → List String
pointer_tokens path =
    if path == "" || path == "/"
    then []
    else map (λ part. replace_pair "~" "0" "~" (replace_pair "~" "1" "/" part))
        (split "/" (trim_prefix path "/"))

abbrev pub protected_anywhere : List String
protected_anywhere =
    "raw_payload_id" ∷ "raw_payload_hash" ∷ "signature_verified" ∷ "verification"
    ∷ "verification_reason" ∷ "deduplication_key" ∷ "dedupe_status" ∷ "adapter_version_id"
    ∷ "normalized_envelope_id" ∷ "normalized_payload_hash" ∷ "envelope_hash" ∷ "data_hash"
    ∷ "metadata_hash" ∷ "audit" ∷ []

abbrev pub protected_at_root : List String
protected_at_root = "id" ∷ "tenant_id" ∷ "source_id" ∷ "provider" ∷ "provider_event_id" ∷ []

unfoldable pub is_protected_token : ℕ → String → Bool
is_protected_token index token =
    contains protected_anywhere token
    || index == 0 && contains protected_at_root token
    || has_suffix token "_hash"
    || has_suffix token "_sha256"

unfoldable pub any_protected : ℕ → List String → Bool
any_protected index [] = false
any_protected index (token ∷ tokens) =
    is_protected_token index token || any_protected (suc index) tokens

unfoldable pub is_protected_path : String → Bool
is_protected_path path = any_protected 0 (pointer_tokens path)

unfoldable pub is_pointer : String → Bool
is_pointer path = not (path == "" || not (has_prefix path "/"))
