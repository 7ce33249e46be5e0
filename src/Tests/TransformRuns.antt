-- ===== src/Tests/TransformRuns.antt =====
-- Runs of internal/transform/transform.go.
use webhookery.Common.{
  String, [], ◌∷◌, Option, none, ok, err, ◌≡◌, ◌≢◌, refl, arith, eq_iff, contains, split,
  replace_pair, trim_prefix, has_suffix, has_prefix, cut_prefix, to_lower, trim_space,
}
use webhookery.Transform.Tree.{Json, text, object, no_fields, field}
use webhookery.Transform.Pointer.{
  pointer_tokens, is_protected_token, any_protected, is_protected_path, is_pointer,
}
use webhookery.Transform.Apply.{
  protected_path, Operation, get_value, set_at, document, set_tokens, set_value, check_path,
  validate_operation, run_operation, apply_operation, apply, normalize_operation, validate_all,
  parse_operations,
}
use webhookery.Transform.Roundtrip.{get_value-set_value}
use webhookery.Transform.Protected.{root_member, IsProtected}
use webhookery.Transform.Safety.{apply-root_member}

-- {"id": "evt_1", "data": {"card": "4242"}}
abbrev doc : Json
doc = object (
    field "id" (text "evt_1")
      (field "data" (object (field "card" (text "4242") no_fields)) no_fields))

abbrev redacted : Json
redacted = object (
    field "id" (text "evt_1")
      (field "data" (object (field "card" (text "[REDACTED]") no_fields)) no_fields))

abbrev redact : String → Operation
redact path = record { op = "redact"; path = path; from = ""; value = "" }

-- Decodes nothing: the runs set no value.
abbrev nothing : String → Option Json
nothing raw = none

pointer_run : pointer_tokens "/data/a~1b/0" ≡ "data" ∷ "a/b" ∷ "0" ∷ []
unfolding pointer_tokens split replace_pair trim_prefix cut_prefix
pointer_run = refl

card_set : set_value doc "/data/card" (text "[REDACTED]") ≡ ok redacted
unfolding set_value pointer_tokens split replace_pair trim_prefix cut_prefix set_tokens document
    set_at
card_set = refl

get_value-set_value_example : get_value redacted "/data/card" ≡ ok (text "[REDACTED]")
get_value-set_value_example =
    get_value-set_value doc "/data/card" (text "[REDACTED]") redacted card_set

card_redacted : apply nothing (redact "/data/card" ∷ []) doc ≡ ok redacted
unfolding apply apply_operation run_operation validate_operation check_path is_pointer
    is_protected_path any_protected is_protected_token has_suffix has_prefix set_value
    pointer_tokens split replace_pair trim_prefix cut_prefix set_tokens document set_at contains
card_redacted = refl

id_refused : apply nothing (redact "/id" ∷ []) doc ≡ err protected_path
unfolding apply apply_operation run_operation validate_operation check_path is_pointer
    is_protected_path any_protected is_protected_token has_suffix has_prefix pointer_tokens split
    replace_pair trim_prefix cut_prefix contains
id_refused = refl

-- The path `/` has no tokens: the whole document is replaced, its protected members with it.
root_replaced : apply nothing (redact "/" ∷ []) doc ≡ ok (text "[REDACTED]")
unfolding apply apply_operation run_operation validate_operation check_path is_pointer
    is_protected_path any_protected has_prefix set_value pointer_tokens cut_prefix set_tokens
root_replaced = refl

id-IsProtected : IsProtected "id"
unfolding is_protected_token contains has_suffix
id-IsProtected = refl

card_path_deep : (redact "/data/card").path ≢ "/"
card_path_deep e = ground (arith, (eq_iff "/data/card" "/").1 e)

apply-root_member_example : root_member "id" redacted ≡ root_member "id" doc
apply-root_member_example =
    apply-root_member nothing "id" id-IsProtected (redact "/data/card" ∷ []) doc redacted
      (card_path_deep, tt) card_redacted

one_parsed : parse_operations (redact " /data/card" ∷ []) ≡ ok (redact "/data/card" ∷ [])
unfolding parse_operations validate_all normalize_operation validate_operation check_path is_pointer
    is_protected_path any_protected is_protected_token has_suffix has_prefix pointer_tokens split
    replace_pair trim_prefix cut_prefix contains to_lower trim_space
one_parsed = refl
