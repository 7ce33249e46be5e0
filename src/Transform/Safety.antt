-- ===== src/Transform/Safety.antt =====
-- What `Apply` keeps of a document (internal/transform/transform.go).
use webhookery.Common.{
  String, Bool, true, false, not, ◌||◌, List, [], ◌∷◌, map, Option, none, some, Result, ok, err,
  >>=-eq-ok, ok-eq, err-ok, ◌≡◌, ◌≢◌, refl, sym, ap, ◌∙◌, inl, inr, All, is_nil, arith, eq_iff,
  Bool-cases, ◌==◌, string_eq, split_nonempty, trim_prefix,
}
use webhookery.Transform.Tree.{Json, text, differ}
use webhookery.Transform.Pointer.{pointer_tokens, is_protected_path, is_pointer}
use webhookery.Transform.Apply.{
  TransformError, invalid_operation, Operation, set_value, drop_value, get_value, check_path,
  validate_operation, run_operation, apply_operation, apply,
}
use webhookery.Transform.Protected.{
  root_member, IsProtected, Allowed, set_tokens-root_member, drop_tokens-root_member,
}

map_nonempty :
    (f : String → String) (parts : List String)
    → is_nil parts ≡ false
    → is_nil (map f parts) ≡ false
map_nonempty f [] h = cc
map_nonempty f (part ∷ parts) h = refl

pointer_tokens_nonempty :
    (path : String) → path ≢ "" → path ≢ "/" → is_nil (pointer_tokens path) ≡ false
unfolding pointer_tokens
pointer_tokens_nonempty path named deep =
    rw (differ path "" named, differ path "/" deep)
      (map_nonempty _ _ (split_nonempty "/" (trim_prefix path "/")))

is_pointer_named : (path : String) → is_pointer path ≡ true → path ≢ ""
unfolding is_pointer
is_pointer_named path h e = named (path == "") _ h ((eq_iff path "").1 e)
  where
    named : (a b : Bool) → not (a || b) ≡ true → a ≡ true → ⊥
    named a b h t = ground arith

check_path-ok :
    (path : String) {u : Unit {0}}
    → check_path path ≡ ok u
    → (path ≢ "") × (is_protected_path path ≡ false)
unfolding check_path
check_path-ok path h = elim (Bool-cases (is_pointer path)) [
  | inl pointer ↦ elim (Bool-cases (is_protected_path path)) [
    | inl guarded ↦ absurd (err-ok (rw (pointer, guarded) at h))
    | inr free ↦ (is_pointer_named path pointer, free)
  ]
  | inr other ↦ absurd (err-ok (rw other at h))
]

validate_operation-Allowed :
    (op : Operation) {u : Unit {0}}
    → validate_operation op ≡ ok u
    → op.path ≢ "/"
    → Allowed (pointer_tokens op.path)
unfolding validate_operation is_protected_path Allowed
validate_operation-Allowed op h deep =
    elim (Bool-cases (op.op == "set" || op.op == "copy" || op.op == "drop" || op.op == "redact")) [
      | inl known ↦
          let (checked, path_checked, rest) = >>=-eq-ok (check_path op.path) _ (rw known at h) in
          let (named, free) = check_path-ok op.path path_checked in
          (pointer_tokens_nonempty op.path named deep, free)
      | inr unknown ↦ absurd (err-ok (rw unknown at h))
    ]

module _ (decode : String → Option Json) (key : String) (guarded : IsProtected key) where
  set_value-root_member :
      (path : String) (value doc : Json) {changed : Json}
      → Allowed (pointer_tokens path)
      → set_value doc path value ≡ ok changed
      → root_member key changed ≡ root_member key doc
  unfolding set_value
  set_value-root_member path value doc allowed h =
      set_tokens-root_member key (pointer_tokens path) value doc guarded allowed h

  decoded-root_member :
      (o : Option Json) (path : String) (doc : Json) {changed : Json}
      → Allowed (pointer_tokens path)
      → (elim o as (λ x. Result TransformError Json) [
        | none ↦ err invalid_operation
        | some value ↦ set_value doc path value
      ])
        ≡ ok changed
      → root_member key changed ≡ root_member key doc
  decoded-root_member none path doc allowed h = absurd (err-ok h)
  decoded-root_member (some value) path doc allowed h =
      set_value-root_member path value doc allowed h

  run_operation-root_member :
      (op : Operation) (doc : Json) {changed : Json}
      → Allowed (pointer_tokens op.path)
      → run_operation decode op doc ≡ ok changed
      → root_member key changed ≡ root_member key doc
  unfolding run_operation drop_value
  run_operation-root_member op doc allowed h = elim (Bool-cases (op.op == "set")) [
    | inl set ↦ elim (Bool-cases (op.value == "")) [
      | inl missing ↦ absurd (err-ok (rw (set, missing) at h))
      | inr given ↦ decoded-root_member (decode op.value) op.path doc allowed (rw (set, given) at h)
    ]
    | inr not_set ↦ elim (Bool-cases (op.op == "copy")) [
      | inl copy ↦
          let (value, read, written) =
            >>=-eq-ok (get_value doc op.from) _ (rw (not_set, copy) at h) in
          set_value-root_member op.path value doc allowed written
      | inr not_copy ↦ elim (Bool-cases (op.op == "drop")) [
        | inl drop ↦
            drop_tokens-root_member key (pointer_tokens op.path) doc guarded allowed
              (rw (not_set, not_copy, drop) at h)
        | inr not_drop ↦ elim (Bool-cases (op.op == "redact")) [
          | inl redact ↦
              set_value-root_member op.path (text "[REDACTED]") doc allowed
                (rw (not_set, not_copy, not_drop, redact) at h)
          | inr unknown ↦ absurd (err-ok (rw (not_set, not_copy, not_drop, unknown) at h))
        ]
      ]
    ]
  ]

  -- Operations whose path is not the document itself leave every protected member of the document
  -- as it was: its absence or its value, whatever they set, copy, drop or redact. A member is
  -- protected when its name is listed, or ends in _hash or _sha256.
  pub apply-root_member :
      (ops : List Operation) (doc changed : Json)
      → All (λ op. op.path ≢ "/") ops
      → apply decode ops doc ≡ ok changed
      → root_member key changed ≡ root_member key doc
  unfolding apply apply_operation
  apply-root_member [] doc changed deep h = ap (root_member key) (sym (ok-eq h))
  apply-root_member (op ∷ ops) doc changed (deep, rest_deep) h =
      let (next, applied, rest) = >>=-eq-ok (apply_operation decode op doc) (apply decode ops) h in
      let (checked, valid, ran) = >>=-eq-ok (validate_operation op) _ applied in
      apply-root_member ops next changed rest_deep rest
      ∙ run_operation-root_member op doc (validate_operation-Allowed op valid deep) ran
