-- ===== src/Transform/Apply.antt =====
-- `ParseOperations` behind the decoding, and `Apply`, in internal/transform/transform.go.
use webhookery.Common.{
  ℕ, String, not, ◌||◌, List, [], ◌∷◌, Option, none, some, Result, ok, err, ◌>>=◌, ◌==◌, string_eq,
  if◌then◌else◌, length, leb, to_lower, trim_space, is_nil,
}
use webhookery.Transform.Tree.{
  Json, null, text, array, object, Items, Fields, no_fields, lookup, put, remove, item_at, put_item,
  remove_item,
}
use webhookery.Transform.Pointer.{atoi, pointer_tokens, is_protected_path, is_pointer}

pub data TransformError : Type 0 where
  invalid_operation : TransformError
  protected_path : TransformError

-- `Value` is the raw text of the value, empty when it is missing.
pub record Operation : Type 0 where
  pub op : String
  pub path : String
  pub from : String
  pub value : String

-- A value that was looked up, or the error of a path that leads nowhere.
abbrev pub found : Option Json → Result TransformError Json
found none = err invalid_operation
found (some value) = ok value

-- `node[index]` behind `strconv.Atoi` and the bounds test.
unfoldable pub element : Items → String → Result TransformError Json
element items token = elim (atoi token) [
  | none ↦ err invalid_operation
  | some i ↦ found (item_at i items)
]

-- The number that a token stands for once `element` has found it.
abbrev pub index_of : String → ℕ
index_of token = elim (atoi token) [ none ↦ 0 | some i ↦ i ]

unfoldable pub member : Fields → String → Result TransformError Json
member fields token = found (lookup token fields)

-- The loop of `getValue`.
unfoldable pub get_at : List String → Json → Result TransformError Json
get_at [] current = ok current
get_at (token ∷ tokens) (object fields) = member fields token >>= get_at tokens
get_at (token ∷ tokens) (array items) = element items token >>= get_at tokens
get_at (token ∷ tokens) _ = err invalid_operation

unfoldable pub get_value : Json → String → Result TransformError Json
get_value doc path = get_at (pointer_tokens path) doc

-- The member that `parentForSet` steps into, made when it is missing.
abbrev pub member_or_new : Fields → String → Json
member_or_new fields token = elim (lookup token fields) [
  | none ↦ object no_fields
  | some value ↦ value
]

-- `parentForSet` and the assignment behind it. The source walks down and assigns in place; here the
-- way back up puts each changed node into its parent.
unfoldable pub set_at : String → List String → Json → Json → Result TransformError Json
set_at final [] value (object fields) = ok (object (put final value fields))
set_at final [] value (array items) =
    element items final >>= λ old. ok (array (put_item (index_of final) value items))
set_at token (next ∷ tokens) value (object fields) =
    set_at next tokens value (member_or_new fields token) >>= λ changed.
    ok (object (put token changed fields))
set_at token (next ∷ tokens) value (array items) =
    element items token >>= set_at next tokens value >>= λ changed.
    ok (array (put_item (index_of token) changed items))
set_at token tokens value _ = err invalid_operation

-- `*doc = current` for a document that is null.
unfoldable pub document : Json → Json
document null = object no_fields
document doc = doc

unfoldable pub set_tokens : List String → Json → Json → Result TransformError Json
set_tokens [] value doc = ok value
set_tokens (token ∷ tokens) value doc = set_at token tokens value (document doc)

unfoldable pub set_value : Json → String → Json → Result TransformError Json
set_value doc path value = set_tokens (pointer_tokens path) value doc

unfoldable pub drop_at : String → List String → Json → Result TransformError Json
drop_at final [] (object fields) = ok (object (remove final fields))
drop_at final [] (array items) =
    element items final >>= λ old. ok (array (remove_item (index_of final) items))
drop_at token (next ∷ tokens) (object fields) =
    member fields token >>= drop_at next tokens >>= λ changed.
    ok (object (put token changed fields))
drop_at token (next ∷ tokens) (array items) =
    element items token >>= drop_at next tokens >>= λ changed.
    ok (array (put_item (index_of token) changed items))
drop_at token tokens _ = err invalid_operation

unfoldable pub drop_tokens : List String → Json → Result TransformError Json
drop_tokens [] doc = err invalid_operation
drop_tokens (token ∷ tokens) doc = drop_at token tokens doc

unfoldable pub drop_value : Json → String → Result TransformError Json
drop_value doc path = drop_tokens (pointer_tokens path) doc

-- `validatePointer` and `isProtectedPath`, one after the other.
unfoldable pub check_path : String → Result TransformError (Unit {0})
check_path path =
    if not (is_pointer path)
    then err invalid_operation
    else if is_protected_path path
    then err protected_path
    else ok tt

unfoldable pub validate_operation : Operation → Result TransformError (Unit {0})
validate_operation op =
    if op.op == "set" || op.op == "copy" || op.op == "drop" || op.op == "redact"
    then (check_path op.path >>= λ checked. if op.op == "copy" then check_path op.from else ok tt)
    else err invalid_operation

module _ (decode : String → Option Json) where
  -- One round of the loop of `Apply`, behind the validation. `cloneJSON` copies a tree.
  unfoldable pub run_operation : Operation → Json → Result TransformError Json
  run_operation op doc =
      if op.op == "set"
      then (if op.value == "" then err invalid_operation else elim (decode op.value) [
        | none ↦ err invalid_operation
        | some value ↦ set_value doc op.path value
      ])
      else if op.op == "copy"
      then (get_value doc op.from >>= set_value doc op.path)
      else if op.op == "drop"
      then drop_value doc op.path
      else if op.op == "redact"
      then set_value doc op.path (text "[REDACTED]")
      else err invalid_operation

  unfoldable pub apply_operation : Operation → Json → Result TransformError Json
  apply_operation op doc = validate_operation op >>= λ checked. run_operation op doc

  unfoldable pub apply : List Operation → Json → Result TransformError Json
  apply [] doc = ok doc
  apply (op ∷ ops) doc = apply_operation op doc >>= apply ops

-- `ParseOperations`, once the array is decoded.
unfoldable pub normalize_operation : Operation → Operation
normalize_operation op = record {
  op = trim_space (to_lower op.op);
  path = trim_space op.path;
  from = trim_space op.from;
  value = op.value;
}

unfoldable pub validate_all : List Operation → Result TransformError (List Operation)
validate_all [] = ok []
validate_all (op ∷ ops) = do
  checked ← validate_operation (normalize_operation op)
  rest ← validate_all ops
  ok (normalize_operation op ∷ rest)

unfoldable pub parse_operations : List Operation → Result TransformError (List Operation)
parse_operations ops =
    if is_nil ops
    then err invalid_operation
    else if not (leb (length ops) 100)
    then err invalid_operation
    else validate_all ops
