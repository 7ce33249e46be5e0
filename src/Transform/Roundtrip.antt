-- ===== src/Transform/Roundtrip.antt =====
-- What is set at a pointer is read at it (internal/transform/transform.go).
use webhookery.Common.{
  ℕ, String, List, [], ◌∷◌, Option, none, some, Result, ok, err, ◌>>=◌, >>=-eq-ok, ok-eq, err-ok,
  ◌≡◌, refl, sym, ap, ◌∙◌, subst,
}
use webhookery.Transform.Tree.{
  Json, null, boolean, number, text, array, object, Items, Fields, put, item_at, put_item,
  lookup-put, item_at-put_item,
}
use webhookery.Transform.Pointer.{atoi, pointer_tokens}
use webhookery.Transform.Apply.{
  TransformError, invalid_operation, found, element, index_of, member, get_at, get_value,
  member_or_new, set_at, document, set_tokens, set_value,
}

found-ok : (o : Option Json) {value : Json} → found o ≡ ok value → o ≡ some value
found-ok none h = absurd (err-ok h)
found-ok (some v) h = ap some (ok-eq h)

element-put_item :
    (items : Items) (token : String) (new : Json) {old : Json}
    → element items token ≡ ok old
    → element (put_item (index_of token) new items) token ≡ ok new
unfolding element
element-put_item items token new {old} h = at_index (atoi token) h
  where
    at_index :
        (o : Option ℕ)
        → (elim o as (λ x. Result TransformError Json) [
          | none ↦ err invalid_operation
          | some i ↦ found (item_at i items)
        ])
          ≡ ok old
        → (elim o as (λ x. Result TransformError Json) [
          | none ↦ err invalid_operation
          | some i ↦
              found (item_at i (put_item (elim o as (λ x. ℕ) [ none ↦ 0 | some i ↦ i ]) new items))
        ])
          ≡ ok new
    at_index none h = absurd (err-ok h)
    at_index (some i) h = ap found (item_at-put_item i new items (found-ok (item_at i items) h))

get_at-object :
    (token : String) (tokens : List String) (value : Json) (fields : Fields)
    → get_at (token ∷ tokens) (object (put token value fields)) ≡ get_at tokens value
unfolding get_at member
get_at-object token tokens value fields =
    ap (λ o. found o >>= get_at tokens) (lookup-put token value fields)

get_at-array :
    (token : String) (tokens : List String) (value : Json) (items : Items) {old : Json}
    → element items token ≡ ok old
    → get_at (token ∷ tokens) (array (put_item (index_of token) value items)) ≡ get_at tokens value
unfolding get_at
get_at-array token tokens value items h =
    ap (λ r. r >>= get_at tokens) (element-put_item items token value h)

get_at-set_at :
    (token : String) (tokens : List String) (value doc : Json) {changed : Json}
    → set_at token tokens value doc ≡ ok changed
    → get_at (token ∷ tokens) changed ≡ ok value
unfolding set_at
get_at-set_at final [] value (object fields) h =
    subst (λ d. get_at (final ∷ []) d ≡ ok value) (ok-eq h)
      (get_at-object final [] value fields ∙ unfold get_at in refl)
get_at-set_at final [] value (array items) h =
    let (old, found_old, end) = >>=-eq-ok (element items final) _ h in
    subst (λ d. get_at (final ∷ []) d ≡ ok value) (ok-eq end)
      (get_at-array final [] value items found_old ∙ unfold get_at in refl)
get_at-set_at token (next ∷ tokens) value (object fields) h =
    let (inner, changed_inner, end) =
      >>=-eq-ok (set_at next tokens value (member_or_new fields token)) _ h in
    subst (λ d. get_at (token ∷ next ∷ tokens) d ≡ ok value) (ok-eq end)
      (get_at-object token (next ∷ tokens) inner fields
        ∙ get_at-set_at next tokens value _ changed_inner)
get_at-set_at token (next ∷ tokens) value (array items) h =
    let (inner, both, end) = >>=-eq-ok (element items token >>= set_at next tokens value) _ h in
    let (old, found_old, changed_inner) = >>=-eq-ok (element items token) _ both in
    subst (λ d. get_at (token ∷ next ∷ tokens) d ≡ ok value) (ok-eq end)
      (get_at-array token (next ∷ tokens) inner items found_old
        ∙ get_at-set_at next tokens value old changed_inner)
get_at-set_at token [] value null h = absurd (err-ok h)
get_at-set_at token [] value (boolean b) h = absurd (err-ok h)
get_at-set_at token [] value (number n) h = absurd (err-ok h)
get_at-set_at token [] value (text s) h = absurd (err-ok h)
get_at-set_at token (next ∷ tokens) value null h = absurd (err-ok h)
get_at-set_at token (next ∷ tokens) value (boolean b) h = absurd (err-ok h)
get_at-set_at token (next ∷ tokens) value (number n) h = absurd (err-ok h)
get_at-set_at token (next ∷ tokens) value (text s) h = absurd (err-ok h)

-- When a value is set at a path, reading the changed document at that path gives the value, for
-- every path, through objects, arrays and members that the setting has made.
pub get_value-set_value :
    (doc : Json) (path : String) (value changed : Json)
    → set_value doc path value ≡ ok changed
    → get_value changed path ≡ ok value
unfolding set_value get_value
get_value-set_value doc path value changed h = read_back (pointer_tokens path) h
  where
    read_back :
        (tokens : List String)
        → set_tokens tokens value doc ≡ ok changed
        → get_at tokens changed ≡ ok value
    read_back [] h = unfold get_at set_tokens in ap ok (sym (ok-eq h))
    read_back (token ∷ tokens) h =
        unfold set_tokens in get_at-set_at token tokens value (document doc) h
