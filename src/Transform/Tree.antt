-- ===== src/Transform/Tree.antt =====
-- Decoded JSON, as internal/transform/transform.go walks it: maps by key, slices by index.
use webhookery.Common.{
  ℕ, zero, suc, String, Bool, false, Option, none, some, ◌==◌, string_eq, if◌then◌else◌, ◌≡◌, ◌≢◌,
  refl, sym, ◌∙◌, eq_iff, Bool-cases, inl, inr,
}

-- A number is the text of its float64.
mutual
  pub data Json : Type 0 where
    null : Json
    boolean : Bool → Json
    number : String → Json
    text : String → Json
    array : Items → Json
    object : Fields → Json

  pub data Items : Type 0 where
    no_items : Items
    item : Json → Items → Items

  pub data Fields : Type 0 where
    no_fields : Fields
    field : String → Json → Fields → Fields

-- `value, ok := node[token]`
abbrev pub lookup : String → Fields → Option Json
lookup key no_fields = none
lookup key (field name value rest) = if name == key then some value else lookup key rest

-- `node[token] = value`
abbrev pub put : String → Json → Fields → Fields
put key value no_fields = field key value no_fields
put key value (field name old rest) =
    if name == key then field name value rest else field name old (put key value rest)

-- `delete(node, token)`; a map has a key once.
abbrev pub remove : String → Fields → Fields
remove key no_fields = no_fields
remove key (field name old rest) =
    if name == key then remove key rest else field name old (remove key rest)

-- `node[index]`, none at and behind `len(node)`.
abbrev pub item_at : ℕ → Items → Option Json
item_at i no_items = none
item_at zero (item value rest) = some value
item_at (suc i) (item value rest) = item_at i rest

abbrev pub put_item : ℕ → Json → Items → Items
put_item i new no_items = no_items
put_item zero new (item value rest) = item new rest
put_item (suc i) new (item value rest) = item value (put_item i new rest)

abbrev pub remove_item : ℕ → Items → Items
remove_item i no_items = no_items
remove_item zero (item value rest) = rest
remove_item (suc i) (item value rest) = item value (remove_item i rest)

pub lookup-put :
    (key : String) (value : Json) (fields : Fields) → lookup key (put key value fields) ≡ some value
lookup-put key value no_fields = rw ((eq_iff key key).1 refl) refl
lookup-put key value (field name old rest) = elim (Bool-cases (name == key)) [
  | inl same ↦ rw (same, same) refl
  | inr other ↦ rw (other, other) (lookup-put key value rest)
]

pub differ : (a b : String) → a ≢ b → (a == b) ≡ false
differ a b h = elim (Bool-cases (a == b)) [
  | inl same ↦ absurd (h ((eq_iff a b).0 same))
  | inr other ↦ other
]

pub lookup-put_other :
    (key other : String) (value : Json) (fields : Fields)
    → other ≢ key
    → lookup key (put other value fields) ≡ lookup key fields
lookup-put_other key other value no_fields h = rw (differ other key h) refl
lookup-put_other key other value (field name old rest) h = elim (Bool-cases (name == other)) [
  | inl same ↦
      let apart : (name == key) ≡ false =
        differ name key (λ e. h (sym ((eq_iff name other).0 same) ∙ e)) in
      rw (same, apart) refl
  | inr different ↦ rw different (elim (Bool-cases (name == key)) [
    | inl here ↦ rw here refl
    | inr elsewhere ↦ rw elsewhere (lookup-put_other key other value rest h)
  ])
]

pub lookup-remove_other :
    (key other : String) (fields : Fields)
    → other ≢ key
    → lookup key (remove other fields) ≡ lookup key fields
lookup-remove_other key other no_fields h = refl
lookup-remove_other key other (field name old rest) h = elim (Bool-cases (name == other)) [
  | inl same ↦
      let apart : (name == key) ≡ false =
        differ name key (λ e. h (sym ((eq_iff name other).0 same) ∙ e)) in
      rw (same, apart) (lookup-remove_other key other rest h)
  | inr different ↦ rw different (elim (Bool-cases (name == key)) [
    | inl here ↦ rw here refl
    | inr elsewhere ↦ rw elsewhere (lookup-remove_other key other rest h)
  ])
]

pub item_at-put_item :
    (i : ℕ) (new : Json) (items : Items) {old : Json}
    → item_at i items ≡ some old
    → item_at i (put_item i new items) ≡ some new
item_at-put_item i new no_items h = cc
item_at-put_item zero new (item value rest) h = refl
item_at-put_item (suc i) new (item value rest) h = item_at-put_item i new rest h
