-- ===== src/Verifier/Header.antt =====
-- `parseKVHeader` and the texts of a signature header in pkg/verifier/verifier.go.
use Prim.Native.Char.{code}
use webhookery.Common.{
  String, List, [], ◌∷◌, Option, none, some, ◌==◌, nat_eq, string_eq, if◌then◌else◌, split,
  to_lower, trim_space, ◌▸◌,
}

-- `strings.Cut` at "=": what stands before and behind it.
unfoldable pub cut_equals : String → Option (String × String)
cut_equals String.[] = none
cut_equals (String.◌∷◌ c s) =
    let rest = cut_equals s in
    if code c == 61 then some ("", s) else elim rest as (λ o. Option (String × String)) [
      | none ↦ none
      | some (key, value) ↦ some (c ▸ key, value)
    ]

-- A map as the list of what was stored, the last one first.
abbrev pub value_of : String → List (String × String) → String
value_of key [] = ""
value_of key ((name, value) ∷ rest) = if name == key then value else value_of key rest

-- What a part of the header stores, once it is cut.
unfoldable pub store_cut :
    Option (String × String) → List (String × String) → List (String × String)
store_cut none values = values
store_cut (some (key, value)) values = if key == "" then values else (to_lower key, value) ∷ values

-- One part of the header.
unfoldable pub store_part : String → List (String × String) → List (String × String)
store_part part values = store_cut (cut_equals (trim_space part)) values

unfoldable pub store_parts : List String → List (String × String) → List (String × String)
store_parts [] values = values
store_parts (part ∷ parts) values = store_parts parts (store_part part values)

unfoldable pub parse_kv_header : String → List (String × String)
parse_kv_header header = store_parts (split "," header) []
