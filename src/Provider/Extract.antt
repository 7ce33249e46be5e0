-- ===== src/Provider/Extract.antt =====
-- The values that a definition extracts from a webhook (internal/provider/declarative.go).
use webhookery.Common.{
  ℕ, String, List, [], ◌∷◌, Option, none, some, ◌==◌, string_eq, if◌then◌else◌, ok, err, to_lower,
  trim_space, trim_prefix, has_prefix, cut_prefix, split,
}
use webhookery.Provider.{Codec, Headers, first_header}
use webhookery.Provider.Declarative.{DeclarativeDefinition, parse_declarative_definition}
use webhookery.Transform.Tree.{Json, Fields, no_fields, lookup, null, number, text, object}

-- `parseJSONMap`: no map for what is no object.
unfoldable pub parse_json_map : Codec → List ℕ → Fields
parse_json_map c raw = elim (c.decode_map raw) [ none ↦ no_fields | some fields ↦ fields ]

-- A key that is missing reads as nil, which is null here.
unfoldable pub member_of : String → Json → Json
member_of key (object fields) = elim (lookup key fields) [ none ↦ null | some value ↦ value ]
member_of key _ = null

unfoldable pub walk : List String → Json → Json
walk [] current = current
walk (part ∷ parts) current = walk parts (member_of part current)

-- What stands behind `header:` of either case.
unfoldable pub behind_header : String → String
behind_header path = elim (cut_prefix (to_lower path) "header:") [
  | none ↦ ""
  | some rest ↦ skip_seven path
]
  where
    skip_seven : String → String
    skip_seven
          (String.◌∷◌ a (
            String.◌∷◌ b
              (String.◌∷◌ c (String.◌∷◌ d (String.◌∷◌ e (String.◌∷◌ f (String.◌∷◌ g s))))))) =
        s
    skip_seven s = ""

unfoldable pub declarative_any : String → Fields → Headers → Json
declarative_any raw_path raw headers =
    let path = trim_space raw_path in
    if path == ""
    then null
    else if path == "$"
    then object raw
    else if has_prefix path "$."
    then walk (split "." (trim_prefix path "$.")) (object raw)
    else if has_prefix (to_lower path) "header:"
    then text (first_header headers (trim_space (behind_header path)))
    else text path

unfoldable pub print_value : Codec → Json → String
print_value c (text s) = s
print_value c (number n) = c.print_float n
print_value c null = ""
print_value c value = c.sprint value

unfoldable pub declarative_value : Codec → String → Fields → Headers → String
declarative_value c path raw headers = print_value c (declarative_any path raw headers)

unfoldable pub extractor : String → List (String × String) → String
extractor key [] = ""
extractor key ((name, path) ∷ rest) = if name == key then path else extractor key rest

-- `DeclarativeMetadata`: the id and the type; the decoding of a definition is an argument.
unfoldable pub declarative_metadata :
    Codec → (List ℕ → Option DeclarativeDefinition) → List ℕ → List ℕ → Headers → String × String
declarative_metadata c decode definition raw_body headers =
    let raw = parse_json_map c raw_body in
    elim (parse_declarative_definition decode definition) [
      | err reason ↦ ("", "")
      | ok def ↦ (
        declarative_value c (extractor "provider_event_id" def.extractors) raw headers,
        declarative_value c (extractor "type" def.extractors) raw headers,
      )
    ]
