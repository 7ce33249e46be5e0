-- ===== src/Ingest/Metadata.antt =====
-- The id and the type of an event, and its dedupe key (internal/app/service.go).
use webhookery.Common.{
  ℕ, String, not, ◌||◌, ◌&&◌, List, [], ◌∷◌, none, some, ◌==◌, string_eq, if◌then◌else◌, join,
}
use webhookery.Provider.{Codec, Headers, equal_fold}
use webhookery.Ingest.{Source, first_value}
use webhookery.Transform.Tree.{Fields, lookup, text, object}

-- `value, _ := payload[key].(string)`
unfoldable pub text_at : String → Fields → String
text_at key fields = elim (lookup key fields) [ some (text s) ↦ s | _ ↦ "" ]

abbrev or_else : String → String → String
or_else value other = if value == "" then other else value

-- The type inside `payload["event"]`.
unfoldable pub event_type_at : Fields → String
event_type_at fields = elim (lookup "event" fields) [
  | some (object event) ↦ text_at "type" event
  | _ ↦ ""
]

unfoldable pub extract_event_metadata : Codec → List ℕ → String × String
extract_event_metadata c raw = elim (c.decode_map raw) [
  | none ↦ ("", "")
  | some payload ↦ (
    or_else (text_at "id" payload) (text_at "event_id" payload),
    or_else (text_at "type" payload) (event_type_at payload),
  )
]

-- What the headers add to the id and type of the body.
unfoldable pub with_headers : String → Headers → String × String → String × String
with_headers adapter headers (id, type_name) =
    let by_github =
      if id == "" && equal_fold adapter "github"
      then first_value headers "x-github-delivery"
      else id in
    let by_shopify =
      if by_github == "" && equal_fold adapter "shopify"
      then first_value headers "x-shopify-webhook-id"
      else by_github in
    (by_shopify, or_else type_name (first_value headers "x-github-event"))

unfoldable pub extract_event_metadata_for_provider :
    Codec → String → List ℕ → Headers → String × String
extract_event_metadata_for_provider c adapter raw headers =
    let id = first_value headers "ce-id" in
    let type_name = first_value headers "ce-type" in
    if equal_fold adapter "cloudevents" && (not (id == "") || not (type_name == ""))
    then (id, type_name)
    else with_headers adapter headers (extract_event_metadata c raw)

unfoldable pub dedupe_key : Source → String → String → String
dedupe_key source provider_id raw_hash =
    if not (provider_id == "")
    then join ":" (source.provider ∷ source.tenant_id ∷ source.id ∷ provider_id ∷ [])
    else join ":" (source.provider ∷ source.tenant_id ∷ source.id ∷ raw_hash ∷ [])
