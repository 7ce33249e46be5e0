-- ===== src/Transform/Protected.antt =====
-- Operations keep the protected members of the document (internal/transform/transform.go).
use webhookery.Common.{
  String, Bool, true, false, ◌||◌, List, [], ◌∷◌, Option, none, ok, ◌>>=◌, >>=-eq-ok, ok-eq, err-ok,
  ◌≡◌, ◌≢◌, refl, sym, ◌∙◌, subst, is_nil, arith, string_eq,
}
use webhookery.Transform.Tree.{
  Json, null, boolean, number, text, array, object, lookup, lookup-put_other, lookup-remove_other,
}
use webhookery.Transform.Pointer.{is_protected_token, any_protected}
use webhookery.Transform.Apply.{
  element, member, member_or_new, set_at, document, set_tokens, drop_at, drop_tokens,
}

-- The member of a document that is an object.
abbrev pub root_member : String → Json → Option Json
root_member key (object fields) = lookup key fields
root_member key _ = none

document-root_member :
    (key : String) (doc : Json) → root_member key (document doc) ≡ root_member key doc
unfolding document
document-root_member key null = refl
document-root_member key (boolean b) = refl
document-root_member key (number n) = refl
document-root_member key (text s) = refl
document-root_member key (array items) = refl
document-root_member key (object _) = refl

set_at-root_member :
    (key token : String) (tokens : List String) (value doc : Json) {changed : Json}
    → token ≢ key
    → set_at token tokens value doc ≡ ok changed
    → root_member key changed ≡ root_member key doc
unfolding set_at
set_at-root_member key final [] value (object fields) apart h =
    subst (λ d. root_member key d ≡ lookup key fields) (ok-eq h)
      (lookup-put_other key final value fields apart)
set_at-root_member key final [] value (array items) apart h =
    let (old, found_old, end) = >>=-eq-ok (element items final) _ h in
    subst (λ d. root_member key d ≡ none) (ok-eq end) refl
set_at-root_member key token (next ∷ tokens) value (object fields) apart h =
    let (inner, changed_inner, end) =
      >>=-eq-ok (set_at next tokens value (member_or_new fields token)) _ h in
    subst (λ d. root_member key d ≡ lookup key fields) (ok-eq end)
      (lookup-put_other key token inner fields apart)
set_at-root_member key token (next ∷ tokens) value (array items) apart h =
    let (inner, both, end) = >>=-eq-ok (element items token >>= set_at next tokens value) _ h in
    subst (λ d. root_member key d ≡ none) (ok-eq end) refl
set_at-root_member key token [] value null apart h = absurd (err-ok h)
set_at-root_member key token [] value (boolean b) apart h = absurd (err-ok h)
set_at-root_member key token [] value (number n) apart h = absurd (err-ok h)
set_at-root_member key token [] value (text s) apart h = absurd (err-ok h)
set_at-root_member key token (next ∷ tokens) value null apart h = absurd (err-ok h)
set_at-root_member key token (next ∷ tokens) value (boolean b) apart h = absurd (err-ok h)
set_at-root_member key token (next ∷ tokens) value (number n) apart h = absurd (err-ok h)
set_at-root_member key token (next ∷ tokens) value (text s) apart h = absurd (err-ok h)

drop_at-root_member :
    (key token : String) (tokens : List String) (doc : Json) {changed : Json}
    → token ≢ key
    → drop_at token tokens doc ≡ ok changed
    → root_member key changed ≡ root_member key doc
unfolding drop_at
drop_at-root_member key final [] (object fields) apart h =
    subst (λ d. root_member key d ≡ lookup key fields) (ok-eq h)
      (lookup-remove_other key final fields apart)
drop_at-root_member key final [] (array items) apart h =
    let (old, found_old, end) = >>=-eq-ok (element items final) _ h in
    subst (λ d. root_member key d ≡ none) (ok-eq end) refl
drop_at-root_member key token (next ∷ tokens) (object fields) apart h =
    let (inner, changed_inner, end) = >>=-eq-ok (member fields token >>= drop_at next tokens) _ h in
    subst (λ d. root_member key d ≡ lookup key fields) (ok-eq end)
      (lookup-put_other key token inner fields apart)
drop_at-root_member key token (next ∷ tokens) (array items) apart h =
    let (inner, both, end) = >>=-eq-ok (element items token >>= drop_at next tokens) _ h in
    subst (λ d. root_member key d ≡ none) (ok-eq end) refl
drop_at-root_member key token [] null apart h = absurd (err-ok h)
drop_at-root_member key token [] (boolean b) apart h = absurd (err-ok h)
drop_at-root_member key token [] (number n) apart h = absurd (err-ok h)
drop_at-root_member key token [] (text s) apart h = absurd (err-ok h)
drop_at-root_member key token (next ∷ tokens) null apart h = absurd (err-ok h)
drop_at-root_member key token (next ∷ tokens) (boolean b) apart h = absurd (err-ok h)
drop_at-root_member key token (next ∷ tokens) (number n) apart h = absurd (err-ok h)
drop_at-root_member key token (next ∷ tokens) (text s) apart h = absurd (err-ok h)

-- A name that no path may begin with.
abbrev pub IsProtected : String → Type 0
IsProtected key = is_protected_token 0 key ≡ true

-- Tokens that may be written: there is a first one, and it is not protected.
unfoldable pub Allowed : List String → Type 0
Allowed tokens = (is_nil tokens ≡ false) × (any_protected 0 tokens ≡ false)

first_differs :
    (key token : String) (tokens : List String)
    → IsProtected key
    → any_protected 0 (token ∷ tokens) ≡ false
    → token ≢ key
unfolding any_protected
first_differs key token tokens guarded free e =
    apart (is_protected_token 0 token) _
      (subst (λ t. is_protected_token 0 t ≡ true) (sym e) guarded) free
  where
    apart : (a b : Bool) → a ≡ true → (a || b) ≡ false → ⊥
    apart a b t f = ground arith

pub set_tokens-root_member :
    (key : String) (tokens : List String) (value doc : Json) {changed : Json}
    → IsProtected key
    → Allowed tokens
    → set_tokens tokens value doc ≡ ok changed
    → root_member key changed ≡ root_member key doc
unfolding set_tokens Allowed
set_tokens-root_member key [] value doc guarded (some_token, free) h = cc
set_tokens-root_member key (token ∷ tokens) value doc guarded (some_token, free) h =
    set_at-root_member key token tokens value (document doc)
      (first_differs key token tokens guarded free) h
    ∙ document-root_member key doc

pub drop_tokens-root_member :
    (key : String) (tokens : List String) (doc : Json) {changed : Json}
    → IsProtected key
    → Allowed tokens
    → drop_tokens tokens doc ≡ ok changed
    → root_member key changed ≡ root_member key doc
unfolding drop_tokens Allowed
drop_tokens-root_member key [] doc guarded (some_token, free) h = cc
drop_tokens-root_member key (token ∷ tokens) doc guarded (some_token, free) h =
    drop_at-root_member key token tokens doc (first_differs key token tokens guarded free) h
