-- ===== src/Ssrf/Located.antt =====
-- Where the addresses that are checked come from (internal/ssrf/ssrf.go).
use webhookery.Common.{
  String, Bool, true, false, not, List, [], ◌∷◌, none, some, Option, map, ◌==◌, string_eq,
  if◌then◌else◌, is_nil, to_lower, ◌≡◌, ◌≢◌, ◌⊎◌, refl, inl, inr, Bool-cases, Option-cases, ◌∙◌,
}
use webhookery.Ssrf.Addr.{Addr, Policy, unmap}
use webhookery.Ssrf.Validate.{
  Web, reason_if, trim_dot, ascii_host, resolved_or_failed, addresses_of,
}

pub no_reason :
    (test : Bool) (reason : String) → is_nil (reason_if test reason) ≡ true → test ≡ false
no_reason true reason h = cc
no_reason false reason h = refl

pub of_negation : (b : Bool) → not b ≡ false → b ≡ true
of_negation true h = refl
of_negation false h = cc

pub not_same : (host : String) → (host == "") ≡ false → host ≢ ""
not_same host h same = let yes = (string_eq.same_iff host "").1 same in cc

module _ (web : Web) (policy : Policy) where
  -- The host that a hostname stands for: in lower case, without a last dot, and in ASCII.
  abbrev pub IsHostOf : String → String → Type 0
  IsHostOf hostname host =
      (trim_dot (to_lower hostname) ≡ "") × (host ≡ "")
      ⊎ (trim_dot (to_lower hostname) ≢ "")
        × (web.to_ascii (trim_dot (to_lower hostname)) ≡ some host)

  -- Where the addresses of a host come from: it is an address itself, which the policy allows, or
  -- they are all that it is looked up to, at least one; only for an empty host there is none.
  abbrev pub AreOf : String → List Addr → Type 0
  AreOf host addrs =
      ((a : Addr) × (web.parse_addr host ≡ some a)
        × (policy.allow_ip_literal ≡ true)
        × (addrs ≡ unmap a ∷ []))
      ⊎ (web.parse_addr host ≡ none) × (host ≡ "") × (addrs ≡ [])
      ⊎ ((found : List Addr) × (web.parse_addr host ≡ none)
          × (host ≢ "")
          × (web.lookup_ip_addr host ≡ some found)
          × (found ≢ [])
          × (addrs ≡ map unmap found))

  pub ascii_host-IsHostOf :
      (hostname : String)
      → is_nil (ascii_host web hostname).1 ≡ true
      → IsHostOf hostname (ascii_host web hostname).0
  unfolding ascii_host
  ascii_host-IsHostOf hostname h = elim (Bool-cases (trim_dot (to_lower hostname) == "")) [
    | inl blank ↦ let same = (string_eq.same_iff _ _).0 blank in rw blank (inl (same, same))
    | inr named ↦ elim (Option-cases (web.to_ascii (trim_dot (to_lower hostname)))) [
      | inl failed ↦ let never = rw (named, failed) at h in cc never
      | inr (ascii, found) ↦ rw (named, found) (inr (not_same _ named, refl))
    ]
  ]

  looked_up :
      (host : String)
      → web.parse_addr host ≡ none
      → host ≢ ""
      → (o : Option (List Addr)) → web.lookup_ip_addr host ≡ o
      → is_nil (resolved_or_failed web o).1 ≡ true
      → AreOf host (resolved_or_failed web o).0
  unfolding resolved_or_failed
  looked_up host unparsed named none asked h = cc h
  looked_up host unparsed named (some []) asked h = cc h
  looked_up host unparsed named (some (a ∷ addrs)) asked h =
      inr (inr (a ∷ addrs, unparsed, named, asked, λ never. cc never, refl))

  literal_lem :
      (host : String) (a : Addr)
      → web.parse_addr host ≡ some a
      → addresses_of web policy host
        ≡ (unmap a ∷ [], reason_if (not policy.allow_ip_literal) "ip_literal_blocked")
  unfolding addresses_of
  literal_lem host a found = rw (addresses_of, found) refl

  lookup_lem :
      (host : String)
      → web.parse_addr host ≡ none
      → addresses_of web policy host
        ≡ (if host == "" then ([], []) else resolved_or_failed web (web.lookup_ip_addr host))
  unfolding addresses_of
  lookup_lem host unparsed = rw (addresses_of, unparsed) refl

  pub addresses_of-AreOf :
      (host : String)
      → is_nil (addresses_of web policy host).1 ≡ true
      → AreOf host (addresses_of web policy host).0
  addresses_of-AreOf host h = elim (Option-cases (web.parse_addr host)) [
    | inr (a, found) ↦
        let literal = literal_lem host a found in
        rw literal (inl (a, found, of_negation _ (no_reason _ _ (rw literal at h)), refl))
    | inl unparsed ↦
        let asked = lookup_lem host unparsed in
        elim (Bool-cases (host == "")) [
          | inl blank ↦
              let same : addresses_of web policy host ≡ ([], []) = asked ∙ rw blank refl in
              rw same (inr (inl (unparsed, (string_eq.same_iff _ _).0 blank, refl)))
          | inr named ↦
              let same : addresses_of web policy host
                  ≡ resolved_or_failed web (web.lookup_ip_addr host) =
                asked ∙ rw named refl in
              rw same (looked_up host unparsed (not_same host named) _ refl (rw same at h))
        ]
  ]
