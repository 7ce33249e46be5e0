-- ===== src/Ssrf/Validate.antt =====
-- `Validate` in internal/ssrf/ssrf.go and the pinned dialer in internal/ssrf/transport.go. Parsing
-- URLs and addresses, IDNA and name resolution are parameters.
use webhookery.Common.{
  String, ◌▸◌, Bool, true, false, not, ◌&&◌, ◌||◌, List, [], ◌∷◌, ◌++◌, Option, none, some, map,
  contains, ◌==◌, string_eq, if◌then◌else◌, is_nil, to_lower,
}
use webhookery.Ssrf.Addr.{Addr, Policy, ports_of, unmap, blocked_addr}

-- The parts of `url.URL` that `Validate` reads.
pub record ParsedUrl : Type 0 where
  pub scheme : String
  pub has_user : Bool
  pub hostname : String
  pub port : String

pub record Web : Type 0 where
  pub parse_url : String → Option ParsedUrl
  pub to_ascii : String → Option String
  pub parse_addr : String → Option Addr
  -- None for an error of the resolver, whose addresses are valid ones.
  pub lookup_ip_addr : String → Option (List Addr)
  pub text_of : Addr → String
  pub split_host_port : String → Option (String × String)

-- `NormalizedURL` is left out.
pub record SsrfResult : Type 0 where
  pub allowed : Bool
  pub resolved_ips : List Addr
  pub blocked_reasons : List String

-- `strings.TrimSuffix(host, ".")`
unfoldable pub trim_dot : String → String
trim_dot String.[] = String.[]
trim_dot (String.◌∷◌ c s) = let rest = trim_dot s in if (c ▸ s) == "." then String.[] else c ▸ rest

-- `append` of a reason when a test fails.
abbrev pub reason_if : Bool → String → List String
reason_if test reason = if test then reason ∷ [] else []

unfoldable pub dedupe_onto : List String → List String → List String
dedupe_onto seen [] = []
dedupe_onto seen (value ∷ values) =
    let fresh = value ∷ dedupe_onto (value ∷ seen) values in
    let rest = dedupe_onto seen values in if contains seen value then rest else fresh

unfoldable pub dedupe : List String → List String
dedupe values = dedupe_onto [] values

unfoldable pub any_blocked : (Addr → String) → Policy → List Addr → Bool
any_blocked text_of policy [] = false
any_blocked text_of policy (a ∷ addrs) =
    blocked_addr text_of policy a || any_blocked text_of policy addrs

module _ (web : Web) where
  -- The host in ASCII, and the reason when it has no such form.
  unfoldable pub ascii_host : String → String × List String
  ascii_host hostname =
      let host = trim_dot (to_lower hostname) in
      if host == "" then (host, []) else elim (web.to_ascii host) [
        | none ↦ (host, "invalid_host" ∷ [])
        | some ascii ↦ (ascii, [])
      ]

  unfoldable pub resolved_or_failed : Option (List Addr) → List Addr × List String
  resolved_or_failed none = ([], "dns_resolution_failed" ∷ [])
  resolved_or_failed (some addrs) =
      (map unmap addrs, reason_if (is_nil addrs) "dns_resolution_failed")

  -- The addresses of the host, and the reasons that finding them adds.
  unfoldable pub addresses_of : Policy → String → List Addr × List String
  addresses_of policy host = elim (web.parse_addr host) [
    | some a ↦ (unmap a ∷ [], reason_if (not policy.allow_ip_literal) "ip_literal_blocked")
    | none ↦ if host == "" then ([], []) else resolved_or_failed (web.lookup_ip_addr host)
  ]

  -- The reasons, in the order the tests are made.
  unfoldable pub blocked_of : ParsedUrl → Policy → List String
  blocked_of parsed policy =
      let scheme = to_lower parsed.scheme in
      let host = ascii_host parsed.hostname in
      let found = addresses_of policy host.0 in
      reason_if (not (scheme == "https") && (not (scheme == "http") || not policy.allow_http))
        "blocked_scheme"
      ++ (reason_if parsed.has_user "embedded_credentials"
          ++ (reason_if (parsed.hostname == "") "empty_host"
              ++ (reason_if (not (contains (ports_of policy.allowed_ports) parsed.port))
                    "blocked_port"
                  ++ (host.1
                      ++ (found.1
                          ++ reason_if (any_blocked web.text_of policy found.0)
                              "blocked_ip_range")))))

  unfoldable pub validate_parsed : ParsedUrl → Policy → SsrfResult
  validate_parsed parsed policy =
      let found = addresses_of policy (ascii_host parsed.hostname).0 in
      let blocked = blocked_of parsed policy in
      if is_nil blocked
      then record { allowed = true; resolved_ips = found.0; blocked_reasons = [] }
      else record { allowed = false; resolved_ips = found.0; blocked_reasons = dedupe blocked }

  unfoldable pub validate : String → Policy → SsrfResult
  validate raw_url policy =
      let invalid : SsrfResult = record {
        allowed = false;
        resolved_ips = [];
        blocked_reasons = "invalid_url" ∷ [];
      } in
      elim (web.parse_url raw_url) [
        | none ↦ invalid
        | some parsed ↦ if parsed.scheme == "" then invalid else validate_parsed parsed policy
      ]
