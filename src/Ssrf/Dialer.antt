-- ===== src/Ssrf/Dialer.antt =====
-- `PinnedDialer` in internal/ssrf/transport.go: the address that a connection is opened to.
use webhookery.Common.{
  String, not, ◌||◌, List, [], ◌∷◌, ◌++◌, Option, none, some, map, contains, ◌==◌, string_eq,
  if◌then◌else◌, to_lower, trim_space, Result, ok, err, ◌>>=◌, is_nil,
}
use webhookery.Ssrf.Addr.{Addr, Policy, default_policy, ports_of, unmap, blocked_addr}
use webhookery.Ssrf.Validate.{Web, reason_if, dedupe, trim_dot}

-- `PolicyError`
pub data PolicyError : Type 0 where
  reasons : List String → PolicyError

-- An error of `ToASCII` and an empty host are reported alike.
unfoldable pub normalized_dial_host : Web → String → Option String
normalized_dial_host web host =
    let trimmed = trim_dot (to_lower (trim_space host)) in
    if trimmed == ""
    then none
    else elim (web.parse_addr trimmed) [ some a ↦ some trimmed | none ↦ web.to_ascii trimmed ]

unfoldable pub resolve_literal : Web → Policy → Addr → Result PolicyError (List Addr)
resolve_literal web policy a =
    let blocked =
      reason_if (not policy.allow_ip_literal) "ip_literal_blocked"
      ++ reason_if (blocked_addr web.text_of policy (unmap a)) "blocked_ip_range" in
    if is_nil blocked then ok (unmap a ∷ []) else err (reasons (dedupe blocked))

unfoldable pub resolve : Web → Policy → String → Result PolicyError (List Addr)
resolve web policy host = elim (web.parse_addr host) [
  | some a ↦ resolve_literal web policy a
  | none ↦ elim (web.lookup_ip_addr host) [
    | none ↦ err (reasons ("dns_resolution_failed" ∷ []))
    | some resolved ↦ ok (map unmap resolved)
  ]
]

unfoldable pub blocked_ranges : Web → Policy → List Addr → List String
blocked_ranges web policy [] = []
blocked_ranges web policy (a ∷ addrs) =
    reason_if (blocked_addr web.text_of policy a) "blocked_ip_range"
    ++ blocked_ranges web policy addrs

-- The first address, when none is blocked.
unfoldable pub pick : Web → Policy → String → List Addr → Result PolicyError (Addr × String)
pick web policy port [] = err (reasons ("dns_resolution_failed" ∷ []))
pick web policy port (a ∷ addrs) =
    let blocked = blocked_ranges web policy (a ∷ addrs) in
    if is_nil blocked then ok (a, port) else err (reasons (dedupe blocked))

-- A policy without a map of ports takes that of the default policy.
unfoldable pub with_ports : Policy → Policy
with_ports policy = elim policy.allowed_ports [
  | none ↦ record policy { allowed_ports = default_policy.allowed_ports }
  | some ports ↦ policy
]

unfoldable pub or_reason {ℓ} : {A : Type ℓ} → String → Option A → Result PolicyError A
or_reason reason none = err (reasons (reason ∷ []))
or_reason reason (some a) = ok a

unfoldable pub dial_host : Web → Policy → String → String → Result PolicyError (Addr × String)
dial_host web policy host port =
    or_reason "invalid_host" (normalized_dial_host web host)
    >>= (λ ascii_host. resolve web policy ascii_host >>= pick web policy port)

unfoldable pub dial_at : Web → Policy → String × String → Result PolicyError (Addr × String)
dial_at web policy (host, port) =
    if trim_space host == "" || trim_space port == ""
    then err (reasons ("invalid_dial_address" ∷ []))
    else if contains (ports_of policy.allowed_ports) port
    then dial_host web policy host port
    else err (reasons ("blocked_port" ∷ []))

-- `DialContext`: the address and the port that the inner dialer is asked for.
unfoldable pub dial_context : Web → Policy → String → Result PolicyError (Addr × String)
dial_context web policy address =
    or_reason "invalid_dial_address" (web.split_host_port address)
    >>= dial_at web (with_ports policy)
