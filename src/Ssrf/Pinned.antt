-- ===== src/Ssrf/Pinned.antt =====
-- What a connection is opened to (internal/ssrf/transport.go).
use mathlib.Core.List.{Memᴰ}
use webhookery.Common.{
  String, Bool, true, false, ◌||◌, List, [], ◌∷◌, Option, none, some, contains, contains→Memᴰ, ◌==◌,
  string_eq, if◌then◌else◌, is_nil, trim_space, ◌≡◌, refl, All, Result, ok, err, >>=-eq-ok, ok-eq,
  ap, subst, ◌∙◌,
}
use webhookery.Ssrf.Addr.{Addr, Policy, ports_of, blocked_addr}
use webhookery.Ssrf.Validate.{Web, reason_if}
use webhookery.Ssrf.Located.{no_reason}
use webhookery.Ssrf.Safe.{append-nil_parts}
use webhookery.Ssrf.Dialer.{
  PolicyError, normalized_dial_host, resolve, blocked_ranges, pick, with_ports, or_reason,
  dial_host, dial_at, dial_context,
}

module _ {ℓ} {A : Type ℓ} where
  ok_if :
      (test : Bool) {good : Result PolicyError A} (e : PolicyError) {a : A}
      → (if test then good else err e) ≡ ok a
      → (test ≡ true) × (good ≡ ok a)
  ok_if true e h = (refl, h)
  ok_if false e h = cc

  ok_unless :
      (test : Bool) {good : Result PolicyError A} (e : PolicyError) {a : A}
      → (if test then err e else good) ≡ ok a
      → good ≡ ok a
  ok_unless true e h = cc
  ok_unless false e h = h

  some_lem : (reason : String) (o : Option A) {a : A} → or_reason reason o ≡ ok a → o ≡ some a
  unfolding or_reason
  some_lem reason none h = cc
  some_lem reason (some b) h = cc

module _ (web : Web) (policy : Policy) where
  -- A connection to a port at an address that was resolved from the host asked for, none of whose
  -- addresses is blocked.
  pub record IsPinned (host : String) (a : Addr) (port : String) : Type 0 where
    pub ascii_host : String
    pub others : List Addr
    pub named : normalized_dial_host web host ≡ some ascii_host
    pub resolved : resolve web policy ascii_host ≡ ok (a ∷ others)
    pub port_allowed : Memᴰ port (ports_of policy.allowed_ports)
    pub unblocked : All (λ b. blocked_addr web.text_of policy b ≡ false) (a ∷ others)

  unblocked_lem :
      (addrs : List Addr)
      → is_nil (blocked_ranges web policy addrs) ≡ true
      → All (λ b. blocked_addr web.text_of policy b ≡ false) addrs
  unfolding blocked_ranges
  unblocked_lem [] h = tt
  unblocked_lem (a ∷ addrs) h =
      let (here, there) =
        append-nil_parts (reason_if (blocked_addr web.text_of policy a) "blocked_ip_range")
          (blocked_ranges web policy addrs) h in
      (no_reason _ _ here, unblocked_lem addrs there)

  pick_lem :
      (port : String) (addrs : List Addr) {a : Addr} {to : String}
      → pick web policy port addrs ≡ ok (a, to)
      → (others : List Addr) × (addrs ≡ a ∷ others)
        × (port ≡ to)
        × (is_nil (blocked_ranges web policy addrs) ≡ true)
  unfolding pick
  pick_lem port [] h = cc
  pick_lem port (b ∷ addrs) {a} {to} h =
      let (nothing, same) = ok_if (is_nil (blocked_ranges web policy (b ∷ addrs))) _ h in
      let pair : Path (Addr × String) (b, port) (a, to) = ok-eq same in
      (addrs, ap (λ p. p.0 ∷ addrs) pair, ap (λ p. p.1) pair, nothing)

  dial_at_lem :
      (host port : String) {a : Addr} {to : String}
      → dial_at web policy (host, port) ≡ ok (a, to)
      → (contains (ports_of policy.allowed_ports) port ≡ true)
        × (dial_host web policy host port ≡ ok (a, to))
  unfolding dial_at
  dial_at_lem host port h =
      ok_if _ _ (ok_unless (trim_space host == "" || trim_space port == "") _ h)

  dial_host-IsPinned :
      (host port : String) {a : Addr} {to : String}
      → contains (ports_of policy.allowed_ports) port ≡ true
      → dial_host web policy host port ≡ ok (a, to)
      → (port ≡ to) × IsPinned host a port
  unfolding dial_host
  dial_host-IsPinned host port {a} {to} allowed h =
      let (ascii_host, named, next) =
        >>=-eq-ok (or_reason "invalid_host" (normalized_dial_host web host)) _ h in
      let (addrs, resolved, picked) = >>=-eq-ok (resolve web policy ascii_host) _ next in
      let (others, same, to_port, nothing) = pick_lem port addrs picked in
      (
        to_port,
        record {
          ascii_host = ascii_host;
          others = others;
          named = some_lem "invalid_host" _ named;
          resolved = resolved ∙ ap ok same;
          port_allowed = contains→Memᴰ _ _ allowed;
          unblocked =
              subst (All (λ b. blocked_addr web.text_of policy b ≡ false)) same
                (unblocked_lem addrs nothing);
        },
      )

module _ (web : Web) (policy : Policy) where
  -- When `DialContext` opens a connection, it opens it to the port asked for, which the policy
  -- allows, and to the first of the addresses that the host asked for resolved to in this call, none
  -- of which is blocked.
  pub dial_context-IsPinned :
      (address : String) {a : Addr} {port : String}
      → dial_context web policy address ≡ ok (a, port)
      → (host : String) × (web.split_host_port address ≡ some (host, port))
        × IsPinned web (with_ports policy) host a port
  unfolding dial_context
  dial_context-IsPinned address {a} {port} h =
      let (parts, split, dialed) =
        >>=-eq-ok (or_reason "invalid_dial_address" (web.split_host_port address)) _ h in
      let (allowed, opened) = dial_at_lem web (with_ports policy) parts.0 parts.1 dialed in
      let (same, pinned) =
        dial_host-IsPinned web (with_ports policy) parts.0 parts.1 allowed opened in
      (
        parts.0,
        subst (λ p. web.split_host_port address ≡ some (parts.0, p)) same
            (some_lem "invalid_dial_address" _ split),
        subst (IsPinned web (with_ports policy) parts.0 a) same pinned,
      )
