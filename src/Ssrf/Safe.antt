-- ===== src/Ssrf/Safe.antt =====
-- What an allowed URL is (internal/ssrf/ssrf.go).
use mathlib.Core.List.{Memᴰ}
use webhookery.Common.{
  String, true, false, List, [], ◌∷◌, ◌++◌, is_nil, to_lower, ◌≡◌, ◌≢◌, ◌⊎◌, refl, All,
}
use webhookery.Ssrf.Addr.{Addr, Policy, ports_of, blocked_addr}
use webhookery.Ssrf.Validate.{ParsedUrl, Web, SsrfResult}
use webhookery.Ssrf.Located.{IsHostOf, AreOf}

pub append-nil_parts :
    (xs ys : List String) → is_nil (xs ++ ys) ≡ true → (is_nil xs ≡ true) × (is_nil ys ≡ true)
append-nil_parts [] ys h = (refl, h)
append-nil_parts (x ∷ xs) ys h = cc

module _ (web : Web) (policy : Policy) where
  -- A URL that may be delivered to.
  pub record IsSafe (parsed : ParsedUrl) (r : SsrfResult) : Type 0 where
    pub scheme :
        (to_lower parsed.scheme ≡ "https")
        ⊎ (to_lower parsed.scheme ≡ "http") × (policy.allow_http ≡ true)
    pub no_credentials : parsed.has_user ≡ false
    pub named : parsed.hostname ≢ ""
    pub port : Memᴰ parsed.port (ports_of policy.allowed_ports)
    pub located :
        (host : String) × IsHostOf web policy parsed.hostname host
        × AreOf web policy host r.resolved_ips
    pub addresses : All (λ a. blocked_addr web.text_of policy a ≡ false) r.resolved_ips
    pub no_reasons : r.blocked_reasons ≡ []
