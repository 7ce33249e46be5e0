-- ===== src/Tests/SsrfRuns.antt =====
-- Runs of internal/ssrf/ssrf.go and internal/ssrf/transport.go.
use webhookery.Common.{
  String, true, false, [], ◌∷◌, none, some, ◌≡◌, refl, ok, ◌==◌, string_eq, if◌then◌else◌, contains,
  has_prefix, trim_space, to_lower,
}
use webhookery.Ssrf.Addr.{
  v4, v6, default_policy, in_prefix, in_any, unmap, is_private, is_loopback, is_link_local_unicast,
  is_link_local_multicast, is_multicast, is_unspecified, is_global_unicast, is_reserved,
  blocked_range, blocked_addr, ports_of,
}
use webhookery.Ssrf.Blocked.{special_ranges, in_ranges, blocked_addr-in_ranges}
use webhookery.Ssrf.Validate.{
  Web, resolved_or_failed, dedupe, dedupe_onto, trim_dot, any_blocked, validate, validate_parsed,
  blocked_of, ascii_host, addresses_of,
}
use webhookery.Ssrf.Dialer.{
  normalized_dial_host, resolve, blocked_ranges, pick, with_ports, or_reason, dial_at, dial_host,
  resolve_literal, dial_context,
}
use webhookery.Ssrf.Pinned.{IsPinned, dial_context-IsPinned}

-- A web in which one name stands for 8.8.8.8 and every other one for 8.8.8.8 and 127.0.0.1.
abbrev web : Web
web = record {
  parse_url =
      λ raw. some (record { scheme = "HTTPS"; has_user = false; hostname = raw; port = "" });
  to_ascii = λ host. some host;
  parse_addr = λ host. none;
  lookup_ip_addr = λ host. some (
      if host == "hooks.example.com" then v4 134744072 ∷ [] else v4 134744072 ∷ v4 2130706433 ∷ []);
  text_of = λ a. "";
  split_host_port = λ address. some (address, "443");
}

trim_dot_runs : trim_dot "example.com." ≡ "example.com"
unfolding trim_dot
trim_dot_runs = refl

mapped_loopback : unmap (v6 281472812449793) ≡ v4 2130706433
unfolding unmap
mapped_loopback = refl

blocked_addr-in_ranges_example :
    blocked_addr (λ a. "") default_policy (v4 2130706433) ≡ in_ranges 2130706433 special_ranges
blocked_addr-in_ranges_example = blocked_addr-in_ranges (λ a. "") default_policy 2130706433 refl

rebound :
    (validate web "rebound.example.com" default_policy).blocked_reasons ≡ "blocked_ip_range" ∷ []
unfolding validate validate_parsed blocked_of ascii_host addresses_of any_blocked trim_dot to_lower
    ports_of blocked_addr dedupe dedupe_onto contains resolved_or_failed blocked_range is_private
    unmap is_loopback is_link_local_unicast is_link_local_multicast is_multicast is_unspecified
    is_global_unicast is_reserved in_any in_prefix has_prefix
rebound = refl

-- The host of `https://.` is not empty, and nothing is looked up for it.
dot_allowed : (validate web "." default_policy).allowed ≡ true
unfolding validate validate_parsed blocked_of ascii_host addresses_of any_blocked trim_dot to_lower
    ports_of blocked_addr dedupe dedupe_onto contains resolved_or_failed blocked_range is_private
    unmap is_loopback is_link_local_unicast is_link_local_multicast is_multicast is_unspecified
    is_global_unicast is_reserved in_any in_prefix has_prefix
dot_allowed = refl

dial_context_runs : dial_context web default_policy "hooks.example.com" ≡ ok (v4 134744072, "443")
unfolding dial_context or_reason dial_at dial_host with_ports normalized_dial_host resolve
    resolve_literal pick blocked_ranges trim_dot to_lower trim_space ports_of blocked_addr dedupe
    dedupe_onto contains resolved_or_failed blocked_range is_private unmap is_loopback
    is_link_local_unicast is_link_local_multicast is_multicast is_unspecified is_global_unicast
    is_reserved in_any in_prefix has_prefix
dial_context_runs = refl

dial_context-IsPinned_example :
    (host : String) × (web.split_host_port "hooks.example.com" ≡ some (host, "443"))
    × IsPinned web (with_ports default_policy) host (v4 134744072) "443"
dial_context-IsPinned_example =
    dial_context-IsPinned web default_policy "hooks.example.com" dial_context_runs
