-- ===== src/Ssrf/Addr.antt =====
-- Addresses of `net/netip` as numbers, without zones, and `blockedAddr` in internal/ssrf/ssrf.go.
use webhookery.Common.{
  ℕ, ◌+◌, ◌-◌, ◌*◌, ◌/◌, ◌%◌, ◌^◌, String, Bool, true, false, not, ◌&&◌, ◌||◌, List, [], ◌∷◌,
  Option, none, some, ◌==◌, nat_eq, if◌then◌else◌, has_prefix,
}

pub data Addr : Type 0 where
  v4 : ℕ → Addr
  v6 : ℕ → Addr

-- `netip.Prefix`: an address and the number of its bits that count.
pub data Prefix : Type 0 where
  prefix4 : ℕ → ℕ → Prefix
  prefix6 : ℕ → ℕ → Prefix

-- The number of a.b.c.d.
abbrev pub ip4 : ℕ → ℕ → ℕ → ℕ → ℕ
ip4 a b c d = a * 16777216 + b * 65536 + c * 256 + d

-- The number of an IPv6 address whose first two groups are given and whose others are 0.
abbrev pub ip6 : ℕ → ℕ → ℕ
ip6 a b = a * 2 ^ 112 + b * 2 ^ 96

-- `Prefix.Contains`
unfoldable pub in_prefix : Prefix → Addr → Bool
in_prefix (prefix4 base bits) (v4 n) = n / 2 ^ (32 - bits) == base / 2 ^ (32 - bits)
in_prefix (prefix6 base bits) (v6 n) = n / 2 ^ (128 - bits) == base / 2 ^ (128 - bits)
in_prefix _ _ = false

-- `Unmap`: an IPv4 address inside IPv6 stands for itself.
unfoldable pub unmap : Addr → Addr
unmap (v4 n) = v4 n
unmap (v6 n) = if n / 2 ^ 32 == 0xffff then v4 (n % 2 ^ 32) else v6 n

-- The tests of `netip.Addr`, for addresses that are unmapped.
unfoldable pub is_private : Addr → Bool
unfolding in_prefix
is_private a =
    in_prefix (prefix4 (ip4 10 0 0 0) 8) a
    || in_prefix (prefix4 (ip4 172 16 0 0) 12) a
    || in_prefix (prefix4 (ip4 192 168 0 0) 16) a
    || in_prefix (prefix6 (ip6 0xfc00 0) 7) a

unfoldable pub is_loopback : Addr → Bool
is_loopback (v4 n) = n / 16777216 == 127
is_loopback (v6 n) = n == 1

unfoldable pub is_link_local_unicast : Addr → Bool
unfolding in_prefix
is_link_local_unicast a =
    in_prefix (prefix4 (ip4 169 254 0 0) 16) a || in_prefix (prefix6 (ip6 0xfe80 0) 10) a

-- In IPv6 the four flag bits of the second byte do not count.
unfoldable pub is_link_local_multicast : Addr → Bool
is_link_local_multicast (v4 n) = n / 256 == 14680064
is_link_local_multicast (v6 n) = n / 2 ^ 120 == 0xff && n / 2 ^ 112 % 16 == 2

unfoldable pub is_multicast : Addr → Bool
is_multicast (v4 n) = n / 268435456 == 14
is_multicast (v6 n) = n / 2 ^ 120 == 0xff

unfoldable pub is_unspecified : Addr → Bool
is_unspecified (v4 n) = n == 0
is_unspecified (v6 n) = n == 0

unfoldable pub is_global_unicast : Addr → Bool
is_global_unicast (v4 n) =
    not (n == 0 || n == 4294967295)
    && not (is_loopback (v4 n))
    && not (is_multicast (v4 n))
    && not (is_link_local_unicast (v4 n))
is_global_unicast (v6 n) =
    not (n == 0)
    && not (is_loopback (v6 n))
    && not (is_multicast (v6 n))
    && not (is_link_local_unicast (v6 n))

abbrev pub reserved_cidrs : List Prefix
reserved_cidrs =
    prefix4 (ip4 0 0 0 0) 8
    ∷ prefix4 (ip4 100 64 0 0) 10
    ∷ prefix4 (ip4 192 0 0 0) 24
    ∷ prefix4 (ip4 192 0 2 0) 24
    ∷ prefix4 (ip4 198 18 0 0) 15
    ∷ prefix4 (ip4 198 51 100 0) 24
    ∷ prefix4 (ip4 203 0 113 0) 24
    ∷ prefix4 (ip4 224 0 0 0) 4
    ∷ prefix4 (ip4 240 0 0 0) 4
    ∷ prefix6 (ip6 0x2001 0xdb8) 32
    ∷ []

unfoldable pub in_any : List Prefix → Addr → Bool
in_any [] a = false
in_any (cidr ∷ cidrs) a = in_prefix cidr a || in_any cidrs a

unfoldable pub is_reserved : Addr → Bool
unfolding in_any
is_reserved a = in_any reserved_cidrs a

-- `AllowedPorts` is the list of the ports that the map holds as true, or no map.
pub record Policy : Type 0 where
  pub allow_http : Bool
  pub allow_ip_literal : Bool
  pub allowed_ports : Option (List String)
  pub allowed_cidrs : List Prefix
  pub allow_private_net : Bool

-- No map holds no port.
unfoldable pub ports_of : Option (List String) → List String
ports_of none = []
ports_of (some ports) = ports

abbrev pub default_policy : Policy
default_policy = record {
  allow_http = false;
  allow_ip_literal = false;
  allowed_ports = some ("" ∷ "443" ∷ []);
  allowed_cidrs = [];
  allow_private_net = false;
}

abbrev is_v6 : Addr → Bool
is_v6 (v4 n) = false
is_v6 (v6 n) = true

abbrev is_metadata : Addr → Bool
is_metadata (v4 n) = n == 2852039166
is_metadata (v6 n) = false

-- The tests behind the allowed networks; the text of an address is a parameter.
unfoldable pub blocked_range : (Addr → String) → Addr → Bool
blocked_range text_of a =
    if is_private a
      || is_loopback a
      || is_link_local_unicast a
      || is_link_local_multicast a
      || is_multicast a
      || is_unspecified a
    then true
    else if is_metadata a
    then true
    else if is_v6 a && has_prefix (text_of a) "fd00:ec2::254"
    then true
    else is_global_unicast a && is_reserved a

unfoldable pub blocked_addr : (Addr → String) → Policy → Addr → Bool
unfolding in_any
blocked_addr text_of policy a =
    if policy.allow_private_net && in_any policy.allowed_cidrs a
    then false
    else blocked_range text_of a
