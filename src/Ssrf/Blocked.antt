-- ===== src/Ssrf/Blocked.antt =====
-- The IPv4 addresses that a policy without private networks lets through (internal/ssrf/ssrf.go).
use webhookery.Common.{
  ℕ, ◌/◌, String, Bool, true, false, not, ◌&&◌, ◌||◌, List, [], ◌∷◌, ◌==◌, nat_eq, if◌then◌else◌,
  ◌≡◌, ◌⊎◌, refl, inl, inr, arith, leb, Bool-cases, sym, subst,
}
use webhookery.Ssrf.Addr.{
  Addr, v4, Policy, in_prefix, in_any, is_private, is_loopback, is_link_local_unicast,
  is_link_local_multicast, is_multicast, is_unspecified, is_global_unicast, is_reserved,
  blocked_range, blocked_addr,
}

-- The first and the last address of the ranges of special use, in order.
abbrev pub special_ranges : List (ℕ × ℕ)
special_ranges =
    (0, 16777215)
    ∷ (167772160, 184549375)
    ∷ (1681915904, 1686110207)
    ∷ (2130706432, 2147483647)
    ∷ (2851995648, 2852061183)
    ∷ (2886729728, 2887778303)
    ∷ (3221225472, 3221225727)
    ∷ (3221225984, 3221226239)
    ∷ (3232235520, 3232301055)
    ∷ (3323068416, 3323199487)
    ∷ (3325256704, 3325256959)
    ∷ (3405803776, 3405804031)
    ∷ (3758096384, 4026531839)
    ∷ (4026531840, 4294967294)
    ∷ []

abbrev pub between : ℕ → ℕ → ℕ → Bool
between first last n = leb first n && leb n last

abbrev pub in_ranges : ℕ → List (ℕ × ℕ) → Bool
in_ranges n [] = false
in_ranges n ((first, last) ∷ ranges) = between first last n || in_ranges n ranges

ten_lem : (n : ℕ) → (n / 16777216 == 10) ≡ between 167772160 184549375 n
ten_lem n = ground arith

private_172_lem : (n : ℕ) → (n / 1048576 == 2753) ≡ between 2886729728 2887778303 n
private_172_lem n = ground arith

private_192_lem : (n : ℕ) → (n / 65536 == 49320) ≡ between 3232235520 3232301055 n
private_192_lem n = ground arith

loopback_127_lem : (n : ℕ) → (n / 16777216 == 127) ≡ between 2130706432 2147483647 n
loopback_127_lem n = ground arith

link_local_lem : (n : ℕ) → (n / 65536 == 43518) ≡ between 2851995648 2852061183 n
link_local_lem n = ground arith

local_multicast_lem : (n : ℕ) → (n / 256 == 14680064) ≡ between 3758096384 3758096639 n
local_multicast_lem n = ground arith

multicast_224_lem : (n : ℕ) → (n / 268435456 == 14) ≡ between 3758096384 4026531839 n
multicast_224_lem n = ground arith

zero_net_lem : (n : ℕ) → (n / 16777216 == 0) ≡ between 0 16777215 n
zero_net_lem n = ground arith

carrier_lem : (n : ℕ) → (n / 4194304 == 401) ≡ between 1681915904 1686110207 n
carrier_lem n = ground arith

protocol_lem : (n : ℕ) → (n / 256 == 12582912) ≡ between 3221225472 3221225727 n
protocol_lem n = ground arith

test_1_lem : (n : ℕ) → (n / 256 == 12582914) ≡ between 3221225984 3221226239 n
test_1_lem n = ground arith

benchmark_lem : (n : ℕ) → (n / 131072 == 25353) ≡ between 3323068416 3323199487 n
benchmark_lem n = ground arith

test_2_lem : (n : ℕ) → (n / 256 == 12989284) ≡ between 3325256704 3325256959 n
test_2_lem n = ground arith

test_3_lem : (n : ℕ) → (n / 256 == 13303921) ≡ between 3405803776 3405804031 n
test_3_lem n = ground arith

reserved_240_lem : (n : ℕ) → (n / 268435456 == 15) ≡ between 4026531840 4294967295 n
reserved_240_lem n = ground arith

-- The order of the tests in the source, and the order of the ranges.
sorted_lem :
    (p1 p2 p3 l u lm m z meta r0 r1 r2 r3 r4 r5 r6 r7 : Bool)
    → (z ≡ true → r0 ≡ true)
    → (lm ≡ true → m ≡ true)
    → (meta ≡ true → u ≡ true)
    → (if p1 || p2 || p3 || false || l || (u || false) || lm || m || z
        then true
        else if meta
        then true
        else not (z || false)
          && not l
          && not m
          && not (u || false)
          && (r0 || (r1 || (r2 || (r3 || (r4 || (r5 || (r6 || (m || (r7 || false))))))))))
      ≡ (r0
          || (p1
              || (r1
                  || (l
                      || (u
                          || (p2
                              || (r2
                                  || (r3
                                      || (p3
                                          || (r4 || (r5 || (r6 || (m || (r7 || false))))))))))))))
sorted_lem p1 p2 p3 l u lm m z meta r0 r1 r2 r3 r4 r5 r6 r7 h k j = ground arith

last_lem :
    (n : ℕ)
    → (n == 4294967295) ≡ false
    → between 4026531840 4294967294 n ≡ between 4026531840 4294967295 n
last_lem n h = ground arith

broadcast_lem :
    (text_of : Addr → String)
    → blocked_range text_of (v4 4294967295) ≡ in_ranges 4294967295 special_ranges
unfolding blocked_range is_private is_loopback is_link_local_unicast is_link_local_multicast
    is_multicast is_unspecified is_global_unicast is_reserved in_any in_prefix
broadcast_lem text_of = refl

other_lem :
    (text_of : Addr → String) (n : ℕ)
    → (n == 4294967295) ≡ false
    → blocked_range text_of (v4 n) ≡ in_ranges n special_ranges
unfolding blocked_range is_private is_loopback is_link_local_unicast is_link_local_multicast
    is_multicast is_unspecified is_global_unicast is_reserved in_any in_prefix
other_lem text_of n other =
    rw
      (
        ten_lem n,
        private_172_lem n,
        private_192_lem n,
        loopback_127_lem n,
        link_local_lem n,
        local_multicast_lem n,
        multicast_224_lem n,
        zero_net_lem n,
        carrier_lem n,
        protocol_lem n,
        test_1_lem n,
        benchmark_lem n,
        test_2_lem n,
        test_3_lem n,
        reserved_240_lem n,
        other,
        last_lem n other,
      )
      (sorted_lem (between 167772160 184549375 n) (between 2886729728 2887778303 n)
        (between 3232235520 3232301055 n) (between 2130706432 2147483647 n)
        (between 2851995648 2852061183 n) (between 3758096384 3758096639 n)
        (between 3758096384 4026531839 n) (n == 0) (n == 2852039166) (between 0 16777215 n)
        (between 1681915904 1686110207 n) (between 3221225472 3221225727 n)
        (between 3221225984 3221226239 n) (between 3323068416 3323199487 n)
        (between 3325256704 3325256959 n) (between 3405803776 3405804031 n)
        (between 4026531840 4294967295 n) (λ h. ground arith) (λ h. ground arith)
        (λ h. ground arith))

-- Without allowed private networks, an IPv4 address is blocked exactly when it lies in one of the
-- ranges of special use: this host, private, shared, loopback, link-local, protocol assignments,
-- documentation, benchmarks, multicast and reserved. The last range ends in front of
-- 255.255.255.255, which is not blocked.
pub blocked_addr-in_ranges :
    (text_of : Addr → String) (policy : Policy) (n : ℕ)
    → policy.allow_private_net ≡ false
    → blocked_addr text_of policy (v4 n) ≡ in_ranges n special_ranges
unfolding blocked_addr
blocked_addr-in_ranges text_of policy n private_off =
    rw private_off (by_number (Bool-cases (n == 4294967295)))
  where
    by_number :
        ((n == 4294967295) ≡ true) ⊎ ((n == 4294967295) ≡ false)
        → blocked_range text_of (v4 n) ≡ in_ranges n special_ranges
    by_number (inl broadcast) =
        subst (λ k. blocked_range text_of (v4 k) ≡ in_ranges k special_ranges)
          (sym ((nat_eq.same_iff n 4294967295).0 broadcast)) (broadcast_lem text_of)
    by_number (inr other) = other_lem text_of n other
