-- ===== src/Upstream.antt =====
-- internal/upstreamip/upstreamip.go, over the part of net/netip that it calls.
pub mod Laws
pub mod Tests
use zolem.Base.{
  ℕ, ◌/◌, ◌%◌, ◌*◌, ◌+◌, Bool, true, false, not, ◌&&◌, ◌||◌, String, ◌==◌, ltb, leb, eqb,
  if◌then◌else◌,
}

-- netip.Addr: four bytes, or eight 16-bit groups with a zone. `As16()[2 * i]` and the byte after it
-- are the two halves of group i.
pub data Addr : Type 0 where
  v4 : (a b c d : ℕ) → Addr
  v6 : (h0 h1 h2 h3 h4 h5 h6 h7 : ℕ) → (zone : String) → Addr

pub data Class : Type 0 where
  blocked private public : Class

abbrev pub zone : Addr → String
zone (v4 a b c d) = ""
zone (v6 h0 h1 h2 h3 h4 h5 h6 h7 z) = z

abbrev pub is_4 : Addr → Bool
is_4 (v4 a b c d) = true
is_4 _ = false

abbrev pub is_6 : Addr → Bool
is_6 (v4 a b c d) = false
is_6 _ = true

-- The IPv4 address in the last 32 bits.
abbrev tail_4 : ℕ → ℕ → Addr
tail_4 h6 h7 = v4 (h6 / 256) (h6 % 256) (h7 / 256) (h7 % 256)

-- Addr.Unmap: ::ffff:a.b.c.d is a.b.c.d.
unfoldable pub unmap : Addr → Addr
unmap (v4 a b c d) = v4 a b c d
unmap (v6 h0 h1 h2 h3 h4 h5 h6 h7 z) =
    if eqb h0 0 && eqb h1 0 && eqb h2 0 && eqb h3 0 && eqb h4 0 && eqb h5 0xffff
    then tail_4 h6 h7
    else v6 h0 h1 h2 h3 h4 h5 h6 h7 z

-- The prefixes; netip's Contains is false for an address with a zone.
abbrev pub in_nat64 : ℕ → ℕ → ℕ → ℕ → ℕ → ℕ → Bool
in_nat64 h0 h1 h2 h3 h4 h5 =
    eqb h0 0x64 && eqb h1 0xff9b && eqb h2 0 && eqb h3 0 && eqb h4 0 && eqb h5 0

abbrev pub in_six_to_four : ℕ → Bool
in_six_to_four h0 = eqb h0 0x2002

abbrev pub in_nat64_local_use : Addr → Bool
in_nat64_local_use (v4 a b c d) = false
in_nat64_local_use (v6 h0 h1 h2 h3 h4 h5 h6 h7 z) =
    z == "" && eqb h0 0x64 && eqb h1 0xff9b && eqb h2 1

abbrev pub in_teredo : Addr → Bool
in_teredo (v4 a b c d) = false
in_teredo (v6 h0 h1 h2 h3 h4 h5 h6 h7 z) = z == "" && eqb h0 0x2001 && eqb h1 0

-- The two addresses that are not read as IPv4-compatible, :: and ::1 with no zone.
abbrev pub is_low_special : ℕ → ℕ → String → Bool
is_low_special h6 h7 z = z == "" && eqb h6 0 && leb h7 1

-- An address, and whether it was reached through a tunnel form.
pub record Unwrapped : Type 0 where
  pub out : Addr
  pub tunneled : Bool

unwrap_6 : Addr → Unwrapped
unwrap_6 (v4 a b c d) = record { out = v4 a b c d; tunneled = false }
unwrap_6 (v6 h0 h1 h2 h3 h4 h5 h6 h7 z) =
    let plain : Unwrapped = record { out = v6 h0 h1 h2 h3 h4 h5 h6 h7 z; tunneled = false } in
    let low : Unwrapped = record { out = tail_4 h6 h7; tunneled = true } in
    let relay : Unwrapped = record {
      out = v4 (h1 / 256) (h1 % 256) (h2 / 256) (h2 % 256);
      tunneled = true;
    } in
    if in_nat64 h0 h1 h2 h3 h4 h5
    then low
    else if in_six_to_four h0
    then relay
    else if not (eqb h0 0 && eqb h1 0 && eqb h2 0 && eqb h3 0 && eqb h4 0 && eqb h5 0)
    then plain
    else if is_low_special h6 h7 z
    then plain
    else low

unfoldable pub unwrap : Addr → Unwrapped
unfolding unwrap_6 unmap
unwrap a = unwrap_6 (unmap a)

unfoldable pub embedded : Addr → Addr
unfolding unwrap
embedded a = (unwrap a).out

abbrev pub is_loopback : Addr → Bool
is_loopback (v4 a b c d) = eqb a 127
is_loopback (v6 h0 h1 h2 h3 h4 h5 h6 h7 z) =
    z == ""
    && eqb h0 0
    && eqb h1 0
    && eqb h2 0
    && eqb h3 0
    && eqb h4 0
    && eqb h5 0
    && eqb h6 0
    && eqb h7 1

abbrev pub is_unspecified : Addr → Bool
is_unspecified (v4 a b c d) = eqb a 0 && eqb b 0 && eqb c 0 && eqb d 0
is_unspecified (v6 h0 h1 h2 h3 h4 h5 h6 h7 z) =
    z == ""
    && eqb h0 0
    && eqb h1 0
    && eqb h2 0
    && eqb h3 0
    && eqb h4 0
    && eqb h5 0
    && eqb h6 0
    && eqb h7 0

-- 169.254.0.0/16 and fe80::/10.
abbrev pub is_link_local_unicast : Addr → Bool
is_link_local_unicast (v4 a b c d) = eqb a 169 && eqb b 254
is_link_local_unicast (v6 h0 h1 h2 h3 h4 h5 h6 h7 z) = eqb (h0 / 64) 0x3fa

-- 224.0.0.0/24 and ff?2::/16.
abbrev pub is_link_local_multicast : Addr → Bool
is_link_local_multicast (v4 a b c d) = eqb a 224 && eqb b 0 && eqb c 0
is_link_local_multicast (v6 h0 h1 h2 h3 h4 h5 h6 h7 z) = eqb (h0 / 256) 0xff && eqb (h0 % 16) 2

abbrev pub is_interface_local_multicast : Addr → Bool
is_interface_local_multicast (v4 a b c d) = false
is_interface_local_multicast (v6 h0 h1 h2 h3 h4 h5 h6 h7 z) = eqb (h0 / 256) 0xff && eqb (h0 % 16) 1

-- 224.0.0.0/4 and ff00::/8.
abbrev pub is_multicast : Addr → Bool
is_multicast (v4 a b c d) = eqb (a / 16) 14
is_multicast (v6 h0 h1 h2 h3 h4 h5 h6 h7 z) = eqb (h0 / 256) 0xff

-- 10.0.0.0/8, 172.16.0.0/12, 192.168.0.0/16 and fc00::/7.
abbrev pub is_private : Addr → Bool
is_private (v4 a b c d) = eqb a 10 || (eqb a 172 && eqb (b / 16) 1) || (eqb a 192 && eqb b 168)
is_private (v6 h0 h1 h2 h3 h4 h5 h6 h7 z) = eqb (h0 / 512) 0x7e

abbrev pub starts_zero : Addr → Bool
starts_zero (v4 a b c d) = eqb a 0
starts_zero _ = false

unfoldable pub tunnel_downgrade : Class → Bool → Class
tunnel_downgrade c tunneled = if tunneled then public else c

-- The switch of Classify, on an address that is already unwrapped.
unfoldable pub classify_unwrapped : Addr → Bool → Class
unfolding tunnel_downgrade
classify_unwrapped a tunneled =
    if is_6 a && (in_nat64_local_use a || in_teredo a)
    then blocked
    else if is_loopback a
    then tunnel_downgrade private tunneled
    else if is_link_local_unicast a
        || is_link_local_multicast a
        || is_interface_local_multicast a
        || is_unspecified a
        || is_multicast a
    then blocked
    else if is_4 a && starts_zero a
    then blocked
    else if is_private a
    then tunnel_downgrade private tunneled
    else public

unfoldable pub classify : Addr → Class
unfolding classify_unwrapped unwrap
classify a =
    if not (zone a == "") then blocked else classify_unwrapped (unwrap a).out (unwrap a).tunneled
