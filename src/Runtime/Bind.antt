-- ===== src/Runtime/Bind.antt =====
-- internal/runtime/bindpolicy.go, and the listener checks of store.go.
pub mod Laws
use zolem.Base.{
  ℕ, ℤ, pos, ltb_ℤ, Bool, true, false, not, ◌&&◌, ◌||◌, String, ◌==◌, Option, none, some,
  if◌then◌else◌, eqb, Result, ok, err,
}
use zolem.Upstream.{Addr, unmap, is_unspecified}
use zolem.Runtime.{Net, ListenerSpec, valid_provider}
use zolem.Runtime.Host.{is_loopback_ip, strip_host_port}
use Prim.Native.Char.{code}

-- The zero value accepts loopback hosts alone.
pub record BindPolicy : Type 0 where
  pub allow_wildcard : Bool
  pub port_low : ℤ
  pub port_high : ℤ

pub data ListenerError : Type 0 where
  listener_name_required listener_profile_required unknown_provider : ListenerError
  addr_malformed addr_no_host addr_not_loopback addr_not_loopback_or_wildcard port_out_of_range :
      ListenerError

unfoldable pub new_wildcard_bind_policy : ℤ → ℤ → BindPolicy
new_wildcard_bind_policy low high = record {
  allow_wildcard = true;
  port_low = low;
  port_high = high;
}

-- IP.IsUnspecified of package net.
abbrev pub is_unspecified_ip : Option Addr → Bool
is_unspecified_ip none = false
is_unspecified_ip (some ip) = is_unspecified (unmap ip)

-- strings.Cut(s, "-")
pub cut_dash : String → Option (String × String)
cut_dash String.[] = none
cut_dash (String.◌∷◌ c s) =
    let rest = cut_dash s in
    if eqb (code c) b'-'
    then some (String.[], s)
    else elim rest [ none ↦ none | some (a, b) ↦ some (String.◌∷◌ c a, b) ]

-- The port parses, and lies in the range of the policy.
abbrev pub in_range : BindPolicy → Option ℤ → Bool
in_range p none = false
in_range p (some port) = not (ltb_ℤ port p.port_low) && not (ltb_ℤ p.port_high port)

-- A range 1 <= LOW <= HIGH <= 65535, or no range.
abbrev pub ordered_range : Option ℤ → Option ℤ → Option (ℤ × ℤ)
ordered_range (some low) (some high) =
    if ltb_ℤ low (pos 1) || ltb_ℤ (pos 65535) high || ltb_ℤ high low then none else some (low, high)
ordered_range _ _ = none

module _ (net : Net) where
  unfoldable pub is_loopback_host : String → Bool
  is_loopback_host host = host == "localhost" || is_loopback_ip (net.parse_ip host)

  unfoldable pub is_loopback_name : String → Bool
  unfolding is_loopback_host strip_host_port
  is_loopback_name name = is_loopback_host (strip_host_port net name)

  unfoldable pub is_wildcard_host : String → Bool
  is_wildcard_host host = is_unspecified_ip (net.parse_ip host)

  pub validate_port : BindPolicy → String → Option ListenerError
  validate_port p port =
      if ltb_ℤ (pos 0) p.port_high && not (in_range p (net.atoi port))
      then some port_out_of_range
      else none

  -- The switch on the host, then the port range.
  pub validate_host_port : BindPolicy → String → String → Option ListenerError
  unfolding is_loopback_host is_wildcard_host validate_port
  validate_host_port p host port =
      if host == ""
      then some addr_no_host
      else if is_loopback_host host || (p.allow_wildcard && is_wildcard_host host)
      then validate_port p port
      else if p.allow_wildcard
      then some addr_not_loopback_or_wildcard
      else some addr_not_loopback

  unfoldable pub validate_addr : BindPolicy → String → Option ListenerError
  unfolding validate_host_port
  validate_addr p addr = elim (net.split_host_port addr) [
    | none ↦ some addr_malformed
    | some (host, port) ↦ validate_host_port p host port
  ]

  pub validate_listener_spec_fields : ListenerSpec → Option ListenerError
  unfolding valid_provider
  validate_listener_spec_fields spec =
      if spec.name == ""
      then some listener_name_required
      else if spec.profile == ""
      then some listener_profile_required
      else if not (valid_provider spec.provider)
      then some unknown_provider
      else none

  unfoldable pub validate_listener_spec_with_policy :
      ListenerSpec → BindPolicy → Option ListenerError
  unfolding validate_listener_spec_fields validate_addr
  validate_listener_spec_with_policy spec p = elim (validate_listener_spec_fields spec) [
    | some e ↦ some e
    | none ↦ validate_addr p spec.addr
  ]

  unfoldable pub parse_port_range : String → Option (ℤ × ℤ)
  unfolding cut_dash
  parse_port_range s = elim (cut_dash s) [
    | none ↦ none
    | some (a, b) ↦ ordered_range (net.atoi a) (net.atoi b)
  ]
