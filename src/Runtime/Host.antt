-- ===== src/Runtime/Host.antt =====
-- The Host header check of internal/runtime/store.go, which guards listeners that have no
-- authentication.
pub mod Laws
use zolem.Base.{
  Bool, true, false, ◌||◌, String, ◌==◌, List, [], ◌∷◌, Option, none, some, if◌then◌else◌, any,
  trim_open, trim_close,
}
use zolem.Upstream.{Addr, unmap, is_loopback}
use zolem.Runtime.{Net}

-- IP.IsLoopback of package net reads an IPv4-mapped address as the IPv4 address.
abbrev pub is_loopback_ip : Option Addr → Bool
is_loopback_ip none = false
is_loopback_ip (some ip) = is_loopback (unmap ip)

module _ (net : Net) where
  unfoldable pub strip_host_port : String → String
  unfolding trim_open trim_close
  strip_host_port value = elim (net.split_host_port value) [
    | some (h, port) ↦ h
    | none ↦ trim_close (trim_open value)
  ]

  -- Blank entries are dropped.
  unfoldable pub normalize_allowed_hosts : List String → List String
  unfolding strip_host_port
  normalize_allowed_hosts [] = []
  normalize_allowed_hosts (a ∷ allow) =
      let host = strip_host_port (net.trim_space a) in
      let rest = normalize_allowed_hosts allow in if host == "" then rest else host ∷ rest

  unfoldable pub host_header_allowed : String → List String → Bool
  unfolding strip_host_port
  host_header_allowed header allow =
      let host = strip_host_port header in
      if host == ""
      then false
      else any (net.equal_fold host) allow
        || net.equal_fold host "localhost"
        || is_loopback_ip (net.parse_ip host)
