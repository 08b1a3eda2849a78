-- ===== src/Runtime/Host/Laws.antt =====
-- Which Host headers pass.
use zolem.Base.{
  ◌∙◌, not, ◌&&◌, any_iff, subst, sym, some_inj, Bool, true, false, ◌||◌, String, ◌==◌, eq_iff,
  List, [], ◌∷◌, Option, none, some, if◌then◌else◌, any, ◌≡◌, refl, ◌≢◌, ◌⊎◌, inl, inr, ◌↔◌, arith,
}
use mathlib.Core.List.{Memᴰ}
use mathlib.Core.Bool.{false≢true}
use zolem.Upstream.{Addr, unmap, is_loopback}
use zolem.Runtime.{Net}
use zolem.Runtime.Host.{
  is_loopback_ip, strip_host_port, normalize_allowed_hosts, host_header_allowed,
}

is_loopback_ip_iff :
    (o : Option Addr)
    → (is_loopback_ip o ≡ true) ↔ ((a : Addr) × (o ≡ some a) × (is_loopback (unmap a) ≡ true))
is_loopback_ip_iff none = (λ h. cc, λ h. absurd (ground (arith, h.1)))
is_loopback_ip_iff (some a) =
    (λ h. (a, refl, h), λ (b, e, h). subst (λ c. is_loopback (unmap c) ≡ true) (sym (some_inj e)) h)

-- The branches of the check.
allowed_iff :
    (blank listed named loop : Bool)
    → ((if blank then false else listed || named || loop) ≡ true)
      ↔ ((blank ≡ false) × ((listed ≡ true) ⊎ (named ≡ true) ⊎ (loop ≡ true)))
allowed_iff blank listed named loop = (λ h. ground arith, λ h. ground arith)

module _ (net : Net) where
  -- A host that passes whatever the allowlist: "localhost", or a loopback address.
  abbrev pub IsLoopbackHost : String → Type 0
  IsLoopbackHost host =
      (net.equal_fold host "localhost" ≡ true)
      ⊎ ((a : Addr) × (net.parse_ip host ≡ some a) × (is_loopback (unmap a) ≡ true))

  -- An entry of the allowlist as the operator wrote it, with a port or without.
  abbrev pub IsListed : String → List String → Type 0
  IsListed host allow =
      (a : String) × Memᴰ a allow
      × (strip_host_port net (net.trim_space a) ≢ "")
      × (net.equal_fold host (strip_host_port net (net.trim_space a)) ≡ true)

  abbrev is_named : String → String → Bool
  is_named host a =
      let entry = strip_host_port net (net.trim_space a) in
      not (entry == "") && net.equal_fold host entry

  any-normalize :
      (host : String) (allow : List String)
      → any (net.equal_fold host) (normalize_allowed_hosts net allow) ≡ any (is_named host) allow
  unfolding normalize_allowed_hosts
  any-normalize host [] = refl
  any-normalize host (a ∷ allow) = ground (arith, any-normalize host allow)

  IsListed-iff :
      (host : String) (allow : List String)
      → (any (net.equal_fold host) (normalize_allowed_hosts net allow) ≡ true) ↔ IsListed host allow
  IsListed-iff host allow = (
    λ h.
        let (a, m, e) = (any_iff (is_named host) allow).0 (rw any-normalize at h) in
        (a, m, ground (arith, eq_iff (strip_host_port net (net.trim_space a)) ""), ground arith),
    λ (a, m, n, e). rw any-normalize (
        (any_iff (is_named host) allow).1
          (a, m, ground (arith, eq_iff (strip_host_port net (net.trim_space a)) ""))),
  )

  -- A Host header passes exactly when its bare host is not empty and is "localhost", a loopback
  -- address, or what an entry of the operator's allowlist names once its port is stripped.
  pub host_header_allowed_iff :
      (header : String) (allow : List String)
      → (host_header_allowed net header (normalize_allowed_hosts net allow) ≡ true) ↔ (
          (strip_host_port net header ≢ "")
          × (IsListed (strip_host_port net header) allow
              ⊎ IsLoopbackHost (strip_host_port net header)))
  unfolding host_header_allowed
  host_header_allowed_iff header allow =
      let host = strip_host_port net header in
      let blank_iff = eq_iff host "" in
      let switch =
        allowed_iff (host == "") (any (net.equal_fold host) (normalize_allowed_hosts net allow))
          (net.equal_fold host "localhost") (is_loopback_ip (net.parse_ip host)) in
      let loop_iff = is_loopback_ip_iff (net.parse_ip host) in
      (
        λ h.
            let (given, found) = switch.0 h in
            (
              λ e. false≢true (sym given ∙ blank_iff.1 e),
              elim found [
                | inl l ↦ inl ((IsListed-iff host allow).0 l)
                | inr (inl n) ↦ inr (inl n)
                | inr (inr a) ↦ inr (inr (loop_iff.0 a))
              ],
            ),
        λ (given, found). switch.1 (
          ground (arith, blank_iff),
          elim found [
            | inl l ↦ inl ((IsListed-iff host allow).1 l)
            | inr (inl n) ↦ inr (inl n)
            | inr (inr a) ↦ inr (inr (loop_iff.1 a))
          ],
        ),
      )
