-- ===== src/Upstream/Laws.antt =====
-- The upstream policy, stated without the switch: what each class means for an address.
use zolem.Base.{
  ℕ, ◌+◌, ◌*◌, ◌/◌, ◌%◌, ◌<◌, subst, sym, Bool, true, false, ◌||◌, String, ◌==◌, eq_iff, ◌≡◌, refl,
  ◌⊎◌, inl, inr, arith, ◌↔◌, Bool-cases, if◌then◌else◌,
}
use zolem.Upstream.{
  Addr, is_low_special, v4, v6, blocked, private, public, zone, unmap, unwrap, embedded, classify,
  classify_unwrapped, tunnel_downgrade, unwrap_6, is_loopback, is_private, is_link_local_unicast,
  in_nat64_local_use, in_teredo, is_link_local_multicast, is_interface_local_multicast,
  is_unspecified, is_multicast,
}

-- Never-permitted IPv4 addresses: 0.0.0.0/8, 169.254.0.0/16 and 224.0.0.0/4.
abbrev pub IsForbidden : Addr → Type 0
IsForbidden (v4 a b c d) = (a ≡ 0) ⊎ ((a ≡ 169) × (b ≡ 254)) ⊎ (a / 16 ≡ 14)
IsForbidden (v6 h0 h1 h2 h3 h4 h5 h6 h7 z) = ⊥

classify_unwrapped_of_IsForbidden :
    (a : Addr) (t : Bool) → IsForbidden a → classify_unwrapped a t ≡ blocked
unfolding classify_unwrapped
classify_unwrapped_of_IsForbidden (v4 a b c d) t h = ground arith
classify_unwrapped_of_IsForbidden (v6 h0 h1 h2 h3 h4 h5 h6 h7 z) t h = absurd h

pub classify_of_IsForbidden : (a : Addr) → IsForbidden (embedded a) → classify a ≡ blocked
unfolding classify embedded
classify_of_IsForbidden a h = elim (Bool-cases (zone a == "")) [
  | inl e ↦ rw e (classify_unwrapped_of_IsForbidden (unwrap a).out (unwrap a).tunneled h)
  | inr e ↦ rw e refl
]

-- How an IPv4 address is written: as it is, IPv4-mapped (::ffff:0:0/96), behind NAT64
-- (64:ff9b::/96), as a 6to4 prefix (2002::/16), or IPv4-compatible (::/96), except :: and ::1.
pub data Carries (a b c d : ℕ) : Addr → Type 0 where
  itself : Carries a b c d (v4 a b c d)
  mapped : (z : String) → Carries a b c d (v6 0 0 0 0 0 0xffff (a * 256 + b) (c * 256 + d) z)
  nat64 : (z : String) → Carries a b c d (v6 0x64 0xff9b 0 0 0 0 (a * 256 + b) (c * 256 + d) z)
  six_to_four :
      (h3 h4 h5 h6 h7 : ℕ) (z : String)
      → Carries a b c d (v6 0x2002 (a * 256 + b) (c * 256 + d) h3 h4 h5 h6 h7 z)
  compatible :
      (z : String)
      → 1 < (a * 256 + b) * 65536 + (c * 256 + d)
      → Carries a b c d (v6 0 0 0 0 0 0 (a * 256 + b) (c * 256 + d) z)

-- Two halves of a group.
v4_of_groups :
    (a b c d : ℕ)
    → b < 256
    → d < 256
    → v4 ((a * 256 + b) / 256) ((a * 256 + b) % 256) ((c * 256 + d) / 256) ((c * 256 + d) % 256)
      ≡ v4 a b c d
v4_of_groups a b c d hb hd =
    let a_ : (a * 256 + b) / 256 ≡ a = omega (arith, hb) in
    let b_ : (a * 256 + b) % 256 ≡ b = omega (arith, hb) in
    let c_ : (c * 256 + d) / 256 ≡ c = omega (arith, hd) in
    let d_ : (c * 256 + d) % 256 ≡ d = omega (arith, hd) in rw (a_, b_, c_, d_) refl

above_1 : (h l : ℕ) (z : String) → 1 < h * 65536 + l → is_low_special h l z ≡ false
above_1 h l z more = ground arith

-- Whatever the form, the address is found.
embedded-Carries :
    (a b c d : ℕ) (x : Addr) → b < 256 → d < 256 → Carries a b c d x → embedded x ≡ v4 a b c d
unfolding embedded unmap unwrap_6
embedded-Carries a b c d x hb hd Carries.itself = refl
embedded-Carries a b c d x hb hd (Carries.mapped z) = v4_of_groups a b c d hb hd
embedded-Carries a b c d x hb hd (Carries.nat64 z) = v4_of_groups a b c d hb hd
embedded-Carries a b c d x hb hd (Carries.six_to_four h3 h4 h5 h6 h7 z) = v4_of_groups a b c d hb hd
embedded-Carries a b c d x hb hd (Carries.compatible z more) =
    rw (above_1 (a * 256 + b) (c * 256 + d) z more, embedded) (v4_of_groups a b c d hb hd)

-- An IPv4 address in 0.0.0.0/8, 169.254.0.0/16 or 224.0.0.0/4, its second and fourth numbers
-- bytes, is blocked however it is written: as it is, IPv4-mapped (::ffff:0:0/96), behind NAT64
-- (64:ff9b::/96), as a 6to4 prefix (2002::/16) with anything after it, or IPv4-compatible (::/96)
-- except :: and ::1, each with any zone.
pub classify-Carries :
    (a b c d : ℕ) (x : Addr)
    → b < 256
    → d < 256
    → IsForbidden (v4 a b c d)
    → Carries a b c d x
    → classify x ≡ blocked
classify-Carries a b c d x hb hd h form =
    classify_of_IsForbidden x (subst IsForbidden (sym (embedded-Carries a b c d x hb hd form)) h)

-- The machine itself or a private network: 127.0.0.0/8, RFC 1918, ::1 and RFC 4193.
abbrev pub IsLocal : Addr → Type 0
IsLocal (v4 a b c d) = (a ≡ 127) ⊎ (a ≡ 10) ⊎ ((a ≡ 172) × (b / 16 ≡ 1)) ⊎ ((a ≡ 192) × (b ≡ 168))
IsLocal (v6 h0 h1 h2 h3 h4 h5 h6 h7 z) =
    (h0 / 512 ≡ 126)
    ⊎ ((h0 ≡ 0) × (h1 ≡ 0) × (h2 ≡ 0) × (h3 ≡ 0) × (h4 ≡ 0) × (h5 ≡ 0) × (h6 ≡ 0) × (h7 ≡ 1))

-- The switch of Classify, over its tests in order.
switch-private :
    (reserved loop never zero_net net t : Bool)
    → ((if reserved
          then blocked
          else if loop
          then tunnel_downgrade private t
          else if never
          then blocked
          else if zero_net
          then blocked
          else if net
          then tunnel_downgrade private t
          else public)
        ≡ private)
      ↔ ((t ≡ false)
          × (reserved ≡ false)
          × ((loop ≡ true) ⊎ ((never ≡ false) × (zero_net ≡ false) × (net ≡ true))))
unfolding tunnel_downgrade
switch-private reserved loop never zero_net net t = (λ h. ground arith, λ h. ground arith)

module _ (h0 h1 h2 h3 h4 h5 h6 h7 : ℕ) (z : String) (e : z ≡ "") where
  abbrev host : Addr
  host = v6 h0 h1 h2 h3 h4 h5 h6 h7 z

  abbrev never : Addr → Bool
  never a =
      is_link_local_unicast a
      || is_link_local_multicast a
      || is_interface_local_multicast a
      || is_unspecified a
      || is_multicast a

  loop-IsLocal : is_loopback host ≡ true → IsLocal host
  loop-IsLocal h = ground arith

  net-IsLocal : is_private host ≡ true → IsLocal host
  net-IsLocal h = ground arith

  IsLocal-not_reserved : IsLocal host → (in_nat64_local_use host || in_teredo host) ≡ false
  IsLocal-not_reserved h = ground arith

  IsLocal-net :
      IsLocal host
      → (is_loopback host ≡ true)
        ⊎ ((never host ≡ false) × (false ≡ false) × (is_private host ≡ true))
  IsLocal-net (inl net) = inr (ground arith, refl, ground arith)
  IsLocal-net (inr ones) = inl (ground (arith, eq_iff z ""))

  classify_unwrapped-private_6 :
      (t : Bool) → (classify_unwrapped host t ≡ private) ↔ ((t ≡ false) × IsLocal host)
  unfolding classify_unwrapped
  classify_unwrapped-private_6 t =
      let reserved = in_nat64_local_use host || in_teredo host in
      let switch =
        switch-private reserved (is_loopback host) (never host) false (is_private host) t in
      (
        λ h.
            let (direct, open_, local) = switch.0 h in
            (direct, elim local [ inl l ↦ loop-IsLocal l | inr n ↦ net-IsLocal n.2 ]),
        λ h. switch.1 (h.0, IsLocal-not_reserved h.1, IsLocal-net h.1),
      )

classify_unwrapped-private :
    (a : Addr) (t : Bool)
    → zone a ≡ ""
    → (classify_unwrapped a t ≡ private) ↔ ((t ≡ false) × IsLocal a)
classify_unwrapped-private (v4 a b c d) t e =
    unfold classify_unwrapped in (λ h. ground arith, λ h. ground arith)
classify_unwrapped-private (v6 h0 h1 h2 h3 h4 h5 h6 h7 z) t e =
    classify_unwrapped-private_6 h0 h1 h2 h3 h4 h5 h6 h7 z e t

unwrap_6-IsLocal :
    (a : Addr)
    → zone a ≡ ""
    → (((unwrap_6 a).tunneled ≡ false) × IsLocal (unwrap_6 a).out) ↔ IsLocal a
unfolding unwrap_6
unwrap_6-IsLocal (v4 a b c d) e = (λ h. h.1, λ h. (refl, h))
unwrap_6-IsLocal (v6 h0 h1 h2 h3 h4 h5 h6 h7 z) e =
    (λ h. ground arith, λ h. ground (arith, eq_iff z ""))

unmap-zone : (a : Addr) → zone a ≡ "" → zone (unmap a) ≡ ""
unfolding unmap
unmap-zone (v4 a b c d) e = refl
unmap-zone (v6 h0 h1 h2 h3 h4 h5 h6 h7 z) e = ground arith

unwrap-zone : (a : Addr) → zone a ≡ "" → zone (unwrap_6 a).out ≡ ""
unfolding unwrap_6
unwrap-zone (v4 a b c d) e = refl
unwrap-zone (v6 h0 h1 h2 h3 h4 h5 h6 h7 z) e = ground arith

-- Classify answers Private exactly for an address with no zone that is, as it is or IPv4-mapped, in
-- 127.0.0.0/8, 10.0.0.0/8, 172.16.0.0/12, 192.168.0.0/16 or fc00::/7, or ::1. So no NAT64, 6to4 or
-- IPv4-compatible form of such an address is Private.
pub classify-private : (a : Addr) → (classify a ≡ private) ↔ ((zone a ≡ "") × IsLocal (unmap a))
unfolding classify unwrap
classify-private a = elim (Bool-cases (zone a == "")) [
  | inr other ↦ rw other (λ h. cc, λ h. absurd (ground (arith, eq_iff (zone a) "")))
  | inl plain ↦
      let z : zone a ≡ "" = (eq_iff (zone a) "").0 plain in
      let b = unmap a in
      let zb : zone b ≡ "" = unmap-zone a z in
      let private_iff =
        classify_unwrapped-private (unwrap_6 b).out (unwrap_6 b).tunneled (unwrap-zone b zb) in
      let local_iff = unwrap_6-IsLocal b zb in
      rw plain (λ h. (z, local_iff.0 (private_iff.0 h)), λ h. private_iff.1 (local_iff.1 h.1))
]
