-- ===== src/Socks/Packets/Targets.antt =====
-- The comparison of targets.
use mihomo_extension_sidecar.Common.{
  true, false, Option, some, none, Bytes, bytes_eq_iff, bytes_eq_refl, ◌≡◌, ◌⊎◌, ◌↔◌, ap, sym, ◌∙◌,
  arith, Option-cases, inl, inr,
}
use mihomo_extension_sidecar.Socks.Address.{SocksTarget, IpAddr, v4, v6, IpText, host_ip}
use mihomo_extension_sidecar.Socks.Packets.{
  addr_eq, has_colon, same_name, same_host, normal_host, same_socks_target,
}

addr_eq_to : (a b : IpAddr) → addr_eq a b ≡ true → a ≡ b
addr_eq_to (v4 a) (v4 b) h = ap v4 ((bytes_eq_iff a b).0 h)
addr_eq_to (v6 a) (v6 b) h = ap v6 ((bytes_eq_iff a b).0 h)
addr_eq_to (v4 a) (v6 b) h = cc
addr_eq_to (v6 a) (v4 b) h = cc

addr_eq_refl : (a : IpAddr) → addr_eq a a ≡ true
addr_eq_refl (v4 a) = bytes_eq_refl a
addr_eq_refl (v6 a) = bytes_eq_refl a

-- What makes two hosts the same: the text of one IP address each, or one name that is no such text
-- and has no colon.
abbrev pub SameHost : (Bytes → Option IpAddr) → Bytes → Bytes → Type 0
SameHost ip a b =
    ((p : IpAddr) × (ip a ≡ some p) × (ip b ≡ some p))
    ⊎ ((ip a ≡ none) × (a ≡ b) × (has_colon a ≡ false))

same_host_iff :
    (ip : Bytes → Option IpAddr) (a b : Bytes)
    → (same_host a b (ip a) (ip b) ≡ true) ↔ SameHost ip a b
unfolding same_host same_name
same_host_iff ip a b = (to, from)
  where
    to : same_host a b (ip a) (ip b) ≡ true → SameHost ip a b
    to h = elim (Option-cases (ip a)) [
      | inl n ↦ inr (n, ground (arith, bytes_eq_iff a b), ground arith)
      | inr (p, e) ↦ elim (Option-cases (ip b)) [
        | inl n ↦ let same : a ≡ b = ground (arith, bytes_eq_iff a b) in absurd (cc (rw same at e))
        | inr (q, f) ↦ inl (p, e, ground (arith, addr_eq_to p q))
      ]
    ]

    from : SameHost ip a b → same_host a b (ip a) (ip b) ≡ true
    from (inl (p, e, f)) = ground (arith, addr_eq_refl p)
    from (inr (n, e, c)) = ground (arith, bytes_eq_refl a, bytes_eq_iff a b)

SameHost-sym : (ip : Bytes → Option IpAddr) (a b : Bytes) → SameHost ip a b → SameHost ip b a
SameHost-sym ip a b (inl (p, e, f)) = inl (p, f, e)
SameHost-sym ip a b (inr (n, e, c)) = inr (rw e at n, sym e, rw e at c)

SameHost-trans :
    (ip : Bytes → Option IpAddr) (a b c : Bytes)
    → SameHost ip a b
    → SameHost ip b c
    → SameHost ip a c
SameHost-trans ip a b c (inl (p, e, f)) (inl (q, g, h)) = inl (p, e, h ∙ sym (sym f ∙ g))
SameHost-trans ip a b c (inl (p, e, f)) (inr (n, _, _)) = absurd cc
SameHost-trans ip a b c (inr (n, e, k)) (inl (q, g, h)) = absurd (cc (rw e at n))
SameHost-trans ip a b c (inr (n, e, k)) (inr (_, f, _)) = inr (n, e ∙ f, k)

module _ (t : IpText) (lower_trim : Bytes → Bytes) where
  -- Two targets count as the same exactly if their ports are equal and their hosts, lowered and
  -- trimmed, are texts of one IP address up to `Unmap`, or one name without a colon that is no such
  -- text.
  pub same_socks_target_iff :
      (x y : SocksTarget)
      → (same_socks_target t lower_trim x y ≡ true) ↔ (
          (x.port ≡ y.port)
          × SameHost (host_ip t) (normal_host t lower_trim x) (normal_host t lower_trim y))
  unfolding same_socks_target
  same_socks_target_iff x y =
      let a = normal_host t lower_trim x in
      let b = normal_host t lower_trim y in
      let (to, from) = same_host_iff (host_ip t) a b in
      (λ h. (ground arith, to (ground arith)), λ (p, s). ground (arith, from s))

  -- Being the same target is symmetric and transitive.
  pub same_socks_target_trans :
      (x y z : SocksTarget)
      → same_socks_target t lower_trim x y ≡ true
      → same_socks_target t lower_trim y z ≡ true
      → (same_socks_target t lower_trim y x ≡ true) × (same_socks_target t lower_trim x z ≡ true)
  same_socks_target_trans x y z h k =
      let (p, s) = (same_socks_target_iff x y).0 h in
      let (q, r) = (same_socks_target_iff y z).0 k in
      (
        (same_socks_target_iff y x).1 (sym p, SameHost-sym (host_ip t) _ _ s),
        (same_socks_target_iff x z).1 (p ∙ q, SameHost-trans (host_ip t) _ _ _ s r),
      )
