-- ===== src/NoProxy/Match.antt =====
-- `NoProxy::should_bypass` of `src/no_proxy.rs` against what a rule covers.
use proxec.Base.{
  ◌≤◌, ◌≡◌, refl, ◌⊎◌, inl, inr, ◌↔◌, Bool, true, false, ◌||◌, List, [], ◌∷◌, any, All, nat_eq_iff,
  ◌/◌, ◌^◌,
}
use proxec.Net.{IpAddr, SocketAddr, ip, ip_eq_iff, is_loopback}
use proxec.NoProxy.{
  NoProxyRule, any_dest, loopback, ip_exact, ip_cidr, NoProxy, contains, rule_matches,
  should_bypass, max_prefix,
}
use proxec.NoProxy.Mask.{FitsFamily, SamePrefix, contains_addr-SamePrefix_iff}

-- A rule as `NoProxy::parse` makes it: the words and the prefix length fit.
abbrev pub IsRule : NoProxyRule → Type 0
IsRule any_dest = Unit
IsRule loopback = Unit
IsRule (ip_exact a) = FitsFamily a
IsRule (ip_cidr net) = FitsFamily net.addr × (net.prefix_len ≤ max_prefix net.addr)

-- The loopback addresses: the network 127.0.0.0/8, and ::1.
abbrev pub IsLoopback : IpAddr → Type 0
IsLoopback (IpAddr.v4 a) = a / 2 ^ 24 ≡ 127
IsLoopback (IpAddr.v6 a) = a ≡ 1

-- What a rule of the `--no-proxy` list stands for.
abbrev pub Covers : NoProxyRule → IpAddr → Type 0
Covers any_dest a = Unit
Covers loopback a = IsLoopback a
Covers (ip_exact b) a = a ≡ b
Covers (ip_cidr net) a = SamePrefix net.addr net.prefix_len a

-- Some rule of the list covers the address.
abbrev pub CoveredBy : List NoProxyRule → IpAddr → Type 0
CoveredBy [] a = ⊥
CoveredBy (r ∷ rs) a = Covers r a ⊎ CoveredBy rs a

pub is_loopback_iff : (a : IpAddr) → (is_loopback a ≡ true) ↔ IsLoopback a
is_loopback_iff (IpAddr.v4 a) = nat_eq_iff _ _
is_loopback_iff (IpAddr.v6 a) = nat_eq_iff _ _

rule_matches-Covers_iff :
    (r : NoProxyRule) (dest : SocketAddr)
    → IsRule r
    → FitsFamily (ip dest)
    → (rule_matches dest r ≡ true) ↔ Covers r (ip dest)
unfolding rule_matches contains
rule_matches-Covers_iff any_dest dest h f = (λ t. tt, λ t. refl)
rule_matches-Covers_iff loopback dest h f = is_loopback_iff (ip dest)
rule_matches-Covers_iff (ip_exact b) dest h f = ip_eq_iff (ip dest) b
rule_matches-Covers_iff (ip_cidr net) dest h f =
    contains_addr-SamePrefix_iff net.addr net.prefix_len (ip dest) h.0 f h.1

or_iff : {P Q : Type 0} (a b : Bool) → (a ≡ true) ↔ P → (b ≡ true) ↔ Q → ((a || b) ≡ true) ↔ (P ⊎ Q)
or_iff true b p q = (λ t. inl (p.0 t), λ t. refl)
or_iff false b p q = (λ t. inr (q.0 t), λ t. elim t [ inl x ↦ absurd_true (p.1 x) | inr y ↦ q.1 y ])
  where
    absurd_true : false ≡ true → b ≡ true
    absurd_true e = cc

any-CoveredBy_iff :
    (rs : List NoProxyRule) (dest : SocketAddr)
    → All IsRule rs
    → FitsFamily (ip dest)
    → (any (rule_matches dest) rs ≡ true) ↔ CoveredBy rs (ip dest)
any-CoveredBy_iff [] dest h f = (λ t. cc, λ t. absurd t)
any-CoveredBy_iff (r ∷ rs) dest h f =
    or_iff (rule_matches dest r) (any (rule_matches dest) rs) (rule_matches-Covers_iff r dest h.0 f)
      (any-CoveredBy_iff rs dest h.1 f)

-- For well-formed rules and a destination whose address fits its family, `should_bypass` is true
-- exactly when some rule covers the address: `*` covers all, `localhost` the loopback networks,
-- an address itself, and a CIDR network the addresses of its family with the same prefix.
pub should_bypass-CoveredBy_iff :
    (p : NoProxy) (dest : SocketAddr)
    → All IsRule p.rules
    → FitsFamily (ip dest)
    → (should_bypass p dest ≡ true) ↔ CoveredBy p.rules (ip dest)
unfolding should_bypass
should_bypass-CoveredBy_iff p dest h f = any-CoveredBy_iff p.rules dest h f
