-- ===== src/Tests/NoProxy.antt =====
-- The rules of `src/no_proxy.rs` on a few addresses. The parser of addresses knows one text.
use mathlib.Core.Path.{subst}
use proxec.Base.{
  ◌≡◌, refl, inl, inr, ◌↔◌, true, Option, none, some, List, [], ◌∷◌, if◌then◌else◌, arith, All,
  text_eq, Bool-cases,
}
use proxec.Base.Text.{Text, codes, trim}
use proxec.Result.{ok}
use proxec.Net.{IpAddr, SocketAddr}
use proxec.NoProxy.{
  NoProxy, IpNet, loopback, ip_exact, ip_cidr, contains_addr, should_bypass, parse,
}
use proxec.NoProxy.Mask.{FitsFamily, SamePrefix, contains_addr-SamePrefix_iff}
use proxec.NoProxy.Match.{CoveredBy, should_bypass-CoveredBy_iff}
use proxec.NoProxy.Parse.{GoodParse, parse-GoodParse}
use proxec.NoProxy.Bypass.{parse-should_bypass}

-- 10.0.0.0 is the only text of an address, and no host name resolves.
abbrev parse_ip : Text → Option IpAddr
parse_ip s = if text_eq s (codes "10.0.0.0") then some (IpAddr.v4 0x0a000000) else none

abbrev resolve : Text → Option (List IpAddr)
resolve s = none

abbrev private_net : IpNet
private_net = record { addr = IpAddr.v4 0x0a000000; prefix_len = 8 }

abbrev rules : NoProxy
rules = record {
  rules = loopback ∷ ip_cidr private_net ∷ [];
  unsupported_suffix_patterns = [];
  unresolved_hostnames = [];
}

contains_addr-SamePrefix_iff_example :
    (contains_addr (IpAddr.v4 0x0a000000) 8 (IpAddr.v4 0x0a010203) ≡ true)
    ↔ SamePrefix (IpAddr.v4 0x0a000000) 8 (IpAddr.v4 0x0a010203)
contains_addr-SamePrefix_iff_example =
    contains_addr-SamePrefix_iff (IpAddr.v4 0x0a000000) 8 (IpAddr.v4 0x0a010203) (omega arith)
      (omega arith) (omega arith)

should_bypass-CoveredBy_iff_example :
    (should_bypass rules (SocketAddr.v4 0x0a010203 80) ≡ true)
    ↔ CoveredBy (loopback ∷ ip_cidr private_net ∷ []) (IpAddr.v4 0x0a010203)
should_bypass-CoveredBy_iff_example =
    should_bypass-CoveredBy_iff rules (SocketAddr.v4 0x0a010203 80)
      (tt, ((omega arith, omega arith), tt)) (omega arith)

parse_ip-FitsFamily : (s : Text) (a : IpAddr) → parse_ip s ≡ some a → FitsFamily a
parse_ip-FitsFamily s a e = elim (Bool-cases (text_eq s (codes "10.0.0.0"))) [
  | inl known ↦ known_fits (rw known at e)
  | inr unknown ↦ unknown_fits (rw unknown at e)
]
  where
    known_fits : some (IpAddr.v4 0x0a000000) ≡ some a → FitsFamily a
    known_fits h = subst (λ o. elim o [ none ↦ Unit | some b ↦ FitsFamily b ]) h (omega arith)

    unknown_fits : none ≡ some a → FitsFamily a
    unknown_fits h = cc

no_addrs : (s : Text) (addrs : List IpAddr) → resolve s ≡ some addrs → All FitsFamily addrs
no_addrs s addrs h = cc

parse-GoodParse_example :
    GoodParse (parse parse_ip resolve (codes " 10.0.0.0/8" ∷ codes ".local" ∷ []))
parse-GoodParse_example =
    parse-GoodParse parse_ip resolve parse_ip-FitsFamily no_addrs
      (codes " 10.0.0.0/8" ∷ codes ".local" ∷ [])

abbrev parsed : NoProxy
parsed = record {
  rules = loopback ∷ ip_exact (IpAddr.v4 0x0a000000) ∷ [];
  unsupported_suffix_patterns = codes ".local" ∷ [];
  unresolved_hostnames = [];
}

parse-parsed :
    parse parse_ip resolve (codes "localhost" ∷ codes " 10.0.0.0" ∷ codes ".local" ∷ []) ≡ ok parsed
unfolding parse
parse-parsed = refl

parse-should_bypass_example : should_bypass parsed (SocketAddr.v4 0x0a000000 80) ≡ true
unfolding trim
parse-should_bypass_example =
    parse-should_bypass parse_ip resolve (codes "localhost" ∷ []) (codes ".local" ∷ [])
      (codes " 10.0.0.0") parsed (SocketAddr.v4 0x0a000000 80) parse-parsed (inr (refl, refl, refl))
