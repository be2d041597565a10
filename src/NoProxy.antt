-- ===== src/NoProxy.antt =====
-- `src/no_proxy.rs`: the `--no-proxy` rules, as parsed and as matched. The parser of IP addresses
-- (`FromStr for IpAddr`) and the resolver (`to_socket_addrs`) are parameters.
pub mod Mask
pub mod Match
pub mod Parse
pub mod Bypass
use proxec.Base.{
  ℕ, ◌-◌, ◌*◌, ◌%◌, ◌^◌, Bool, true, false, ◌&&◌, Option, none, some, List, [], ◌∷◌, ◌++◌, map, any,
  nat_eq, ltb, if◌then◌else◌, bit_and, text_eq,
}
use proxec.Base.Text.{
  Text, codes, trim, is_empty, eq_ignore_ascii_case, contains_char, starts_with_char, split_once,
  parse_unsigned,
}
use proxec.Error.{Error, invalid_argument}
use proxec.Result.{Result, ok, err, ◌>>=◌}
use proxec.Net.{IpAddr, SocketAddr, ip, is_loopback, ip_eq}

pub record IpNet : Type 0 where
  pub addr : IpAddr
  pub prefix_len : ℕ

pub data NoProxyRule : Type 0 where
  any_dest loopback : NoProxyRule
  ip_exact : IpAddr → NoProxyRule
  ip_cidr : IpNet → NoProxyRule

pub record NoProxy : Type 0 where
  pub rules : List NoProxyRule
  pub unsupported_suffix_patterns : List Text
  pub unresolved_hostnames : List Text

-- `MAX << (w - prefix_len)` in a word of `w` bits.
abbrev mask : ℕ → ℕ → ℕ
mask w prefix_len = if nat_eq prefix_len 0 then 0 else ((2 ^ w - 1) * 2 ^ (w - prefix_len)) % 2 ^ w

pub contains_v4 : ℕ → ℕ → ℕ → Bool
contains_v4 network ip prefix_len =
    nat_eq (bit_and network (mask 32 prefix_len)) (bit_and ip (mask 32 prefix_len))

pub contains_v6 : ℕ → ℕ → ℕ → Bool
contains_v6 network ip prefix_len =
    nat_eq (bit_and network (mask 128 prefix_len)) (bit_and ip (mask 128 prefix_len))

-- `IpNet::contains`.
pub contains_addr : IpAddr → ℕ → IpAddr → Bool
unfolding contains_v4 contains_v6
contains_addr (IpAddr.v4 network) prefix_len (IpAddr.v4 a) = contains_v4 network a prefix_len
contains_addr (IpAddr.v4 _) _ (IpAddr.v6 _) = false
contains_addr (IpAddr.v6 _) _ (IpAddr.v4 _) = false
contains_addr (IpAddr.v6 network) prefix_len (IpAddr.v6 a) = contains_v6 network a prefix_len

pub contains : IpNet → IpAddr → Bool
unfolding contains_addr
contains net a = contains_addr net.addr net.prefix_len a

unfoldable pub rule_matches : SocketAddr → NoProxyRule → Bool
unfolding contains
rule_matches dest any_dest = true
rule_matches dest loopback = is_loopback (ip dest)
rule_matches dest (ip_exact a) = ip_eq (ip dest) a
rule_matches dest (ip_cidr net) = contains net (ip dest)

unfoldable pub should_bypass : NoProxy → SocketAddr → Bool
unfolding rule_matches
should_bypass p dest = any (rule_matches dest) p.rules

unfoldable pub no_rules : NoProxy → Bool
no_rules p =
    list_empty p.rules
    && list_empty p.unsupported_suffix_patterns
    && list_empty p.unresolved_hostnames
  where
    list_empty : {A : Type 0} → List A → Bool
    list_empty [] = true
    list_empty (_ ∷ _) = false

abbrev invalid_cidr : {A : Type 0} → Text → Result Error A
invalid_cidr raw = err (invalid_argument (codes "invalid no-proxy CIDR: " ++ raw))

abbrev or_invalid : {A : Type 0} → Text → Option A → Result Error A
or_invalid raw none = invalid_cidr raw
or_invalid raw (some a) = ok a

abbrev pub max_prefix : IpAddr → ℕ
max_prefix (IpAddr.v4 _) = 32
max_prefix (IpAddr.v6 _) = 128

module _ (parse_ip : Text → Option IpAddr) (resolve : Text → Option (List IpAddr)) where
  unfoldable pub parse_cidr : Text → Result Error IpNet
  unfolding split_once parse_unsigned
  parse_cidr raw = do
    (addr_text, prefix_text) ← or_invalid raw (split_once b'/' raw)
    a ← or_invalid raw (parse_ip addr_text)
    prefix ← or_invalid raw (parse_unsigned 255 prefix_text)
    if ltb (max_prefix a) prefix
        then invalid_cidr raw
        else ok (record { addr = a; prefix_len = prefix })

  -- What one part of the list adds to the three vectors.
  abbrev push_rule : NoProxyRule → NoProxy → NoProxy
  push_rule r p = record p { rules = p.rules ++ r ∷ [] }

  -- The addresses of a host name; a name with none, or that fails, is kept as unresolved.
  unfoldable pub push_resolved : Text → Option (List IpAddr) → NoProxy → NoProxy
  push_resolved part none p = record p {
    unresolved_hostnames = p.unresolved_hostnames ++ part ∷ [];
  }
  push_resolved part (some []) p = record p {
    unresolved_hostnames = p.unresolved_hostnames ++ part ∷ [];
  }
  push_resolved part (some (a ∷ addrs)) p = record p { rules = p.rules ++ map ip_exact (a ∷ addrs) }

  -- A part that is neither blank, `*`, `localhost` nor an address.
  unfoldable pub parse_other : Text → NoProxy → Result Error NoProxy
  unfolding parse_cidr push_resolved
  parse_other part p =
      if contains_char b'/' part
      then (do net ← parse_cidr part; ok (push_rule (ip_cidr net) p))
      else if starts_with_char b'.' part
      then ok
          (record p { unsupported_suffix_patterns = p.unsupported_suffix_patterns ++ part ∷ [] })
      else ok (push_resolved part (resolve part) p)

  unfoldable pub parse_part : Text → NoProxy → Result Error NoProxy
  unfolding parse_other
  parse_part part p =
      if is_empty part
      then ok p
      else if text_eq part (codes "*")
      then ok (push_rule any_dest p)
      else if eq_ignore_ascii_case part (codes "localhost")
      then ok (push_rule loopback p)
      else elim (parse_ip part) [
        | some a ↦ ok (push_rule (ip_exact a) p)
        | none ↦ parse_other part p
      ]

  unfoldable pub parse_parts : List Text → NoProxy → Result Error NoProxy
  unfolding parse_part trim
  parse_parts [] p = ok p
  parse_parts (raw ∷ parts) p = do p' ← parse_part (trim raw) p; parse_parts parts p'

  -- `NoProxy::parse`.
  unfoldable pub parse : List Text → Result Error NoProxy
  unfolding parse_parts
  parse parts =
      parse_parts parts
        (record { rules = []; unsupported_suffix_patterns = []; unresolved_hostnames = [] })
