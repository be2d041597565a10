-- ===== src/NoProxy/Parse.antt =====
-- `NoProxy::parse` of `src/no_proxy.rs`: well-formed rules, the errors, and the rules of a part.
use proxec.Base.{
  ◌≡◌, refl, inl, inr, Option, none, some, List, [], ◌∷◌, ◌++◌, map, arith, All, ltb, Option-cases,
  Bool-cases, text_eq,
}
use proxec.Base.Text.{
  Text, codes, trim, is_empty, eq_ignore_ascii_case, contains_char, starts_with_char, split_once,
  parse_unsigned,
}
use proxec.Error.{Error, invalid_argument}
use proxec.Result.{Result, ok, err, ◌>>=◌, Result-cases}
use proxec.Net.{IpAddr}
use proxec.NoProxy.{
  IpNet, NoProxyRule, any_dest, loopback, ip_exact, ip_cidr, NoProxy, max_prefix, parse_cidr,
  push_resolved, parse_other, parse_part, parse_parts, parse,
}
use proxec.NoProxy.Mask.{FitsFamily}
use proxec.NoProxy.Match.{IsRule}

All-append : (xs ys : List NoProxyRule) → All IsRule xs → All IsRule ys → All IsRule (xs ++ ys)
All-append [] ys hx hy = hy
All-append (x ∷ xs) ys hx hy = (hx.0, All-append xs ys hx.1 hy)

All-ip_exact : (addrs : List IpAddr) → All FitsFamily addrs → All IsRule (map ip_exact addrs)
All-ip_exact [] h = tt
All-ip_exact (a ∷ addrs) h = (h.0, All-ip_exact addrs h.1)

-- The result is well formed, or the error names an argument.
abbrev pub GoodParse : Result Error NoProxy → Type 0
GoodParse (ok p) = All IsRule p.rules
GoodParse (err e) = (raw : Text) × (e ≡ invalid_argument (codes "invalid no-proxy CIDR: " ++ raw))

module _ (parse_ip : Text → Option IpAddr) (resolve : Text → Option (List IpAddr))
    (fits : (t : Text) (a : IpAddr) → parse_ip t ≡ some a → FitsFamily a)
    (resolves : (t : Text) (addrs : List IpAddr)
      → resolve t ≡ some addrs
      → All FitsFamily addrs) where
  abbrev GoodNet : Text → Result Error IpNet → Type 0
  GoodNet raw (ok net) = IsRule (ip_cidr net)
  GoodNet raw (err e) = e ≡ invalid_argument (codes "invalid no-proxy CIDR: " ++ raw)

  parse_cidr-GoodNet : (raw : Text) → GoodNet raw (parse_cidr parse_ip resolve raw)
  unfolding parse_cidr
  parse_cidr-GoodNet raw = elim (Option-cases (split_once b'/' raw)) [
    | inl e ↦ rw e refl
    | inr (parts, e) ↦ rw e (elim (Option-cases (parse_ip parts.0)) [
      | inl f ↦ rw f refl
      | inr (a, f) ↦ rw f (elim (Option-cases (parse_unsigned 255 parts.1)) [
        | inl g ↦ rw g refl
        | inr (n, g) ↦ rw g (elim (Bool-cases (ltb (max_prefix a) n)) [
          | inl above ↦ rw above refl
          | inr below ↦ rw below (fits parts.0 a f, ground arith)
        ])
      ])
    ])
  ]

  push_resolved-IsRule :
      (part : Text) (o : Option (List IpAddr)) (p : NoProxy)
      → ((addrs : List IpAddr) → o ≡ some addrs → All FitsFamily addrs)
      → All IsRule p.rules
      → All IsRule (push_resolved parse_ip resolve part o p).rules
  unfolding push_resolved
  push_resolved-IsRule part none p r h = h
  push_resolved-IsRule part (some []) p r h = h
  push_resolved-IsRule part (some (a ∷ addrs)) p r h =
      All-append p.rules (map ip_exact (a ∷ addrs)) h
        (All-ip_exact (a ∷ addrs) (r (a ∷ addrs) refl))

  push_cidr :
      (part : Text) (p : NoProxy) (r : Result Error IpNet)
      → GoodNet part r
      → All IsRule p.rules
      → GoodParse (r >>= λ net. ok (record p { rules = p.rules ++ ip_cidr net ∷ [] }))
  push_cidr part p (ok net) g h = All-append p.rules (ip_cidr net ∷ []) h (g, tt)
  push_cidr part p (err e) g h = (part, g)

  parse_other-GoodParse :
      (part : Text) (p : NoProxy)
      → All IsRule p.rules
      → GoodParse (parse_other parse_ip resolve part p)
  unfolding parse_other
  parse_other-GoodParse part p h = elim (Bool-cases (contains_char b'/' part)) [
    | inl slash ↦
        rw slash (push_cidr part p (parse_cidr parse_ip resolve part) (parse_cidr-GoodNet part) h)
    | inr plain ↦ rw plain (elim (Bool-cases (starts_with_char b'.' part)) [
      | inl suffix ↦ rw suffix h
      | inr host ↦ rw host (push_resolved-IsRule part (resolve part) p (resolves part) h)
    ])
  ]

  parse_part-GoodParse :
      (part : Text) (p : NoProxy)
      → All IsRule p.rules
      → GoodParse (parse_part parse_ip resolve part p)
  unfolding parse_part
  parse_part-GoodParse part p h = elim (Bool-cases (is_empty part)) [
    | inl blank ↦ rw blank h
    | inr filled ↦ rw filled (elim (Bool-cases (text_eq part (codes "*"))) [
      | inl star ↦ rw star (All-append p.rules (any_dest ∷ []) h (tt, tt))
      | inr unstarred ↦
          rw unstarred (elim (Bool-cases (eq_ignore_ascii_case part (codes "localhost"))) [
            | inl local ↦ rw local (All-append p.rules (loopback ∷ []) h (tt, tt))
            | inr named ↦ rw named (elim (Option-cases (parse_ip part)) [
              | inl e ↦ rw e (parse_other-GoodParse part p h)
              | inr (a, e) ↦ rw e (All-append p.rules (ip_exact a ∷ []) h (fits part a e, tt))
            ])
          ])
    ])
  ]

  parse_parts-GoodParse :
      (parts : List Text) (p : NoProxy)
      → All IsRule p.rules
      → GoodParse (parse_parts parse_ip resolve parts p)
  unfolding parse_parts
  parse_parts-GoodParse [] p h = h
  parse_parts-GoodParse (raw ∷ parts) p h =
      elim (Result-cases (parse_part parse_ip resolve (trim raw) p)) [
        | inl (p', e) ↦
            rw e (parse_parts-GoodParse parts p' (rw e at (parse_part-GoodParse (trim raw) p h)))
        | inr (x, e) ↦ rw e (rw e at (parse_part-GoodParse (trim raw) p h))
      ]

  -- Where the address parser and the resolver give addresses that fit their family, `parse`
  -- gives rules whose addresses and prefix lengths fit, or the error "invalid no-proxy CIDR" of
  -- some text.
  pub parse-GoodParse : (parts : List Text) → GoodParse (parse parse_ip resolve parts)
  unfolding parse
  parse-GoodParse parts = parse_parts-GoodParse parts _ tt
