-- ===== src/NoProxy/Bypass.antt =====
-- `NoProxy::parse` with `NoProxy::should_bypass` of `src/no_proxy.rs`: what one part of the list
-- does to the destinations, whatever stands around it.
use proxec.Base.{
  ◌≡◌, refl, ◌⊎◌, inl, inr, Bool, true, false, Option, none, some, List, [], ◌∷◌, ◌++◌, map, arith,
  any, ◌||◌, Option-cases, Bool-cases, text_eq, text_eq_iff,
}
use proxec.Base.Text.{
  Text, codes, trim, is_empty, eq_ignore_ascii_case, contains_char, starts_with_char,
}
use proxec.Error.{Error}
use proxec.Result.{Result, ok, err, Result-cases}
use proxec.Net.{IpAddr, SocketAddr, ip, ip_eq_iff}
use proxec.NoProxy.{
  NoProxyRule, any_dest, loopback, ip_exact, ip_cidr, NoProxy, should_bypass, rule_matches,
  parse_cidr, push_resolved, parse_other, parse_part, parse_parts, parse,
}

any-append :
    {A : Type 0} (f : A → Bool) (xs ys : List A) → any f (xs ++ ys) ≡ (any f xs || any f ys)
any-append f [] ys = refl
any-append f (x ∷ xs) ys = ground (arith, any-append f xs ys)

module _ (parse_ip : Text → Option IpAddr) (resolve : Text → Option (List IpAddr))
    (f : NoProxyRule → Bool) where
  -- A rule that holds is still there after more parts.
  abbrev Keeps : NoProxy → Result Error NoProxy → Type 0
  Keeps p (ok q) = any f p.rules ≡ true → any f q.rules ≡ true
  Keeps p (err e) = Unit

  push-Keeps : (xs ys : List NoProxyRule) → any f xs ≡ true → any f (xs ++ ys) ≡ true
  push-Keeps xs ys h = rw (any-append f xs ys, h)

  push_resolved-Keeps :
      (part : Text) (o : Option (List IpAddr)) (p : NoProxy)
      → Keeps p (ok (push_resolved parse_ip resolve part o p))
  unfolding push_resolved
  push_resolved-Keeps part none p h = h
  push_resolved-Keeps part (some []) p h = h
  push_resolved-Keeps part (some (a ∷ addrs)) p h = push-Keeps p.rules (map ip_exact (a ∷ addrs)) h

  parse_other-Keeps : (part : Text) (p : NoProxy) → Keeps p (parse_other parse_ip resolve part p)
  unfolding parse_other
  parse_other-Keeps part p = elim (Bool-cases (contains_char b'/' part)) [
    | inl slash ↦ rw slash (elim (Result-cases (parse_cidr parse_ip resolve part)) [
      | inl (net, e) ↦ rw e (push-Keeps p.rules (ip_cidr net ∷ []))
      | inr (x, e) ↦ rw e tt
    ])
    | inr plain ↦ rw plain (elim (Bool-cases (starts_with_char b'.' part)) [
      | inl suffix ↦ rw suffix (λ h. h)
      | inr host ↦ rw host (push_resolved-Keeps part (resolve part) p)
    ])
  ]

  parse_part-Keeps : (part : Text) (p : NoProxy) → Keeps p (parse_part parse_ip resolve part p)
  unfolding parse_part
  parse_part-Keeps part p = elim (Bool-cases (is_empty part)) [
    | inl blank ↦ rw blank (λ h. h)
    | inr filled ↦ rw filled (elim (Bool-cases (text_eq part (codes "*"))) [
      | inl star ↦ rw star (push-Keeps p.rules (any_dest ∷ []))
      | inr unstarred ↦
          rw unstarred (elim (Bool-cases (eq_ignore_ascii_case part (codes "localhost"))) [
            | inl local ↦ rw local (push-Keeps p.rules (loopback ∷ []))
            | inr named ↦ rw named (elim (Option-cases (parse_ip part)) [
              | inl e ↦ rw e (parse_other-Keeps part p)
              | inr (a, e) ↦ rw e (push-Keeps p.rules (ip_exact a ∷ []))
            ])
          ])
    ])
  ]

  parse_parts-Keeps :
      (parts : List Text) (p : NoProxy) → Keeps p (parse_parts parse_ip resolve parts p)
  unfolding parse_parts
  parse_parts-Keeps [] p = λ h. h
  parse_parts-Keeps (raw ∷ parts) p =
      elim (Result-cases (parse_part parse_ip resolve (trim raw) p)) [
        | inl (p', e) ↦ rw e (
            then_Keeps p' (parse_parts parse_ip resolve parts p')
              (rw e at (parse_part-Keeps (trim raw) p)) (parse_parts-Keeps parts p'))
        | inr (x, e) ↦ rw e tt
      ]
    where
      then_Keeps :
          (p' : NoProxy) (r : Result Error NoProxy)
          → (any f p.rules ≡ true → any f p'.rules ≡ true)
          → Keeps p' r
          → Keeps p r
      then_Keeps p' (ok q) g k = λ h. k (g h)
      then_Keeps p' (err x) g k = tt

  -- The rules of one part hold after all parts, wherever it stands.
  parse_parts_at :
      (pre post : List Text) (raw : Text) (p q : NoProxy)
      → ((p' : NoProxy)
          → (p'' : NoProxy) × (parse_part parse_ip resolve (trim raw) p' ≡ ok p'')
            × (any f p''.rules ≡ true))
      → parse_parts parse_ip resolve (pre ++ raw ∷ post) p ≡ ok q
      → any f q.rules ≡ true
  unfolding parse_parts
  parse_parts_at [] post raw p q adds e =
      kept (parse_parts-Keeps post (adds p).0) (rw (adds p).1 at e)
    where
      kept :
          Keeps (adds p).0 (parse_parts parse_ip resolve post (adds p).0)
          → parse_parts parse_ip resolve post (adds p).0 ≡ ok q
          → any f q.rules ≡ true
      kept k done = (rw done at k) (adds p).2
  parse_parts_at (x ∷ pre) post raw p q adds e =
      elim (Result-cases (parse_part parse_ip resolve (trim x) p)) [
        | inl (p', part) ↦ parse_parts_at pre post raw p' q adds (rw part at e)
        | inr (x', part) ↦ absurd_err (rw part at e)
      ]
    where
      absurd_err : {x' : Error} → err x' ≡ ok q → any f q.rules ≡ true
      absurd_err h = cc

-- A part that stands for every destination or for the address of this one.
abbrev pub Names : (Text → Option IpAddr) → Text → SocketAddr → Type 0
Names parse_ip part dest =
    (part ≡ codes "*")
    ⊎ ((parse_ip part ≡ some (ip dest))
        × (is_empty part ≡ false)
        × (eq_ignore_ascii_case part (codes "localhost") ≡ false))

module _ (parse_ip : Text → Option IpAddr) (resolve : Text → Option (List IpAddr))
    (dest : SocketAddr) where
  any_last :
      (rs : List NoProxyRule) (r : NoProxyRule)
      → rule_matches dest r ≡ true
      → any (rule_matches dest) (rs ++ r ∷ []) ≡ true
  any_last rs r h = rw any-append (or_last (any (rule_matches dest) rs) (rule_matches dest r) h)
    where
      or_last : (a b : Bool) → b ≡ true → (a || (b || false)) ≡ true
      or_last a b h = ground arith

  Adds : Text → NoProxy → Type 0
  Adds part p =
      (q : NoProxy) × (parse_part parse_ip resolve part p ≡ ok q)
      × (any (rule_matches dest) q.rules ≡ true)

  star-Adds : (part : Text) (p : NoProxy) → part ≡ codes "*" → Adds part p
  unfolding Adds parse_part rule_matches
  star-Adds part p e =
      (record p { rules = p.rules ++ any_dest ∷ [] }, rw e, any_last p.rules any_dest refl)

  parse_part-Adds : (part : Text) (p : NoProxy) → Names parse_ip part dest → Adds part p
  unfolding Adds parse_part rule_matches
  parse_part-Adds part p (inl star) = star-Adds part p star
  parse_part-Adds part p (inr (is_ip, filled, named)) =
      elim (Bool-cases (text_eq part (codes "*"))) [
        | inl star ↦ star-Adds part p ((text_eq_iff part (codes "*")).0 star)
        | inr unstarred ↦ (
          record p { rules = p.rules ++ ip_exact (ip dest) ∷ [] },
          rw (filled, unstarred, named, is_ip),
          any_last p.rules (ip_exact (ip dest)) ((ip_eq_iff (ip dest) (ip dest)).1 refl),
        )
      ]

-- A part that is `*` makes every destination bypass the proxy, wherever it stands in the list; a
-- part that is an address, and neither blank nor a spelling of `localhost`, makes every port of
-- that address bypass it. Both hold of every list that `parse` accepts.
pub parse-should_bypass :
    (parse_ip : Text → Option IpAddr) (resolve : Text → Option (List IpAddr)) (pre post : List Text)
    (raw : Text) (p : NoProxy) (dest : SocketAddr)
    → parse parse_ip resolve (pre ++ raw ∷ post) ≡ ok p
    → Names parse_ip (trim raw) dest
    → should_bypass p dest ≡ true
unfolding parse should_bypass Adds
parse-should_bypass parse_ip resolve pre post raw p dest e part =
    parse_parts_at parse_ip resolve (rule_matches dest) pre post raw _ p
      (λ p'. parse_part-Adds parse_ip resolve dest (trim raw) p' part) e
