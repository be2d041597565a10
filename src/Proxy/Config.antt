-- ===== src/Proxy/Config.antt =====
-- `src/proxy/config.rs`: the upstream proxy of `--proxy`. The parsers of URLs (the `url` crate) and
-- of socket addresses (`FromStr for SocketAddr`) are parameters.
use proxec.Base.{
  ℕ, ◌+◌, ◌/◌, ◌%◌, ◌≡◌, ◌≢◌, refl, ap, ◌∙◌, ◌⊎◌, ◌↔◌, inl, inr, Bool, true, false, ◌||◌, Option,
  none, some, [], ◌∷◌, ◌++◌, leb, if◌then◌else◌, text_eq, text_eq_iff,
}
use mathlib.Core.Path.{subst}
use proxec.Base.Text.{Text, codes, is_empty}
use proxec.Error.{Error}
use proxec.Result.{Result, ok, err, ◌>>=◌}
use proxec.Net.{SocketAddr}

-- `Url`, by the methods that are called: `port()` is none for the scheme's own port.
pub record Url : Type 0 where
  pub scheme : Text
  pub host_str : Option Text
  pub port : Option ℕ
  pub username : Text
  pub password : Option Text

pub data ProxyProtocol : Type 0 where
  http_connect socks5 : ProxyProtocol

pub record ProxyConfig : Type 0 where
  pub protocol : ProxyProtocol
  pub addr : SocketAddr
  pub auth : Option (Text × Text)

-- The decimal digits of a port, as `{}` prints it.
abbrev pub display_u16 : ℕ → Text
display_u16 n =
    (if leb 10000 n then (b'0' + n / 10000) ∷ [] else [])
    ++ (if leb 1000 n then (b'0' + n / 1000 % 10) ∷ [] else [])
    ++ (if leb 100 n then (b'0' + n / 100 % 10) ∷ [] else [])
    ++ (if leb 10 n then (b'0' + n / 10 % 10) ∷ [] else [])
    ++ (b'0' + n % 10) ∷ []

abbrev invalid : {A : Type 0} → Text → Result Error A
invalid message = err (Error.invalid_proxy_url message)

abbrev ok_or : {A : Type 0} → Text → Option A → Result Error A
ok_or message none = invalid message
ok_or message (some a) = ok a

unfoldable pub protocol_of : Text → Result Error ProxyProtocol
protocol_of scheme =
    if text_eq scheme (codes "http")
    then ok ProxyProtocol.http_connect
    else if text_eq scheme (codes "socks") || text_eq scheme (codes "socks5")
    then ok ProxyProtocol.socks5
    else invalid (codes "unsupported proxy scheme: " ++ scheme)

abbrev unwrap_or_default : Option Text → Text
unwrap_or_default none = []
unwrap_or_default (some t) = t

abbrev pub auth_of : Url → Option (Text × Text)
auth_of url =
    if is_empty url.username then none else some (url.username, unwrap_or_default url.password)

module _ (parse_url : Text → Option Url) (parse_addr : Text → Option SocketAddr) where
  unfoldable pub parse : Text → Result Error ProxyConfig
  unfolding protocol_of
  parse raw = do
    url ← ok_or raw (parse_url raw)
    protocol ← protocol_of url.scheme
    host ← ok_or (codes "missing host") url.host_str
    port ← ok_or (codes "missing port") url.port
    let text = host ++ b':' ∷ display_u16 port
    addr ← ok_or (codes "invalid address: " ++ text) (parse_addr text)
    ok (record { protocol = protocol; addr = addr; auth = auth_of url })

-- The schemes of each protocol.
abbrev IsScheme : ProxyProtocol → Text → Type 0
IsScheme ProxyProtocol.http_connect scheme = scheme ≡ codes "http"
IsScheme ProxyProtocol.socks5 scheme = (scheme ≡ codes "socks") ⊎ (scheme ≡ codes "socks5")

scheme_tests :
    (a b c : Bool) (e : Error) (p : ProxyProtocol)
    → (if a
        then ok ProxyProtocol.http_connect
        else if b || c
        then ok ProxyProtocol.socks5
        else err e)
      ≡ ok p
    → ((p ≡ ProxyProtocol.http_connect) × (a ≡ true))
      ⊎ ((p ≡ ProxyProtocol.socks5) × ((b ≡ true) ⊎ (c ≡ true)))
scheme_tests true b c e p h = inl (cc, refl)
scheme_tests false true c e p h = inr (cc, inl refl)
scheme_tests false false true e p h = inr (cc, inr refl)
scheme_tests false false false e p h = cc

protocol_of-IsScheme :
    (scheme : Text) (p : ProxyProtocol) → protocol_of scheme ≡ ok p → IsScheme p scheme
unfolding protocol_of
protocol_of-IsScheme scheme p e =
    elim (scheme_tests (text_eq scheme (codes "http")) (text_eq scheme (codes "socks"))
      (text_eq scheme (codes "socks5"))
      (Error.invalid_proxy_url (codes "unsupported proxy scheme: " ++ scheme)) p e) [
        | inl (http, test) ↦ rw http ((text_eq_iff scheme (codes "http")).0 test)
        | inr (socks, inl test) ↦ rw socks (inl ((text_eq_iff scheme (codes "socks")).0 test))
        | inr (socks, inr test) ↦ rw socks (inr ((text_eq_iff scheme (codes "socks5")).0 test))
      ]

protocol_of_scheme :
    (scheme : Text) (p : ProxyProtocol) → IsScheme p scheme → protocol_of scheme ≡ ok p
unfolding protocol_of
protocol_of_scheme scheme ProxyProtocol.http_connect e = rw e refl
protocol_of_scheme scheme ProxyProtocol.socks5 (inl e) = rw e refl
protocol_of_scheme scheme ProxyProtocol.socks5 (inr e) = rw e refl

ok_or-ok : {A : Type 0} (m : Text) (o : Option A) (a : A) → ok_or m o ≡ ok a → o ≡ some a
ok_or-ok m none a e = cc
ok_or-ok m (some b) a e = cc

same_config : (c d : ProxyConfig) → ◌≡◌ {A = Result Error ProxyConfig} (ok c) (ok d) → c ≡ d
same_config c d e = cc

bind_ok :
    {A B : Type 0} (r : Result Error A) (f : A → Result Error B) (b : B)
    → (r >>= f) ≡ ok b
    → (a : A) × (r ≡ ok a) × (f a ≡ ok b)
bind_ok (ok a) f b e = (a, refl, e)
bind_ok (err x) f b e = cc

-- The login that a user name and a password of a URL ask for: none if the name is empty, and a
-- missing password is empty.
abbrev pub AsksLogin : Text → Option Text → Option (Text × Text) → Type 0
AsksLogin username password none = username ≡ []
AsksLogin username password (some (user, pass)) =
    (username ≡ user) × (user ≢ []) × ((password ≡ some pass) ⊎ ((password ≡ none) × (pass ≡ [])))

abbrev given : (user : Text) (password : Option Text) → Option (Text × Text)
given user password = if is_empty user then none else some (user, unwrap_or_default password)

given-AsksLogin :
    (user : Text) (password : Option Text) → AsksLogin user password (given user password)
given-AsksLogin [] password = refl
given-AsksLogin (c ∷ user) none = (refl, (λ h. cc), inr (refl, refl))
given-AsksLogin (c ∷ user) (some pass) = (refl, (λ h. cc), inl refl)

AsksLogin-given :
    (username : Text) (password : Option Text) (auth : Option (Text × Text))
    → AsksLogin username password auth
    → given username password ≡ auth
AsksLogin-given username password none e = rw e refl
AsksLogin-given username password (some ([], pass)) (e, ne, p) = absurd (ne refl)
AsksLogin-given username password (some (c ∷ user, pass)) (e, ne, inl p) = rw (e, p) refl
AsksLogin-given username password (some (c ∷ user, pass)) (e, ne, inr (p, q)) = rw (e, p, q) refl

module _ (parse_url : Text → Option Url) (parse_addr : Text → Option SocketAddr) where
  -- What an accepted text has to be, and the configuration that it stands for.
  pub record Accepts (raw : Text) (c : ProxyConfig) : Type 0 where
    pub url : Url
    pub host : Text
    pub port : ℕ
    pub parsed : parse_url raw ≡ some url
    pub scheme : IsScheme c.protocol url.scheme
    pub has_host : url.host_str ≡ some host
    pub has_port : url.port ≡ some port
    pub addr : parse_addr (host ++ b':' ∷ display_u16 port) ≡ some c.addr
    pub login : AsksLogin url.username url.password c.auth

  -- A text is accepted exactly as the configuration that it stands for: its URL has a scheme of the
  -- protocol, which is `http`, or `socks` or `socks5`, a host, and a port that the URL parser gives;
  -- the host, a colon and the port's digits read as the address; and the login is the URL's user name
  -- with its password, an empty one if there is none, and no login exactly if the user name is empty.
  pub parse-Accepts_iff :
      (raw : Text) (c : ProxyConfig) → (parse parse_url parse_addr raw ≡ ok c) ↔ Accepts raw c
  unfolding parse
  parse-Accepts_iff raw c = (accepted, parses)
    where
      accepted : parse parse_url parse_addr raw ≡ ok c → Accepts raw c
      accepted e =
          let (url, e1, r1) = bind_ok (ok_or raw (parse_url raw)) _ c e in
          let (protocol, e2, r2) = bind_ok (protocol_of url.scheme) _ c r1 in
          let (host, e3, r3) = bind_ok (ok_or (codes "missing host") url.host_str) _ c r2 in
          let (port, e4, r4) = bind_ok (ok_or (codes "missing port") url.port) _ c r3 in
          let (addr, e5, r5) =
            bind_ok
              (ok_or (codes "invalid address: " ++ (host ++ b':' ∷ display_u16 port))
                (parse_addr (host ++ b':' ∷ display_u16 port)))
              _ c r4 in
          let same : record { protocol = protocol; addr = addr; auth = auth_of url } ≡ c =
            same_config _ c r5 in
          record {
            url = url;
            host = host;
            port = port;
            parsed = ok_or-ok raw (parse_url raw) url e1;
            scheme = protocol_of-IsScheme url.scheme c.protocol (e2 ∙ ap (λ d. ok d.protocol) same);
            has_host = ok_or-ok (codes "missing host") url.host_str host e3;
            has_port = ok_or-ok (codes "missing port") url.port port e4;
            addr =
                ok_or-ok (codes "invalid address: " ++ (host ++ b':' ∷ display_u16 port))
                  (parse_addr (host ++ b':' ∷ display_u16 port)) addr e5
                ∙ ap (λ d. some d.addr) same;
            login =
                subst (λ (d : ProxyConfig). AsksLogin url.username url.password d.auth) same
                  (given-AsksLogin url.username url.password);
          }

      parses : Accepts raw c → parse parse_url parse_addr raw ≡ ok c
      parses a =
          let known = protocol_of_scheme a.url.scheme c.protocol a.scheme in
          rw (a.parsed, known, a.has_host, a.has_port, a.addr, parse)
            (ap (λ auth. ok (record { protocol = c.protocol; addr = c.addr; auth = auth }))
              (AsksLogin-given a.url.username a.url.password c.auth a.login))
