-- ===== src/Tests/Proxy.antt =====
-- Examples for `src/proxy`: a SOCKS5 server that asks for a name and a password, an HTTP proxy, and
-- the text of a proxy's URL.
use proxec.Base.{
  ℕ, ◌≡◌, ◌↔◌, refl, inl, inr, Option, none, some, List, [], ◌∷◌, ◌++◌, ltb, if◌then◌else◌, text_eq,
  length, IsBytes, arith,
}
use proxec.Base.Text.{Text, codes}
use proxec.Result.{ok, err}
use proxec.Net.{SocketAddr}
use proxec.Proxy.Socks5.{
  Auth, connect, greeting, socks_error, hex_u8, auth_request, connect_request,
}
use proxec.Proxy.Socks5.Refusal.{connect-Refusal}
use proxec.Proxy.Socks5.Refusal.Kinds.{logged_in, refused, bad_request}
use proxec.Proxy.Socks5.Handshake.{Agreed, Discreet, connect-Agreed, connect-Discreet}
use proxec.Proxy.Socks5.Sent.{Fits, IsAuth, connect-Fits}
use proxec.Proxy.Socks5.Liveness.{connect-returns}
use proxec.Proxy.Http
use proxec.Proxy.Http.Tunnel.{Asked, connect-Asked}
use proxec.Proxy.Config.{Url, ProxyProtocol, ProxyConfig, parse, Accepts, parse-Accepts_iff}
use proxec.Tests.Network.{nothing_yet, network, history, peer}

abbrev pub proxy_addr : SocketAddr
proxy_addr = SocketAddr.v4 0x7f000001 1080

abbrev dest : SocketAddr
dest = SocketAddr.v4 0x0a010203 443

abbrev pub auth : Auth
auth = some (codes "me", codes "pw")

-- The server's bytes: the choice of method 2, the acceptance of the login, the answer to the request
-- and the first bytes of the tunnel.
abbrev pub server : List ℕ → List ℕ
server o =
    if ltb (length o) 4
    then []
    else if ltb (length o) 11
    then 5 ∷ 2 ∷ []
    else if ltb (length o) 21
    then 5 ∷ 2 ∷ 1 ∷ 0 ∷ []
    else (5 ∷ 2 ∷ 1 ∷ 0 ∷ 5 ∷ 0 ∷ 0 ∷ 1 ∷ 0 ∷ 0 ∷ 0 ∷ 0 ∷ 0 ∷ 80 ∷ b'h' ∷ b'i' ∷ [])

pub server-IsBytes : (o : List ℕ) → IsBytes (server o)
server-IsBytes o = ground arith

-- A server that takes the login and refuses the request with code 5.
abbrev refusing : List ℕ → List ℕ
refusing o =
    if ltb (length o) 4
    then []
    else if ltb (length o) 11
    then 5 ∷ 2 ∷ []
    else if ltb (length o) 21
    then 5 ∷ 2 ∷ 1 ∷ 0 ∷ []
    else (5 ∷ 2 ∷ 1 ∷ 0 ∷ 5 ∷ 5 ∷ 0 ∷ 1 ∷ [])

connect-Refusal_example :
    ((connect (network refusing) proxy_addr dest auth nothing_yet).0
      ≡ err (socks_error (codes "connect failed with reply code 0x" ++ hex_u8 5)))
    × ((connect (network refusing) proxy_addr dest auth nothing_yet).1.sent
        ≡ (greeting auth ++ auth_request (codes "me") (codes "pw")) ++ connect_request dest)
unfolding greeting auth_request connect_request
connect-Refusal_example =
    connect-Refusal (peer refusing) dest auth proxy_addr nothing_yet refl refl refl (
      bad_request []
        (logged_in (codes "me") (codes "pw") [] [] refl refl (omega arith) (omega arith) refl) refl
        (refused 5 0 1 (omega arith)))

connect-Agreed_example :
    Agreed dest auth
      ((connect (network server) proxy_addr dest auth nothing_yet).1.sent)
      ((connect (network server) proxy_addr dest auth nothing_yet).1.read)
unfolding connect
connect-Agreed_example =
    connect-Agreed (history server server-IsBytes) dest auth proxy_addr nothing_yet 1
      (omega arith, omega arith) refl

connect-Discreet_example :
    Discreet dest auth
      ((connect (network server) proxy_addr dest auth nothing_yet).1.sent)
      ((connect (network server) proxy_addr dest auth nothing_yet).1.read)
connect-Discreet_example =
    connect-Discreet (history server server-IsBytes) dest auth proxy_addr nothing_yet 1 refl

connect-returns_example : (connect (network server) proxy_addr dest auth nothing_yet).0 ≡ ok 1
unfolding connect
connect-returns_example =
    connect-returns (peer server) proxy_addr dest auth nothing_yet refl refl refl (
      inr (record {
        user = codes "me";
        pass = codes "pw";
        configured = refl;
        user_fits = omega arith;
        pass_fits = omega arith;
        more = [];
        chosen = refl;
        more_auth = [];
        accepted = refl;
        answer = 5 ∷ 0 ∷ 0 ∷ 1 ∷ 0 ∷ 0 ∷ 0 ∷ 0 ∷ 0 ∷ 80 ∷ b'h' ∷ b'i' ∷ [];
        answered = refl;
        grant = record {
          reserved = 0;
          atyp = 1;
          addr = 0 ∷ 0 ∷ 0 ∷ 0 ∷ [];
          port = 0 ∷ 80 ∷ [];
          rest = b'h' ∷ b'i' ∷ [];
          bound = inl (refl, refl);
          two = refl;
          whole = refl;
        };
      }))

auth-IsAuth : IsAuth auth
auth-IsAuth = ((omega arith, (omega arith, tt)), (omega arith, (omega arith, tt)))

connect-Fits_example : Fits 539 (connect (network server) proxy_addr dest auth nothing_yet).1.sent
connect-Fits_example =
    connect-Fits (history server server-IsBytes) dest auth proxy_addr nothing_yet 1 auth-IsAuth refl

-- The whole run, computed: what is behind the answer is not read.
connect_run :
    (connect (network server) proxy_addr dest auth nothing_yet).1.read
    ≡ 5 ∷ 2 ∷ 1 ∷ 0 ∷ 5 ∷ 0 ∷ 0 ∷ 1 ∷ 0 ∷ 0 ∷ 0 ∷ 0 ∷ 0 ∷ 80 ∷ []
unfolding connect
connect_run = refl

-- `Display` of the destination, and an encoding that stands for base64.
abbrev display : SocketAddr → Text
display s = codes "10.1.2.3:443"

abbrev encode : List ℕ → Text
encode bs = codes "bWU6cHc="

-- An HTTP proxy that has its answer ready.
abbrev http_server : List ℕ → List ℕ
http_server o = codes "HTTP/1.1 200 OK\r\n\r\n"

http_server-IsBytes : (o : List ℕ) → IsBytes (http_server o)
http_server-IsBytes o = ground arith

connect-Asked_example :
    Asked display encode
      (λ bs. bs)
      dest
      auth
      (Http.connect display encode
        (network http_server)
        (λ bs. bs)
        proxy_addr
        dest
        auth
        nothing_yet).1.sent
      (Http.connect display encode
        (network http_server)
        (λ bs. bs)
        proxy_addr
        dest
        auth
        nothing_yet).1.read
unfolding Http.connect
connect-Asked_example =
    connect-Asked display encode (λ bs. bs) dest auth (history http_server http_server-IsBytes)
      proxy_addr nothing_yet 1 (refl, refl) (λ bs. (refl, refl)) refl

abbrev url : Url
url = record {
  scheme = codes "socks5";
  host_str = some (codes "127.0.0.1");
  port = some 1080;
  username = codes "me";
  password = some (codes "pw");
}

-- The parsers for this one URL.
abbrev parse_url : Text → Option Url
parse_url raw = some url

abbrev parse_addr : Text → Option SocketAddr
parse_addr text = if text_eq text (codes "127.0.0.1:1080") then some proxy_addr else none

abbrev upstream : ProxyConfig
upstream = record { protocol = ProxyProtocol.socks5; addr = proxy_addr; auth = auth }

parse_run : parse parse_url parse_addr (codes "socks5://me:pw@127.0.0.1:1080") ≡ ok upstream
unfolding parse
parse_run = refl

parse-Accepts_iff_example :
    (parse parse_url parse_addr (codes "socks5://me:pw@127.0.0.1:1080") ≡ ok upstream)
    ↔ Accepts parse_url parse_addr (codes "socks5://me:pw@127.0.0.1:1080") upstream
parse-Accepts_iff_example =
    parse-Accepts_iff parse_url parse_addr (codes "socks5://me:pw@127.0.0.1:1080") upstream
