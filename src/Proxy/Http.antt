-- ===== src/Proxy/Http.antt =====
-- `src/proxy/http.rs`: the tunnel through an HTTP proxy. `Display` of socket addresses, the base64
-- encoding and the lossy decoding of UTF-8 are parameters.
pub mod Tunnel
use proxec.Base.{
  ℕ, ◌+◌, Bool, true, false, ◌&&◌, ◌||◌, Option, none, some, List, [], ◌∷◌, ◌++◌, if◌then◌else◌,
  nat_eq,
}
use proxec.Base.Text.{Text, codes, lines}
use proxec.Base.Utf8.{as_bytes}
use proxec.Error.{Error}
use proxec.Action.{Action, pure, ◌>>=◌, ◌>>◌}
use proxec.Net.{SocketAddr}
use proxec.Proxy.Tcp.{Tcp, dial, send, receive, fail}
use proxec.Proxy.Socks5.{Auth}

-- `\r\n` and the text behind it.
abbrev pub crlf : Text → Text
crlf rest = 13 ∷ 10 ∷ rest

-- `contains(&str)`.
abbrev pub starts_with : Text → Text → Bool
starts_with [] s = true
starts_with (c ∷ p) [] = false
starts_with (c ∷ p) (d ∷ s) = nat_eq c d && starts_with p s

abbrev pub contains_text : Text → Text → Bool
contains_text p [] = starts_with p []
contains_text p (c ∷ s) = starts_with p (c ∷ s) || contains_text p s

-- `lines().next().unwrap_or("")`.
abbrev head_or_empty : List Text → Text
head_or_empty [] = []
head_or_empty (line ∷ _) = line

unfoldable pub first_line : Text → Text
unfolding lines
first_line s = head_or_empty (lines s)

module _ (display : SocketAddr → Text) (base64 : List ℕ → Text) where
  -- The lines of the request, without their ends.
  abbrev pub connect_line : SocketAddr → Text
  connect_line dest = codes "CONNECT " ++ display dest ++ codes " HTTP/1.1"

  abbrev pub host_line : SocketAddr → Text
  host_line dest = codes "Host: " ++ display dest

  abbrev pub auth_line : Text → Text → Text
  auth_line user pass =
      codes "Proxy-Authorization: Basic " ++ base64 (as_bytes (user ++ b':' ∷ pass))

  -- The authorization, if there is one, and the empty line.
  abbrev pub auth_text : Auth → Text
  auth_text none = crlf []
  auth_text (some (user, pass)) = auth_line user pass ++ crlf (crlf [])

  unfoldable pub connect_text : SocketAddr → Auth → Text
  connect_text dest auth = connect_line dest ++ crlf (host_line dest ++ crlf (auth_text auth))

  module _ {W : Type 0} (tcp : Tcp W) (from_utf8_lossy : List ℕ → Text) where
    -- The decision on the bytes of the one read.
    abbrev pub accept : ℕ → List ℕ → Action W ℕ
    accept stream response =
        let status_line = first_line (from_utf8_lossy response) in
        if contains_text (codes "200") status_line
        then pure stream
        else fail (Error.http_proxy status_line)

    -- `connect` on the stream that it opens.
    unfoldable pub ask : ℕ → SocketAddr → Auth → Action W ℕ
    unfolding connect_text first_line
    ask stream dest auth = do
      send tcp stream (as_bytes (connect_text dest auth))
      response ← receive tcp stream 1024
      accept stream response

    unfoldable pub connect : SocketAddr → SocketAddr → Auth → Action W ℕ
    unfolding ask
    connect proxy_addr dest auth = do stream ← dial tcp proxy_addr; ask stream dest auth
