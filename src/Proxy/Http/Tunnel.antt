-- ===== src/Proxy/Http/Tunnel.antt =====
-- What `connect` of `src/proxy/http.rs` has sent and read when it returns.
use proxec.Base.{
  ℕ, ◌≤◌, ◌≡◌, refl, sym, ap, ◌∙◌, true, false, ◌||◌, none, some, List, [], ◌∷◌, ◌++◌, length,
  nat_eq, All, arith,
}
use mathlib.Core.List.{append_assoc}
use proxec.Base.Text.{Text, codes, lines, contains_char}
use proxec.Base.Utf8.{as_bytes, encode_utf8}
use proxec.Error.{Error}
use proxec.Result.{ok}
use proxec.Action.{pure, ◌>>=◌}
use proxec.Net.{SocketAddr}
use proxec.Proxy.Tcp.{Tcp, fail, receive}
use proxec.Proxy.Tcp.Outcome.{
  History, Talks, Talks-if, Talks-pure, Talks-fail, Talks-send, Talks-read, log,
}
use proxec.Proxy.Tcp.Dial.{dial_returned}
use proxec.Proxy.Socks5.{Auth}
use proxec.Proxy.Http.{
  contains_text, first_line, connect_line, host_line, connect_text, accept, ask, connect,
}

-- One line of the request, without its end.
abbrev pub IsLine : Text → Type 0
IsLine s = (contains_char 10 s ≡ false) × (contains_char 13 s ≡ false)

-- A line that ends in `\r\n` is the first of the lines.
lines-crlf : (line rest : Text) → IsLine line → lines (line ++ (13 ∷ 10 ∷ rest)) ≡ line ∷ lines rest
unfolding lines
lines-crlf [] rest h = refl
lines-crlf (c ∷ line) rest h =
    let no_end : nat_eq c 10 ≡ false = ground (arith, h.0) in
    let no_return : nat_eq c 13 ≡ false = ground (arith, h.1) in
    let tail : lines (line ++ (13 ∷ 10 ∷ rest)) ≡ line ∷ lines rest =
      lines-crlf line rest (ground (arith, h.0), ground (arith, h.1)) in
    rw (no_end, no_return, tail) refl

contains_char-append :
    (c : ℕ) (s t : Text) → contains_char c (s ++ t) ≡ (contains_char c s || contains_char c t)
contains_char-append c [] t = refl
contains_char-append c (d ∷ s) t = ground (arith, contains_char-append c s t)

IsLine-append : (s t : Text) → IsLine s → IsLine t → IsLine (s ++ t)
IsLine-append s t hs ht = (
  ground (arith, contains_char-append 10 s t, hs.0, ht.0),
  ground (arith, contains_char-append 13 s t, hs.1, ht.1),
)

-- Lines with their ends.
abbrev pub with_ends : List Text → Text
with_ends [] = []
with_ends (line ∷ rest) = line ++ (13 ∷ 10 ∷ with_ends rest)

-- Lines with their ends read as these lines.
lines-with_ends : (ls : List Text) → All IsLine ls → lines (with_ends ls) ≡ ls
unfolding lines
lines-with_ends [] h = refl
lines-with_ends (line ∷ rest) h =
    lines-crlf line (with_ends rest) h.0 ∙ ap (λ ls. line ∷ ls) (lines-with_ends rest h.1)

as_bytes-credentials :
    (user pass : Text)
    → as_bytes (user ++ b':' ∷ pass) ≡ as_bytes user ++ (codes ":" ++ as_bytes pass)
as_bytes-credentials [] pass = refl
as_bytes-credentials (c ∷ user) pass =
    ap (λ bs. encode_utf8 c ++ bs) (as_bytes-credentials user pass)
    ∙ sym (append_assoc (encode_utf8 c) (as_bytes user) (codes ":" ++ as_bytes pass))

module _ (display : SocketAddr → Text) (base64 : List ℕ → Text) where
  abbrev pub credentials : Auth → List Text
  credentials none = []
  credentials (some (user, pass)) =
      (codes "Proxy-Authorization: Basic "
        ++ base64 (as_bytes user ++ (codes ":" ++ as_bytes pass)))
      ∷ []

  -- The lines of a request, the empty line at its end.
  abbrev pub request_lines : SocketAddr → Auth → List Text
  request_lines dest auth =
      (codes "CONNECT " ++ display dest ++ codes " HTTP/1.1")
        ∷ (codes "Host: " ++ display dest)
        ∷ credentials auth
      ++ [] ∷ []

  connect_text-request_lines :
      (dest : SocketAddr) (auth : Auth)
      → connect_text display base64 dest auth ≡ with_ends (request_lines dest auth)
  unfolding connect_text
  connect_text-request_lines dest none = refl
  connect_text-request_lines dest (some (user, pass)) =
      ap
        (λ bs.
          connect_line display base64 dest
          ++ (13 ∷ 10 ∷ host_line display base64 dest
              ++ (13 ∷ 10 ∷ (codes "Proxy-Authorization: Basic " ++ base64 bs)
                  ++ (13 ∷ 10 ∷ 13 ∷ 10 ∷ []))))
        (as_bytes-credentials user pass)

  request_lines-IsLine :
      (dest : SocketAddr) (auth : Auth)
      → IsLine (display dest)
      → ((bs : List ℕ) → IsLine (base64 bs))
      → All IsLine (request_lines dest auth)
  request_lines-IsLine dest auth d b = (
    IsLine-append (codes "CONNECT " ++ display dest) (codes " HTTP/1.1")
        (IsLine-append (codes "CONNECT ") (display dest) (refl, refl) d) (refl, refl),
    (IsLine-append (codes "Host: ") (display dest) (refl, refl) d, last auth),
  )
    where
      last : (auth' : Auth) → All IsLine (credentials auth' ++ [] ∷ [])
      last none = ((refl, refl), tt)
      last (some (user, pass)) = (
        IsLine-append (codes "Proxy-Authorization: Basic ")
            (base64 (as_bytes user ++ (codes ":" ++ as_bytes pass))) (refl, refl)
            (b (as_bytes user ++ (codes ":" ++ as_bytes pass))),
        ((refl, refl), tt),
      )

  module _ (from_utf8_lossy : List ℕ → Text) (dest : SocketAddr) (auth : Auth) where
    -- The bytes of `request_lines` were sent, each line with `\r\n` behind it, they read as these
    -- lines, and the first line of what one read of at most 1024 bytes gave mentions 200.
    pub record Asked (out inn : List ℕ) : Type 0 where
      pub sent : out ≡ as_bytes (with_ends (request_lines dest auth))
      pub reads : lines (with_ends (request_lines dest auth)) ≡ request_lines dest auth
      pub short : length inn ≤ 1024
      pub accepted : contains_text (codes "200") (first_line (from_utf8_lossy inn)) ≡ true

    -- When `connect` returns a stream, the bytes sent on it are a CONNECT request: `CONNECT`, the
    -- destination and `HTTP/1.1`; `Host:` and the destination; if a login is configured,
    -- `Proxy-Authorization: Basic` with the base64 of the name, a colon and the password; the empty
    -- line; each with `\r\n` behind it, so that they read as these lines. And what has been read is one
    -- answer of at most 1024 bytes whose first line mentions 200. The texts of an address and of
    -- base64 have no end of a line in them.
    pub connect-Asked :
        {W : Type 0} {tcp : Tcp W} (h : History tcp) (proxy_addr : SocketAddr) (w : W) (stream : ℕ)
        → IsLine (display dest)
        → ((bs : List ℕ) → IsLine (base64 bs))
        → (connect display base64 tcp from_utf8_lossy proxy_addr dest auth w).0 ≡ ok stream
        → Asked
            (h.sent stream (connect display base64 tcp from_utf8_lossy proxy_addr dest auth w).1)
            (h.received stream
              (connect display base64 tcp from_utf8_lossy proxy_addr dest auth w).1)
    unfolding connect ask
    connect-Asked {W} {tcp} h proxy_addr w stream d b returned =
        dial_returned h (λ s. ask display base64 tcp from_utf8_lossy s dest auth) {P = Asked}
          {Q = Any} asked proxy_addr w stream returned
      where
        Any : Error → List ℕ → List ℕ → Type 0
        Any e out inn = Unit

        asked :
            (s : ℕ)
            → Talks
                (log h s)
                (ask display base64 tcp from_utf8_lossy s dest auth)
                []
                []
                (λ a out inn. (a ≡ s) × Asked out inn)
                Any
        asked s =
            let request : Text = connect_text display base64 dest auth in
            Talks-send h s (λ _. receive tcp s 1024 >>= accept display base64 tcp from_utf8_lossy s)
              (as_bytes request) [] []
              (Talks-read h s (accept display base64 tcp from_utf8_lossy s) 1024 (as_bytes request)
                []
                (λ bs short _.
                  Talks-if (log h s) (contains_text (codes "200") (first_line (from_utf8_lossy bs)))
                    (pure s) (fail (Error.http_proxy (first_line (from_utf8_lossy bs))))
                    (as_bytes request) bs
                    (λ accepted. Talks-pure (log h s) s (as_bytes request) bs (
                      refl,
                      record {
                        sent = ap as_bytes (connect_text-request_lines dest auth);
                        reads =
                            lines-with_ends (request_lines dest auth)
                              (request_lines-IsLine dest auth d b);
                        short = short;
                        accepted = accepted;
                      },
                    ))
                    (λ refused.
                      Talks-fail (log h s) (Error.http_proxy (first_line (from_utf8_lossy bs)))
                        (as_bytes request) bs tt))
                (λ e p. tt))
              (λ e p q whole. tt)
