-- ===== src/Proxy/Socks5/Sent.antt =====
-- Bounds for what `connect` of `src/proxy/socks5.rs` sends, whatever the proxy answers.
use proxec.Base.{
  ℕ, ◌+◌, ◌%◌, ◌^◌, ◌≤◌, ◌≡◌, inl, inr, none, some, List, [], ◌∷◌, ◌++◌, length, length-append,
  IsBytes, arith,
}
use proxec.Base.Bytes.{be_bytes, be_bytes-IsBytes}
use proxec.Base.Text.{Text}
use proxec.Base.Utf8.{as_bytes, IsText, IsBytes-append, as_bytes-IsBytes}
use proxec.Result.{ok}
use proxec.Net.{SocketAddr}
use proxec.Proxy.Tcp.{Tcp}
use proxec.Proxy.Tcp.Outcome.{History}
use proxec.Proxy.Socks5.{Auth, greeting, connect_request, auth_request, connect}
use proxec.Proxy.Socks5.Handshake.{Discreet, connect-Discreet}

-- Bytes, of `n` at most.
abbrev pub Fits : ℕ → List ℕ → Type 0
Fits n bs = IsBytes bs × (length bs ≤ n)

Fits-append : (n m : ℕ) (xs ys : List ℕ) → Fits n xs → Fits m ys → Fits (n + m) (xs ++ ys)
Fits-append n m xs ys h k =
    (IsBytes-append xs ys h.0 k.0, omega (arith, length-append xs ys, h.1, k.1))

IsBytes-front : (xs ys : List ℕ) → IsBytes (xs ++ ys) → IsBytes xs
IsBytes-front [] ys h = tt
IsBytes-front (x ∷ xs) ys h = (h.0, IsBytes-front xs ys h.1)

Fits-prefix :
    (n m : ℕ) (out rest full : List ℕ) → n ≤ m → out ++ rest ≡ full → Fits n full → Fits m out
Fits-prefix n m out rest full le e h =
    let whole : Fits n (out ++ rest) = rw e h in
    (IsBytes-front out rest whole.0, omega (arith, length-append out rest, whole.1, le))

greeting-Fits : (auth : Auth) → Fits 4 (greeting auth)
unfolding greeting
greeting-Fits none = ((omega arith, (omega arith, (omega arith, tt))), omega arith)
greeting-Fits (some _) =
    ((omega arith, (omega arith, (omega arith, (omega arith, tt)))), omega arith)

connect_request-Fits : (dest : SocketAddr) → Fits 22 (connect_request dest)
unfolding connect_request
connect_request-Fits (SocketAddr.v4 a p) = (
  (
    omega arith,
    (
      omega arith,
      (
        omega arith,
        (
          omega arith,
          IsBytes-append (be_bytes 4 a) (be_bytes 2 p) (be_bytes-IsBytes 4 a)
              (be_bytes-IsBytes 2 p),
        ),
      ),
    ),
  ),
  omega arith,
)
connect_request-Fits (SocketAddr.v6 a p f s) = (
  (
    omega arith,
    (
      omega arith,
      (
        omega arith,
        (
          omega arith,
          IsBytes-append (be_bytes 16 a) (be_bytes 2 p) (be_bytes-IsBytes 16 a)
              (be_bytes-IsBytes 2 p),
        ),
      ),
    ),
  ),
  omega arith,
)

auth_request-Fits :
    (user pass : Text)
    → IsText user
    → IsText pass
    → length (as_bytes user) ≤ 255
    → length (as_bytes pass) ≤ 255
    → Fits 513 (auth_request user pass)
unfolding auth_request
auth_request-Fits user pass hu hp u p =
    let tail = length (as_bytes pass) % 2 ^ 8 ∷ as_bytes pass in
    (
      (
        omega arith,
        (
          omega arith,
          IsBytes-append (as_bytes user) tail (as_bytes-IsBytes user hu)
              (omega arith, as_bytes-IsBytes pass hp),
        ),
      ),
      omega (arith, length-append (as_bytes user) tail, u, p),
    )

-- The configured name and password are texts.
abbrev pub IsAuth : Auth → Type 0
IsAuth none = Unit
IsAuth (some (user, pass)) = IsText user × IsText pass

Discreet-Fits :
    (dest : SocketAddr) (auth : Auth) (out inn : List ℕ)
    → IsAuth auth
    → Discreet dest auth out inn
    → Fits 539 out
Discreet-Fits dest auth out inn a (inl (rest, whole)) =
    Fits-prefix 26 539 out rest _ (omega arith) whole (
      Fits-append 4 22 (greeting auth) (connect_request dest) (greeting-Fits auth)
        (connect_request-Fits dest))
Discreet-Fits dest auth out inn a (inr (more, asked, (user, pass, e, u, p, (rest, whole)))) =
    let texts : IsText user × IsText pass = rw e at a in
    Fits-prefix 539 539 out rest _ (omega arith) whole (
      Fits-append 517 22 (greeting auth ++ auth_request user pass) (connect_request dest)
        (Fits-append 4 513 (greeting auth) (auth_request user pass) (greeting-Fits auth)
          (auth_request-Fits user pass texts.0 texts.1 u p))
        (connect_request-Fits dest))

module _ {W : Type 0} {tcp : Tcp W} (h : History tcp) (dest : SocketAddr) (auth : Auth) where
  -- Whether `connect` succeeds or fails, and whatever the proxy answers, all that it has sent is
  -- bytes, and 539 of them at most, if the configured name and password are texts of code points.
  pub connect-Fits :
      (proxy_addr : SocketAddr) (w : W) (stream : ℕ)
      → IsAuth auth
      → (tcp.connect proxy_addr w).0 ≡ ok stream
      → Fits 539 (h.sent stream (connect tcp proxy_addr dest auth w).1)
  connect-Fits proxy_addr w stream a opened =
      Discreet-Fits dest auth _ _ a (connect-Discreet h dest auth proxy_addr w stream opened)
