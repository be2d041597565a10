-- ===== src/Proxy/Socks5/Liveness.antt =====
-- `connect` of `src/proxy/socks5.rs` against a server that follows the protocol.
use proxec.Base.{
  ℕ, ◌+◌, ◌≤◌, ◌≡◌, refl, sym, ap, ◌∙◌, ◌⊎◌, inl, inr, some, List, [], ◌∷◌, ◌++◌, append_assoc,
  length, length-append, arith, ltb, get_or, false, ◌||◌,
}
use proxec.Base.Text.{Text}
use proxec.Base.Utf8.{as_bytes}
use proxec.Error.{Error}
use proxec.Result.{Result, ok, err}
use proxec.Action.{Action, pure, ◌>>=◌}
use proxec.Net.{SocketAddr}
use proxec.Proxy.Tcp.{Tcp, send, receive_exact}
use proxec.Proxy.Tcp.Outcome.{Talks, Talks-bind, Talks-pure, Judge}
use proxec.Proxy.Tcp.Peer.{Peer, peer_log, Talks-send_ok, Talks-exact_ok}
use proxec.Proxy.Socks5.{
  Auth, greeting, connect_request, auth_request, socks5_auth, check_auth, user_pass, authenticate,
  addr_len, skip_addr, finish, negotiate, connect,
}
use proxec.Proxy.Tcp.Dial.{dial_opened}

-- An address of the answer, by its type: four bytes, a name with its length, or sixteen bytes.
abbrev IsBound : ℕ → List ℕ → Type 0
IsBound atyp addr =
    ((atyp ≡ 1) × (length addr ≡ 4))
    ⊎ ((atyp ≡ 4) × (length addr ≡ 16))
    ⊎ ((name : List ℕ) × (atyp ≡ 3) × (addr ≡ length name ∷ name))

-- An answer that grants the request, and what the server sends behind it.
pub record Grant (reply : List ℕ) : Type 0 where
  pub reserved : ℕ
  pub atyp : ℕ
  pub addr : List ℕ
  pub port : List ℕ
  pub rest : List ℕ
  pub bound : IsBound atyp addr
  pub two : length port ≡ 2
  pub whole : reply ≡ 5 ∷ 0 ∷ reserved ∷ atyp ∷ addr ++ (port ++ rest)

-- The server needs no login.
pub record Plain (reply : List ℕ → List ℕ) (dest : SocketAddr) (auth : Auth) : Type 0 where
  pub more : List ℕ
  pub chosen : reply (greeting auth) ≡ 5 ∷ 0 ∷ more
  pub answer : List ℕ
  pub answered : reply (greeting auth ++ connect_request dest) ≡ 5 ∷ 0 ∷ answer
  pub grant : Grant answer

-- The server asks for the name and the password, and takes them.
pub record Login (reply : List ℕ → List ℕ) (dest : SocketAddr) (auth : Auth) : Type 0 where
  pub user : Text
  pub pass : Text
  pub configured : auth ≡ some (user, pass)
  pub user_fits : length (as_bytes user) ≤ 255
  pub pass_fits : length (as_bytes pass) ≤ 255
  pub more : List ℕ
  pub chosen : reply (greeting auth) ≡ 5 ∷ 2 ∷ more
  pub more_auth : List ℕ
  pub accepted : reply (greeting auth ++ auth_request user pass) ≡ 5 ∷ 2 ∷ 1 ∷ 0 ∷ more_auth
  pub answer : List ℕ
  pub answered :
      reply ((greeting auth ++ auth_request user pass) ++ connect_request dest)
      ≡ 5 ∷ 2 ∷ 1 ∷ 0 ∷ answer
  pub grant : Grant answer

abbrev Returns : ℕ → ℕ → List ℕ → List ℕ → Type 0
Returns stream a out inn = a ≡ stream

abbrev NoError : Error → List ℕ → List ℕ → Type 0
NoError e out inn = ⊥

module _ {W : Type 0} {tcp : Tcp W} {stream : ℕ} {reply : List ℕ → List ℕ}
    (peer : Peer tcp stream reply) where
  skip_ok :
      (n : ℕ) (addr port rest out inn : List ℕ)
      → length addr ≡ n
      → length port ≡ 2
      → reply out ≡ inn ++ (addr ++ (port ++ rest))
      → Talks (peer_log peer) (skip_addr tcp stream n) out inn (Returns stream) NoError
  skip_ok n addr port rest out inn len two e =
      let long : n + 2 ≡ length (addr ++ port) = omega (arith, len, two, length-append addr port) in
      rw long (
        Talks-exact_ok peer (λ _. pure stream) (addr ++ port) rest out inn
          (e ∙ ap (λ t. inn ++ t) (sym (append_assoc addr port rest)))
          (Talks-pure (peer_log peer) stream out (inn ++ (addr ++ port)) refl))

  addr_ok :
      (atyp : ℕ) (addr port rest out inn : List ℕ)
      → IsBound atyp addr
      → length port ≡ 2
      → reply out ≡ inn ++ (addr ++ (port ++ rest))
      → Talks
          (peer_log peer)
          (addr_len tcp stream atyp >>= skip_addr tcp stream)
          out
          inn
          (Returns stream)
          NoError
  unfolding addr_len
  addr_ok atyp addr port rest out inn (inl (ipv4, len)) two e =
      rw ipv4 (skip_ok 4 addr port rest out inn len two e)
  addr_ok atyp addr port rest out inn (inr (inl (ipv6, len))) two e =
      rw ipv6 (skip_ok 16 addr port rest out inn len two e)
  addr_ok atyp addr port rest out inn (inr (inr (name, domain, counted))) two e =
      let e' : reply out ≡ inn ++ (length name ∷ name ++ (port ++ rest)) = rw counted at e in
      let after : List ℕ = inn ++ length name ∷ [] in
      rw domain (
        Talks-bind (peer_log peer) (receive_exact tcp stream 1 >>= λ len. pure (get_or len 0 0))
          (skip_addr tcp stream) out inn
          (Talks-exact_ok peer (λ len. pure (get_or len 0 0)) (length name ∷ [])
            (name ++ (port ++ rest)) out inn e'
            (Talks-pure (peer_log peer) (length name) out after (
              skip_ok (length name) name port rest out after refl two
                (e' ∙ sym (append_assoc inn (length name ∷ []) (name ++ (port ++ rest))))))))

  -- The request, granted.
  request_ok :
      (dest : SocketAddr) (out inn answer : List ℕ)
      → reply (out ++ connect_request dest) ≡ inn ++ answer
      → Grant answer
      → Talks
          (peer_log peer)
          (send tcp stream (connect_request dest) >>= λ _.
            receive_exact tcp stream 4 >>= finish tcp stream)
          out
          inn
          (Returns stream)
          NoError
  unfolding finish
  request_ok dest out inn answer e g =
      let sent : List ℕ = out ++ connect_request dest in
      let header : List ℕ = 5 ∷ 0 ∷ g.reserved ∷ g.atyp ∷ [] in
      let tail : List ℕ = g.addr ++ (g.port ++ g.rest) in
      let whole : reply sent ≡ inn ++ (header ++ tail) = e ∙ ap (λ t. inn ++ t) g.whole in
      Talks-send_ok peer (λ _. receive_exact tcp stream 4 >>= finish tcp stream)
        (connect_request dest) out inn
        (Talks-exact_ok peer (finish tcp stream) header tail sent inn whole (
          addr_ok g.atyp g.addr g.port g.rest sent (inn ++ header) g.bound g.two
            (whole ∙ sym (append_assoc inn header tail))))

  auth_ok :
      (user pass : Text) (out inn more : List ℕ)
      → length (as_bytes user) ≤ 255
      → length (as_bytes pass) ≤ 255
      → reply (out ++ auth_request user pass) ≡ inn ++ (1 ∷ 0 ∷ more)
      → {P : Unit {0} → List ℕ → List ℕ → Type 0}
      → P tt (out ++ auth_request user pass) (inn ++ 1 ∷ 0 ∷ [])
      → Talks (peer_log peer) (socks5_auth tcp stream user pass) out inn P NoError
  unfolding socks5_auth
  auth_ok user pass out inn more u p e {P} q =
      let request : List ℕ = auth_request user pass in
      let short : (ltb 255 (length (as_bytes user)) || ltb 255 (length (as_bytes pass))) ≡ false =
        ground arith in
      rw short (
        Talks-send_ok peer (λ _. receive_exact tcp stream 2 >>= check_auth tcp) request out inn
          (Talks-exact_ok peer (check_auth tcp) (1 ∷ 0 ∷ []) more (out ++ request) inn e
            (Talks-pure (peer_log peer) tt (out ++ request) (inn ++ 1 ∷ 0 ∷ []) q)))

  user_pass_ok :
      (auth : Auth) {user pass : Text}
      → auth ≡ some (user, pass)
      → (out inn more : List ℕ) → length (as_bytes user) ≤ 255
      → length (as_bytes pass) ≤ 255
      → reply (out ++ auth_request user pass) ≡ inn ++ (1 ∷ 0 ∷ more)
      → {P : Unit {0} → List ℕ → List ℕ → Type 0}
      → P tt (out ++ auth_request user pass) (inn ++ 1 ∷ 0 ∷ [])
      → Talks (peer_log peer) (user_pass tcp stream auth) out inn P NoError
  unfolding user_pass
  user_pass_ok auth {user} {pass} e out inn more u p accepted {P} q =
      rw e (auth_ok user pass out inn more u p accepted q)

  -- The greeting, the login if there is one, and the request.
  negotiate_ok :
      (dest : SocketAddr) (auth : Auth)
      → Plain reply dest auth ⊎ Login reply dest auth
      → Talks (peer_log peer) (negotiate tcp stream dest auth) [] [] (Returns stream) NoError
  unfolding negotiate authenticate user_pass
  negotiate_ok dest auth s =
      let hello : List ℕ = greeting auth in
      Talks-send_ok peer (λ _. receive_exact tcp stream 2 >>= rest) hello [] []
        (elim s [
          | inl plain ↦
              Talks-exact_ok peer rest (5 ∷ 0 ∷ []) plain.more hello [] plain.chosen
                (request_ok dest hello (5 ∷ 0 ∷ []) plain.answer plain.answered plain.grant)
          | inr login ↦ Talks-exact_ok peer rest (5 ∷ 2 ∷ []) login.more hello [] login.chosen (
              Talks-bind (peer_log peer) (user_pass tcp stream auth) (λ _. request) hello
                (5 ∷ 2 ∷ [])
                (user_pass_ok auth login.configured hello (5 ∷ 2 ∷ []) login.more_auth
                  login.user_fits login.pass_fits login.accepted
                  (request_ok dest (hello ++ auth_request login.user login.pass)
                    (5 ∷ 2 ∷ 1 ∷ 0 ∷ []) login.answer login.answered login.grant)))
        ])
    where
      request : Action W ℕ
      request = send tcp stream (connect_request dest) >>= λ _.
          receive_exact tcp stream 4 >>= finish tcp stream

      rest : List ℕ → Action W ℕ
      rest bs = authenticate tcp stream auth bs >>= λ _. request

  -- Against a server that stays connected and follows the protocol, `connect` returns the stream:
  -- the server either chooses no login, or asks for the configured name and password, of at most 255
  -- bytes each, and takes them, and it grants the request with an address of any of the three types.
  -- What the server sends behind its answer does no harm.
  pub connect-returns :
      (proxy_addr dest : SocketAddr) (auth : Auth) (w : W)
      → (tcp.connect proxy_addr w).0 ≡ ok stream
      → peer.out (tcp.connect proxy_addr w).1 ≡ []
      → peer.inn (tcp.connect proxy_addr w).1 ≡ []
      → Plain reply dest auth ⊎ Login reply dest auth
      → (connect tcp proxy_addr dest auth w).0 ≡ ok stream
  unfolding connect
  connect-returns proxy_addr dest auth w opened none_sent none_received serves =
      rw (dial_opened tcp (λ s. negotiate tcp s dest auth) proxy_addr w stream opened) (
        succeeds (negotiate tcp stream dest auth (tcp.connect proxy_addr w).1).0 _ _
          ((negotiate_ok dest auth serves).at (tcp.connect proxy_addr w).1 none_sent none_received))
    where
      succeeds :
          (r : Result Error ℕ) (out inn : List ℕ)
          → Judge (Returns stream) NoError r out inn
          → r ≡ ok stream
      succeeds (ok a) out inn j = ap ok j
      succeeds (err e) out inn j = absurd j
