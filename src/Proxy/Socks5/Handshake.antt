-- ===== src/Proxy/Socks5/Handshake.antt =====
-- What `connect` of `src/proxy/socks5.rs` has sent and received when it ends, with a stream or with
-- an error, against the server's reading of the protocol.
use proxec.Base.{
  ℕ, ◌≤◌, ◌≡◌, refl, sym, ap, ◌∙◌, ◌⊎◌, inl, inr, Option, none, some, List, [], ◌∷◌, ◌++◌,
  append_assoc, append-nil, length,
}
use proxec.Base.Text.{Text}
use proxec.Base.Utf8.{as_bytes}
use proxec.Error.{Error}
use proxec.Result.{Result, ok, err}
use proxec.Action.{Action, ◌>>=◌}
use proxec.Net.{SocketAddr, IsAddr}
use proxec.Tracer.Memory.Layout.{without_scope}
use proxec.Proxy.Tcp.{Tcp, send, receive_exact}
use proxec.Proxy.Tcp.Outcome.{log, History, Talks, Talks-bind, Talks-send, Talks-exact, Judge}
use proxec.Proxy.Tcp.Dial.{dial_returned, dial_judged}
use proxec.Proxy.Socks5.{
  Auth, greeting, connect_request, auth_request, authenticate, finish, negotiate, connect,
}
use proxec.Proxy.Socks5.Server.{session}
use proxec.Proxy.Socks5.Agreed.{session-no_auth, session-auth_request}
use proxec.Proxy.Socks5.Login.{Talks-authenticate}
use proxec.Proxy.Socks5.Reply.{Answer, Talks-finish}

-- `o` has been sent, of `full` at most.
abbrev Prefix : List ℕ → List ℕ → Type 0
Prefix o full = (rest : List ℕ) × (o ++ rest ≡ full)

-- The name and the password are configured and fit their lengths, and they have been sent in part.
abbrev LoginPrefix : SocketAddr → Auth → List ℕ → Type 0
LoginPrefix dest auth out =
    (user : Text) × (pass : Text) × (auth ≡ some (user, pass))
    × (length (as_bytes user) ≤ 255)
    × (length (as_bytes pass) ≤ 255)
    × Prefix out ((greeting auth ++ auth_request user pass) ++ connect_request dest)

-- A part of the greeting and the request; or the server has asked for a name and a password, and it
-- is a part of the greeting, the configured name and password, and the request.
abbrev pub Discreet : SocketAddr → Auth → List ℕ → List ℕ → Type 0
Discreet dest auth out inn =
    Prefix out (greeting auth ++ connect_request dest)
    ⊎ ((rest : List ℕ) × (inn ≡ 5 ∷ 2 ∷ rest) × LoginPrefix dest auth out)

-- The bytes of the name and the password.
abbrev auth_bytes : Auth → Option (List ℕ × List ℕ)
auth_bytes none = none
auth_bytes (some (user, pass)) = some (as_bytes user, as_bytes pass)

-- The server reads the whole exchange as a handshake for the destination, with no byte left over.
pub record Agreed (dest : SocketAddr) (auth : Auth) (out inn : List ℕ) : Type 0 where
  pub user_pass : Option (List ℕ × List ℕ)
  pub as_configured : (user_pass ≡ none) ⊎ (user_pass ≡ auth_bytes auth)
  pub understood :
      session (out, inn)
      ≡ some (record { user_pass = user_pass; target = without_scope dest }, ([], []))

module _ {W : Type 0} {tcp : Tcp W} (h : History tcp) (dest : SocketAddr) (auth : Auth) where
  abbrev Ends : ℕ → ℕ → List ℕ → List ℕ → Type 0
  Ends stream opened out inn =
      (opened ≡ stream) × ((IsAddr dest → Agreed dest auth out inn) × Discreet dest auth out inn)

  grow : (out inn more : List ℕ) → Discreet dest auth out inn → Discreet dest auth out (inn ++ more)
  grow out inn more (inl p) = inl p
  grow out inn more (inr (rest, e, part)) = inr (rest ++ more, ap (λ i. i ++ more) e, part)

  -- From the request on.
  request_stage :
      (stream : ℕ) (out inn : List ℕ)
      → ((sent rest : List ℕ)
          → sent ++ rest ≡ connect_request dest
          → Discreet dest auth (out ++ sent) inn)
      → ((reply : List ℕ)
          → Answer reply
          → IsAddr dest
          → Agreed dest auth (out ++ connect_request dest) (inn ++ reply))
      → Talks
          (log h stream)
          (send tcp stream (connect_request dest) >>= λ _.
            receive_exact tcp stream 4 >>= finish tcp stream)
          out
          inn
          (Ends stream)
          (λ _. Discreet dest auth)
  request_stage stream out inn d agreed =
      let request = connect_request dest in
      let d' = d request [] (append-nil request) in
      Talks-send h stream (λ _. receive_exact tcp stream 4 >>= finish tcp stream) request out inn
        (Talks-exact h stream (finish tcp stream) 4 (out ++ request) inn
          (λ bs four _.
            Talks-finish h stream (Discreet dest auth) grow (out ++ request) bs inn four d'
              (λ reply answer. (refl, (agreed reply answer, grow (out ++ request) inn reply d'))))
          (λ e more. grow (out ++ request) inn more d'))
        (λ e sent rest whole. d sent rest whole)

  -- The greeting and what follows it.
  negotiate_stage :
      (stream : ℕ)
      → Talks
          (log h stream)
          (negotiate tcp stream dest auth)
          []
          []
          (Ends stream)
          (λ _. Discreet dest auth)
  unfolding negotiate
  negotiate_stage stream =
      let hello = greeting auth in
      Talks-send h stream (λ _. receive_exact tcp stream 2 >>= rest) hello [] []
        (Talks-exact h stream rest 2 hello []
          (λ bs two _.
            Talks-bind (log h stream) (authenticate tcp stream auth bs) (λ _. request) hello bs
              (Talks-authenticate h stream (Discreet dest auth) grow auth hello bs two greeted asked
                (request_stage stream hello (5 ∷ 0 ∷ [])
                  (λ sent rest whole.
                    inl (rest, append_assoc hello sent rest ∙ ap (λ r. hello ++ r) whole))
                  no_auth)
                (λ user pass e u p.
                  request_stage stream (hello ++ auth_request user pass) (5 ∷ 2 ∷ 1 ∷ 0 ∷ [])
                    (λ sent left whole. requesting user pass e u p sent left whole)
                    (logged_in user pass e u p))))
          (λ e more. greeted more))
        (λ e sent rest whole. inl (
          rest ++ connect_request dest,
          sym (append_assoc sent rest (connect_request dest))
              ∙ ap (λ g. g ++ connect_request dest) whole,
        ))
    where
      request : Action W ℕ
      request = send tcp stream (connect_request dest) >>= λ _.
          receive_exact tcp stream 4 >>= finish tcp stream

      rest : List ℕ → Action W ℕ
      rest bs = authenticate tcp stream auth bs >>= λ _. request

      greeted : (i : List ℕ) → Discreet dest auth (greeting auth) i
      greeted i = inl (connect_request dest, refl)

      -- A part of the name and the password, and a part of the request after them.
      asked :
          (user pass : Text)
          → auth ≡ some (user, pass)
          → (sent left : List ℕ) → length (as_bytes user) ≤ 255
          → length (as_bytes pass) ≤ 255
          → sent ++ left ≡ auth_request user pass
          → Discreet dest auth (greeting auth ++ sent) (5 ∷ 2 ∷ [])
      asked user pass e sent left u p whole =
          let part : (greeting auth ++ sent) ++ (left ++ connect_request dest)
              ≡ (greeting auth ++ auth_request user pass) ++ connect_request dest =
            sym (append_assoc (greeting auth ++ sent) left (connect_request dest))
            ∙ ap (λ o. o ++ connect_request dest)
                (append_assoc (greeting auth) sent left ∙ ap (λ o. greeting auth ++ o) whole) in
          inr ([], refl, (user, pass, e, u, p, (left ++ connect_request dest, part)))

      requesting :
          (user pass : Text)
          → auth ≡ some (user, pass)
          → length (as_bytes user) ≤ 255
          → length (as_bytes pass) ≤ 255
          → (sent left : List ℕ) → sent ++ left ≡ connect_request dest
          → Discreet dest auth
              ((greeting auth ++ auth_request user pass) ++ sent)
              (5 ∷ 2 ∷ 1 ∷ 0 ∷ [])
      requesting user pass e u p sent left whole =
          let before : List ℕ = greeting auth ++ auth_request user pass in
          let part : (before ++ sent) ++ left ≡ before ++ connect_request dest =
            append_assoc before sent left ∙ ap (λ o. before ++ o) whole in
          inr (1 ∷ 0 ∷ [], refl, (user, pass, e, u, p, (left, part)))

      no_auth :
          (reply : List ℕ)
          → Answer reply
          → IsAddr dest
          → Agreed dest auth (greeting auth ++ connect_request dest) (5 ∷ 0 ∷ reply)
      no_auth reply a fits = rw a.whole (record {
        user_pass = none;
        as_configured = inl refl;
        understood =
            session-no_auth a.reserved a.atyp a.bound a.skipped a.port_hi a.port_lo a.typed auth
              dest fits;
      })

      logged_in :
          (user pass : Text)
          → auth ≡ some (user, pass)
          → length (as_bytes user) ≤ 255
          → length (as_bytes pass) ≤ 255
          → (reply : List ℕ) → Answer reply
          → IsAddr dest
          → Agreed dest auth
              ((greeting auth ++ auth_request user pass) ++ connect_request dest)
              (5 ∷ 2 ∷ 1 ∷ 0 ∷ reply)
      logged_in user pass e u p reply a fits =
          rw (a.whole, e)
            (record {
              user_pass = some (as_bytes user, as_bytes pass);
              as_configured = inr refl;
              understood =
                  session-auth_request a.reserved a.atyp a.bound a.skipped a.port_hi a.port_lo
                    a.typed user pass dest fits u p;
            })

  -- When `connect` returns a stream, for a destination whose numbers fit an address, the bytes sent
  -- and received on it are a complete handshake of SOCKS5 for that destination (without the flow
  -- label and the scope of IPv6, which SOCKS5 has no field for), as a server reads them after the
  -- RFCs: the method is one that was offered, the name and the password, if any were sent, are the
  -- configured ones, the answer grants the request, and no byte of what follows the answer has been
  -- read.
  pub connect-Agreed :
      (proxy_addr : SocketAddr) (w : W) (stream : ℕ)
      → IsAddr dest
      → (connect tcp proxy_addr dest auth w).0 ≡ ok stream
      → Agreed dest auth
          (h.sent stream (connect tcp proxy_addr dest auth w).1)
          (h.received stream (connect tcp proxy_addr dest auth w).1)
  unfolding connect
  connect-Agreed proxy_addr w stream fits returned =
      (dial_returned h (λ s. negotiate tcp s dest auth) negotiate_stage proxy_addr w stream
          returned).0
        fits

  -- Whether `connect` succeeds or fails, what it has sent is a part of the greeting and the request,
  -- and with them no name and no password, unless the proxy has asked for method 2. If it has, what
  -- was sent is a part of the greeting, the configured name and password with their lengths, which
  -- are then 255 at most, and the request.
  pub connect-Discreet :
      (proxy_addr : SocketAddr) (w : W) (stream : ℕ)
      → (tcp.connect proxy_addr w).0 ≡ ok stream
      → Discreet dest auth
          (h.sent stream (connect tcp proxy_addr dest auth w).1)
          (h.received stream (connect tcp proxy_addr dest auth w).1)
  unfolding connect
  connect-Discreet proxy_addr w stream opened =
      weaken _ _ _
        (dial_judged h (λ s. negotiate tcp s dest auth) negotiate_stage proxy_addr w stream opened)
    where
      weaken :
          (r : Result Error ℕ) (out inn : List ℕ)
          → Judge (Ends stream) (λ _. Discreet dest auth) r out inn
          → Discreet dest auth out inn
      weaken (ok a) out inn j = j.1.1
      weaken (err e) out inn j = j
