-- ===== src/Proxy/Socks5/Refusal/Steps.antt =====
-- `connect` of `src/proxy/socks5.rs`: each step of the negotiation against a server that refuses.
use proxec.Base.{
  ℕ, ◌≤◌, ◌<◌, ◌≡◌, ◌≢◌, refl, sym, ◌⊎◌, true, false, ◌&&◌, ◌||◌, none, some, List, [], ◌∷◌, ◌++◌,
  nat_eq, ltb, length, arith,
}
use proxec.Base.Text.{Text, codes}
use proxec.Base.Utf8.{as_bytes}
use proxec.Error.{Error}
use proxec.Action.{Action, ◌>>=◌}
use proxec.Net.{SocketAddr}
use proxec.Proxy.Tcp.{Tcp, send, receive_exact, fail}
use proxec.Proxy.Tcp.Outcome.{Talks, Talks-bind, Talks-pure, Talks-fail}
use proxec.Proxy.Tcp.Peer.{Peer, peer_log, Talks-send_ok, Talks-exact_ok}
use proxec.Proxy.Socks5.{
  Auth, greeting, connect_request, auth_request, socks5_auth, check_auth, user_pass, authenticate,
  socks_error, finish, addr_len, skip_addr, negotiate,
}
use proxec.Proxy.Socks5.Refusal.Kinds.{
  Reached, no_login_needed, logged_in, Unfit, other_version, refused, other_type, Refusal,
  bad_version, no_method, other, no_login, long_login, bad_login, bad_request,
}

abbrev pub NoResult : {A : Type 0} → A → List ℕ → List ℕ → Type 0
NoResult a out inn = ⊥

abbrev pub EndsAt : Error → List ℕ → Error → List ℕ → List ℕ → Type 0
EndsAt e sent e' out inn = (e' ≡ e) × (out ≡ sent)

module _ {W : Type 0} {tcp : Tcp W} {stream : ℕ} {reply : List ℕ → List ℕ}
    (peer : Peer tcp stream reply) (dest : SocketAddr) (auth : Auth) where
  abbrev request : Action W ℕ
  request = send tcp stream (connect_request dest) >>= λ _.
      receive_exact tcp stream 4 >>= finish tcp stream

  -- The answer to the greeting, and what the choice of the method makes of it.
  at_method :
      (v m : ℕ) (more : List ℕ) {e : Error} {sent : List ℕ}
      → reply (greeting auth) ≡ v ∷ m ∷ more
      → Talks
          (peer_log peer)
          (authenticate tcp stream auth (v ∷ m ∷ []))
          (greeting auth)
          (v ∷ m ∷ [])
          (λ _ o i. Talks (peer_log peer) request o i NoResult (EndsAt e sent))
          (EndsAt e sent)
      → Talks (peer_log peer) (negotiate tcp stream dest auth) [] [] NoResult (EndsAt e sent)
  unfolding negotiate
  at_method v m more chosen t =
      Talks-send_ok peer (λ _. receive_exact tcp stream 2 >>= rest) (greeting auth) [] []
        (Talks-exact_ok peer rest (v ∷ m ∷ []) more (greeting auth) [] chosen (
          Talks-bind (peer_log peer) (authenticate tcp stream auth (v ∷ m ∷ [])) (λ _. request)
            (greeting auth) (v ∷ m ∷ []) t))
    where
      rest : List ℕ → Action W ℕ
      rest bs = authenticate tcp stream auth bs >>= λ _. request

  module _ {A : Type 0} {P : A → List ℕ → List ℕ → Type 0} where
    fails :
        (e : Error) (out inn : List ℕ)
        → Talks (peer_log peer) (fail {W = W} {A = A} e) out inn P (EndsAt e out)
    fails e out inn = Talks-fail (peer_log peer) e out inn (refl, refl)

  module _ {P : Unit {0} → List ℕ → List ℕ → Type 0} (out inn : List ℕ) where
    login_missing :
        (auth' : Auth)
        → auth' ≡ none
        → Talks
            (peer_log peer)
            (user_pass tcp stream auth')
            out
            inn
            P
            (EndsAt (socks_error (codes "proxy requested username/password auth")) out)
    unfolding user_pass
    login_missing auth' e = rw e (fails _ out inn)

    login_long :
        (auth' : Auth) (user pass : Text)
        → auth' ≡ some (user, pass)
        → (255 < length (as_bytes user)) ⊎ (255 < length (as_bytes pass))
        → Talks
            (peer_log peer)
            (user_pass tcp stream auth')
            out
            inn
            P
            (EndsAt (Error.invalid_argument (codes "SOCKS5 username/password too long")) out)
    unfolding user_pass socks5_auth
    login_long auth' user pass e long =
        let too : (ltb 255 (length (as_bytes user)) || ltb 255 (length (as_bytes pass))) ≡ true =
          ground arith in
        rw (e, too) (fails _ out inn)

    login_wrong :
        (auth' : Auth) (user pass : Text) (a b : ℕ) (more : List ℕ)
        → auth' ≡ some (user, pass)
        → length (as_bytes user) ≤ 255
        → length (as_bytes pass) ≤ 255
        → reply (out ++ auth_request user pass) ≡ inn ++ (a ∷ b ∷ more)
        → (a ≢ 1) ⊎ (b ≢ 0)
        → Talks (peer_log peer) (user_pass tcp stream auth') out inn P (
            EndsAt
              (socks_error (codes "username/password auth failed"))
              (out ++ auth_request user pass))
    unfolding user_pass socks5_auth
    login_wrong auth' user pass a b more e u p answered wrong =
        let short : (ltb 255 (length (as_bytes user)) || ltb 255 (length (as_bytes pass))) ≡ false =
          ground arith in
        let refused : (nat_eq a 1 && nat_eq b 0) ≡ false = ground (arith, wrong) in
        rw (e, short)
          (Talks-send_ok peer (λ _. receive_exact tcp stream 2 >>= check_auth tcp)
            (auth_request user pass) out inn
            (Talks-exact_ok peer (check_auth tcp) (a ∷ b ∷ []) more (out ++ auth_request user pass)
              inn answered
              (rw refused (fails _ (out ++ auth_request user pass) (inn ++ a ∷ b ∷ [])))))

    login_right :
        (auth' : Auth) (user pass : Text) (more : List ℕ)
        → auth' ≡ some (user, pass)
        → length (as_bytes user) ≤ 255
        → length (as_bytes pass) ≤ 255
        → reply (out ++ auth_request user pass) ≡ inn ++ (1 ∷ 0 ∷ more)
        → {Q : Error → List ℕ → List ℕ → Type 0}
        → P tt (out ++ auth_request user pass) (inn ++ (1 ∷ 0 ∷ []))
        → Talks (peer_log peer) (user_pass tcp stream auth') out inn P Q
    unfolding user_pass socks5_auth
    login_right auth' user pass more e u p answered {Q} holds =
        let short : (ltb 255 (length (as_bytes user)) || ltb 255 (length (as_bytes pass))) ≡ false =
          ground arith in
        rw (e, short)
          (Talks-send_ok peer (λ _. receive_exact tcp stream 2 >>= check_auth tcp)
            (auth_request user pass) out inn
            (Talks-exact_ok peer (check_auth tcp) (1 ∷ 0 ∷ []) more (out ++ auth_request user pass)
              inn answered
              (Talks-pure (peer_log peer) tt (out ++ auth_request user pass) (inn ++ (1 ∷ 0 ∷ []))
                holds)))

  finish-Unfit :
      {e : Error} (out inn header : List ℕ)
      → Unfit header e
      → Talks (peer_log peer) (finish tcp stream header) out inn NoResult (EndsAt e out)
  unfolding finish addr_len
  finish-Unfit out inn header (other_version v code reserved atyp differs) =
      let no : nat_eq v 5 ≡ false = ground (arith, differs) in rw no (fails _ out inn)
  finish-Unfit out inn header (refused code reserved atyp differs) =
      let no : nat_eq code 0 ≡ false = ground (arith, differs) in rw no (fails _ out inn)
  finish-Unfit out inn header (other_type reserved atyp a b c) =
      let na : nat_eq atyp 1 ≡ false = ground (arith, a) in
      let nb : nat_eq atyp 3 ≡ false = ground (arith, b) in
      let nc : nat_eq atyp 4 ≡ false = ground (arith, c) in
      rw (na, nb, nc)
        (Talks-bind (peer_log peer) (fail _) (skip_addr tcp stream) out inn (fails _ out inn))

  four : {e : Error} (header : List ℕ) → Unfit header e → length header ≡ 4
  four header (other_version v code reserved atyp differs) = refl
  four header (refused code reserved atyp differs) = refl
  four header (other_type reserved atyp a b c) = refl

  -- An answer that is not taken.
  request_refused :
      {e : Error} (out inn header rest : List ℕ)
      → reply (out ++ connect_request dest) ≡ inn ++ (header ++ rest)
      → Unfit header e
      → Talks (peer_log peer) request out inn NoResult (EndsAt e (out ++ connect_request dest))
  request_refused {e} out inn header rest answered unfit =
      let sent : List ℕ = out ++ connect_request dest in
      Talks-send_ok peer (λ _. receive_exact tcp stream 4 >>= finish tcp stream)
        (connect_request dest) out inn
        (rw (sym (four header unfit)) (
          Talks-exact_ok peer (finish tcp stream) header rest sent inn answered
            (finish-Unfit sent (inn ++ header) header unfit)))

  at_request :
      {e : Error} (out inn : List ℕ)
      → Reached reply auth out inn
      → Talks (peer_log peer) request out inn NoResult (EndsAt e (out ++ connect_request dest))
      → Talks
          (peer_log peer)
          (negotiate tcp stream dest auth)
          []
          []
          NoResult
          (EndsAt e (out ++ connect_request dest))
  unfolding authenticate
  at_request out inn (no_login_needed more chosen) t =
      at_method 5 0 more chosen (Talks-pure (peer_log peer) tt (greeting auth) (5 ∷ 0 ∷ []) t)
  at_request out inn (logged_in user pass more more_auth chosen configured u p answered) t =
      at_method 5 2 more chosen (
        login_right (greeting auth) (5 ∷ 2 ∷ []) auth user pass more_auth configured u p answered t)

  pub negotiate_refused :
      {e : Error} {sent : List ℕ}
      → Refusal reply dest auth e sent
      → Talks (peer_log peer) (negotiate tcp stream dest auth) [] [] NoResult (EndsAt e sent)
  unfolding authenticate
  negotiate_refused (bad_version v m more chosen differs) =
      let no : nat_eq v 5 ≡ false = ground (arith, differs) in
      at_method v m more chosen (rw no (fails _ (greeting auth) (v ∷ m ∷ [])))
  negotiate_refused (no_method more chosen) =
      at_method 5 0xff more chosen (fails _ (greeting auth) (5 ∷ 0xff ∷ []))
  negotiate_refused (other m more chosen a b c) =
      let na : nat_eq m 0 ≡ false = ground (arith, a) in
      let nb : nat_eq m 2 ≡ false = ground (arith, b) in
      let nc : nat_eq m 0xff ≡ false = ground (arith, c) in
      at_method 5 m more chosen (rw (na, nb, nc) (fails _ (greeting auth) (5 ∷ m ∷ [])))
  negotiate_refused (no_login more chosen absent) =
      at_method 5 2 more chosen (login_missing (greeting auth) (5 ∷ 2 ∷ []) auth absent)
  negotiate_refused (long_login user pass more chosen configured long) =
      at_method 5 2 more chosen
        (login_long (greeting auth) (5 ∷ 2 ∷ []) auth user pass configured long)
  negotiate_refused (bad_login user pass more a b more_auth chosen configured u p answered wrong) =
      at_method 5 2 more chosen (
        login_wrong (greeting auth) (5 ∷ 2 ∷ []) auth user pass a b more_auth configured u p
          answered wrong)
  negotiate_refused (bad_request {e} {out} {inn} {header} rest reached answered unfit) =
      at_request out inn reached (request_refused out inn header rest answered unfit)
