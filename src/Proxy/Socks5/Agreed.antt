-- ===== src/Proxy/Socks5/Agreed.antt =====
-- The client's and the server's bytes of a handshake, read by the server's rules.
use proxec.Base.{
  ℕ, ◌%◌, ◌^◌, ◌≤◌, ◌≡◌, ◌∙◌, Option, none, some, List, [], ◌∷◌, ◌++◌, append_assoc, length, arith,
}
use proxec.Base.Bytes.{be_bytes, from_be_bytes, from_be_bytes-be_bytes}
use proxec.Base.Text.{Text}
use proxec.Base.Utf8.{as_bytes}
use proxec.Net.{SocketAddr, IsAddr}
use proxec.Tracer.Memory.Layout.{without_scope}
use proxec.Proxy.Socks5.{Auth, greeting, connect_request, auth_request}
use proxec.Proxy.Socks5.Server.{
  Session, session, requested, login, target_addr, bound_addr, granted, ◌>>=◌, bind_some, pure,
  session-credentials, split_exact, server,
}

module _ (reserved atyp : ℕ) (bound skipped : List ℕ) (c d : ℕ)
    (typed : (out : List ℕ)
      → bound_addr atyp (out, bound) ≡ some (skipped, (out, c ∷ d ∷ []))) where
  granted-lem :
      (out : List ℕ) → granted (out, 5 ∷ 0 ∷ reserved ∷ atyp ∷ bound) ≡ some (c ∷ d ∷ [], (out, []))
  unfolding granted split_exact
  granted-lem out =
      bind_some (bound_addr atyp) (λ _. server 2) (out, bound) (out, c ∷ d ∷ []) skipped (typed out)

  answered :
      (s : Session)
      → ◌>>=◌ {B = Session} granted (λ _. pure s) ([], 5 ∷ 0 ∷ reserved ∷ atyp ∷ bound)
        ≡ some (s, ([], []))
  answered s =
      bind_some granted (λ _. pure s) ([], 5 ∷ 0 ∷ reserved ∷ atyp ∷ bound) ([], []) (c ∷ d ∷ [])
        (granted-lem [])

  -- The request of the client is read as one for its destination.
  requested-connect_request :
      (user_pass : Option (List ℕ × List ℕ)) (dest : SocketAddr)
      → IsAddr dest
      → requested user_pass (connect_request dest, 5 ∷ 0 ∷ reserved ∷ atyp ∷ bound)
        ≡ some (record { user_pass = user_pass; target = without_scope dest }, ([], []))
  unfolding requested connect_request target_addr split_exact
  requested-connect_request user_pass (SocketAddr.v4 a p) fits =
      let addr : from_be_bytes (be_bytes 4 a) ≡ a = from_be_bytes-be_bytes 4 a fits.0 in
      let port : from_be_bytes (be_bytes 2 p) ≡ p = from_be_bytes-be_bytes 2 p fits.1 in
      rw (addr, port) (answered (record { user_pass = user_pass; target = SocketAddr.v4 a p }))
  requested-connect_request user_pass (SocketAddr.v6 a p f s) fits =
      let addr : from_be_bytes (be_bytes 16 a) ≡ a = from_be_bytes-be_bytes 16 a fits.0 in
      let port : from_be_bytes (be_bytes 2 p) ≡ p = from_be_bytes-be_bytes 2 p fits.1 in
      rw (addr, port) (answered (record { user_pass = user_pass; target = SocketAddr.v6 a p 0 0 }))

  -- Without a login.
  pub session-no_auth :
      (auth : Auth) (dest : SocketAddr)
      → IsAddr dest
      → session (greeting auth ++ connect_request dest, 5 ∷ 0 ∷ 5 ∷ 0 ∷ reserved ∷ atyp ∷ bound)
        ≡ some (record { user_pass = none; target = without_scope dest }, ([], []))
  unfolding session greeting login
  session-no_auth none dest fits = requested-connect_request none dest fits
  session-no_auth (some _) dest fits = requested-connect_request none dest fits

  -- With the name and the password.
  pub session-auth_request :
      (user pass : Text) (dest : SocketAddr)
      → IsAddr dest
      → length (as_bytes user) ≤ 255
      → length (as_bytes pass) ≤ 255
      → session (
        (greeting (some (user, pass)) ++ auth_request user pass) ++ connect_request dest,
        5 ∷ 2 ∷ 1 ∷ 0 ∷ 5 ∷ 0 ∷ reserved ∷ atyp ∷ bound,
      )
        ≡ some (
          record { user_pass = some (as_bytes user, as_bytes pass); target = without_scope dest },
          ([], []),
        )
  unfolding greeting auth_request
  session-auth_request user pass dest fits u p =
      let u' : length (as_bytes user) % 2 ^ 8 ≡ length (as_bytes user) = omega (arith, u) in
      let p' : length (as_bytes pass) % 2 ^ 8 ≡ length (as_bytes pass) = omega (arith, p) in
      let both =
        session-credentials (as_bytes user) (as_bytes pass) (connect_request dest)
          (5 ∷ 0 ∷ reserved ∷ atyp ∷ bound) in
      rw
        (
          u',
          p',
          append_assoc (as_bytes user) (length (as_bytes pass) ∷ as_bytes pass)
              (connect_request dest),
        )
        (both ∙ requested-connect_request (some (as_bytes user, as_bytes pass)) dest fits)
