-- ===== src/Proxy/Socks5/Refusal/Kinds.antt =====
-- `connect` of `src/proxy/socks5.rs`: the refusals of a server, and the error for each.
use proxec.Base.{ℕ, ◌≤◌, ◌<◌, ◌≡◌, ◌≢◌, ◌⊎◌, none, some, List, [], ◌∷◌, ◌++◌, length}
use proxec.Base.Text.{Text, codes, display_u8}
use proxec.Base.Utf8.{as_bytes}
use proxec.Error.{Error}
use proxec.Net.{SocketAddr}
use proxec.Proxy.Socks5.{Auth, greeting, connect_request, auth_request, socks_error, hex_u8}

-- The request is sent next: what has been sent and received when no login was needed, and when
-- one was taken.
pub data Reached (reply : List ℕ → List ℕ) (auth : Auth) : List ℕ → List ℕ → Type 0 where
  no_login_needed :
      (more : List ℕ)
      → reply (greeting auth) ≡ 5 ∷ 0 ∷ more
      → Reached reply auth (greeting auth) (5 ∷ 0 ∷ [])
  logged_in :
      (user pass : Text) (more more_auth : List ℕ)
      → reply (greeting auth) ≡ 5 ∷ 2 ∷ more
      → auth ≡ some (user, pass)
      → length (as_bytes user) ≤ 255
      → length (as_bytes pass) ≤ 255
      → reply (greeting auth ++ auth_request user pass) ≡ 5 ∷ 2 ∷ 1 ∷ 0 ∷ more_auth
      → Reached reply auth (greeting auth ++ auth_request user pass) (5 ∷ 2 ∷ 1 ∷ 0 ∷ [])

-- The first four bytes of an answer to the request that `connect` does not take, and the error.
pub data Unfit : List ℕ → Error → Type 0 where
  other_version :
      (v code reserved atyp : ℕ)
      → v ≢ 5
      → Unfit
          (v ∷ code ∷ reserved ∷ atyp ∷ [])
          (socks_error (codes "invalid SOCKS version in connect reply: " ++ display_u8 v))
  refused :
      (code reserved atyp : ℕ)
      → code ≢ 0
      → Unfit
          (5 ∷ code ∷ reserved ∷ atyp ∷ [])
          (socks_error (codes "connect failed with reply code 0x" ++ hex_u8 code))
  other_type :
      (reserved atyp : ℕ)
      → atyp ≢ 1
      → atyp ≢ 3
      → atyp ≢ 4
      → Unfit
          (5 ∷ 0 ∷ reserved ∷ atyp ∷ [])
          (socks_error (codes "invalid address type in connect reply: " ++ display_u8 atyp))

-- What a server answers when it refuses, the error for it, and what has been sent by then.
pub data Refusal (reply : List ℕ → List ℕ) (dest : SocketAddr) (auth : Auth)
    : Error → List ℕ → Type 0 where
  -- The answer to the greeting is of another protocol.
  bad_version :
      (v m : ℕ) (more : List ℕ)
      → reply (greeting auth) ≡ v ∷ m ∷ more
      → v ≢ 5
      → Refusal reply dest auth
          (socks_error (codes "invalid SOCKS version in method reply: " ++ display_u8 v))
          (greeting auth)
  -- No method is accepted.
  no_method :
      (more : List ℕ)
      → reply (greeting auth) ≡ 5 ∷ 0xff ∷ more
      → Refusal reply dest auth
          (socks_error (codes "proxy rejected all authentication methods"))
          (greeting auth)
  -- A method that was not offered.
  other :
      (m : ℕ) (more : List ℕ)
      → reply (greeting auth) ≡ 5 ∷ m ∷ more
      → m ≢ 0
      → m ≢ 2
      → m ≢ 0xff
      → Refusal reply dest auth
          (socks_error (codes "unsupported SOCKS auth method: " ++ display_u8 m))
          (greeting auth)
  -- A login is asked for, and there is none, or it is too long to be sent.
  no_login :
      (more : List ℕ)
      → reply (greeting auth) ≡ 5 ∷ 2 ∷ more
      → auth ≡ none
      → Refusal reply dest auth
          (socks_error (codes "proxy requested username/password auth"))
          (greeting auth)
  long_login :
      (user pass : Text) (more : List ℕ)
      → reply (greeting auth) ≡ 5 ∷ 2 ∷ more
      → auth ≡ some (user, pass)
      → (255 < length (as_bytes user)) ⊎ (255 < length (as_bytes pass))
      → Refusal reply dest auth
          (Error.invalid_argument (codes "SOCKS5 username/password too long"))
          (greeting auth)
  -- The login is not taken.
  bad_login :
      (user pass : Text) (more : List ℕ) (a b : ℕ) (more_auth : List ℕ)
      → reply (greeting auth) ≡ 5 ∷ 2 ∷ more
      → auth ≡ some (user, pass)
      → length (as_bytes user) ≤ 255
      → length (as_bytes pass) ≤ 255
      → reply (greeting auth ++ auth_request user pass) ≡ 5 ∷ 2 ∷ a ∷ b ∷ more_auth
      → (a ≢ 1) ⊎ (b ≢ 0)
      → Refusal reply dest auth
          (socks_error (codes "username/password auth failed"))
          (greeting auth ++ auth_request user pass)
  -- The answer to the request, after a login or without one.
  bad_request :
      {e : Error} {out inn header : List ℕ} (rest : List ℕ)
      → Reached reply auth out inn
      → reply (out ++ connect_request dest) ≡ inn ++ (header ++ rest)
      → Unfit header e
      → Refusal reply dest auth e (out ++ connect_request dest)
