-- ===== src/Proxy/Socks5.antt =====
-- `src/proxy/socks5.rs`: the handshake with a SOCKS5 proxy.
pub mod Server
pub mod Agreed
pub mod Login
pub mod Reply
pub mod Handshake
pub mod Liveness
pub mod Refusal
pub mod Sent
use proxec.Base.{
  ℕ, ◌+◌, ◌-◌, ◌/◌, ◌%◌, ◌^◌, Bool, true, false, not, ◌&&◌, ◌||◌, Option, none, some, List, [], ◌∷◌,
  ◌++◌, nat_eq, ltb, if◌then◌else◌, length, get_or,
}
use proxec.Base.Bytes.{be_bytes}
use proxec.Base.Text.{Text, codes, display_u8}
use proxec.Base.Utf8.{as_bytes}
use proxec.Error.{Error}
use proxec.Action.{Action, pure, ◌>>=◌, ◌>>◌}
use proxec.Net.{SocketAddr}
use proxec.Proxy.Tcp.{Tcp, dial, send, receive_exact, fail}

abbrev socks_version : ℕ
socks_version = 5

abbrev pub method_no_auth : ℕ
method_no_auth = 0

abbrev pub method_user_pass : ℕ
method_user_pass = 2

abbrev cmd_connect : ℕ
cmd_connect = 1

abbrev atyp_ipv4 : ℕ
atyp_ipv4 = 1

abbrev atyp_ipv6 : ℕ
atyp_ipv6 = 4

-- The name and the password.
abbrev pub Auth : Type 0
Auth = Option (Text × Text)

unfoldable pub greeting : Auth → List ℕ
greeting none = socks_version ∷ 1 ∷ method_no_auth ∷ []
greeting (some _) = socks_version ∷ 2 ∷ method_no_auth ∷ method_user_pass ∷ []

unfoldable pub connect_request : SocketAddr → List ℕ
connect_request (SocketAddr.v4 a p) =
    socks_version ∷ cmd_connect ∷ 0 ∷ atyp_ipv4 ∷ be_bytes 4 a ++ be_bytes 2 p
connect_request (SocketAddr.v6 a p flowinfo scope_id) =
    socks_version ∷ cmd_connect ∷ 0 ∷ atyp_ipv6 ∷ be_bytes 16 a ++ be_bytes 2 p

-- `as u8` on the lengths.
unfoldable pub auth_request : Text → Text → List ℕ
auth_request user pass =
    1 ∷ length (as_bytes user) % 2 ^ 8 ∷ as_bytes user
    ++ length (as_bytes pass) % 2 ^ 8 ∷ as_bytes pass

abbrev hex_digit : ℕ → ℕ
hex_digit n = if ltb n 10 then b'0' + n else b'a' + (n - 10)

-- `{:02x}` of a byte.
abbrev pub hex_u8 : ℕ → Text
hex_u8 n = hex_digit (n / 16) ∷ hex_digit (n % 16) ∷ []

abbrev pub socks_error : Text → Error
socks_error message = Error.socks_proxy message

module _ {W : Type 0} (tcp : Tcp W) where
  -- The answer to the name and the password.
  abbrev pub check_auth : List ℕ → Action W (Unit {0})
  check_auth reply =
      if nat_eq (get_or reply 0 0) 1 && nat_eq (get_or reply 1 0) 0
      then pure tt
      else fail (socks_error (codes "username/password auth failed"))

  unfoldable pub socks5_auth : ℕ → Text → Text → Action W (Unit {0})
  unfolding auth_request
  socks5_auth stream user pass =
      if ltb 255 (length (as_bytes user)) || ltb 255 (length (as_bytes pass))
      then fail (Error.invalid_argument (codes "SOCKS5 username/password too long"))
      else (send tcp stream (auth_request user pass) >> (receive_exact tcp stream 2 >>= check_auth))

  -- `auth.ok_or_else(..)?` and the exchange of the name and the password.
  unfoldable pub user_pass : ℕ → Auth → Action W (Unit {0})
  unfolding socks5_auth
  user_pass stream none = fail (socks_error (codes "proxy requested username/password auth"))
  user_pass stream (some (user, pass)) = socks5_auth stream user pass

  -- The methods that the code does not know: `0xff` means that the proxy accepts none.
  abbrev pub other_method : ℕ → Action W (Unit {0})
  other_method method =
      if nat_eq method 0xff
      then fail (socks_error (codes "proxy rejected all authentication methods"))
      else fail (socks_error (codes "unsupported SOCKS auth method: " ++ display_u8 method))

  abbrev pub use_method : ℕ → Auth → ℕ → Action W (Unit {0})
  use_method stream auth method =
      if nat_eq method method_no_auth
      then pure tt
      else if nat_eq method method_user_pass
      then user_pass stream auth
      else other_method method

  -- After the answer to the greeting.
  unfoldable pub authenticate : ℕ → Auth → List ℕ → Action W (Unit {0})
  unfolding user_pass
  authenticate stream auth method_reply =
      let version = get_or method_reply 0 0 in
      if not (nat_eq version socks_version)
      then fail
          (socks_error (codes "invalid SOCKS version in method reply: " ++ display_u8 version))
      else use_method stream auth (get_or method_reply 1 0)

  unfoldable pub addr_len : ℕ → ℕ → Action W ℕ
  addr_len stream atyp =
      if nat_eq atyp atyp_ipv4
      then pure 4
      else if nat_eq atyp 3
      then receive_exact tcp stream 1 >>= (λ len. pure (get_or len 0 0))
      else if nat_eq atyp atyp_ipv6
      then pure 16
      else fail (socks_error (codes "invalid address type in connect reply: " ++ display_u8 atyp))

  -- The address and the port of the answer are dropped.
  abbrev pub skip_addr : ℕ → ℕ → Action W ℕ
  skip_addr stream len = receive_exact tcp stream (len + 2) >> pure stream

  -- The answer to the request, from its first four bytes on.
  unfoldable pub finish : ℕ → List ℕ → Action W ℕ
  unfolding addr_len
  finish stream header =
      let version = get_or header 0 0 in
      let code = get_or header 1 0 in
      if not (nat_eq version socks_version)
      then fail
          (socks_error (codes "invalid SOCKS version in connect reply: " ++ display_u8 version))
      else if not (nat_eq code 0)
      then fail (socks_error (codes "connect failed with reply code 0x" ++ hex_u8 code))
      else (addr_len stream (get_or header 3 0) >>= skip_addr stream)

  -- `connect` on the stream that it opens.
  unfoldable pub negotiate : ℕ → SocketAddr → Auth → Action W ℕ
  unfolding greeting connect_request authenticate finish
  negotiate stream dest auth = do
    send tcp stream (greeting auth)
    method_reply ← receive_exact tcp stream 2
    authenticate stream auth method_reply
    send tcp stream (connect_request dest)
    header ← receive_exact tcp stream 4
    finish stream header

  unfoldable pub connect : SocketAddr → SocketAddr → Auth → Action W ℕ
  unfolding negotiate
  connect proxy_addr dest auth = do stream ← dial tcp proxy_addr; negotiate stream dest auth
