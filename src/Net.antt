-- ===== src/Net.antt =====
-- Socket addresses of `std::net`, as far as the program uses them: an address is its number, and
-- the octets are its big-endian bytes.
use proxec.Base.{ℕ, ◌/◌, ◌^◌, ◌<◌, ◌≡◌, ◌↔◌, Bool, true, false, ◌&&◌, arith, nat_eq}

pub data IpAddr : Type 0 where
  v4 v6 : ℕ → IpAddr

-- `SocketAddrV6` also has a flow label and a scope.
pub data SocketAddr : Type 0 where
  v4 : ℕ → ℕ → SocketAddr
  v6 : ℕ → ℕ → ℕ → ℕ → SocketAddr

abbrev pub ip : SocketAddr → IpAddr
ip (SocketAddr.v4 a _) = IpAddr.v4 a
ip (SocketAddr.v6 a _ _ _) = IpAddr.v6 a

abbrev pub port : SocketAddr → ℕ
port (SocketAddr.v4 _ p) = p
port (SocketAddr.v6 _ p _ _) = p

abbrev pub is_v6 : SocketAddr → Bool
is_v6 (SocketAddr.v4 _ _) = false
is_v6 (SocketAddr.v6 _ _ _ _) = true

-- `127.0.0.0/8` and `::1`.
abbrev pub is_loopback : IpAddr → Bool
is_loopback (IpAddr.v4 a) = nat_eq (a / 2 ^ 24) 127
is_loopback (IpAddr.v6 a) = nat_eq a 1

-- `0.0.0.0` and `::`.
abbrev pub is_unspecified : IpAddr → Bool
is_unspecified (IpAddr.v4 a) = nat_eq a 0
is_unspecified (IpAddr.v6 a) = nat_eq a 0

abbrev pub ip_eq : IpAddr → IpAddr → Bool
ip_eq (IpAddr.v4 a) (IpAddr.v4 b) = nat_eq a b
ip_eq (IpAddr.v4 a) (IpAddr.v6 b) = false
ip_eq (IpAddr.v6 a) (IpAddr.v4 b) = false
ip_eq (IpAddr.v6 a) (IpAddr.v6 b) = nat_eq a b

pub ip_eq_iff : (a b : IpAddr) → (ip_eq a b ≡ true) ↔ (a ≡ b)
ip_eq_iff (IpAddr.v4 a) (IpAddr.v4 b) = ground arith
ip_eq_iff (IpAddr.v4 a) (IpAddr.v6 b) = ground arith
ip_eq_iff (IpAddr.v6 a) (IpAddr.v4 b) = ground arith
ip_eq_iff (IpAddr.v6 a) (IpAddr.v6 b) = ground arith

abbrev pub addr_eq : SocketAddr → SocketAddr → Bool
addr_eq (SocketAddr.v4 a p) (SocketAddr.v4 b q) = nat_eq a b && nat_eq p q
addr_eq (SocketAddr.v4 _ _) (SocketAddr.v6 _ _ _ _) = false
addr_eq (SocketAddr.v6 _ _ _ _) (SocketAddr.v4 _ _) = false
addr_eq (SocketAddr.v6 a p f s) (SocketAddr.v6 b q g t) =
    nat_eq a b && nat_eq p q && nat_eq f g && nat_eq s t

pub addr_eq_iff : (a b : SocketAddr) → (addr_eq a b ≡ true) ↔ (a ≡ b)
addr_eq_iff (SocketAddr.v4 a p) (SocketAddr.v4 b q) = ground arith
addr_eq_iff (SocketAddr.v4 _ _) (SocketAddr.v6 _ _ _ _) = ground arith
addr_eq_iff (SocketAddr.v6 _ _ _ _) (SocketAddr.v4 _ _) = ground arith
addr_eq_iff (SocketAddr.v6 a p f s) (SocketAddr.v6 b q g t) = ground arith

-- The numbers fit the fields of the address.
abbrev pub IsAddr : SocketAddr → Type 0
IsAddr (SocketAddr.v4 a p) = (a < 2 ^ 32) × (p < 2 ^ 16)
IsAddr (SocketAddr.v6 a p f s) = (a < 2 ^ 128) × (p < 2 ^ 16) × (f < 2 ^ 32) × (s < 2 ^ 32)
