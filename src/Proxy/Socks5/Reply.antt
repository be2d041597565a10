-- ===== src/Proxy/Socks5/Reply.antt =====
-- The answer to the request in `connect` of `src/proxy/socks5.rs`: what the connection has sent and
-- received when it has been read, with a result or with an error.
use proxec.Base.{
  ℕ, ◌+◌, ◌≡◌, refl, inl, inr, some, List, [], ◌∷◌, ◌++◌, append_assoc, nat_eq, nat_eq_iff, length,
  get_or, split_at_length, Bool-cases, arith,
}
use proxec.Base.Text.{codes, display_u8}
use proxec.Error.{Error}
use proxec.Action.{pure, ◌>>=◌}
use proxec.Proxy.Tcp.{Tcp, receive_exact}
use proxec.Proxy.Tcp.Outcome.{log, History, Talks, Talks-pure, Talks-fail, Talks-bind, Talks-exact}
use proxec.Proxy.Socks5.{socks_error, hex_u8, addr_len, skip_addr, finish}
use proxec.Proxy.Socks5.Server.{bound_addr, server-append}
use proxec.Proxy.Socks5.Login.{two_bytes}

-- A statement on every list of four bytes holds of a list of that length.
abbrev four_bytes :
    (P : List ℕ → Type 0)
    → ((a b c d : ℕ) → P (a ∷ b ∷ c ∷ d ∷ []))
    → (bs : List ℕ) → length bs ≡ 4
    → P bs
four_bytes P p (a ∷ b ∷ bs) e = two_bytes (λ ds. P (a ∷ b ∷ ds)) (p a b) bs (omega (arith, e))
four_bytes P p [] e = absurd (omega (arith, e))
four_bytes P p (a ∷ []) e = absurd (omega (arith, e))

-- The answer to a request: success, an address of the type that it names, and a port.
pub record Answer (reply : List ℕ) : Type 0 where
  pub reserved : ℕ
  pub atyp : ℕ
  pub bound : List ℕ
  pub skipped : List ℕ
  pub port_hi : ℕ
  pub port_lo : ℕ
  pub whole : reply ≡ 5 ∷ 0 ∷ reserved ∷ atyp ∷ bound
  pub typed :
      (out : List ℕ) → bound_addr atyp (out, bound) ≡ some (skipped, (out, port_hi ∷ port_lo ∷ []))

-- `D` is what holds of the bytes whenever an action fails; more bytes may have come in.
module _ {W : Type 0} {tcp : Tcp W} (h : History tcp) (stream : ℕ) (D : List ℕ → List ℕ → Type 0)
    (grow : (out inn more : List ℕ) → D out inn → D out (inn ++ more)) where
  module _ {P : ℕ → List ℕ → List ℕ → Type 0} (out : List ℕ) where
    Talks-skip_addr :
        (n : ℕ) (inn : List ℕ)
        → D out inn
        → ((addr port : List ℕ)
            → length addr ≡ n
            → length port ≡ 2
            → P stream out (inn ++ (addr ++ port)))
        → Talks (log h stream) (skip_addr tcp stream n) out inn P (λ _. D)
    Talks-skip_addr n inn d p =
        Talks-exact h stream (λ _. pure stream) (n + 2) out inn
          (λ bs long _.
            let (addr, port, whole, len, two) = split_at_length n 2 bs long in
            Talks-pure (log h stream) stream out (inn ++ bs) (rw whole (p addr port len two)))
          (λ e more. grow out inn more d)

    -- The number of bytes to drop is that of the address in the answer.
    Talks-addr :
        (reserved atyp : ℕ) (inn : List ℕ)
        → D out inn
        → ((reply : List ℕ) → Answer reply → P stream out (inn ++ reply))
        → Talks
            (log h stream)
            (addr_len tcp stream atyp >>= skip_addr tcp stream)
            out
            (inn ++ 5 ∷ 0 ∷ reserved ∷ atyp ∷ [])
            P
            (λ _. D)
    unfolding addr_len bound_addr
    Talks-addr reserved atyp inn d p = elim (Bool-cases (nat_eq atyp 1)) [
      | inl ipv4 ↦ rw ((nat_eq_iff atyp 1).0 ipv4) (
          Talks-skip_addr 4 _ (more _) (λ addr port len two.
            answered 1 addr addr port two (λ o. server-append 4 o addr port len)))
      | inr a ↦ elim (Bool-cases (nat_eq atyp 3)) [
        | inl domain ↦ rw ((nat_eq_iff atyp 3).0 domain) (
            Talks-bind (log h stream) (receive_exact tcp stream 1 >>= λ len. pure (get_or len 0 0))
              (skip_addr tcp stream) out header
              (Talks-exact h stream (λ len. pure (get_or len 0 0)) 1 out header
                (λ bs one _.
                  Talks-pure (log h stream) (get_or bs 0 0) out (header ++ bs) (by_name bs one))
                (λ e part. grow out header part (more _))))
        | inr b ↦ elim (Bool-cases (nat_eq atyp 4)) [
          | inl ipv6 ↦ rw ((nat_eq_iff atyp 4).0 ipv6) (
              Talks-skip_addr 16 _ (more _) (λ addr port len two.
                answered 4 addr addr port two (λ o. server-append 16 o addr port len)))
          | inr c ↦
              rw (a, b, c)
                (Talks-fail (log h stream) bad_type out (inn ++ 5 ∷ 0 ∷ reserved ∷ atyp ∷ [])
                  (more _))
        ]
      ]
    ]
      where
        more : (t : List ℕ) → D out (inn ++ t)
        more t = grow out inn t d

        header : List ℕ
        header = inn ++ 5 ∷ 0 ∷ reserved ∷ 3 ∷ []

        bad_type : Error
        bad_type = socks_error (codes "invalid address type in connect reply: " ++ display_u8 atyp)

        answered :
            (t : ℕ) (skipped addr port : List ℕ)
            → length port ≡ 2
            → ((o : List ℕ) → bound_addr t (o, addr ++ port) ≡ some (skipped, (o, port)))
            → P stream out ((inn ++ 5 ∷ 0 ∷ reserved ∷ t ∷ []) ++ (addr ++ port))
        answered t skipped addr port two e =
            rw (append_assoc inn (5 ∷ 0 ∷ reserved ∷ t ∷ []) (addr ++ port)) (
              two_bytes
                (λ ds.
                  ((o : List ℕ) → bound_addr t (o, addr ++ ds) ≡ some (skipped, (o, ds)))
                  → P stream out (inn ++ (5 ∷ 0 ∷ reserved ∷ t ∷ addr ++ ds)))
                (λ hi lo typed. p _ (record {
                  reserved = reserved;
                  atyp = t;
                  bound = addr ++ hi ∷ lo ∷ [];
                  skipped = skipped;
                  port_hi = hi;
                  port_lo = lo;
                  whole = refl;
                  typed = typed;
                }))
                port two e)

        by_name :
            (bs : List ℕ)
            → length bs ≡ 1
            → Talks
                (log h stream)
                (skip_addr tcp stream (get_or bs 0 0))
                out
                (header ++ bs)
                P
                (λ _. D)
        by_name [] e = absurd (omega (arith, e))
        by_name (n ∷ m ∷ bs) e = absurd (omega (arith, e))
        by_name (n ∷ []) e =
            Talks-skip_addr n (header ++ n ∷ []) (grow out header (n ∷ []) (more _))
              (λ addr port len two.
                rw (append_assoc header (n ∷ []) (addr ++ port))
                  (answered 3 addr (n ∷ addr) port two (λ o. server-append n o addr port len)))

    -- The answer to the request, from its first four bytes on.
    pub Talks-finish :
        (bs inn : List ℕ)
        → length bs ≡ 4
        → D out inn
        → ((reply : List ℕ) → Answer reply → P stream out (inn ++ reply))
        → Talks (log h stream) (finish tcp stream bs) out (inn ++ bs) P (λ _. D)
    unfolding finish
    Talks-finish bs inn four d p =
        four_bytes (λ ds. Talks (log h stream) (finish tcp stream ds) out (inn ++ ds) P (λ _. D))
          by_header bs four
      where
        by_header :
            (v c r t : ℕ)
            → Talks
                (log h stream)
                (finish tcp stream (v ∷ c ∷ r ∷ t ∷ []))
                out
                (inn ++ v ∷ c ∷ r ∷ t ∷ [])
                P
                (λ _. D)
        by_header v c r t = elim (Bool-cases (nat_eq v 5)) [
          | inr other ↦
              rw other
                (Talks-fail (log h stream) bad_version out _ (grow out inn (v ∷ c ∷ r ∷ t ∷ []) d))
          | inl five ↦ elim (Bool-cases (nat_eq c 0)) [
            | inl zero ↦
                rw ((nat_eq_iff v 5).0 five, (nat_eq_iff c 0).0 zero) (Talks-addr r t inn d p)
            | inr code ↦
                rw (five, code)
                  (Talks-fail (log h stream) refused out _ (grow out inn (v ∷ c ∷ r ∷ t ∷ []) d))
          ]
        ]
          where
            bad_version : Error
            bad_version =
                socks_error (codes "invalid SOCKS version in connect reply: " ++ display_u8 v)

            refused : Error
            refused = socks_error (codes "connect failed with reply code 0x" ++ hex_u8 c)
