-- ===== src/Tracer/Memory/Sockaddr.antt =====
-- `write_sockaddr` and `read_sockaddr` of `src/tracer/memory.rs` on mapped memory: exactly the bytes
-- of the structure change, and reading gives the address back.
use proxec.Base.{ℕ, ◌+◌, ◌-◌, ◌^◌, ◌<◌, ◌≡◌, refl, ap, ◌∙◌, sym, List, ◌++◌, arith, get_or, length}
use proxec.Result.{ok, map_err}
use proxec.Net.{SocketAddr, IsAddr}
use proxec.Os.{Os}
use proxec.Tracer.Memory.{parse_sockaddr, sockaddr_bytes, read_sockaddr, write_sockaddr}
use proxec.Tracer.Memory.Laws.{Memory}
use proxec.Tracer.Memory.Layout.{
  tabulate, tabulate-get_or, tabulate-add, sockaddr_bytes-IsBytes, without_scope,
  parse_sockaddr-sockaddr_bytes, parse_sockaddr-IsAddr, tabulate-IsBytes,
}
use proxec.Tracer.Memory.Write.{IsMapped, IsWritten, write_bytes-IsWritten}

module _ {W : Type 0} (sys : Os W) (pid : ℕ) (m : Memory sys pid) where
  open m use {byte, mapped}

  module _ (addr : ℕ) (fits : addr + 64 < 2 ^ 64) where
    -- Where 32 bytes from the address on are mapped, and it lies 64 below the end of the address
    -- space at least, `write_sockaddr` succeeds and changes exactly the bytes of the structure, 16
    -- for an IPv4 address and 28 for an IPv6 address; no other byte and no mapping changes.
    pub write_sockaddr-IsWritten :
        (s : SocketAddr) (w : W)
        → IsMapped sys pid m addr 32 w
        → IsWritten sys pid m addr
            (sockaddr_bytes s)
            0
            (length (sockaddr_bytes s))
            w
            (write_sockaddr sys pid addr s w)
    unfolding write_sockaddr
    write_sockaddr-IsWritten (SocketAddr.v4 a p) w there =
        write_bytes-IsWritten sys pid m addr (sockaddr_bytes (SocketAddr.v4 a p)) w (omega arith)
          (sockaddr_bytes-IsBytes (SocketAddr.v4 a p)) (λ k l. there k (omega arith))
    write_sockaddr-IsWritten (SocketAddr.v6 a p f g) w there =
        write_bytes-IsWritten sys pid m addr (sockaddr_bytes (SocketAddr.v6 a p f g)) w
          (omega arith) (sockaddr_bytes-IsBytes (SocketAddr.v6 a p f g))
          (λ k l. there k (omega arith))

    read_sockaddr-eq :
        (addrlen : ℕ) (w : W)
        → IsMapped sys pid m addr 32 w
        → read_sockaddr sys pid addr addrlen w
          ≡ parse_sockaddr (tabulate 28 (λ k. byte (addr + k) w))
    read_sockaddr-eq addrlen w there =
        unfold read_sockaddr in rw (m.readv addr 28 w (λ k l. there k (omega arith)), map_err) refl

    still-IsMapped :
        (s : SocketAddr) (w : W)
        → IsMapped sys pid m addr 32 w
        → IsMapped sys pid m addr 32 (write_sockaddr sys pid addr s w).1
    still-IsMapped s w there k l =
        (write_sockaddr-IsWritten s w there).mappings (addr + k) ∙ there k l

    -- What stands at the address after the write begins with the bytes of the structure.
    written_prefix :
        (s : SocketAddr) (w : W) (n : ℕ)
        → IsMapped sys pid m addr 32 w
        → length (sockaddr_bytes s) + n ≡ 28
        → (rest : List ℕ) × (tabulate 28 (λ k. byte (addr + k) (write_sockaddr sys pid addr s w).1)
            ≡ sockaddr_bytes s ++ rest)
    written_prefix s w n there e =
        let w' = (write_sockaddr sys pid addr s w).1 in
        (
          tabulate n (λ k. byte (addr + (length (sockaddr_bytes s) + k)) w'),
          ap (λ t. tabulate t (λ k. byte (addr + k) w')) (sym e)
              ∙ tabulate-add (length (sockaddr_bytes s)) n (λ k. byte (addr + k) w')
              ∙ ap (λ l. l ++ tabulate n (λ k. byte (addr + (length (sockaddr_bytes s) + k)) w'))
                  (tabulate-get_or (sockaddr_bytes s) (λ k. byte (addr + k) w')
                    (λ k l. ground (
                      arith,
                      (write_sockaddr-IsWritten s w there).bytes (addr + k),
                      ap (λ (j : ℕ). get_or (sockaddr_bytes s) j 0) (plus_minus k),
                    ))),
        )
      where
        plus_minus : (k : ℕ) → addr + k - addr ≡ k
        plus_minus k = omega arith

    -- An address written into mapped memory reads back as it was, but for the flow label and the
    -- scope of IPv6, which read back as 0.
    pub read_sockaddr-write_sockaddr :
        (s : SocketAddr) (addrlen : ℕ) (w : W)
        → IsAddr s
        → IsMapped sys pid m addr 32 w
        → read_sockaddr sys pid addr addrlen (write_sockaddr sys pid addr s w).1
          ≡ ok (without_scope s)
    read_sockaddr-write_sockaddr s addrlen w good there =
        read_sockaddr-eq addrlen _ (still-IsMapped s w there)
        ∙ parsed s good (λ n. written_prefix s w n there)
      where
        parsed :
            {bytes : List ℕ} (s : SocketAddr)
            → IsAddr s
            → ((n : ℕ)
                → length (sockaddr_bytes s) + n ≡ 28
                → (rest : List ℕ) × (bytes ≡ sockaddr_bytes s ++ rest))
            → parse_sockaddr bytes ≡ ok (without_scope s)
        parsed (SocketAddr.v4 a p) good f =
            let r = f 12 (unfold sockaddr_bytes in omega arith) in
            ap parse_sockaddr r.1 ∙ parse_sockaddr-sockaddr_bytes (SocketAddr.v4 a p) r.0 good
        parsed (SocketAddr.v6 a p fl sc) good f =
            let r = f 0 (unfold sockaddr_bytes in omega arith) in
            ap parse_sockaddr r.1 ∙ parse_sockaddr-sockaddr_bytes (SocketAddr.v6 a p fl sc) r.0 good

    -- Redirecting and restoring: an address that was read, overwritten by that of the local proxy
    -- and then written back reads as it did before.
    pub read_sockaddr_restored :
        (dest local_addr : SocketAddr) (addrlen : ℕ) (w : W)
        → IsMapped sys pid m addr 32 w
        → read_sockaddr sys pid addr addrlen w ≡ ok dest
        → let w1 = (write_sockaddr sys pid addr local_addr w).1 in
          read_sockaddr sys pid addr addrlen (write_sockaddr sys pid addr dest w1).1 ≡ ok dest
    read_sockaddr_restored dest local_addr addrlen w there e =
        let good =
          parse_sockaddr-IsAddr _ dest (tabulate-IsBytes 28 _ (λ k. m.byte_lt (addr + k) w))
            (sym (read_sockaddr-eq addrlen w there) ∙ e) in
        read_sockaddr-write_sockaddr dest addrlen _ good.0 (still-IsMapped local_addr w there)
        ∙ ap ok good.1
