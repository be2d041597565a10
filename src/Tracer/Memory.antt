-- ===== src/Tracer/Memory.antt =====
-- `src/tracer/memory.rs`: socket addresses and words in the memory of a traced process.
pub mod Layout
pub mod Laws
pub mod Write
pub mod Sockaddr
use proxec.Base.{
  ℕ, zero, suc, ◌+◌, ◌*◌, ◌/◌, ◌%◌, ◌^◌, Bool, true, false, List, [], ◌∷◌, ◌++◌, nat_eq,
  if◌then◌else◌, take, drop, length, replicate,
}
use proxec.Base.Bytes.{be_bytes, from_be_bytes, ne_bytes, from_ne_bytes}
use proxec.Error.{Error, memory_read, unknown_address_family}
use proxec.Action.{Action, pure, ◌>>=◌, ◌>>◌}
use proxec.Result.{Result, ok, err, map_err}
use proxec.Result
use proxec.Net.{SocketAddr}
use proxec.Os.{Os, Done}

-- A zeroed buffer of `n` bytes after a read that may have been short.
abbrev pub filled : ℕ → List ℕ → List ℕ
filled n bytes = take n (bytes ++ replicate n 0)

-- `buf[i..i + n]`.
abbrev pub slice : ℕ → ℕ → List ℕ → List ℕ
slice i n buf = take n (drop i buf)

abbrev pub af_inet : ℕ
af_inet = 2

abbrev pub af_inet6 : ℕ
af_inet6 = 10

-- The address in the 28 bytes that `read_sockaddr` reads.
unfoldable pub parse_sockaddr : List ℕ → Result Error SocketAddr
parse_sockaddr buf =
    let family = from_ne_bytes (slice 0 2 buf) in
    let p = from_be_bytes (slice 2 2 buf) in
    if nat_eq family af_inet
    then ok (SocketAddr.v4 (from_be_bytes (slice 4 4 buf)) p)
    else if nat_eq family af_inet6
    then ok (SocketAddr.v6 (from_be_bytes (slice 8 16 buf)) p 0 0)
    else err (unknown_address_family family)

-- The bytes that `write_sockaddr` writes: `sockaddr_in`, of 16 bytes, or `sockaddr_in6`, of 28.
unfoldable pub sockaddr_bytes : SocketAddr → List ℕ
sockaddr_bytes (SocketAddr.v4 a p) =
    ne_bytes 2 af_inet ++ be_bytes 2 p ++ be_bytes 4 a ++ replicate 8 0
sockaddr_bytes (SocketAddr.v6 a p flowinfo scope_id) =
    ne_bytes 2 af_inet6 ++ be_bytes 2 p ++ replicate 4 0 ++ be_bytes 16 a ++ replicate 4 0

module _ {W : Type 0} (sys : Os W) where
  -- The length of the structure is not used: 28 bytes are read.
  unfoldable pub read_sockaddr : ℕ → ℕ → ℕ → W → Result Error SocketAddr
  unfolding parse_sockaddr
  read_sockaddr pid addr addrlen w =
      Result.◌>>=◌ (map_err memory_read (sys.process_vm_readv pid addr 28 w))
        (λ bytes. parse_sockaddr (filled 28 bytes))

  -- `ptrace::write` at an address that wraps around, with its error.
  abbrev pub poke : ℕ → ℕ → ℕ → Action W (Unit {0})
  poke pid addr word w =
      let (r, w') = sys.ptrace_write pid (addr % 2 ^ 64) word w in (map_err Error.ptrace r, w')

  -- The full words, `count` of them from `offset` on.
  unfoldable pub write_words : ℕ → ℕ → List ℕ → ℕ → ℕ → Action W (Unit {0})
  write_words pid addr buf zero offset = pure tt
  write_words pid addr buf (suc count) offset = do
    poke pid (addr + offset) (from_ne_bytes (slice offset 8 buf))
    write_words pid addr buf count (offset + 8)

  -- The bytes behind the last full word: its other bytes are read and written back.
  unfoldable pub write_rest : ℕ → ℕ → List ℕ → ℕ → ℕ → Action W (Unit {0})
  write_rest pid addr buf offset remainder = do
    existing ← λ w. (map_err Error.ptrace (sys.ptrace_read pid ((addr + offset) % 2 ^ 64) w), w)
    poke pid (addr + offset)
        (from_ne_bytes (slice offset remainder buf ++ drop remainder (ne_bytes 8 existing)))

  unfoldable pub write_bytes : ℕ → ℕ → List ℕ → Action W (Unit {0})
  unfolding write_words write_rest
  write_bytes pid addr buf = do
    let num_words = length buf / 8
    let remainder = length buf % 8
    write_words pid addr buf num_words 0
    if nat_eq remainder 0 then pure tt else write_rest pid addr buf (num_words * 8) remainder

  unfoldable pub write_sockaddr : ℕ → ℕ → SocketAddr → Action W (Unit {0})
  unfolding write_bytes sockaddr_bytes
  write_sockaddr pid addr sockaddr = write_bytes pid addr (sockaddr_bytes sockaddr)

  unfoldable pub read_u64 : ℕ → ℕ → W → Result Error ℕ
  read_u64 pid addr w =
      Result.◌>>=◌ (map_err memory_read (sys.process_vm_readv pid addr 8 w))
        (λ bytes. ok (from_ne_bytes (filled 8 bytes)))

  unfoldable pub write_u64 : ℕ → ℕ → ℕ → Action W (Unit {0})
  write_u64 pid addr value w =
      let (r, w') = sys.ptrace_write pid addr value w in (map_err Error.ptrace r, w')
