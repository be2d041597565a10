-- ===== src/Tests/Memory.antt =====
-- `src/tracer/memory.rs` on a memory with the address 8.8.8.8:443 at 0x1000.
use proxec.Base.{◌-◌, ◌≡◌, refl, get_or, length, arith}
use proxec.Result.{ok}
use proxec.Net.{SocketAddr}
use proxec.Tracer.Memory.{read_sockaddr, write_sockaddr, sockaddr_bytes}
use proxec.Tracer.Memory.Write.{IsMapped, IsWritten}
use proxec.Tracer.Memory.Sockaddr.{write_sockaddr-IsWritten, read_sockaddr_restored}
use proxec.Tests.Kernel.{Bytes, kernel, memory}

abbrev pub web : SocketAddr
web = SocketAddr.v4 0x08080808 443

abbrev pub local_addr : SocketAddr
local_addr = SocketAddr.v4 0x7f000001 9999

abbrev scoped : SocketAddr
scoped = SocketAddr.v6 0xfe800000000000000000000000000001 443 0 2

unfoldable pub at_start : SocketAddr → Bytes
unfolding sockaddr_bytes
at_start s x = get_or (sockaddr_bytes s) (x - 0x1000) 0

pub all-IsMapped : (w : Bytes) → IsMapped kernel 10 memory 0x1000 32 w
all-IsMapped w k h = refl

pub read_web : read_sockaddr kernel 10 0x1000 16 (at_start web) ≡ ok web
unfolding read_sockaddr at_start
read_web = refl

write_sockaddr-IsWritten_example :
    IsWritten kernel 10 memory 0x1000
      (sockaddr_bytes scoped)
      0
      (length (sockaddr_bytes scoped))
      (at_start web)
      (write_sockaddr kernel 10 0x1000 scoped (at_start web))
write_sockaddr-IsWritten_example =
    write_sockaddr-IsWritten kernel 10 memory 0x1000 (omega arith) scoped (at_start web)
      (all-IsMapped (at_start web))

read_sockaddr_restored_example :
    let w1 = (write_sockaddr kernel 10 0x1000 local_addr (at_start web)).1 in
    read_sockaddr kernel 10 0x1000 16 (write_sockaddr kernel 10 0x1000 web w1).1 ≡ ok web
read_sockaddr_restored_example =
    read_sockaddr_restored kernel 10 memory 0x1000 (omega arith) web local_addr 16 (at_start web)
      (all-IsMapped (at_start web)) read_web
