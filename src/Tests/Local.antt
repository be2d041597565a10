-- ===== src/Tests/Local.antt =====
-- `src/proxy/local.rs` after the redirected `connect` of the examples: the connection of the socket
-- 77 arrives from port 40000, and a SOCKS5 server asks for a name and a password.
use proxec.Base.{◌≡◌, refl, none, some, List, [], ◌∷◌, arith}
use proxec.Base.Text.{Text, codes, split_whitespace}
use proxec.Result.{ok}
use proxec.Net.{SocketAddr, IpAddr}
use proxec.Word.{as_i32}
use proxec.Os.{Os}
use proxec.Socket.{
  new, read_socket_inode, get_by_inode, is_stream_socket_fd, resolve_tgid, probe_socket_is_stream,
}
use proxec.Socket.Stream.{group_of}
use proxec.NoProxy.{should_bypass}
use proxec.Base.HashMap
use proxec.Base.HashSet
use proxec.Tracer.Memory.{read_sockaddr}
use proxec.Tracer.Connect.Plan.{plan, divert}
use proxec.Socket.ConnTable.{find_inode_by_conn, find_pid_fd_by_inode}
use proxec.Socket.ConnTable.Rows.{
  Entry, IsEntry, columns, first_inode, find_inode_by_conn-first_inode,
}
use proxec.Socket.ConnTable.Pattern.{shown_addr}
use proxec.Tracer.Connect.{handle_connect_enter}
use proxec.Proxy.Config.{ProxyConfig, ProxyProtocol}
use proxec.Proxy.Local.{View}
use proxec.Proxy.Relay.{Copy, Direction, client_to_proxy, proxy_to_client, pending}
use proxec.Tests.Kernel.{Bytes, kernel, tcp_row}
use proxec.Tests.Memory.{web, at_start}
use proxec.Tests.Connect.{cfg, connect_regs, start}
use proxec.Tests.Network.{Exchange}
use proxec.Tests.Proxy.{proxy_addr, auth}

abbrev pub client : SocketAddr
client = SocketAddr.v4 0x7f000001 40000

abbrev pub upstream : ProxyConfig
upstream = record { protocol = ProxyProtocol.socks5; addr = proxy_addr; auth = auth }

abbrev pub view : View Bytes
view = record {
  searched = at_start web;
  tracker = (handle_connect_enter kernel cfg 10 connect_regs (start web)).1.tracker;
  held = at_start web;
}

abbrev pub no_text : {A : Type 0} → A → Text
no_text a = []

-- A copy that does nothing.
abbrev idle : Copy Exchange (Unit {0})
idle = record { start = tt; poll = λ reader writer f n. (pending, f, n) }

abbrev polls : List Direction
polls = client_to_proxy ∷ proxy_to_client ∷ []

pub inode_read : read_socket_inode kernel 10 (as_i32 3) (at_start web) ≡ some (codes "77")
unfolding read_socket_inode
inode_read = refl

abbrev entry : Entry
entry = record {
  local_ip = 0x7f000001;
  local_port = 40000;
  remote_ip = 0x7f000001;
  remote_port = 9999;
  inode = codes "77";
  slot = codes "1:";
  middle =
      codes "01"
      ∷ codes "00000000:00000000"
      ∷ codes "00:00000000"
      ∷ codes "00000000"
      ∷ codes "1000"
      ∷ codes "0"
      ∷ [];
  after = codes "1" ∷ [];
}

row_columns : split_whitespace tcp_row ≡ columns entry
unfolding split_whitespace shown_addr
row_columns = refl

entry-IsEntry : IsEntry entry
entry-IsEntry = record {
  local_fits = (omega arith, omega arith);
  remote_fits = (omega arith, omega arith);
  six = refl;
}

find_inode_by_conn-first_inode_example :
    find_inode_by_conn kernel
      (IpAddr.v4 0x7f000001)
      40000
      (IpAddr.v4 0x7f000001)
      9999
      (at_start web)
    ≡ first_inode 0x7f000001 40000 0x7f000001 9999 (entry ∷ [])
find_inode_by_conn-first_inode_example =
    find_inode_by_conn-first_inode 0x7f000001 40000 0x7f000001 9999 (omega arith) (omega arith)
      (omega arith) (omega arith) kernel (at_start web)
      (some (codes "  sl  local_address rem_address")) (some tcp_row ∷ []) (entry ∷ []) refl
      (row_columns, entry-IsEntry, tt)

pub inode_shown :
    find_inode_by_conn kernel
      (IpAddr.v4 0x7f000001)
      40000
      (IpAddr.v4 0x7f000001)
      9999
      (at_start web)
    ≡ some (codes "77")
unfolding find_inode_by_conn
inode_shown = refl

-- The parameters of the HTTP tunnel are not used.
-- The kernel of the examples, but the links of descriptors cannot be read.
abbrev no_links : Os Bytes
no_links = record kernel { fd_link = λ pid fd w. none }

read_no_links : read_sockaddr no_links 10 0x1000 16 (at_start web) ≡ ok web
unfolding read_sockaddr at_start
read_no_links = refl

plan-no_links : plan no_links cfg 10 3 web (start web) ≡ divert
unfolding plan should_bypass is_stream_socket_fd HashSet.contains resolve_tgid HashMap.get
    probe_socket_is_stream
plan-no_links = refl

abbrev view_no_links : View Bytes
view_no_links = record {
  searched = at_start web;
  tracker = (handle_connect_enter no_links cfg 10 connect_regs (start web)).1.tracker;
  held = at_start web;
}

none_by_inode : get_by_inode no_links (codes "77") view_no_links.tracker ≡ none
unfolding handle_connect_enter HashMap.get read_sockaddr at_start should_bypass is_stream_socket_fd
    HashSet.contains resolve_tgid probe_socket_is_stream proxec.Tracer.Memory.write_sockaddr
    read_socket_inode proxec.Socket.insert_dest proxec.Socket.mark_stream_socket_fd HashMap.insert
none_by_inode = refl

owner_found :
    find_pid_fd_by_inode no_links (codes "77") (at_start web)
    ≡ some (group_of no_links 10 (at_start web) new, as_i32 3)
unfolding find_pid_fd_by_inode resolve_tgid HashMap.get proxec.Socket.tgid_or_self
owner_found = refl

shown_no_links :
    find_inode_by_conn no_links
      (IpAddr.v4 0x7f000001)
      40000
      (IpAddr.v4 0x7f000001)
      9999
      (at_start web)
    ≡ some (codes "77")
unfolding find_inode_by_conn
shown_no_links = refl
