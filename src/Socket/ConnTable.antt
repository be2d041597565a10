-- ===== src/Socket/ConnTable.antt =====
-- `find_inode_by_conn` and `find_pid_fd_by_inode` of `src/socket/tracker.rs`: the socket behind a
-- connection, in the kernel's table of TCP sockets, and the descriptor behind a socket.
pub mod Rows
pub mod Pattern
use proxec.Base.{
  ℕ, zero, suc, ◌+◌, ◌-◌, ◌/◌, ◌%◌, Bool, true, false, not, ◌&&◌, Option, none, some, List, [], ◌∷◌,
  ◌++◌, ltb, leb, if◌then◌else◌, length, get_or, drop, text_eq,
}
use proxec.Base.Bytes.{be_bytes}
use proxec.Base.Text.{Text, codes, split_whitespace}
use proxec.Net.{IpAddr}
use proxec.Os.{Os}
use proxec.Socket.{parse_i32}

abbrev pub upper_hex_digit : ℕ → ℕ
upper_hex_digit n = if ltb n 10 then b'0' + n else b'A' + (n - 10)

-- The last `w` hexadecimal digits of a number: `{:02X}` of a byte and `{:04X}` of a port have no
-- others.
abbrev pub upper_hex : ℕ → ℕ → Text
upper_hex zero n = []
upper_hex (suc w) n = upper_hex w (n / 16) ++ upper_hex_digit (n % 16) ∷ []

-- The octets from the last to the first, and the port.
unfoldable pub addr_pattern : ℕ → ℕ → Text
addr_pattern ip port =
    let octets = be_bytes 4 ip in
    upper_hex 2 (get_or octets 3 0)
    ++ upper_hex 2 (get_or octets 2 0)
    ++ upper_hex 2 (get_or octets 1 0)
    ++ upper_hex 2 (get_or octets 0 0)
    ++ b':' ∷ upper_hex 4 port

-- The test of one line, by its words.
abbrev pub is_match : Text → Text → List Text → Bool
is_match local_pattern remote_pattern parts =
    text_eq (get_or parts 1 []) local_pattern
    && text_eq (get_or parts 2 []) remote_pattern
    && not (text_eq (get_or parts 9 []) (codes "0"))

unfoldable pub find_in_lines : Text → Text → List (Option Text) → Option Text
unfolding split_whitespace
find_in_lines local_pattern remote_pattern [] = none
find_in_lines local_pattern remote_pattern (none ∷ rest) = none
find_in_lines local_pattern remote_pattern (some line ∷ rest) =
    let later = find_in_lines local_pattern remote_pattern rest in
    let parts = split_whitespace line in
    if ltb (length parts) 10
    then later
    else if is_match local_pattern remote_pattern parts
    then some (get_or parts 9 [])
    else later

-- The first descriptor of a process that is a link to the socket and whose name is a number.
unfoldable pub find_fd : Text → List (Text × Option Text) → Option ℕ
unfolding parse_i32
find_fd search [] = none
find_fd search ((name, none) ∷ rest) = find_fd search rest
find_fd search ((name, some link) ∷ rest) =
    let later = find_fd search rest in
    if text_eq link search
    then elim (parse_i32 name) [ some fd ↦ some fd | none ↦ later ]
    else later

abbrev pub all_digits : Text → Bool
all_digits [] = true
all_digits (c ∷ s) = leb b'0' c && leb c b'9' && all_digits s

module _ {W : Type 0} (sys : Os W) where
  unfoldable pub find_inode_by_conn : IpAddr → ℕ → IpAddr → ℕ → W → Option Text
  unfolding addr_pattern find_in_lines
  find_inode_by_conn (IpAddr.v4 local_ip) local_port (IpAddr.v4 remote_ip) remote_port w =
      elim (sys.net_tcp w) [
        | none ↦ none
        | some rows ↦
            find_in_lines (addr_pattern local_ip local_port) (addr_pattern remote_ip remote_port)
              (drop 1 rows)
      ]
  find_inode_by_conn (IpAddr.v4 _) local_port (IpAddr.v6 _) remote_port w = none
  find_inode_by_conn (IpAddr.v6 _) local_port _ remote_port w = none

  -- The processes in the order of `/proc`; a name that cannot be read ends the search.
  unfoldable pub find_in_processes : Text → List (Option Text) → W → Option (ℕ × ℕ)
  unfolding find_fd parse_i32
  find_in_processes search [] w = none
  find_in_processes search (none ∷ rest) w = none
  find_in_processes search (some name ∷ rest) w =
      let later = find_in_processes search rest w in
      if all_digits name
      then elim (parse_i32 name) [
        | none ↦ later
        | some pid ↦ elim (sys.fd_entries pid w) [
          | none ↦ later
          | some fds ↦ elim (find_fd search fds) [ some fd ↦ some (pid, fd) | none ↦ later ]
        ]
      ]
      else later

  unfoldable pub find_pid_fd_by_inode : Text → W → Option (ℕ × ℕ)
  unfolding find_in_processes
  find_pid_fd_by_inode inode w = elim (sys.proc_entries w) [
    | none ↦ none
    | some names ↦ find_in_processes (codes "socket:[" ++ inode ++ codes "]") names w
  ]
