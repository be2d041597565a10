-- ===== src/Tests/Socket.antt =====
-- The tracker of `src/socket/tracker.rs` on a few sockets.
use proxec.Base.{
  ℕ, ◌≡◌, refl, inl, not, ◌&&◌, ◌||◌, none, some, [], if◌then◌else◌, Eq-ℕ, Eq-pair, Eq-text,
  text_eq, pair_eq,
}
use proxec.Base.HashMap
use proxec.Base.HashSet
use proxec.Base.Text.{codes}
use proxec.Net.{SocketAddr}
use proxec.Word.{is_negative}
use proxec.Socket.{
  SocketInfo, SocketTracker, new, is_stream_inet_socket, socket_enter, socket_exit, resolve_tgid,
  close_enter, cleanup_process, cleanup_tgid, get_by_inode, get_by_pid_fd,
}
use proxec.Socket.Stream.{is_odd_inet, group_of, socket_exit-socket_enter}
use proxec.Socket.Lookup.{record_dest, record_dest_lookups, close_enter-record_dest}
use proxec.Socket.Cleanup.{IsForgotten, IsKept, cleanup_process-IsForgotten}
use proxec.Tests.Kernel.{Bytes, kernel}

abbrev pub zeros : Bytes
zeros x = 0

abbrev pub web : SocketInfo
web = record { dest = SocketAddr.v4 0x08080808 443 }

-- Descriptor 3 of the thread 12 of process 10 leads to `web`.
abbrev one_socket : SocketTracker
one_socket = record_dest kernel 12 3 web (codes "77") zeros new

socket_exit-socket_enter_example :
    let t' = socket_exit kernel 12 3 zeros (socket_enter kernel 12 2 1 new) in
    (HashSet.contains (10, 3) t'.stream_fds ≡ (
      not (is_negative 3) && is_odd_inet 2 1 && pair_eq (group_of kernel 12 zeros new, 3) (10, 3)
      || HashSet.contains {K = ℕ × ℕ} (10, 3) []))
    × (HashMap.get 12 t'.pending_socket ≡ none)
socket_exit-socket_enter_example = socket_exit-socket_enter kernel 12 2 1 3 zeros new (10, 3)

record_dest_lookups_example :
    (get_by_inode kernel (codes "77") one_socket ≡ (
      if text_eq (codes "77") (codes "77") then some web else get_by_inode kernel (codes "77") new))
    × (get_by_pid_fd kernel 10 3 one_socket ≡ (
        if pair_eq (group_of kernel 12 zeros new, 3) (10, 3)
        then some web
        else get_by_pid_fd kernel 10 3 new))
record_dest_lookups_example =
    record_dest_lookups kernel 12 3 web (codes "77") zeros new (codes "77") 10 3

close_enter-record_dest_example :
    let t' = close_enter kernel 12 3 (λ x. 1) one_socket in
    (get_by_inode kernel (codes "77") t'
      ≡ (if text_eq (codes "77") (codes "77") then none else get_by_inode kernel (codes "77") new))
    × (get_by_pid_fd kernel 10 3 t' ≡ (
        if pair_eq (group_of kernel 12 zeros new, 3) (10, 3)
        then none
        else get_by_pid_fd kernel 10 3 new))
close_enter-record_dest_example =
    close_enter-record_dest kernel 12 3 web (codes "77") zeros (λ x. 1) new (codes "77") 10 3

cleanup_process-IsForgotten_example :
    let t' = cleanup_process kernel 10 zeros one_socket in
    let tgid = cleanup_tgid kernel 10 zeros one_socket in
    IsForgotten kernel tgid 10 one_socket t' × IsKept kernel tgid 10 one_socket t'
unfolding cleanup_tgid HashMap.get proxec.Socket.bind_inode resolve_tgid proxec.Socket.insert_dest
    HashMap.insert proxec.Socket.tgid_or_self
cleanup_process-IsForgotten_example =
    cleanup_process-IsForgotten kernel 10 zeros one_socket (inl refl)
