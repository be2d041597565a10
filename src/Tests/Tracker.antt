-- ===== src/Tests/Tracker.antt =====
-- A few calls of `src/socket/tracker.rs` by the threads 12 and 13 of process 10.
use proxec.Base.{ℕ, ◌≡◌, refl, List, [], ◌∷◌, true, none, some, Eq-ℕ, Eq-pair, All}
use proxec.Base.HashSet
use proxec.Socket.{get_by_pid_fd, get_by_inode, tgid_or_self}
use proxec.Socket.History.{
  Op, enter_socket, exit_socket, close, insert, bind, cleanup, after, IsTold, last_dest,
  last_stream,
}
use proxec.Socket.History.Last.{after-last_dest}
use proxec.Socket.History.Streams.{after-last_stream}
use proxec.Base.Text.{codes}
use proxec.Socket.History.Inodes.{last_by_inode}
use proxec.Socket.History.Found.{after-last_by_inode}
use proxec.Tests.Kernel.{Bytes, kernel}
use proxec.Tests.Socket.{zeros, web}

abbrev group : ℕ → ℕ
group tid = 10

-- A socket that is opened, redirected and bound to its inode, while another descriptor is closed and another thread ends.
abbrev calls : List (Op Bytes)
calls =
    cleanup 13 zeros
    ∷ close 12 4 zeros
    ∷ bind 12 3 (codes "77") zeros
    ∷ insert 12 3 web zeros
    ∷ exit_socket 12 3 zeros
    ∷ enter_socket 12 2 1
    ∷ []

told : tgid_or_self kernel 12 zeros ≡ 10
unfolding tgid_or_self
told = refl

other_told : tgid_or_self kernel 13 zeros ≡ 10
unfolding tgid_or_self
other_told = refl

calls-IsTold : All (IsTold kernel group) calls
calls-IsTold = (other_told, (told, (told, (told, (told, (tt, tt))))))

after-last_dest_example :
    get_by_pid_fd kernel 10 3 (after kernel calls) ≡ last_dest kernel group 10 3 calls
after-last_dest_example = after-last_dest kernel group calls 10 3 calls-IsTold

after-last_stream_example :
    HashSet.contains (10, 3) (after kernel calls).stream_fds ≡ last_stream kernel group 10 3 calls
after-last_stream_example = after-last_stream kernel group calls 10 3 calls-IsTold

after-last_by_inode_example :
    get_by_inode kernel (codes "77") (after kernel calls)
    ≡ last_by_inode kernel group (codes "77") calls
after-last_by_inode_example = after-last_by_inode kernel group calls (codes "77") calls-IsTold

-- What the calls say of the descriptor and of its inode.
calls_run :
    (last_dest kernel group 10 3 calls ≡ some web)
    × (last_stream kernel group 10 3 calls ≡ true)
    × (last_dest kernel group 10 4 calls ≡ none)
    × (last_by_inode kernel group (codes "77") calls ≡ some web)
    × (last_by_inode kernel group (codes "77") (close 13 3 zeros ∷ calls) ≡ none)
unfolding last_dest last_stream last_by_inode
calls_run = (refl, refl, refl, refl, refl)
