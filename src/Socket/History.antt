-- ===== src/Socket/History.antt =====
-- `src/socket/tracker.rs` over time: the calls of its operations in a list, the latest first, and what
-- this list alone says of a descriptor.
pub mod Groups
pub mod Last
pub mod Streams
pub mod Inodes
pub mod Holders
pub mod Found
use proxec.Base.{
  ℕ, ◌≡◌, Bool, true, false, not, ◌&&◌, ◌||◌, Option, none, some, List, [], ◌∷◌, nat_eq,
  if◌then◌else◌, Eq-ℕ, Eq-pair,
}
use proxec.Base.Text.{Text}
use proxec.Word.{is_negative}
use proxec.Os.{Os}
use proxec.Socket.{
  SocketInfo, PendingSocket, SocketTracker, new, insert_dest, bind_inode, close_enter, socket_enter,
  socket_exit, mark_stream_socket_fd, is_stream_socket_fd, cleanup_process, tgid_or_self,
}
use proxec.Socket.Stream.{is_odd_inet}

-- The calls that change the tracker, each with the kernel at its time.
pub data Op (W : Type 0) : Type 0 where
  enter_socket : ℕ → ℕ → ℕ → Op W
  exit_socket mark look close : ℕ → ℕ → W → Op W
  insert : ℕ → ℕ → SocketInfo → W → Op W
  bind : ℕ → ℕ → Text → W → Op W
  cleanup : ℕ → W → Op W

module _ {W : Type 0} where
  -- The thread is in a `socket()` call, of an odd type of an internet family.
  unfoldable pub opens : ℕ → List (Op W) → Bool
  opens tid [] = false
  opens tid (enter_socket pid domain type ∷ earlier) =
      let before = opens tid earlier in if nat_eq pid tid then is_odd_inet domain type else before
  opens tid (exit_socket pid _ _ ∷ earlier) =
      let before = opens tid earlier in if nat_eq pid tid then false else before
  opens tid (cleanup pid _ ∷ earlier) =
      let before = opens tid earlier in if nat_eq pid tid then false else before
  opens tid (insert _ _ _ _ ∷ earlier) = opens tid earlier
  opens tid (close _ _ _ ∷ earlier) = opens tid earlier
  opens tid (mark _ _ _ ∷ earlier) = opens tid earlier
  opens tid (look _ _ _ ∷ earlier) = opens tid earlier
  opens tid (bind _ _ _ _ ∷ earlier) = opens tid earlier

module _ {W : Type 0} (sys : Os W) where
  unfoldable pub apply : Op W → SocketTracker → SocketTracker
  unfolding socket_enter socket_exit mark_stream_socket_fd is_stream_socket_fd close_enter
      insert_dest bind_inode cleanup_process
  apply (enter_socket pid domain type) t = socket_enter sys pid domain type t
  apply (exit_socket tid ret_fd w) t = socket_exit sys tid ret_fd w t
  apply (mark pid fd w) t = mark_stream_socket_fd sys pid fd w t
  apply (look pid fd w) t = (is_stream_socket_fd sys pid fd w t).1
  apply (close pid fd w) t = close_enter sys pid fd w t
  apply (insert pid fd info w) t = insert_dest sys pid fd info w t
  apply (bind pid fd inode w) t = bind_inode sys pid fd inode w t
  apply (cleanup tid w) t = cleanup_process sys tid w t

  -- The tracker after the calls, from `SocketTracker::new`.
  unfoldable pub after : List (Op W) → SocketTracker
  unfolding apply
  after [] = new
  after (op ∷ earlier) = apply op (after earlier)

  -- The thread group of every thread.
  module _ (group : ℕ → ℕ) where
    -- The call is of a thread of the process `p`, for its descriptor `fd`.
    abbrev pub concerns : ℕ → ℕ → ℕ → ℕ → Bool
    concerns p fd tid d = nat_eq (group tid) p && nat_eq d fd

    -- The end of the thread is the end of the process `p`: it is its leader, or procfs no longer
    -- shows the process.
    abbrev pub ends : ℕ → ℕ → W → Bool
    ends p tid w = nat_eq (group tid) p && (nat_eq tid p || not (sys.proc_exists p w))

    -- The destination that was last stored for the descriptor, if it was not closed since, and its
    -- process has not ended.
    unfoldable pub last_dest : ℕ → ℕ → List (Op W) → Option SocketInfo
    last_dest p fd [] = none
    last_dest p fd (insert tid d info w ∷ earlier) =
        let before = last_dest p fd earlier in if concerns p fd tid d then some info else before
    last_dest p fd (close tid d w ∷ earlier) =
        let before = last_dest p fd earlier in if concerns p fd tid d then none else before
    last_dest p fd (cleanup tid w ∷ earlier) =
        let before = last_dest p fd earlier in if ends p tid w then none else before
    last_dest p fd (enter_socket _ _ _ ∷ earlier) = last_dest p fd earlier
    last_dest p fd (exit_socket _ _ _ ∷ earlier) = last_dest p fd earlier
    last_dest p fd (mark _ _ _ ∷ earlier) = last_dest p fd earlier
    last_dest p fd (look _ _ _ ∷ earlier) = last_dest p fd earlier
    last_dest p fd (bind _ _ _ _ ∷ earlier) = last_dest p fd earlier

    -- The descriptor was last seen to be a stream socket, by its `socket()` call or by a probe.
    unfoldable pub last_stream : ℕ → ℕ → List (Op W) → Bool
    unfolding opens
    last_stream p fd [] = false
    last_stream p fd (exit_socket tid ret_fd _ ∷ earlier) =
        concerns p fd tid ret_fd && not (is_negative ret_fd) && opens tid earlier
        || last_stream p fd earlier
    last_stream p fd (mark tid d _ ∷ earlier) = concerns p fd tid d || last_stream p fd earlier
    last_stream p fd (close tid d _ ∷ earlier) =
        not (concerns p fd tid d) && last_stream p fd earlier
    last_stream p fd (cleanup tid w ∷ earlier) = not (ends p tid w) && last_stream p fd earlier
    last_stream p fd (enter_socket _ _ _ ∷ earlier) = last_stream p fd earlier
    last_stream p fd (look _ _ _ ∷ earlier) = last_stream p fd earlier
    last_stream p fd (insert _ _ _ _ ∷ earlier) = last_stream p fd earlier
    last_stream p fd (bind _ _ _ _ ∷ earlier) = last_stream p fd earlier

    -- At the time of the call, the thread's status file names the process that it belongs to.
    abbrev pub IsTold : Op W → Type 0
    IsTold (enter_socket _ _ _) = Unit
    IsTold (exit_socket tid _ w) = tgid_or_self sys tid w ≡ group tid
    IsTold (mark tid _ w) = tgid_or_self sys tid w ≡ group tid
    IsTold (look tid _ w) = tgid_or_self sys tid w ≡ group tid
    IsTold (close tid _ w) = tgid_or_self sys tid w ≡ group tid
    IsTold (insert tid _ _ w) = tgid_or_self sys tid w ≡ group tid
    IsTold (bind tid _ _ w) = tgid_or_self sys tid w ≡ group tid
    IsTold (cleanup tid w) = tgid_or_self sys tid w ≡ group tid
