-- ===== src/Socket/History/Streams.antt =====
-- `src/socket/tracker.rs` over time: the descriptors that the tracker takes for stream sockets.
use proxec.Base.{
  ℕ, ◌≡◌, refl, ap, ◌∙◌, Bool, false, not, ◌&&◌, ◌||◌, Option, none, some, List, [], ◌∷◌, nat_eq,
  if◌then◌else◌, Eq-ℕ, Eq-pair, Eq-text, All, Option-cases, inl, inr, arith,
}
use proxec.Base.HashMap
use proxec.Base.HashMap.{get-insert, get-remove}
use proxec.Base.HashSet
use proxec.Base.HashSet.{contains-insert, contains-remove, contains-retain}
use proxec.Word.{is_negative}
use proxec.Os.{Os}
use proxec.Socket.{
  PendingSocket, SocketTracker, socket_enter, socket_exit, insert_dest, bind_inode, close_enter,
  close_key, mark_stream, mark_stream_socket_fd, is_stream_socket_fd, cleanup_process, cleanup_tgid,
  forget_process, resolve_tgid,
}
use proxec.Socket.Stream.{
  group_of, is_odd_inet, is_stream_inet_socket-is_odd_inet, resolve_tgid-pending_socket,
}
use proxec.Socket.Lookup.{resolve_tgid-maps}
use proxec.Socket.History.{
  Op, enter_socket, exit_socket, mark, look, close, insert, bind, cleanup, apply, after, IsTold,
  concerns, ends, opens, last_stream,
}
use proxec.Socket.History.Groups.{
  IsRight, resolve_tgid-IsRight, cleanup_tgid-IsRight, after-IsRight,
}

abbrev odd_inet : Option PendingSocket → Bool
odd_inet none = false
odd_inet (some pending) = is_odd_inet pending.domain pending.sock_type

module _ {W : Type 0} (sys : Os W) (group : ℕ → ℕ) where
  -- What the tracker has of a call of the thread.
  abbrev opening : ℕ → SocketTracker → Bool
  opening tid t = odd_inet (HashMap.get tid t.pending_socket)

  socket_exit-pending_socket :
      (tid ret_fd : ℕ) (w : W) (t : SocketTracker)
      → (socket_exit sys tid ret_fd w t).pending_socket ≡ HashMap.remove tid t.pending_socket
  unfolding socket_exit resolve_tgid mark_stream
  socket_exit-pending_socket tid ret_fd w t = ground arith

  cleanup_process-pending_socket :
      (tid : ℕ) (w : W) (t : SocketTracker)
      → (cleanup_process sys tid w t).pending_socket ≡ HashMap.remove tid t.pending_socket
  unfolding cleanup_process forget_process
  cleanup_process-pending_socket tid w t = ground arith

  opening-remove :
      (j tid : ℕ) (t t' : SocketTracker)
      → t'.pending_socket ≡ HashMap.remove tid t.pending_socket
      → opening j t' ≡ (if nat_eq tid j then false else opening j t)
  opening-remove j tid t t' e = ground (arith, e, get-remove j tid t.pending_socket)

  apply-opening :
      (j : ℕ) (op : Op W) (earlier : List (Op W)) (t : SocketTracker)
      → opening j t ≡ opens j earlier
      → opening j (apply sys op t) ≡ opens j (op ∷ earlier)
  unfolding apply opens insert_dest bind_inode close_enter close_key socket_enter
      mark_stream_socket_fd mark_stream is_stream_socket_fd
  apply-opening j (enter_socket tid domain type) earlier t e =
      ground
        (arith, e, get-insert j tid (record { domain = domain; sock_type = type }) t.pending_socket)
  apply-opening j (exit_socket tid ret_fd w) earlier t e =
      opening-remove j tid t (socket_exit sys tid ret_fd w t)
        (socket_exit-pending_socket tid ret_fd w t)
      ∙ ap (λ b. if nat_eq tid j then false else b) e
  apply-opening j (cleanup tid w) earlier t e =
      opening-remove j tid t (cleanup_process sys tid w t) (cleanup_process-pending_socket tid w t)
      ∙ ap (λ b. if nat_eq tid j then false else b) e
  apply-opening j (mark tid d w) earlier t e =
      ap (λ m. odd_inet (HashMap.get j m)) (resolve_tgid-pending_socket sys tid w t) ∙ e
  apply-opening j (look tid d w) earlier t e =
      ap (λ m. odd_inet (HashMap.get j m)) (resolve_tgid-pending_socket sys tid w t) ∙ e
  apply-opening j (close tid d w) earlier t e =
      ap (λ m. odd_inet (HashMap.get j m)) (resolve_tgid-pending_socket sys tid w t) ∙ e
  apply-opening j (insert tid d info w) earlier t e =
      ap (λ m. odd_inet (HashMap.get j m)) (resolve_tgid-pending_socket sys tid w t) ∙ e
  apply-opening j (bind tid d inode w) earlier t e =
      ap (λ m. odd_inet (HashMap.get j m)) (resolve_tgid-pending_socket sys tid w t) ∙ e

  after-opens : (ops : List (Op W)) (tid : ℕ) → opening tid (after sys ops) ≡ opens tid ops
  unfolding after opens HashMap.get
  after-opens [] tid = refl
  after-opens (op ∷ earlier) tid =
      apply-opening tid op earlier (after sys earlier) (after-opens earlier tid)

  abbrev has_stream : ℕ → ℕ → SocketTracker → Bool
  has_stream p fd t = HashSet.contains (p, fd) t.stream_fds

  socket_exit-stream_fds :
      (p fd tid ret_fd : ℕ) (w : W) (t : SocketTracker)
      → group_of sys tid w t ≡ group tid
      → has_stream p fd (socket_exit sys tid ret_fd w t) ≡ (
          concerns sys group p fd tid ret_fd && not (is_negative ret_fd) && opening tid t
          || has_stream p fd t)
  unfolding socket_exit resolve_tgid mark_stream
  socket_exit-stream_fds p fd tid ret_fd w t e =
      elim (Option-cases (HashMap.get tid t.pending_socket)) [
        | inl absent ↦ ground (arith, absent)
        | inr (pending, found) ↦ ground (
          arith,
          found,
          e,
          contains-insert (p, fd) (group_of sys tid w t, ret_fd) t.stream_fds,
          is_stream_inet_socket-is_odd_inet pending.domain pending.sock_type,
        )
      ]

  cleanup_process-stream_fds :
      (p fd tid : ℕ) (w : W) (t : SocketTracker)
      → cleanup_tgid sys tid w t ≡ group tid
      → has_stream p fd (cleanup_process sys tid w t)
        ≡ (not (ends sys group p tid w) && has_stream p fd t)
  unfolding cleanup_process forget_process
  cleanup_process-stream_fds p fd tid w t e =
      let g : ℕ = cleanup_tgid sys tid w t in
      let shown : g ≡ p → sys.proc_exists g w ≡ sys.proc_exists p w =
        λ h. ap (λ n. sys.proc_exists n w) h in
      ground (arith, e, shown, contains-retain (λ k. not (nat_eq k.0 g)) (p, fd) t.stream_fds)

  -- What one call makes of a descriptor.
  apply-stream :
      (p fd : ℕ) (op : Op W) (earlier : List (Op W)) (t : SocketTracker)
      → IsTold sys group op
      → IsRight group t.tid_to_tgid
      → ((j : ℕ) → opening j t ≡ opens j earlier)
      → has_stream p fd t ≡ last_stream sys group p fd earlier
      → has_stream p fd (apply sys op t) ≡ last_stream sys group p fd (op ∷ earlier)
  unfolding apply last_stream insert_dest bind_inode close_enter close_key socket_enter
      mark_stream_socket_fd mark_stream is_stream_socket_fd
  apply-stream p fd (enter_socket tid domain type) earlier t told h o e = e
  apply-stream p fd (exit_socket tid ret_fd w) earlier t told h o e =
      let same = resolve_tgid-IsRight group sys tid w t h told in
      ground (arith, socket_exit-stream_fds p fd tid ret_fd w t same.0, e, o tid)
  apply-stream p fd (mark tid d w) earlier t told h o e = ground (
    arith,
    e,
    (resolve_tgid-IsRight group sys tid w t h told).0,
    (resolve_tgid-maps sys tid w t).3,
    contains-insert (p, fd) (group_of sys tid w t, d) (resolve_tgid sys tid w t).1.stream_fds,
  )
  apply-stream p fd (close tid d w) earlier t told h o e = ground (
    arith,
    e,
    (resolve_tgid-IsRight group sys tid w t h told).0,
    (resolve_tgid-maps sys tid w t).3,
    contains-remove (p, fd) (group_of sys tid w t, d) (resolve_tgid sys tid w t).1.stream_fds,
  )
  apply-stream p fd (cleanup tid w) earlier t told h o e =
      cleanup_process-stream_fds p fd tid w t (cleanup_tgid-IsRight group sys tid w t h told)
      ∙ ap (λ b. not (ends sys group p tid w) && b) e
  apply-stream p fd (look tid d w) earlier t told h o e =
      ap (λ s. HashSet.contains (p, fd) s) (resolve_tgid-maps sys tid w t).3 ∙ e
  apply-stream p fd (insert tid d info w) earlier t told h o e =
      ap (λ s. HashSet.contains (p, fd) s) (resolve_tgid-maps sys tid w t).3 ∙ e
  apply-stream p fd (bind tid d inode w) earlier t told h o e =
      ap (λ s. HashSet.contains (p, fd) s) (resolve_tgid-maps sys tid w t).3 ∙ e

  -- The tracker has a descriptor among the stream sockets exactly if it was last seen as one: the
  -- result of a `socket()` call that succeeded, of its latest entry's family and type, IPv4 or IPv6
  -- and an odd one, or marked after a probe; and neither closed since nor ended with its process.
  -- This is whatever the calls were, of whatever threads and in whatever order, as long as procfs
  -- gives every thread the same process at all its calls.
  pub after-last_stream :
      (ops : List (Op W)) (p fd : ℕ)
      → All (IsTold sys group) ops
      → has_stream p fd (after sys ops) ≡ last_stream sys group p fd ops
  unfolding after last_stream HashSet.contains
  after-last_stream [] p fd told = refl
  after-last_stream (op ∷ earlier) p fd (now, before) =
      apply-stream p fd op earlier (after sys earlier) now (after-IsRight group sys earlier before)
        (after-opens earlier) (after-last_stream earlier p fd before)
