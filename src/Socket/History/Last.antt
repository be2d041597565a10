-- ===== src/Socket/History/Last.antt =====
-- `src/socket/tracker.rs` over time: the tracker answers what the list of the calls says.
use proxec.Base.{
  ℕ, ◌≡◌, refl, ap, ◌∙◌, not, none, List, [], ◌∷◌, nat_eq, if◌then◌else◌, Eq-ℕ, Eq-pair, Eq-text,
  All, arith,
}
use proxec.Base.HashMap
use proxec.Base.HashMap.{get-insert, get-remove, get-retain}
use proxec.Os.{Os}
use proxec.Socket.{
  SocketTracker, socket_enter, socket_exit, insert_dest, bind_inode, close_enter, close_key,
  mark_stream, mark_stream_socket_fd, is_stream_socket_fd, cleanup_process, cleanup_tgid,
  forget_process, resolve_tgid, get_by_pid_fd,
}
use proxec.Socket.Stream.{group_of}
use proxec.Socket.Lookup.{resolve_tgid-maps}
use proxec.Socket.History.{
  Op, enter_socket, exit_socket, mark, look, close, insert, bind, cleanup, apply, after, IsTold,
  ends, last_dest,
}
use proxec.Socket.History.Groups.{
  IsRight, resolve_tgid-IsRight, cleanup_tgid-IsRight, after-IsRight,
}

module _ {W : Type 0} (sys : Os W) (group : ℕ → ℕ) where
  socket_exit-fd_dest :
      (tid ret_fd : ℕ) (w : W) (t : SocketTracker)
      → (socket_exit sys tid ret_fd w t).fd_dest ≡ t.fd_dest
  unfolding socket_exit resolve_tgid mark_stream
  socket_exit-fd_dest tid ret_fd w t = ground arith

  cleanup_process-fd_dest :
      (p fd tid : ℕ) (w : W) (t : SocketTracker)
      → cleanup_tgid sys tid w t ≡ group tid
      → get_by_pid_fd sys p fd (cleanup_process sys tid w t)
        ≡ (if ends sys group p tid w then none else get_by_pid_fd sys p fd t)
  unfolding cleanup_process forget_process
  cleanup_process-fd_dest p fd tid w t e =
      let g : ℕ = cleanup_tgid sys tid w t in
      let shown : g ≡ p → sys.proc_exists g w ≡ sys.proc_exists p w =
        λ h. ap (λ n. sys.proc_exists n w) h in
      ground (arith, e, shown, get-retain (λ k. not (nat_eq k.0 g)) (p, fd) t.fd_dest)

  -- What one call makes of the destination of a descriptor.
  apply-dest :
      (p fd : ℕ) (op : Op W) (earlier : List (Op W)) (t : SocketTracker)
      → IsTold sys group op
      → IsRight group t.tid_to_tgid
      → get_by_pid_fd sys p fd t ≡ last_dest sys group p fd earlier
      → get_by_pid_fd sys p fd (apply sys op t) ≡ last_dest sys group p fd (op ∷ earlier)
  unfolding apply last_dest insert_dest bind_inode close_enter close_key socket_enter
      mark_stream_socket_fd mark_stream is_stream_socket_fd cleanup_process forget_process
  apply-dest p fd (enter_socket tid domain type) earlier t told h e = e
  apply-dest p fd (exit_socket tid ret_fd w) earlier t told h e =
      ap (λ m. HashMap.get (p, fd) m) (socket_exit-fd_dest tid ret_fd w t) ∙ e
  apply-dest p fd (mark tid d w) earlier t told h e =
      ap (λ m. HashMap.get (p, fd) m) (resolve_tgid-maps sys tid w t).0 ∙ e
  apply-dest p fd (look tid d w) earlier t told h e =
      ap (λ m. HashMap.get (p, fd) m) (resolve_tgid-maps sys tid w t).0 ∙ e
  apply-dest p fd (bind tid d inode w) earlier t told h e =
      ap (λ m. HashMap.get (p, fd) m) (resolve_tgid-maps sys tid w t).0 ∙ e
  apply-dest p fd (insert tid d info w) earlier t told h e = ground (
    arith,
    e,
    (resolve_tgid-IsRight group sys tid w t h told).0,
    (resolve_tgid-maps sys tid w t).0,
    get-insert (p, fd) (group_of sys tid w t, d) info (resolve_tgid sys tid w t).1.fd_dest,
  )
  apply-dest p fd (close tid d w) earlier t told h e = ground (
    arith,
    e,
    (resolve_tgid-IsRight group sys tid w t h told).0,
    (resolve_tgid-maps sys tid w t).0,
    get-remove (p, fd) (group_of sys tid w t, d) (resolve_tgid sys tid w t).1.fd_dest,
  )
  apply-dest p fd (cleanup tid w) earlier t told h e =
      cleanup_process-fd_dest p fd tid w t (cleanup_tgid-IsRight group sys tid w t h told)
      ∙ ap (λ o. if ends sys group p tid w then none else o) e

  -- The tracker's destination of a descriptor is the one that was last stored for it, by a thread of
  -- its process, and neither closed since nor ended with the process: whatever the calls were, of
  -- whatever threads and in whatever order, as long as procfs gives every thread the same process
  -- at all its calls.
  pub after-last_dest :
      (ops : List (Op W)) (p fd : ℕ)
      → All (IsTold sys group) ops
      → get_by_pid_fd sys p fd (after sys ops) ≡ last_dest sys group p fd ops
  unfolding after last_dest HashMap.get
  after-last_dest [] p fd told = refl
  after-last_dest (op ∷ earlier) p fd (now, before) =
      apply-dest p fd op earlier (after sys earlier) now (after-IsRight group sys earlier before)
        (after-last_dest earlier p fd before)
