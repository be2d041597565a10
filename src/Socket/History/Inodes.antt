-- ===== src/Socket/History/Inodes.antt =====
-- `src/socket/tracker.rs` over time: what the list of the calls says of the inodes.
use proxec.Base.{
  ℕ, ◌≡◌, refl, ap, ◌∙◌, Bool, false, not, ◌&&◌, ◌||◌, Option, none, some, List, [], ◌∷◌, nat_eq,
  if◌then◌else◌, Eq-ℕ, Eq-pair, Eq-text, All, text_eq, arith,
}
use proxec.Base.Text.{Text}
use proxec.Base.HashMap
use proxec.Base.HashMap.{get-insert, get-remove, get-retain}
use proxec.Os.{Os}
use proxec.Socket.{
  SocketInfo, SocketTracker, socket_enter, socket_exit, insert_dest, bind_inode, close_enter,
  close_key, mark_stream, mark_stream_socket_fd, is_stream_socket_fd, cleanup_process, cleanup_tgid,
  forget_process, resolve_tgid,
}
use proxec.Socket.Stream.{group_of}
use proxec.Socket.Lookup.{resolve_tgid-maps}
use proxec.Socket.History.{
  Op, enter_socket, exit_socket, mark, look, close, insert, bind, cleanup, apply, after, IsTold,
  concerns, ends, last_dest,
}
use proxec.Socket.History.Groups.{
  IsRight, resolve_tgid-IsRight, cleanup_tgid-IsRight, after-IsRight,
}

-- The descriptors that inodes were ever recorded for.
unfoldable pub bound_fds : {W : Type 0} → List (Op W) → List ℕ
bound_fds [] = []
bound_fds (bind tid d i w ∷ earlier) = d ∷ bound_fds earlier
bound_fds (enter_socket _ _ _ ∷ earlier) = bound_fds earlier
bound_fds (exit_socket _ _ _ ∷ earlier) = bound_fds earlier
bound_fds (mark _ _ _ ∷ earlier) = bound_fds earlier
bound_fds (look _ _ _ ∷ earlier) = bound_fds earlier
bound_fds (close _ _ _ ∷ earlier) = bound_fds earlier
bound_fds (insert _ _ _ _ ∷ earlier) = bound_fds earlier
bound_fds (cleanup _ _ ∷ earlier) = bound_fds earlier

abbrev pub is_inode : Text → Option Text → Bool
is_inode inode none = false
is_inode inode (some i) = text_eq i inode

abbrev pub some_of : (ℕ → Bool) → List ℕ → Bool
some_of p [] = false
some_of p (d ∷ ds) = p d || some_of p ds

module _ {W : Type 0} (sys : Os W) (group : ℕ → ℕ) where
  -- The inode that was last recorded for the descriptor, if it was not closed since, and its process
  -- has not ended.
  unfoldable pub last_inode : ℕ → ℕ → List (Op W) → Option Text
  last_inode p fd [] = none
  last_inode p fd (bind tid d i w ∷ earlier) =
      let before = last_inode p fd earlier in
      if concerns sys group p fd tid d then some i else before
  last_inode p fd (close tid d w ∷ earlier) =
      let before = last_inode p fd earlier in if concerns sys group p fd tid d then none else before
  last_inode p fd (cleanup tid w ∷ earlier) =
      let before = last_inode p fd earlier in if ends sys group p tid w then none else before
  last_inode p fd (enter_socket _ _ _ ∷ earlier) = last_inode p fd earlier
  last_inode p fd (exit_socket _ _ _ ∷ earlier) = last_inode p fd earlier
  last_inode p fd (mark _ _ _ ∷ earlier) = last_inode p fd earlier
  last_inode p fd (look _ _ _ ∷ earlier) = last_inode p fd earlier
  last_inode p fd (insert _ _ _ _ ∷ earlier) = last_inode p fd earlier

  -- The inode is recorded for some descriptor of the process.
  abbrev pub holds : ℕ → Text → List (Op W) → Bool
  holds p inode ops = some_of (λ fd. is_inode inode (last_inode p fd ops)) (bound_fds ops)

  -- The destination by inode: that of the descriptor which the inode was last recorded for and which
  -- had one then, if no descriptor with the inode was closed since, and no process that has it ended.
  unfoldable pub last_by_inode : Text → List (Op W) → Option SocketInfo
  unfolding last_inode last_dest bound_fds
  last_by_inode inode [] = none
  last_by_inode inode (bind tid d i w ∷ earlier) =
      let before = last_by_inode inode earlier in
      if text_eq i inode
      then elim (last_dest sys group (group tid) d earlier) [
        | none ↦ before
        | some info ↦ some info
      ]
      else before
  last_by_inode inode (close tid d w ∷ earlier) =
      let before = last_by_inode inode earlier in
      if is_inode inode (last_inode (group tid) d earlier) then none else before
  last_by_inode inode (cleanup tid w ∷ earlier) =
      let before = last_by_inode inode earlier in
      if ends sys group (group tid) tid w && holds (group tid) inode earlier then none else before
  last_by_inode inode (enter_socket _ _ _ ∷ earlier) = last_by_inode inode earlier
  last_by_inode inode (exit_socket _ _ _ ∷ earlier) = last_by_inode inode earlier
  last_by_inode inode (mark _ _ _ ∷ earlier) = last_by_inode inode earlier
  last_by_inode inode (look _ _ _ ∷ earlier) = last_by_inode inode earlier
  last_by_inode inode (insert _ _ _ _ ∷ earlier) = last_by_inode inode earlier

  pub socket_exit-fd_inode :
      (tid ret_fd : ℕ) (w : W) (t : SocketTracker)
      → (socket_exit sys tid ret_fd w t).fd_inode ≡ t.fd_inode
  unfolding socket_exit resolve_tgid mark_stream
  socket_exit-fd_inode tid ret_fd w t = ground arith

  cleanup_process-fd_inode :
      (p fd tid : ℕ) (w : W) (t : SocketTracker)
      → cleanup_tgid sys tid w t ≡ group tid
      → HashMap.get (p, fd) (cleanup_process sys tid w t).fd_inode
        ≡ (if ends sys group p tid w then none else HashMap.get (p, fd) t.fd_inode)
  unfolding cleanup_process forget_process
  cleanup_process-fd_inode p fd tid w t e =
      let g : ℕ = cleanup_tgid sys tid w t in
      let shown : g ≡ p → sys.proc_exists g w ≡ sys.proc_exists p w =
        λ h. ap (λ n. sys.proc_exists n w) h in
      ground (arith, e, shown, get-retain (λ k. not (nat_eq k.0 g)) (p, fd) t.fd_inode)

  -- What one call makes of the inode of a descriptor.
  apply-inode :
      (p fd : ℕ) (op : Op W) (earlier : List (Op W)) (t : SocketTracker)
      → IsTold sys group op
      → IsRight group t.tid_to_tgid
      → HashMap.get (p, fd) t.fd_inode ≡ last_inode p fd earlier
      → HashMap.get (p, fd) (apply sys op t).fd_inode ≡ last_inode p fd (op ∷ earlier)
  unfolding apply last_inode insert_dest bind_inode close_enter close_key socket_enter
      mark_stream_socket_fd mark_stream is_stream_socket_fd cleanup_process
  apply-inode p fd (enter_socket tid domain type) earlier t told h e = e
  apply-inode p fd (exit_socket tid ret_fd w) earlier t told h e =
      ap (λ m. HashMap.get (p, fd) m) (socket_exit-fd_inode tid ret_fd w t) ∙ e
  apply-inode p fd (mark tid d w) earlier t told h e =
      ap (λ m. HashMap.get (p, fd) m) (resolve_tgid-maps sys tid w t).2 ∙ e
  apply-inode p fd (look tid d w) earlier t told h e =
      ap (λ m. HashMap.get (p, fd) m) (resolve_tgid-maps sys tid w t).2 ∙ e
  apply-inode p fd (insert tid d info w) earlier t told h e =
      ap (λ m. HashMap.get (p, fd) m) (resolve_tgid-maps sys tid w t).2 ∙ e
  apply-inode p fd (bind tid d i w) earlier t told h e = ground (
    arith,
    e,
    (resolve_tgid-IsRight group sys tid w t h told).0,
    (resolve_tgid-maps sys tid w t).2,
    get-insert (p, fd) (group_of sys tid w t, d) i (resolve_tgid sys tid w t).1.fd_inode,
  )
  apply-inode p fd (close tid d w) earlier t told h e = ground (
    arith,
    e,
    (resolve_tgid-IsRight group sys tid w t h told).0,
    (resolve_tgid-maps sys tid w t).2,
    get-remove (p, fd) (group_of sys tid w t, d) (resolve_tgid sys tid w t).1.fd_inode,
  )
  apply-inode p fd (cleanup tid w) earlier t told h e =
      cleanup_process-fd_inode p fd tid w t (cleanup_tgid-IsRight group sys tid w t h told)
      ∙ ap (λ o. if ends sys group p tid w then none else o) e

  pub after-last_inode :
      (ops : List (Op W)) (p fd : ℕ)
      → All (IsTold sys group) ops
      → HashMap.get (p, fd) (after sys ops).fd_inode ≡ last_inode p fd ops
  unfolding after last_inode HashMap.get
  after-last_inode [] p fd told = refl
  after-last_inode (op ∷ earlier) p fd (now, before) =
      apply-inode p fd op earlier (after sys earlier) now (after-IsRight group sys earlier before)
        (after-last_inode earlier p fd before)
