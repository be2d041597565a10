-- ===== src/Socket/History/Found.antt =====
-- `src/socket/tracker.rs` over time: what the local proxy finds by an inode.
use proxec.Base.{
  ℕ, ◌≡◌, refl, ap, ◌∙◌, ◌&&◌, Option, none, some, List, [], ◌∷◌, if◌then◌else◌, Eq-ℕ, Eq-pair,
  Eq-text, All, text_eq, arith,
}
use proxec.Base.Text.{Text}
use proxec.Base.HashMap
use proxec.Base.HashMap.{HashMap, get-insert, get-remove}
use proxec.Os.{Os}
use proxec.Socket.{
  SocketInfo, SocketTracker, socket_enter, socket_exit, insert_dest, bind_inode, close_enter,
  close_key, mark_stream, mark_stream_socket_fd, is_stream_socket_fd, cleanup_process, cleanup_tgid,
  forget_process, resolve_tgid, get_by_inode, get_by_pid_fd,
}
use proxec.Socket.Stream.{group_of}
use proxec.Socket.Lookup.{resolve_tgid-maps}
use proxec.Socket.Cleanup.{binds, get-drop_inodes}
use proxec.Socket.History.{
  Op, enter_socket, exit_socket, mark, look, close, insert, bind, cleanup, apply, after, IsTold,
  ends, last_dest,
}
use proxec.Socket.History.Groups.{
  IsRight, resolve_tgid-IsRight, cleanup_tgid-IsRight, after-IsRight,
}
use proxec.Socket.History.Last.{after-last_dest}
use proxec.Socket.History.Inodes.{is_inode, last_inode, holds, last_by_inode, after-last_inode}
use proxec.Socket.History.Holders.{after-holds}

module _ {W : Type 0} (sys : Os W) (group : ℕ → ℕ) where
  socket_exit-inode_dest :
      (tid ret_fd : ℕ) (w : W) (t : SocketTracker)
      → (socket_exit sys tid ret_fd w t).inode_dest ≡ t.inode_dest
  unfolding socket_exit resolve_tgid mark_stream
  socket_exit-inode_dest tid ret_fd w t = ground arith

  cleanup_process-inode_dest :
      (inode : Text) (tid : ℕ) (w : W) (t : SocketTracker)
      → cleanup_tgid sys tid w t ≡ group tid
      → get_by_inode sys inode (cleanup_process sys tid w t) ≡ (
          if ends sys group (group tid) tid w && binds (group tid) inode t.fd_inode
          then none
          else get_by_inode sys inode t)
  unfolding cleanup_process forget_process
  cleanup_process-inode_dest inode tid w t e =
      rw e (ground (arith, get-drop_inodes sys (group tid) inode t.fd_inode t.inode_dest))

  close_key-inode_dest :
      (inode : Text) (key : ℕ × ℕ) (t : SocketTracker)
      → get_by_inode sys inode (close_key sys key t)
        ≡ (if is_inode inode (HashMap.get key t.fd_inode) then none else get_by_inode sys inode t)
  unfolding close_key
  close_key-inode_dest inode key t = by_inode (HashMap.get key t.fd_inode)
    where
      by_inode :
          (found : Option Text)
          → HashMap.get inode
              (elim found [ none ↦ t.inode_dest | some i ↦ HashMap.remove i t.inode_dest ])
            ≡ (if is_inode inode found then none else HashMap.get inode t.inode_dest)
      by_inode none = refl
      by_inode (some i) = get-remove inode i t.inode_dest

  bound-inode_dest :
      (inode i : Text) (found : Option SocketInfo) (m : HashMap Text SocketInfo)
      → HashMap.get inode (elim found [ none ↦ m | some info ↦ HashMap.insert i info m ]) ≡ (
          if text_eq i inode
          then elim found [ none ↦ HashMap.get inode m | some info ↦ some info ]
          else HashMap.get inode m)
  bound-inode_dest inode i none m = ground arith
  bound-inode_dest inode i (some info) m = get-insert inode i info m

  -- What one call makes of the destination of an inode.
  apply-by_inode :
      (inode : Text) (op : Op W) (earlier : List (Op W)) (t : SocketTracker)
      → IsTold sys group op
      → IsRight group t.tid_to_tgid
      → ((p fd : ℕ) → get_by_pid_fd sys p fd t ≡ last_dest sys group p fd earlier)
      → ((p fd : ℕ) → HashMap.get (p, fd) t.fd_inode ≡ last_inode sys group p fd earlier)
      → ((p : ℕ) → binds p inode t.fd_inode ≡ holds sys group p inode earlier)
      → get_by_inode sys inode t ≡ last_by_inode sys group inode earlier
      → get_by_inode sys inode (apply sys op t) ≡ last_by_inode sys group inode (op ∷ earlier)
  unfolding apply last_by_inode insert_dest bind_inode close_enter close_key socket_enter
      mark_stream_socket_fd mark_stream is_stream_socket_fd
  apply-by_inode inode (enter_socket tid domain type) earlier t told h a b c e = e
  apply-by_inode inode (exit_socket tid ret_fd w) earlier t told h a b c e =
      ap (λ m. HashMap.get inode m) (socket_exit-inode_dest tid ret_fd w t) ∙ e
  apply-by_inode inode (mark tid d w) earlier t told h a b c e =
      ap (λ m. HashMap.get inode m) (resolve_tgid-maps sys tid w t).1 ∙ e
  apply-by_inode inode (look tid d w) earlier t told h a b c e =
      ap (λ m. HashMap.get inode m) (resolve_tgid-maps sys tid w t).1 ∙ e
  apply-by_inode inode (insert tid d info w) earlier t told h a b c e =
      ap (λ m. HashMap.get inode m) (resolve_tgid-maps sys tid w t).1 ∙ e
  apply-by_inode inode (bind tid d i w) earlier t told h a b c e =
      let same = resolve_tgid-maps sys tid w t in
      let right = (resolve_tgid-IsRight group sys tid w t h told).0 in
      let t1 : SocketTracker = (resolve_tgid sys tid w t).1 in
      let stored : HashMap.get (group_of sys tid w t, d) t1.fd_dest
          ≡ last_dest sys group (group tid) d earlier =
        ap (λ g. HashMap.get (g, d) t1.fd_dest) right
        ∙ ap (λ m. HashMap.get (group tid, d) m) same.0
        ∙ a (group tid) d in
      let found : get_by_inode sys inode t1 ≡ last_by_inode sys group inode earlier =
        ap (λ m. HashMap.get inode m) same.1 ∙ e in
      bound-inode_dest inode i (HashMap.get (group_of sys tid w t, d) t1.fd_dest) t1.inode_dest
      ∙ ap
          (λ (o : Option SocketInfo × Option SocketInfo).
            if text_eq i inode then elim o.0 [ none ↦ o.1 | some info ↦ some info ] else o.1)
          (ap (λ x. (x, get_by_inode sys inode t1)) stored
            ∙ ap (λ y. (last_dest sys group (group tid) d earlier, y)) found)
  apply-by_inode inode (close tid d w) earlier t told h a b c e =
      let same = resolve_tgid-maps sys tid w t in
      let right = (resolve_tgid-IsRight group sys tid w t h told).0 in
      let t1 : SocketTracker = (resolve_tgid sys tid w t).1 in
      let bound : HashMap.get (group_of sys tid w t, d) t1.fd_inode
          ≡ last_inode sys group (group tid) d earlier =
        ap (λ g. HashMap.get (g, d) t1.fd_inode) right
        ∙ ap (λ m. HashMap.get (group tid, d) m) same.2
        ∙ b (group tid) d in
      let found : get_by_inode sys inode t1 ≡ last_by_inode sys group inode earlier =
        ap (λ m. HashMap.get inode m) same.1 ∙ e in
      close_key-inode_dest inode (group_of sys tid w t, d) t1
      ∙ ap (λ o. if is_inode inode o then none else get_by_inode sys inode t1) bound
      ∙ ap (λ o. if is_inode inode (last_inode sys group (group tid) d earlier) then none else o)
          found
  apply-by_inode inode (cleanup tid w) earlier t told h a b c e =
      cleanup_process-inode_dest inode tid w t (cleanup_tgid-IsRight group sys tid w t h told)
      ∙ ap
          (λ there.
            if ends sys group (group tid) tid w && there then none else get_by_inode sys inode t)
          (c (group tid))
      ∙ ap
          (λ o.
            if ends sys group (group tid) tid w && holds sys group (group tid) inode earlier
            then none
            else o)
          e

  -- The tracker's destination of an inode is that of the descriptor that the inode was last recorded
  -- for while it had one, unless since then a descriptor that has the inode was closed, or a process
  -- ended that has such a descriptor. This is whatever the calls were, of whatever threads and in
  -- whatever order, as long as procfs gives every thread the same process at all its calls.
  pub after-last_by_inode :
      (ops : List (Op W)) (inode : Text)
      → All (IsTold sys group) ops
      → get_by_inode sys inode (after sys ops) ≡ last_by_inode sys group inode ops
  unfolding after last_by_inode HashMap.get
  after-last_by_inode [] inode told = refl
  after-last_by_inode (op ∷ earlier) inode (now, before) =
      apply-by_inode inode op earlier (after sys earlier) now
        (after-IsRight group sys earlier before)
        (λ p fd. after-last_dest sys group earlier p fd before)
        (λ p fd. after-last_inode sys group earlier p fd before)
        (λ p. after-holds sys group earlier p inode before)
        (after-last_by_inode earlier inode before)
