-- ===== src/Socket/Lookup.antt =====
-- `src/socket/tracker.rs`, destinations: `insert_dest`, `bind_inode` and `close_enter` against the
-- two lookups that the local proxy makes.
use proxec.Base.{
  ℕ, ◌≡◌, none, some, arith, if◌then◌else◌, Eq-ℕ, Eq-pair, Eq-text, pair_eq, text_eq, same_refl,
}
use proxec.Base.Text.{Text}
use proxec.Base.HashMap
use proxec.Base.HashMap.{get-insert, get-remove, get-insert_self}
use proxec.Os.{Os}
use proxec.Socket.{
  SocketInfo, SocketTracker, insert_dest, bind_inode, close_enter, resolve_tgid, get_by_inode,
  get_by_pid_fd,
}
use proxec.Socket.Stream.{group_of, resolve_tgid_known, resolve_tgid_records}

module _ {W : Type 0} (sys : Os W) where
  -- What `handle_connect_enter` records of a redirected socket whose inode it could read.
  abbrev pub record_dest : ℕ → ℕ → SocketInfo → Text → W → SocketTracker → SocketTracker
  record_dest pid fd info inode w t =
      bind_inode sys pid fd inode w (insert_dest sys pid fd info w t)

  pub resolve_tgid-maps :
      (tid : ℕ) (w : W) (t : SocketTracker)
      → let t' = (resolve_tgid sys tid w t).1 in
        (t'.fd_dest ≡ t.fd_dest)
        × (t'.inode_dest ≡ t.inode_dest)
        × (t'.fd_inode ≡ t.fd_inode)
        × (t'.stream_fds ≡ t.stream_fds)
  unfolding resolve_tgid
  resolve_tgid-maps tid w t = ground arith

  -- The tracker after the destination of a redirected socket is recorded.
  abbrev recorded : ℕ → SocketInfo → Text → ℕ × SocketTracker → SocketTracker
  recorded fd info inode (g, t) = record t {
    fd_dest = HashMap.insert (g, fd) info t.fd_dest;
    inode_dest = HashMap.insert inode info t.inode_dest;
    fd_inode = HashMap.insert (g, fd) inode t.fd_inode;
  }

  record_dest_lem :
      (pid fd : ℕ) (info : SocketInfo) (inode : Text) (w : W) (t : SocketTracker)
      → record_dest pid fd info inode w t ≡ recorded fd info inode (resolve_tgid sys pid w t)
  unfolding insert_dest bind_inode
  record_dest_lem pid fd info inode w t =
      let g = group_of sys pid w t in
      let t1 = (resolve_tgid sys pid w t).1 in
      ground (
        arith,
        resolve_tgid_known sys pid g w
            (record t1 { fd_dest = HashMap.insert (g, fd) info t1.fd_dest })
            (resolve_tgid_records sys pid w t),
        get-insert_self (g, fd) info t1.fd_dest,
      )

  recorded-group :
      (pid fd : ℕ) (info : SocketInfo) (inode : Text) (w w' : W) (t : SocketTracker)
      → resolve_tgid sys pid w' (recorded fd info inode (resolve_tgid sys pid w t))
        ≡ (group_of sys pid w t, recorded fd info inode (resolve_tgid sys pid w t))
  recorded-group pid fd info inode w w' t =
      resolve_tgid_known sys pid (group_of sys pid w t) w' _ (resolve_tgid_records sys pid w t)

  -- Once a redirected socket is recorded, its inode and its descriptor lead to its destination;
  -- every other inode and every other descriptor lead where they led before.
  pub record_dest_lookups :
      (pid fd : ℕ) (info : SocketInfo) (inode : Text) (w : W) (t : SocketTracker) (other : Text)
      (p d : ℕ)
      → let t' = record_dest pid fd info inode w t in
        (get_by_inode sys other t'
          ≡ (if text_eq inode other then some info else get_by_inode sys other t))
        × (get_by_pid_fd sys p d t' ≡ (
            if pair_eq (group_of sys pid w t, fd) (p, d)
            then some info
            else get_by_pid_fd sys p d t))
  record_dest_lookups pid fd info inode w t other p d =
      let same = resolve_tgid-maps pid w t in
      let (g, t1) = resolve_tgid sys pid w t in
      rw (record_dest_lem pid fd info inode w t) (
        ground (arith, same, get-insert other inode info t1.inode_dest),
        ground (arith, same, get-insert (p, d) (g, fd) info t1.fd_dest),
      )

  -- Closing the descriptor forgets both ways to the destination, also where procfs has changed in
  -- between, and leads of other inodes and descriptors stay.
  pub close_enter-record_dest :
      (pid fd : ℕ) (info : SocketInfo) (inode : Text) (w w' : W) (t : SocketTracker) (other : Text)
      (p d : ℕ)
      → let t' = close_enter sys pid fd w' (record_dest pid fd info inode w t) in
        (get_by_inode sys other t'
          ≡ (if text_eq inode other then none else get_by_inode sys other t))
        × (get_by_pid_fd sys p d t'
            ≡ (if pair_eq (group_of sys pid w t, fd) (p, d) then none else get_by_pid_fd sys p d t))
  unfolding close_enter
  close_enter-record_dest pid fd info inode w w' t other p d =
      let same = resolve_tgid-maps pid w t in
      let (g, t1) = resolve_tgid sys pid w t in
      rw (record_dest_lem pid fd info inode w t, recorded-group pid fd info inode w w' t)
        (
          ground (
            arith,
            same,
            get-insert_self (g, fd) inode t1.fd_inode,
            get-remove other inode (HashMap.insert inode info t1.inode_dest),
            get-insert other inode info t1.inode_dest,
          ),
          ground (
            arith,
            same,
            get-remove (p, d) (g, fd) (HashMap.insert (g, fd) info t1.fd_dest),
            get-insert (p, d) (g, fd) info t1.fd_dest,
          ),
        )

  -- The two lookups of the socket that was recorded.
  pub record_dest_own :
      (pid fd : ℕ) (info : SocketInfo) (inode : Text) (w : W) (t : SocketTracker)
      → (get_by_inode sys inode (record_dest pid fd info inode w t) ≡ some info)
        × (get_by_pid_fd sys (group_of sys pid w t) fd (record_dest pid fd info inode w t)
            ≡ some info)
  record_dest_own pid fd info inode w t =
      let found = record_dest_lookups pid fd info inode w t inode (group_of sys pid w t) fd in
      (
        rw (same_refl inode) at found.0,
        rw (same_refl {A = ℕ × ℕ} (group_of sys pid w t, fd)) at found.1,
      )

  pub insert_dest_own :
      (pid fd : ℕ) (info : SocketInfo) (w : W) (t : SocketTracker)
      → get_by_pid_fd sys (group_of sys pid w t) fd (insert_dest sys pid fd info w t) ≡ some info
  unfolding insert_dest
  insert_dest_own pid fd info w t =
      get-insert_self (group_of sys pid w t, fd) info (resolve_tgid sys pid w t).1.fd_dest
