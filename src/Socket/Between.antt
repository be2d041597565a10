-- ===== src/Socket/Between.antt =====
-- `src/socket/tracker.rs` while a redirected socket waits for the local proxy: the calls that other
-- threads and processes make on the tracker in any order, and what they leave of its destination.
pub mod Bound
use proxec.Base.{
  ℕ, ◌≡◌, ◌≢◌, refl, sym, ◌∙◌, ap, inl, inr, Bool, true, false, not, ◌&&◌, Option, none, some, List,
  arith, nat_eq, if◌then◌else◌, Eq-ℕ, Eq-pair, Eq-text, pair_eq, pair_eq_iff, text_eq, text_eq_iff,
  Bool-cases, Option-cases,
}
use proxec.Base.Text.{Text}
use proxec.Base.HashMap
use proxec.Base.HashMap.{HashMap, get-insert, get-remove, get-retain}
use proxec.Os.{Os}
use proxec.Socket.{
  SocketInfo, SocketTracker, insert_dest, bind_inode, close_enter, socket_enter, socket_exit,
  mark_stream_socket_fd, is_stream_socket_fd, resolve_tgid, cleanup_process, cleanup_tgid,
  forget_process, get_by_inode, get_by_pid_fd,
}
use proxec.Socket.Stream.{group_of}
use proxec.Socket.Lookup.{resolve_tgid-maps}
use proxec.Socket.Cleanup.{get-drop_inodes}
use proxec.Socket.Between.Bound.{Sole, Sole-remove, Sole-insert, Sole-retain, Sole-binds, Sole-get}

module _ {W : Type 0} (sys : Os W) (key : ℕ × ℕ) (inode : Text) where
  -- A call that is not about the socket: not at its descriptor `key` nor about its `inode`, nor the
  -- end of its process. Each has its own time.
  pub data Step (t : SocketTracker) : SocketTracker → Type 0 where
    entered : (pid domain type : ℕ) → Step t (socket_enter sys pid domain type t)
    returned : (tid ret_fd : ℕ) (w : W) → Step t (socket_exit sys tid ret_fd w t)
    marked : (pid fd : ℕ) (w : W) → Step t (mark_stream_socket_fd sys pid fd w t)
    looked : (pid fd : ℕ) (w : W) → Step t (is_stream_socket_fd sys pid fd w t).1
    stored :
        (pid fd : ℕ) (info : SocketInfo) (w : W)
        → (group_of sys pid w t, fd) ≢ key
        → Step t (insert_dest sys pid fd info w t)
    bound :
        (pid fd : ℕ) (other : Text) (w : W)
        → (group_of sys pid w t, fd) ≢ key
        → other ≢ inode
        → Step t (bind_inode sys pid fd other w t)
    closed :
        (pid fd : ℕ) (w : W)
        → (group_of sys pid w t, fd) ≢ key
        → Step t (close_enter sys pid fd w t)
    cleaned :
        (tid : ℕ) (w : W) → cleanup_tgid sys tid w t ≢ key.0 → Step t (cleanup_process sys tid w t)

  -- Any number of such calls.
  pub data Later (t : SocketTracker) : SocketTracker → Type 0 where
    here : Later t t
    next : {u v : SocketTracker} → Later t u → Step u v → Later t v

  -- The tracker leads to `info` by the descriptor and by the inode, and no other descriptor is
  -- recorded for the inode.
  pub record Leads (info : SocketInfo) (t : SocketTracker) : Type 0 where
    pub by_fd : HashMap.get key t.fd_dest ≡ some info
    pub by_inode : HashMap.get inode t.inode_dest ≡ some info
    pub sole : Sole key inode t.fd_inode

  module _ {info : SocketInfo} where
    -- It depends on three of the maps.
    Leads-maps :
        {t u : SocketTracker}
        → (u.fd_dest ≡ t.fd_dest) × (u.inode_dest ≡ t.inode_dest) × (u.fd_inode ≡ t.fd_inode)
        → Leads info t
        → Leads info u
    Leads-maps (a, b, c) l = record {
      by_fd = rw a l.by_fd;
      by_inode = rw b l.by_inode;
      sole = rw c l.sole;
    }

    resolve_tgid-Leads :
        (tid : ℕ) (w : W) (t : SocketTracker)
        → Leads info t
        → Leads info (resolve_tgid sys tid w t).1
    resolve_tgid-Leads tid w t l =
        let (a, b, c, _) = resolve_tgid-maps sys tid w t in Leads-maps (a, b, c) l

    socket_exit-Leads :
        (tid ret_fd : ℕ) (w : W) (t : SocketTracker)
        → Leads info t
        → Leads info (socket_exit sys tid ret_fd w t)
    unfolding socket_exit
    socket_exit-Leads tid ret_fd w t l =
        let t' : SocketTracker = record t {
          pending_socket = HashMap.remove tid t.pending_socket;
        } in
        let same = resolve_tgid-maps sys tid w t' in Leads-maps (ground (arith, same)) l

    mark_stream_socket_fd-Leads :
        (pid fd : ℕ) (w : W) (t : SocketTracker)
        → Leads info t
        → Leads info (mark_stream_socket_fd sys pid fd w t)
    unfolding mark_stream_socket_fd
    mark_stream_socket_fd-Leads pid fd w t l =
        Leads-maps (ground (arith, resolve_tgid-maps sys pid w t)) l

    is_stream_socket_fd-Leads :
        (pid fd : ℕ) (w : W) (t : SocketTracker)
        → Leads info t
        → Leads info (is_stream_socket_fd sys pid fd w t).1
    unfolding is_stream_socket_fd
    is_stream_socket_fd-Leads pid fd w t l = resolve_tgid-Leads pid w t l

    -- The destination that `bind_inode` may store is another inode's.
    get-bound :
        (other : Text) (found : Option SocketInfo) (m : HashMap Text SocketInfo)
        → other ≢ inode
        → HashMap.get inode m ≡ some info
        → HashMap.get inode
            (elim found [ none ↦ m | some new_info ↦ HashMap.insert other new_info m ])
          ≡ some info
    get-bound other none m ne e = e
    get-bound other (some new_info) m ne e =
        ground (arith, get-insert inode other new_info m, e, text_eq_iff other inode, ne)

    -- The inode that `close_enter` may forget is another one.
    get-forgotten :
        (found : Option Text) (m : HashMap Text SocketInfo)
        → ((other : Text) → found ≡ some other → other ≢ inode)
        → HashMap.get inode m ≡ some info
        → HashMap.get inode (elim found [ none ↦ m | some other ↦ HashMap.remove other m ])
          ≡ some info
    get-forgotten none m ne e = e
    get-forgotten (some other) m ne e =
        ground (arith, get-remove inode other m, e, text_eq_iff other inode, ne other refl)

    insert_dest-Leads :
        (pid fd : ℕ) (other : SocketInfo) (w : W) (t : SocketTracker)
        → (group_of sys pid w t, fd) ≢ key
        → Leads info t
        → Leads info (insert_dest sys pid fd other w t)
    unfolding insert_dest
    insert_dest-Leads pid fd other w t ne l =
        let r = resolve_tgid-Leads pid w t l in
        let t1 : SocketTracker = (resolve_tgid sys pid w t).1 in
        let k : ℕ × ℕ = (group_of sys pid w t, fd) in
        record {
          by_fd = ground (arith, r.by_fd, get-insert key k other t1.fd_dest, pair_eq_iff k key, ne);
          by_inode = r.by_inode;
          sole = r.sole;
        }

    bind_inode-Leads :
        (pid fd : ℕ) (other : Text) (w : W) (t : SocketTracker)
        → other ≢ inode
        → Leads info t
        → Leads info (bind_inode sys pid fd other w t)
    unfolding bind_inode
    bind_inode-Leads pid fd other w t ne l =
        let r = resolve_tgid-Leads pid w t l in
        let t1 : SocketTracker = (resolve_tgid sys pid w t).1 in
        let k : ℕ × ℕ = (group_of sys pid w t, fd) in
        record {
          by_fd = r.by_fd;
          by_inode = get-bound other (HashMap.get k t1.fd_dest) t1.inode_dest ne r.by_inode;
          sole = Sole-insert key inode k other t1.fd_inode ne r.sole;
        }

    close_enter-Leads :
        (pid fd : ℕ) (w : W) (t : SocketTracker)
        → (group_of sys pid w t, fd) ≢ key
        → Leads info t
        → Leads info (close_enter sys pid fd w t)
    unfolding close_enter
    close_enter-Leads pid fd w t ne l =
        let r = resolve_tgid-Leads pid w t l in
        let t1 : SocketTracker = (resolve_tgid sys pid w t).1 in
        let k : ℕ × ℕ = (group_of sys pid w t, fd) in
        record {
          by_fd = ground (arith, r.by_fd, get-remove key k t1.fd_dest, pair_eq_iff k key, ne);
          by_inode =
              get-forgotten (HashMap.get k t1.fd_inode) t1.inode_dest
                (λ other there. Sole-get key inode k other t1.fd_inode ne r.sole there) r.by_inode;
          sole = Sole-remove key inode k t1.fd_inode r.sole;
        }

    cleanup_process-Leads :
        (tid : ℕ) (w : W) (t : SocketTracker)
        → cleanup_tgid sys tid w t ≢ key.0
        → Leads info t
        → Leads info (cleanup_process sys tid w t)
    unfolding cleanup_process forget_process
    cleanup_process-Leads tid w t ne l =
        let tgid : ℕ = cleanup_tgid sys tid w t in
        let kept : not (nat_eq key.0 tgid) ≡ true = ground (arith, ne) in
        elim (Bool-cases (not (nat_eq tid tgid) && sys.proc_exists tgid w)) [
          | inl thread ↦ rw thread (Leads-maps (refl, refl, refl) l)
          | inr all ↦ rw all (record {
            by_fd =
                ground
                  (arith, get-retain (λ k. not (nat_eq k.0 tgid)) key t.fd_dest, l.by_fd, kept);
            by_inode = ground (
              arith,
              get-drop_inodes sys tgid inode t.fd_inode t.inode_dest,
              Sole-binds key inode tgid t.fd_inode ne l.sole,
              l.by_inode,
            );
            sole = Sole-retain key inode (λ k v. not (nat_eq k.0 tgid)) t.fd_inode l.sole;
          })
        ]

    Step-Leads : {t u : SocketTracker} → Step t u → Leads info t → Leads info u
    unfolding socket_enter
    Step-Leads (entered pid domain type) l = Leads-maps (refl, refl, refl) l
    Step-Leads (returned tid ret_fd w) l = socket_exit-Leads tid ret_fd w _ l
    Step-Leads (marked pid fd w) l = mark_stream_socket_fd-Leads pid fd w _ l
    Step-Leads (looked pid fd w) l = is_stream_socket_fd-Leads pid fd w _ l
    Step-Leads (stored pid fd other w ne) l = insert_dest-Leads pid fd other w _ ne l
    Step-Leads (bound pid fd other w ne ne') l = bind_inode-Leads pid fd other w _ ne' l
    Step-Leads (closed pid fd w ne) l = close_enter-Leads pid fd w _ ne l
    Step-Leads (cleaned tid w ne) l = cleanup_process-Leads tid w _ ne l

  -- However many calls about other sockets come in between, and in whatever order: as long as no
  -- other descriptor is recorded for the inode, both ways to the destination stay.
  pub Later-Leads :
      {info : SocketInfo} {t u : SocketTracker} → Later t u → Leads info t → Leads info u
  Later-Leads here l = l
  Later-Leads (next before step) l = Step-Leads step (Later-Leads before l)
