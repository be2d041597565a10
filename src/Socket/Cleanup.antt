-- ===== src/Socket/Cleanup.antt =====
-- `SocketTracker::cleanup_process` of `src/socket/tracker.rs`: what is forgotten when a thread or
-- a whole process is gone, and what is kept.
use proxec.Base.{
  ℕ, ◌≡◌, ◌≢◌, refl, ◌⊎◌, Bool, true, false, not, ◌&&◌, ◌||◌, none, some, [], ◌∷◌, arith, nat_eq,
  if◌then◌else◌, Eq-ℕ, Eq-pair, Eq-text, text_eq,
}
use proxec.Base.Text.{Text}
use proxec.Base.HashMap
use proxec.Base.HashMap.{
  HashMap, get-insert, get-remove, get-retain, get-retain_value, get-retain_kept,
}
use proxec.Base.HashSet
use proxec.Base.HashSet.{contains-retain}
use proxec.Os.{Os}
use proxec.Socket.{
  SocketInfo, SocketTracker, cleanup_process, cleanup_tgid, forget_process, drop_inodes,
  get_by_inode, get_by_pid_fd,
}

-- Some descriptor of the process is bound to the inode.
abbrev pub binds : ℕ → Text → HashMap (ℕ × ℕ) Text → Bool
binds tgid inode [] = false
binds tgid inode (((p, fd), i) ∷ rest) = nat_eq p tgid && text_eq i inode || binds tgid inode rest

module _ {W : Type 0} (sys : Os W) where
  pub get-drop_inodes :
      (tgid : ℕ) (inode : Text) (bound : HashMap (ℕ × ℕ) Text) (m : HashMap Text SocketInfo)
      → HashMap.get inode (drop_inodes sys tgid bound m)
        ≡ (if binds tgid inode bound then none else HashMap.get inode m)
  unfolding drop_inodes
  get-drop_inodes tgid inode [] m = refl
  get-drop_inodes tgid inode (((p, fd), i) ∷ rest) m = ground (
    arith,
    get-drop_inodes tgid inode rest (HashMap.remove i m),
    get-drop_inodes tgid inode rest m,
    get-remove inode i m,
  )

  -- No socket and no thread of the process `tgid` is left, the thread `tid` has no pending call, and
  -- the inodes that descriptors of the process bound are gone.
  pub record IsForgotten (tgid tid : ℕ) (t t' : SocketTracker) : Type 0 where
    pub no_dest : (fd : ℕ) → get_by_pid_fd sys tgid fd t' ≡ none
    pub no_inode : (fd : ℕ) → HashMap.get (tgid, fd) t'.fd_inode ≡ none
    pub no_stream : (fd : ℕ) → HashSet.contains (tgid, fd) t'.stream_fds ≡ false
    pub no_thread : (tid : ℕ) → HashMap.get tid t'.tid_to_tgid ≢ some tgid
    pub no_pending : HashMap.get tid t'.pending_socket ≡ none
    pub inodes :
        (inode : Text)
        → get_by_inode sys inode t'
          ≡ (if binds tgid inode t.fd_inode then none else get_by_inode sys inode t)

  -- What other processes have in the tracker is as it was, but for the thread `tid` itself.
  pub record IsKept (tgid tid : ℕ) (t t' : SocketTracker) : Type 0 where
    pub dest : (p fd : ℕ) → p ≢ tgid → get_by_pid_fd sys p fd t' ≡ get_by_pid_fd sys p fd t
    pub inode :
        (p fd : ℕ) → p ≢ tgid → HashMap.get (p, fd) t'.fd_inode ≡ HashMap.get (p, fd) t.fd_inode
    pub stream :
        (p fd : ℕ)
        → p ≢ tgid
        → HashSet.contains (p, fd) t'.stream_fds ≡ HashSet.contains (p, fd) t.stream_fds
    pub thread :
        (other p : ℕ)
        → p ≢ tgid
        → other ≢ tid
        → HashMap.get other t.tid_to_tgid ≡ some p
        → HashMap.get other t'.tid_to_tgid ≡ some p
    -- Also of its own process, which are forgotten as these threads end.
    pub pending :
        (other : ℕ)
        → other ≢ tid
        → HashMap.get other t'.pending_socket ≡ HashMap.get other t.pending_socket

  -- The state that the filters start from: the thread's own two entries are removed first.
  abbrev without_thread : ℕ → SocketTracker → SocketTracker
  without_thread tid t = record t {
    pending_socket = HashMap.remove tid t.pending_socket;
    tid_to_tgid = HashMap.remove tid t.tid_to_tgid;
  }

  forget_process-IsForgotten :
      (tgid tid : ℕ) (t : SocketTracker)
      → IsForgotten tgid tid t (forget_process sys tgid (without_thread tid t))
  unfolding forget_process
  forget_process-IsForgotten tgid tid t = record {
    no_dest =
        λ fd. rw (get-retain (λ k. not (nat_eq k.0 tgid)) (tgid, fd) t.fd_dest) (ground arith);
    no_inode =
        λ fd. rw (get-retain (λ k. not (nat_eq k.0 tgid)) (tgid, fd) t.fd_inode) (ground arith);
    no_stream = λ fd.
        rw (contains-retain (λ k. not (nat_eq k.0 tgid)) (tgid, fd) t.stream_fds) (ground arith);
    no_thread = λ other h. ground (
      arith,
      get-retain_value (λ g. not (nat_eq g tgid)) other tgid (HashMap.remove tid t.tid_to_tgid) h,
    );
    no_pending = ground (arith, get-remove tid tid t.pending_socket);
    inodes = λ inode. get-drop_inodes tgid inode t.fd_inode t.inode_dest;
  }

  forget_process-IsKept :
      (tgid tid : ℕ) (t : SocketTracker)
      → IsKept tgid tid t (forget_process sys tgid (without_thread tid t))
  unfolding forget_process
  forget_process-IsKept tgid tid t = record {
    dest = λ p fd ne. rw (get-retain (λ k. not (nat_eq k.0 tgid)) (p, fd) t.fd_dest) (ground arith);
    inode =
        λ p fd ne. rw (get-retain (λ k. not (nat_eq k.0 tgid)) (p, fd) t.fd_inode) (ground arith);
    stream = λ p fd ne.
        rw (contains-retain (λ k. not (nat_eq k.0 tgid)) (p, fd) t.stream_fds) (ground arith);
    thread = λ other p ne ne' h.
        get-retain_kept (λ g. not (nat_eq g tgid)) other p (HashMap.remove tid t.tid_to_tgid)
          (ground (arith, get-remove other tid t.tid_to_tgid)) (ground arith);
    pending = λ other ne. ground (arith, get-remove other tid t.pending_socket);
  }

  -- The end of a process by its own id, or of a thread whose process procfs no longer shows:
  -- no destination, inode or stream descriptor of the thread group is left, and no thread that is
  -- recorded for it; the thread's own pending `socket()` call is forgotten, and no other thread's is;
  -- and of the destinations by inode exactly those go that the group's descriptors were bound to.
  -- Other thread groups keep their destinations by descriptor, their inodes, their stream
  -- descriptors and the entries of their other threads.
  pub cleanup_process-IsForgotten :
      (tid : ℕ) (w : W) (t : SocketTracker)
      → (tid ≡ cleanup_tgid sys tid w t) ⊎ (sys.proc_exists (cleanup_tgid sys tid w t) w ≡ false)
      → let t' = cleanup_process sys tid w t in
        let tgid = cleanup_tgid sys tid w t in IsForgotten tgid tid t t' × IsKept tgid tid t t'
  cleanup_process-IsForgotten tid w t gone = rw (gone_lem gone) (
    forget_process-IsForgotten (cleanup_tgid sys tid w t) tid t,
    forget_process-IsKept (cleanup_tgid sys tid w t) tid t,
  )
    where
      gone_lem :
          (tid ≡ cleanup_tgid sys tid w t) ⊎ (sys.proc_exists (cleanup_tgid sys tid w t) w ≡ false)
          → cleanup_process sys tid w t
            ≡ forget_process sys (cleanup_tgid sys tid w t) (without_thread tid t)
      gone_lem g = unfold cleanup_process in ground arith

  -- The end of one thread of a process that still exists: only the thread's own entries go, and
  -- every socket of the process stays in the tracker.
  pub cleanup_process_thread :
      (tid : ℕ) (w : W) (t : SocketTracker)
      → tid ≢ cleanup_tgid sys tid w t
      → sys.proc_exists (cleanup_tgid sys tid w t) w ≡ true
      → cleanup_process sys tid w t ≡ without_thread tid t
  unfolding cleanup_process
  cleanup_process_thread tid w t ne alive = ground arith
