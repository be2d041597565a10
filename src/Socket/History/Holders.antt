-- ===== src/Socket/History/Holders.antt =====
-- `src/socket/tracker.rs` over time: whether some descriptor of a process has an inode.
use proxec.Base.{
  ℕ, ◌≡◌, refl, sym, ap, ◌∙◌, Bool, true, false, not, ◌&&◌, Option, none, some, List, [], ◌∷◌,
  nat_eq, if◌then◌else◌, Eq-ℕ, Eq-pair, Eq-text, All, text_eq, text_eq_iff, pair_eq_iff, Bool-cases,
  inl, inr, arith,
}
use proxec.Base.Text.{Text}
use proxec.Base.HashMap
use proxec.Base.HashMap.{HashMap, get-insert, get-remove}
use proxec.Base.HashMap.Unique.{IsMap, IsMap-remove, IsMap-insert, IsMap-retain}
use proxec.Os.{Os}
use proxec.Socket.{
  SocketTracker, socket_enter, insert_dest, bind_inode, close_enter, close_key, mark_stream,
  mark_stream_socket_fd, is_stream_socket_fd, cleanup_process, cleanup_tgid, forget_process,
}
use proxec.Socket.Lookup.{resolve_tgid-maps}
use proxec.Socket.Cleanup.{binds}
use proxec.Socket.History.{
  Op, enter_socket, exit_socket, mark, look, close, insert, bind, cleanup, apply, after, IsTold,
}
use proxec.Socket.History.Inodes.{
  bound_fds, is_inode, some_of, last_inode, holds, socket_exit-fd_inode, after-last_inode,
}

-- An entry that `binds` finds is one that a lookup finds.
binds_entry :
    (tgid : ℕ) (inode : Text) (m : HashMap (ℕ × ℕ) Text)
    → IsMap m
    → binds tgid inode m ≡ true
    → (fd : ℕ) × (HashMap.get (tgid, fd) m ≡ some inode)
unfolding HashMap.get
binds_entry tgid inode [] h e = absurd (ground arith)
binds_entry tgid inode (((p, fd), i) ∷ m) (fresh, h) e =
    elim (Bool-cases (nat_eq p tgid && text_eq i inode)) [
      | inl both ↦ (fd, ground (arith, both, text_eq_iff i inode))
      | inr other ↦
          let (fd', found) = binds_entry tgid inode m h (ground (arith, e, other)) in
          (fd', ground (arith, found, fresh, pair_eq_iff (p, fd) (tgid, fd')))
    ]

binds_of_entry :
    (tgid fd : ℕ) (inode : Text) (m : HashMap (ℕ × ℕ) Text)
    → HashMap.get (tgid, fd) m ≡ some inode
    → binds tgid inode m ≡ true
unfolding HashMap.get
binds_of_entry tgid fd inode [] e = cc
binds_of_entry tgid fd inode (((p, d), i) ∷ m) e =
    ground (arith, e, binds_of_entry tgid fd inode m, text_eq_iff i inode)

some_of_entry : (p : ℕ → Bool) (ds : List ℕ) → some_of p ds ≡ true → (d : ℕ) × (p d ≡ true)
some_of_entry p [] e = absurd (ground (arith, e))
some_of_entry p (d ∷ ds) e = elim (Bool-cases (p d)) [
  | inl here ↦ (d, here)
  | inr other ↦ some_of_entry p ds (ground (arith, e, other))
]

some_of_place :
    (p : ℕ → Bool) (fd : ℕ) (ds : List ℕ)
    → some_of (nat_eq fd) ds ≡ true
    → p fd ≡ true
    → some_of p ds ≡ true
some_of_place p fd [] e holds_there = absurd (ground (arith, e))
some_of_place p fd (d ∷ ds) e holds_there =
    let there : fd ≡ d → p d ≡ true = λ same. rw (sym same) holds_there in
    ground (arith, e, there, some_of_place p fd ds)

same_truth : (b b' : Bool) → (b ≡ true → b' ≡ true) → (b' ≡ true → b ≡ true) → b ≡ b'
same_truth true b' f g = sym (f refl)
same_truth false true f g = g refl
same_truth false false f g = refl

module _ {W : Type 0} (sys : Os W) (group : ℕ → ℕ) where
  -- A descriptor with an inode is one that an inode was recorded for.
  last_inode-bound_fds :
      (p fd : ℕ) (i : Text) (ops : List (Op W))
      → last_inode sys group p fd ops ≡ some i
      → some_of (nat_eq fd) (bound_fds ops) ≡ true
  unfolding last_inode bound_fds
  last_inode-bound_fds p fd i [] e = absurd (ground (arith, e))
  last_inode-bound_fds p fd i (bind tid d j w ∷ earlier) e =
      ground (arith, e, last_inode-bound_fds p fd i earlier)
  last_inode-bound_fds p fd i (close tid d w ∷ earlier) e =
      ground (arith, e, last_inode-bound_fds p fd i earlier)
  last_inode-bound_fds p fd i (cleanup tid w ∷ earlier) e =
      ground (arith, e, last_inode-bound_fds p fd i earlier)
  last_inode-bound_fds p fd i (enter_socket _ _ _ ∷ earlier) e =
      last_inode-bound_fds p fd i earlier e
  last_inode-bound_fds p fd i (exit_socket _ _ _ ∷ earlier) e =
      last_inode-bound_fds p fd i earlier e
  last_inode-bound_fds p fd i (mark _ _ _ ∷ earlier) e = last_inode-bound_fds p fd i earlier e
  last_inode-bound_fds p fd i (look _ _ _ ∷ earlier) e = last_inode-bound_fds p fd i earlier e
  last_inode-bound_fds p fd i (insert _ _ _ _ ∷ earlier) e = last_inode-bound_fds p fd i earlier e

  forgotten-IsMap :
      (b : Bool) (t u : SocketTracker)
      → IsMap t.fd_inode
      → IsMap u.fd_inode
      → IsMap (if b then t else u).fd_inode
  forgotten-IsMap true t u h h' = h
  forgotten-IsMap false t u h h' = h'

  -- Every descriptor is recorded once.
  apply-IsMap : (op : Op W) (t : SocketTracker) → IsMap t.fd_inode → IsMap (apply sys op t).fd_inode
  unfolding apply insert_dest bind_inode close_enter close_key socket_enter mark_stream_socket_fd
      mark_stream is_stream_socket_fd cleanup_process forget_process
  apply-IsMap (enter_socket tid domain type) t h = h
  apply-IsMap (exit_socket tid ret_fd w) t h = rw (socket_exit-fd_inode sys group tid ret_fd w t) h
  apply-IsMap (mark tid d w) t h = rw ((resolve_tgid-maps sys tid w t).2) h
  apply-IsMap (look tid d w) t h = rw ((resolve_tgid-maps sys tid w t).2) h
  apply-IsMap (insert tid d info w) t h = rw ((resolve_tgid-maps sys tid w t).2) h
  apply-IsMap (bind tid d i w) t h = IsMap-insert _ i _ (rw ((resolve_tgid-maps sys tid w t).2) h)
  apply-IsMap (close tid d w) t h = IsMap-remove _ _ (rw ((resolve_tgid-maps sys tid w t).2) h)
  apply-IsMap (cleanup tid w) t h =
      forgotten-IsMap
        (not (nat_eq tid (cleanup_tgid sys tid w t))
          && sys.proc_exists (cleanup_tgid sys tid w t) w)
        _ _ h (IsMap-retain _ t.fd_inode h)

  after-IsMap : (ops : List (Op W)) → IsMap (after sys ops).fd_inode
  unfolding after
  after-IsMap [] = tt
  after-IsMap (op ∷ earlier) = apply-IsMap op (after sys earlier) (after-IsMap earlier)

  pub after-holds :
      (ops : List (Op W)) (p : ℕ) (inode : Text)
      → All (IsTold sys group) ops
      → binds p inode (after sys ops).fd_inode ≡ holds sys group p inode ops
  after-holds ops p inode told =
      same_truth (binds p inode (after sys ops).fd_inode) (holds sys group p inode ops) held bound
    where
      held : binds p inode (after sys ops).fd_inode ≡ true → holds sys group p inode ops ≡ true
      held e =
          let (fd, found) = binds_entry p inode (after sys ops).fd_inode (after-IsMap ops) e in
          let last : last_inode sys group p fd ops ≡ some inode =
            sym (after-last_inode sys group ops p fd told) ∙ found in
          some_of_place (λ d. is_inode inode (last_inode sys group p d ops)) fd (bound_fds ops)
            (last_inode-bound_fds p fd inode ops last)
            (ap (is_inode inode) last ∙ (text_eq_iff inode inode).1 refl)

      bound : holds sys group p inode ops ≡ true → binds p inode (after sys ops).fd_inode ≡ true
      bound e =
          let (fd, found) =
            some_of_entry (λ d. is_inode inode (last_inode sys group p d ops)) (bound_fds ops) e in
          binds_of_entry p fd inode (after sys ops).fd_inode
            (after-last_inode sys group ops p fd told ∙ named (last_inode sys group p fd ops) found)
        where
          named : (o : Option Text) → is_inode inode o ≡ true → o ≡ some inode
          named none e = absurd (ground (arith, e))
          named (some i) e = ap some ((text_eq_iff i inode).0 e)
