-- ===== src/Socket/History/Groups.antt =====
-- `src/socket/tracker.rs` over time: the tracker's record of the thread groups.
use proxec.Base.{
  ℕ, ◌≡◌, sym, ap, ◌∙◌, Bool, true, false, not, ◌&&◌, Option, none, some, List, [], ◌∷◌, nat_eq,
  nat_eq_iff, if◌then◌else◌, Eq-ℕ, Eq-pair, Eq-text, All, Option-cases, Bool-cases, inl, inr, arith,
}
use proxec.Base.HashMap
use proxec.Base.HashMap.{HashMap}
use proxec.Word.{is_negative}
use proxec.Os.{Os}
use proxec.Socket.{
  PendingSocket, SocketTracker, resolve_tgid, tgid_or_self, cleanup_tgid, mark_stream,
  is_stream_inet_socket, close_key, forget_process,
}
use proxec.Socket.Stream.{group_of, resolve_tgid_known, resolve_tgid_unknown}
use proxec.Socket.History.{
  Op, enter_socket, exit_socket, mark, look, close, insert, bind, cleanup, apply, after, IsTold,
}

module _ (group : ℕ → ℕ) where
  -- Every recorded thread group is the thread's.
  abbrev pub IsRight : HashMap ℕ ℕ → Type 0
  IsRight = All (λ e. e.1 ≡ group e.0)

  pub IsRight-get :
      (tid g : ℕ) (m : HashMap ℕ ℕ) → IsRight m → HashMap.get tid m ≡ some g → g ≡ group tid
  unfolding HashMap.get
  IsRight-get tid g [] h e = absurd (ground (arith, e))
  IsRight-get tid g ((k, v) ∷ m) (right, h) e = elim (Bool-cases (nat_eq k tid)) [
    | inl same ↦
        let here : k ≡ tid = (nat_eq_iff k tid).0 same in
        let value : v ≡ g = ground (arith, e, same) in sym value ∙ right ∙ ap group here
    | inr differ ↦ IsRight-get tid g m h (ground (arith, e, differ))
  ]

  IsRight-remove : (tid : ℕ) (m : HashMap ℕ ℕ) → IsRight m → IsRight (HashMap.remove tid m)
  unfolding HashMap.remove
  IsRight-remove tid [] h = tt
  IsRight-remove tid ((k, v) ∷ m) (right, h) = kept (nat_eq k tid) (IsRight-remove tid m h)
    where
      kept :
          (b : Bool)
          → IsRight (HashMap.remove tid m)
          → IsRight (if b then HashMap.remove tid m else (k, v) ∷ HashMap.remove tid m)
      kept true r = r
      kept false r = (right, r)

  IsRight-retain : (p : ℕ → ℕ → Bool) (m : HashMap ℕ ℕ) → IsRight m → IsRight (HashMap.retain p m)
  unfolding HashMap.retain
  IsRight-retain p [] h = tt
  IsRight-retain p ((k, v) ∷ m) (right, h) = kept (p k v) (IsRight-retain p m h)
    where
      kept :
          (b : Bool)
          → IsRight (HashMap.retain p m)
          → IsRight (if b then (k, v) ∷ HashMap.retain p m else HashMap.retain p m)
      kept true r = (right, r)
      kept false r = r

  IsRight-insert :
      (tid g : ℕ) (m : HashMap ℕ ℕ) → g ≡ group tid → IsRight m → IsRight (HashMap.insert tid g m)
  unfolding HashMap.insert
  IsRight-insert tid g m e h = (e, IsRight-remove tid m h)

  module _ {W : Type 0} (sys : Os W) where
    -- Resolving a thread gives its group, and leaves right records.
    pub resolve_tgid-IsRight :
        (tid : ℕ) (w : W) (t : SocketTracker)
        → IsRight t.tid_to_tgid
        → tgid_or_self sys tid w ≡ group tid
        → (group_of sys tid w t ≡ group tid) × IsRight (resolve_tgid sys tid w t).1.tid_to_tgid
    resolve_tgid-IsRight tid w t h told = elim (Option-cases (HashMap.get tid t.tid_to_tgid)) [
      | inl e ↦ (
        ap (λ r. r.0) (resolve_tgid_unknown sys tid w t e) ∙ told,
        rw (resolve_tgid_unknown sys tid w t e)
            (IsRight-insert tid (tgid_or_self sys tid w) t.tid_to_tgid told h),
      )
      | inr (g, e) ↦ (
        ap (λ r. r.0) (resolve_tgid_known sys tid g w t e) ∙ IsRight-get tid g t.tid_to_tgid h e,
        rw (resolve_tgid_known sys tid g w t e) h,
      )
    ]

    pub cleanup_tgid-IsRight :
        (tid : ℕ) (w : W) (t : SocketTracker)
        → IsRight t.tid_to_tgid
        → tgid_or_self sys tid w ≡ group tid
        → cleanup_tgid sys tid w t ≡ group tid
    unfolding cleanup_tgid
    cleanup_tgid-IsRight tid w t h told = elim (Option-cases (HashMap.get tid t.tid_to_tgid)) [
      | inl e ↦ rw (e, cleanup_tgid) told
      | inr (g, e) ↦ rw (e, cleanup_tgid) (IsRight-get tid g t.tid_to_tgid h e)
    ]

    either :
        (b : Bool) (t u : SocketTracker)
        → IsRight t.tid_to_tgid
        → IsRight u.tid_to_tgid
        → IsRight (if b then t else u).tid_to_tgid
    either true t u h h' = h
    either false t u h h' = h'

    exited :
        (tid ret_fd : ℕ) (w : W) (t : SocketTracker) (found : Option PendingSocket)
        → IsRight t.tid_to_tgid
        → tgid_or_self sys tid w ≡ group tid
        → (let t' : SocketTracker = elim found [
          | none ↦ t
          | some pending ↦
              if is_negative ret_fd
              then t
              else if not (is_stream_inet_socket pending.domain pending.sock_type)
              then t
              else mark_stream sys ret_fd (resolve_tgid sys tid w t)
        ] in
            IsRight t'.tid_to_tgid)
    unfolding mark_stream
    exited tid ret_fd w t none h told = h
    exited tid ret_fd w t (some pending) h told = either (is_negative ret_fd) t _ h (
        either (not (is_stream_inet_socket pending.domain pending.sock_type)) t _ h
          (resolve_tgid-IsRight tid w t h told).1)

    apply-IsRight :
        (op : Op W) (t : SocketTracker)
        → IsTold sys group op
        → IsRight t.tid_to_tgid
        → IsRight (apply sys op t).tid_to_tgid
    unfolding apply mark_stream close_key forget_process
    apply-IsRight (enter_socket pid domain type) t told h = h
    apply-IsRight (exit_socket tid ret_fd w) t told h =
        exited tid ret_fd w (record t { pending_socket = HashMap.remove tid t.pending_socket })
          (HashMap.get tid t.pending_socket) h told
    apply-IsRight (mark tid fd w) t told h = (resolve_tgid-IsRight tid w t h told).1
    apply-IsRight (look tid fd w) t told h = (resolve_tgid-IsRight tid w t h told).1
    apply-IsRight (close tid fd w) t told h = (resolve_tgid-IsRight tid w t h told).1
    apply-IsRight (insert tid fd info w) t told h = (resolve_tgid-IsRight tid w t h told).1
    apply-IsRight (bind tid fd inode w) t told h = (resolve_tgid-IsRight tid w t h told).1
    apply-IsRight (cleanup tid w) t told h =
        either
          (not (nat_eq tid (cleanup_tgid sys tid w t))
            && sys.proc_exists (cleanup_tgid sys tid w t) w)
          _ _ (IsRight-remove tid t.tid_to_tgid h)
          (IsRight-retain _ _ (IsRight-remove tid t.tid_to_tgid h))

    pub after-IsRight :
        (ops : List (Op W)) → All (IsTold sys group) ops → IsRight (after sys ops).tid_to_tgid
    unfolding after
    after-IsRight [] told = tt
    after-IsRight (op ∷ earlier) (now, before) =
        apply-IsRight op (after sys earlier) now (after-IsRight earlier before)
