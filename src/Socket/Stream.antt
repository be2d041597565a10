-- ===== src/Socket/Stream.antt =====
-- `src/socket/tracker.rs`, the descriptors of stream sockets: the test on the arguments of
-- `socket()`, and what its entry and exit leave in the tracker.
use proxec.Base.{
  ℕ, ◌%◌, nat_eq, Bool, ◌≡◌, ap, ◌⊎◌, inl, inr, ◌↔◌, true, not, ◌&&◌, ◌||◌, none, some, arith, Eq-ℕ,
  Eq-pair, pair_eq, Option-cases,
}
use proxec.Base.Bits.{bit_and-one}
use proxec.Base.HashMap
use proxec.Base.HashMap.{get-insert, get-remove, get-insert_self}
use proxec.Base.HashSet
use proxec.Base.HashSet.{contains-insert, contains-remove}
use proxec.Word.{is_negative}
use proxec.Os.{Os}
use proxec.Socket.{
  SocketTracker, is_stream_inet_socket, socket_enter, socket_exit, mark_stream_socket_fd,
  is_stream_socket_fd, resolve_tgid, tgid_or_self,
}

-- IPv4 (2) or IPv6 (10), with a type whose lowest bit is set.
abbrev pub is_odd_inet : ℕ → ℕ → Bool
is_odd_inet domain sock_type = (nat_eq domain 2 || nat_eq domain 10) && nat_eq (sock_type % 2) 1

-- The test on the arguments of `socket()` reads the lowest bit of the type: it takes every odd
-- type of an internet family, `SOCK_RAW` (3) and `SOCK_SEQPACKET` (5) with `SOCK_STREAM` (1).
pub is_stream_inet_socket_iff :
    (domain sock_type : ℕ)
    → (is_stream_inet_socket domain sock_type ≡ true)
      ↔ (((domain ≡ 2) ⊎ (domain ≡ 10)) × (sock_type % 2 ≡ 1))
unfolding is_stream_inet_socket
is_stream_inet_socket_iff domain sock_type = ground (arith, bit_and-one sock_type)

pub is_stream_inet_socket-is_odd_inet :
    (domain sock_type : ℕ) → is_stream_inet_socket domain sock_type ≡ is_odd_inet domain sock_type
unfolding is_stream_inet_socket
is_stream_inet_socket-is_odd_inet domain sock_type = ground (arith, bit_and-one sock_type)

module _ {W : Type 0} (sys : Os W) where
  -- The thread group of a thread: the recorded one, or what procfs says.
  abbrev pub group_of : ℕ → W → SocketTracker → ℕ
  group_of tid w t = (resolve_tgid sys tid w t).0

  pub resolve_tgid-stream_fds :
      (tid : ℕ) (w : W) (t : SocketTracker) → (resolve_tgid sys tid w t).1.stream_fds ≡ t.stream_fds
  unfolding resolve_tgid
  resolve_tgid-stream_fds tid w t = ground arith

  pub resolve_tgid-pending_socket :
      (tid : ℕ) (w : W) (t : SocketTracker)
      → (resolve_tgid sys tid w t).1.pending_socket ≡ t.pending_socket
  unfolding resolve_tgid
  resolve_tgid-pending_socket tid w t = ground arith

  pub resolve_tgid_known :
      (tid g : ℕ) (w : W) (t : SocketTracker)
      → HashMap.get tid t.tid_to_tgid ≡ some g
      → resolve_tgid sys tid w t ≡ (g, t)
  unfolding resolve_tgid
  resolve_tgid_known tid g w t e = rw (e, resolve_tgid)

  pub resolve_tgid_unknown :
      (tid : ℕ) (w : W) (t : SocketTracker)
      → HashMap.get tid t.tid_to_tgid ≡ none
      → resolve_tgid sys tid w t ≡ (
        tgid_or_self sys tid w,
        record t { tid_to_tgid = HashMap.insert tid (tgid_or_self sys tid w) t.tid_to_tgid },
      )
  unfolding resolve_tgid
  resolve_tgid_unknown tid w t e = rw (e, resolve_tgid)

  pub resolve_tgid_records :
      (tid : ℕ) (w : W) (t : SocketTracker)
      → HashMap.get tid (resolve_tgid sys tid w t).1.tid_to_tgid ≡ some (resolve_tgid sys tid w t).0
  resolve_tgid_records tid w t = elim (Option-cases (HashMap.get tid t.tid_to_tgid)) [
    | inl e ↦
        rw (resolve_tgid_unknown tid w t e)
          (get-insert_self tid (tgid_or_self sys tid w) t.tid_to_tgid)
    | inr (g, e) ↦ rw (resolve_tgid_known tid g w t e) e
  ]

  -- The thread group is recorded: a later call gives the same one and changes nothing, whatever
  -- procfs says by then.
  pub resolve_tgid_stable :
      (tid : ℕ) (w w' : W) (t : SocketTracker)
      → resolve_tgid sys tid w' (resolve_tgid sys tid w t).1 ≡ resolve_tgid sys tid w t
  resolve_tgid_stable tid w w' t = elim (Option-cases (HashMap.get tid t.tid_to_tgid)) [
    | inl e ↦ rw (resolve_tgid_unknown tid w t e) (
        resolve_tgid_known tid (tgid_or_self sys tid w) w' _
          (get-insert_self tid (tgid_or_self sys tid w) t.tid_to_tgid))
    | inr (g, e) ↦ rw (resolve_tgid_known tid g w t e) (resolve_tgid_known tid g w' t e)
  ]

  -- The entry and the exit of one `socket()` call: its descriptor joins the stream sockets of the
  -- thread group exactly if the call succeeded, the family was IPv4 or IPv6, and the type was odd
  -- (`SOCK_STREAM` is 1, but so are `SOCK_RAW`, 3, and `SOCK_SEQPACKET`, 5); every other descriptor
  -- stays as it was, and the call is no longer pending.
  pub socket_exit-socket_enter :
      (tid domain sock_type ret_fd : ℕ) (w : W) (t : SocketTracker) (key : ℕ × ℕ)
      → let t' = socket_exit sys tid ret_fd w (socket_enter sys tid domain sock_type t) in
        (HashSet.contains key t'.stream_fds ≡ (
          not (is_negative ret_fd)
            && is_odd_inet domain sock_type
            && pair_eq (group_of tid w t, ret_fd) key
          || HashSet.contains key t.stream_fds))
        × (HashMap.get tid t'.pending_socket ≡ none)
  unfolding socket_exit socket_enter resolve_tgid
  socket_exit-socket_enter tid domain sock_type ret_fd w t key = ground (
    arith,
    get-insert_self tid (record { domain = domain; sock_type = sock_type }) t.pending_socket,
    get-remove tid tid
        (HashMap.insert tid (record { domain = domain; sock_type = sock_type }) t.pending_socket),
    contains-insert key (group_of tid w t, ret_fd) t.stream_fds,
    is_stream_inet_socket-is_odd_inet domain sock_type,
  )

  -- The thread group is the same after the two calls that look at the stream sockets.
  pub is_stream_socket_fd-group :
      (pid fd : ℕ) (w : W) (t : SocketTracker)
      → group_of pid w (is_stream_socket_fd sys pid fd w t).1 ≡ group_of pid w t
  unfolding is_stream_socket_fd
  is_stream_socket_fd-group pid fd w t = ap (λ r. r.0) (resolve_tgid_stable pid w w t)

  pub mark_stream_socket_fd-group :
      (pid fd : ℕ) (w : W) (t : SocketTracker)
      → group_of pid w (mark_stream_socket_fd sys pid fd w t) ≡ group_of pid w t
  unfolding mark_stream_socket_fd
  mark_stream_socket_fd-group pid fd w t =
      ap (λ r. r.0)
        (resolve_tgid_known pid (group_of pid w t) w (mark_stream_socket_fd sys pid fd w t)
          (resolve_tgid_records pid w t))
