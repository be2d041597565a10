-- ===== src/Tracer/Connect/Plan.antt =====
-- The three plans for a `connect` in `src/tracer/trace_loop.rs` whose destination was read, by the
-- destination, the rules and the socket, and the effect that each has.
use proxec.Base.{
  ℕ, ◌≡◌, refl, ◌∙◌, inl, inr, Bool, true, false, not, ◌&&◌, ◌||◌, Option, none, some, nat_eq,
  if◌then◌else◌, arith, Option-cases, Eq-pair, Eq-text, Eq-ℕ,
}
use proxec.Error.{Error, IoError}
use proxec.Result.{Result, ok, err, Result-cases}
use proxec.Net.{SocketAddr, ip, port, is_v6, is_loopback, is_unspecified, addr_eq}
use proxec.NoProxy.{should_bypass}
use proxec.Base.Text.{Text}
use proxec.Os.{Os}
use proxec.Socket.{
  SocketTracker, is_stream_socket_fd, mark_stream_socket_fd, read_socket_inode,
  probe_socket_is_stream, get_by_pid_fd, get_by_inode,
}
use proxec.Socket.Stream.{group_of}
use proxec.Socket.Lookup.{record_dest_own, insert_dest_own, resolve_tgid-maps}
use proxec.Tracer.Memory.{write_sockaddr}
use proxec.Tracer.State.{Config, Ctx, TraceStats}
use proxec.Tracer.Connect.{redirect, store_dest, eafnosupport}

-- Leave the call as it is, make it fail, or send it to the local proxy.
pub data Plan : Type 0 where
  pass block divert : Plan

abbrev pub divert_or_pass : Bool → Plan
divert_or_pass true = divert
divert_or_pass false = pass

abbrev pub says_stream : Result IoError Bool → Bool
says_stream (ok b) = b
says_stream (err e) = false

module _ {W : Type 0} (sys : Os W) (cfg : Config) where
  -- The socket is tracked as a stream socket, or its probe says that it is one.
  abbrev pub is_stream : ℕ → ℕ → Ctx W → Bool
  is_stream pid fd c =
      (is_stream_socket_fd sys pid fd c.world c.tracker).0
      || says_stream (probe_socket_is_stream sys pid fd c.world)

  -- The destinations that no socket is redirected for.
  abbrev pub stays_direct : SocketAddr → Bool
  stays_direct dest =
      is_loopback (ip dest)
      || is_unspecified (ip dest)
      || nat_eq (port dest) 0
      || should_bypass cfg.no_proxy dest

  unfoldable pub plan : ℕ → ℕ → SocketAddr → Ctx W → Plan
  plan pid fd dest c =
      if stays_direct dest
      then pass
      else if is_v6 dest && cfg.disable_ipv6
      then block
      else divert_or_pass (is_stream pid fd c && not (addr_eq dest cfg.proxy_addr))

  -- The recorded destinations are the same.
  pub record SameDests (t t' : SocketTracker) : Type 0 where
    pub fds : t'.fd_dest ≡ t.fd_dest
    pub inodes : t'.inode_dest ≡ t.inode_dest
    pub bound : t'.fd_inode ≡ t.fd_inode

  -- The call goes on as the program made it, with the error that is forced on it at its end.
  pub record Untouched (errno : Option ℕ) (c : Ctx W) (r : Result Error (Unit {0}) × Ctx W)
      : Type 0 where
    pub done : r.0 ≡ ok tt
    pub world : r.1.world ≡ c.world
    pub restore : r.1.thread.pending_connect_restore ≡ none
    pub forced : r.1.thread.forced_connect_errno ≡ errno
    pub dests : SameDests c.tracker r.1.tracker

  -- The address in the memory is that of the local proxy, and the destination is recorded.
  pub record Diverted (pid fd addr_ptr : ℕ) (dest : SocketAddr) (c : Ctx W)
      (r : Result Error (Unit {0}) × Ctx W) : Type 0 where
    pub result : r.0 ≡ (write_sockaddr sys pid addr_ptr cfg.local_addr c.world).0
    pub world : r.1.world ≡ (write_sockaddr sys pid addr_ptr cfg.local_addr c.world).1
    pub restore :
        r.0 ≡ ok tt
        → r.1.thread.pending_connect_restore ≡ some (record { addr_ptr = addr_ptr; dest = dest })
    pub forced : r.1.thread.forced_connect_errno ≡ c.thread.forced_connect_errno
    pub by_fd :
        get_by_pid_fd sys (group_of sys pid c.world c.tracker) fd r.1.tracker
        ≡ some (record { dest = dest })
    pub by_inode :
        (inode : Text)
        → read_socket_inode sys pid fd c.world ≡ some inode
        → get_by_inode sys inode r.1.tracker ≡ some (record { dest = dest })

  abbrev pub Effect :
      Plan → ℕ → ℕ → ℕ → SocketAddr → Ctx W → Result Error (Unit {0}) × Ctx W → Type 0
  Effect pass pid fd addr_ptr dest c r = Untouched c.thread.forced_connect_errno c r
  Effect block pid fd addr_ptr dest c r = Untouched (some eafnosupport) c r
  Effect divert pid fd addr_ptr dest c r = Diverted pid fd addr_ptr dest c r

  -- The destination that is stored is found again.
  store_dest_lookups :
      (pid fd : ℕ) (dest : SocketAddr) (w : W) (t : SocketTracker)
      → (get_by_pid_fd sys (group_of sys pid w t) fd (store_dest sys cfg pid fd dest w t)
          ≡ some (record { dest = dest }))
        × ((inode : Text)
            → read_socket_inode sys pid fd w ≡ some inode
            → get_by_inode sys inode (store_dest sys cfg pid fd dest w t)
              ≡ some (record { dest = dest }))
  unfolding store_dest
  store_dest_lookups pid fd dest w t = elim (Option-cases (read_socket_inode sys pid fd w)) [
    | inl no_inode ↦
        rw (no_inode, store_dest)
          (insert_dest_own sys pid fd (record { dest = dest }) w t, λ inode e. not_some e)
    | inr (inode, e) ↦
        let own = record_dest_own sys pid fd (record { dest = dest }) inode w t in
        rw (e, store_dest) (own.1, λ other f. cc (own.0))
  ]
    where
      not_some : {P : Type 0} {inode : Text} → none ≡ some inode → P
      not_some e = cc

  pub redirect-Diverted :
      (pid fd addr_ptr : ℕ) (dest : SocketAddr) (c : Ctx W)
      → Diverted pid fd addr_ptr dest c (redirect sys cfg pid fd addr_ptr dest c)
  redirect-Diverted pid fd addr_ptr dest c =
      elim (Result-cases (write_sockaddr sys pid addr_ptr cfg.local_addr c.world).0) [
        | inl (u, e) ↦
            unfold redirect in
            record {
              result = ground (arith, e);
              world = ground (arith, e);
              restore = λ h. ground (arith, e);
              forced = ground (arith, e);
              by_fd = ground (arith, e, (store_dest_lookups pid fd dest c.world c.tracker).0);
              by_inode = λ inode f.
                  ground (arith, e, (store_dest_lookups pid fd dest c.world c.tracker).1 inode f);
            }
        | inr (x, e) ↦
            unfold redirect in
            record {
              result = ground (arith, e);
              world = ground (arith, e);
              restore = λ h. ground (arith, e);
              forced = ground (arith, e);
              by_fd = ground (arith, e, (store_dest_lookups pid fd dest c.world c.tracker).0);
              by_inode = λ inode f.
                  ground (arith, e, (store_dest_lookups pid fd dest c.world c.tracker).1 inode f);
            }
      ]

  -- Only the world and the thread group of the tracker matter.
  pub Diverted-tracker :
      (pid fd addr_ptr : ℕ) (dest : SocketAddr) (c c' : Ctx W) (r : Result Error (Unit {0}) × Ctx W)
      → c'.world ≡ c.world
      → c'.thread.forced_connect_errno ≡ c.thread.forced_connect_errno
      → group_of sys pid c.world c'.tracker ≡ group_of sys pid c.world c.tracker
      → Diverted pid fd addr_ptr dest c' r
      → Diverted pid fd addr_ptr dest c r
  Diverted-tracker pid fd addr_ptr dest c c' r same forced group d = record {
    result = rw same at d.result;
    world = rw same at d.world;
    restore = d.restore;
    forced = d.forced ∙ forced;
    by_fd = rw group at (rw same at d.by_fd);
    by_inode = λ inode f. d.by_inode inode (rw same f);
  }

  pub SameDests-refl : (t : SocketTracker) → SameDests t t
  SameDests-refl t = record { fds = refl; inodes = refl; bound = refl }

  pub SameDests-trans : (t u v : SocketTracker) → SameDests t u → SameDests u v → SameDests t v
  SameDests-trans t u v a b = record {
    fds = b.fds ∙ a.fds;
    inodes = b.inodes ∙ a.inodes;
    bound = b.bound ∙ a.bound;
  }

  pub SameDests-mark :
      (pid fd : ℕ) (w : W) (t : SocketTracker) → SameDests t (mark_stream_socket_fd sys pid fd w t)
  unfolding mark_stream_socket_fd
  SameDests-mark pid fd w t =
      let same = resolve_tgid-maps sys pid w t in
      record { fds = same.0; inodes = same.1; bound = same.2 }

  pub Untouched-counted :
      (c : Ctx W) (t : SocketTracker) (s : TraceStats)
      → c.thread.pending_connect_restore ≡ none
      → SameDests c.tracker t
      → Untouched c.thread.forced_connect_errno c (ok tt, record c { tracker = t; stats = s })
  Untouched-counted c t s clear dests = record {
    done = refl;
    world = refl;
    restore = clear;
    forced = refl;
    dests = dests;
  }

  pub SameDests-is_stream :
      (pid fd : ℕ) (w : W) (t : SocketTracker) → SameDests t (is_stream_socket_fd sys pid fd w t).1
  unfolding is_stream_socket_fd
  SameDests-is_stream pid fd w t =
      let same = resolve_tgid-maps sys pid w t in
      record { fds = same.0; inodes = same.1; bound = same.2 }
