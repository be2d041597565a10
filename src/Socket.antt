-- ===== src/Socket.antt =====
-- `src/socket/tracker.rs`: the destinations of redirected sockets, by descriptor and by inode, and
-- what the tracker reads of procfs. A process or thread id and a descriptor are `i32` patterns.
pub mod ConnTable
pub mod Cleanup
pub mod History
pub mod Between
pub mod Lookup
pub mod Stream
use proxec.Base.{
  ℕ, ◌+◌, ◌-◌, ◌%◌, ◌^◌, ◌≡◌, refl, Bool, true, false, not, ◌&&◌, ◌||◌, Option, none, some, List,
  [], ◌∷◌, ◌++◌, length, nat_eq, text_eq, if◌then◌else◌, bit_and, Eq, Eq-ℕ, Eq-pair, Eq-text,
}
use proxec.Base.HashMap
use proxec.Base.HashMap.{HashMap}
use proxec.Base.HashSet
use proxec.Base.HashSet.{HashSet}
use proxec.Base.Text.{
  Text, codes, trim, lines, strip_prefix, strip_suffix_char, parse_digits, parse_unsigned,
}
use proxec.Error.{IoError, os}
use proxec.Result.{Result, ok, err, map_err, ◌>>=◌}
use proxec.Net.{SocketAddr}
use proxec.Word.{is_negative}
use proxec.Os.{Os}

pub record SocketInfo : Type 0 where
  pub dest : SocketAddr

pub record PendingSocket : Type 0 where
  pub domain : ℕ
  pub sock_type : ℕ

pub record SocketTracker : Type 0 where
  pub fd_dest : HashMap (ℕ × ℕ) SocketInfo
  pub inode_dest : HashMap Text SocketInfo
  pub fd_inode : HashMap (ℕ × ℕ) Text
  pub tid_to_tgid : HashMap ℕ ℕ
  pub pending_socket : HashMap ℕ PendingSocket
  pub stream_fds : HashSet (ℕ × ℕ)

abbrev pub new : SocketTracker
new = record {
  fd_dest = [];
  inode_dest = [];
  fd_inode = [];
  tid_to_tgid = [];
  pending_socket = [];
  stream_fds = [];
}

abbrev pub af_inet : ℕ
af_inet = 2

abbrev pub af_inet6 : ℕ
af_inet6 = 10

abbrev pub sock_stream : ℕ
sock_stream = 1

unfoldable pub is_stream_inet_socket : ℕ → ℕ → Bool
is_stream_inet_socket domain sock_type =
    (nat_eq domain af_inet || nat_eq domain af_inet6)
    && nat_eq (bit_and sock_type sock_stream) sock_stream

-- `str::parse::<i32>`, as a bit pattern.
unfoldable pub parse_i32 : Text → Option ℕ
unfolding parse_digits parse_unsigned
parse_i32 [] = none
parse_i32 (c ∷ []) = parse_unsigned (2 ^ 31 - 1) (c ∷ [])
parse_i32 (c ∷ d ∷ s) =
    if nat_eq c b'-'
    then elim (parse_digits (2 ^ 31) 0 (d ∷ s)) [
      | none ↦ none
      | some n ↦ some ((2 ^ 32 - n) % 2 ^ 32)
    ]
    else parse_unsigned (2 ^ 31 - 1) (c ∷ d ∷ s)

-- The first line of the status file that begins with `Tgid:` decides.
unfoldable pub tgid_of_lines : List Text → Option ℕ
unfolding parse_i32 trim
tgid_of_lines [] = none
tgid_of_lines (line ∷ rest) =
    let later = tgid_of_lines rest in
    elim (strip_prefix (codes "Tgid:") line) [ some value ↦ parse_i32 (trim value) | none ↦ later ]

module _ {W : Type 0} (sys : Os W) where
  unfoldable pub read_tgid_from_proc_status : ℕ → W → Option ℕ
  unfolding tgid_of_lines lines
  read_tgid_from_proc_status tid w = elim (sys.proc_status tid w) [
    | none ↦ none
    | some status ↦ tgid_of_lines (lines status)
  ]

  abbrev pub process_exists : ℕ → W → Bool
  process_exists pid w = sys.proc_exists pid w

  -- `read_tgid_from_proc_status(tid).unwrap_or(tid)`.
  unfoldable pub tgid_or_self : ℕ → W → ℕ
  unfolding read_tgid_from_proc_status
  tgid_or_self tid w = elim (read_tgid_from_proc_status tid w) [ none ↦ tid | some tgid ↦ tgid ]

  unfoldable pub resolve_tgid : ℕ → W → SocketTracker → ℕ × SocketTracker
  resolve_tgid tid w t = elim (HashMap.get tid t.tid_to_tgid) [
    | some tgid ↦ (tgid, t)
    | none ↦
        let tgid = tgid_or_self tid w in
        (tgid, record t { tid_to_tgid = HashMap.insert tid tgid t.tid_to_tgid })
  ]

  unfoldable pub socket_enter : ℕ → ℕ → ℕ → SocketTracker → SocketTracker
  socket_enter pid domain sock_type t = record t {
    pending_socket =
        HashMap.insert pid (record { domain = domain; sock_type = sock_type }) t.pending_socket;
  }

  pub mark_stream : ℕ → ℕ × SocketTracker → SocketTracker
  mark_stream fd (tgid, t) = record t { stream_fds = HashSet.insert (tgid, fd) t.stream_fds }

  unfoldable pub mark_stream_socket_fd : ℕ → ℕ → W → SocketTracker → SocketTracker
  unfolding mark_stream
  mark_stream_socket_fd pid fd w t = mark_stream fd (resolve_tgid pid w t)

  unfoldable pub socket_exit : ℕ → ℕ → W → SocketTracker → SocketTracker
  unfolding mark_stream
  socket_exit tid ret_fd w t =
      let t' = record t { pending_socket = HashMap.remove tid t.pending_socket } in
      elim (HashMap.get tid t.pending_socket) [
        | none ↦ t'
        | some pending ↦
            if is_negative ret_fd
            then t'
            else if not (is_stream_inet_socket pending.domain pending.sock_type)
            then t'
            else mark_stream ret_fd (resolve_tgid tid w t')
      ]

  -- The three removals of `close_enter`, at a key.
  pub close_key : ℕ × ℕ → SocketTracker → SocketTracker
  close_key key t = record t {
    stream_fds = HashSet.remove key t.stream_fds;
    fd_dest = HashMap.remove key t.fd_dest;
    fd_inode = HashMap.remove key t.fd_inode;
    inode_dest = elim (HashMap.get key t.fd_inode) [
      | none ↦ t.inode_dest
      | some inode ↦ HashMap.remove inode t.inode_dest
    ];
  }

  unfoldable pub close_enter : ℕ → ℕ → W → SocketTracker → SocketTracker
  unfolding close_key
  close_enter pid fd w t = let (tgid, t') = resolve_tgid pid w t in close_key (tgid, fd) t'

  unfoldable pub is_stream_socket_fd : ℕ → ℕ → W → SocketTracker → Bool × SocketTracker
  is_stream_socket_fd pid fd w t =
      let (tgid, t') = resolve_tgid pid w t in (HashSet.contains (tgid, fd) t'.stream_fds, t')

  unfoldable pub insert_dest : ℕ → ℕ → SocketInfo → W → SocketTracker → SocketTracker
  insert_dest pid fd info w t =
      let (tgid, t') = resolve_tgid pid w t in
      record t' { fd_dest = HashMap.insert (tgid, fd) info t'.fd_dest }

  unfoldable pub bind_inode : ℕ → ℕ → Text → W → SocketTracker → SocketTracker
  bind_inode pid fd inode w t =
      let (tgid, t') = resolve_tgid pid w t in
      record t' {
        inode_dest = elim (HashMap.get (tgid, fd) t'.fd_dest) [
          | none ↦ t'.inode_dest
          | some info ↦ HashMap.insert inode info t'.inode_dest
        ];
        fd_inode = HashMap.insert (tgid, fd) inode t'.fd_inode;
      }

  abbrev pub get_by_pid_fd : ℕ → ℕ → SocketTracker → Option SocketInfo
  get_by_pid_fd pid fd t = HashMap.get (pid, fd) t.fd_dest

  abbrev pub get_by_inode : Text → SocketTracker → Option SocketInfo
  get_by_inode inode t = HashMap.get inode t.inode_dest

  -- The inodes of a process, which the filter on `fd_inode` drops from `inode_dest`.
  unfoldable pub drop_inodes :
      ℕ → HashMap (ℕ × ℕ) Text → HashMap Text SocketInfo → HashMap Text SocketInfo
  drop_inodes tgid [] m = m
  drop_inodes tgid (((p, fd), inode) ∷ rest) m =
      drop_inodes tgid rest (if nat_eq p tgid then HashMap.remove inode m else m)

  -- The four filters at the end of `cleanup_process`.
  unfoldable pub forget_process : ℕ → SocketTracker → SocketTracker
  unfolding drop_inodes
  forget_process tgid t = record t {
    fd_dest = HashMap.retain (λ k v. not (nat_eq k.0 tgid)) t.fd_dest;
    inode_dest = drop_inodes tgid t.fd_inode t.inode_dest;
    fd_inode = HashMap.retain (λ k v. not (nat_eq k.0 tgid)) t.fd_inode;
    stream_fds = HashSet.retain (λ k. not (nat_eq k.0 tgid)) t.stream_fds;
    tid_to_tgid = HashMap.retain (λ k v. not (nat_eq v tgid)) t.tid_to_tgid;
  }

  -- The thread group that `cleanup_process` takes a thread to belong to.
  unfoldable pub cleanup_tgid : ℕ → W → SocketTracker → ℕ
  cleanup_tgid tid w t = elim (HashMap.get tid t.tid_to_tgid) [
    | some tgid ↦ tgid
    | none ↦ tgid_or_self tid w
  ]

  unfoldable pub cleanup_process : ℕ → W → SocketTracker → SocketTracker
  unfolding cleanup_tgid
  cleanup_process tid w t =
      let tgid = cleanup_tgid tid w t in
      let t' = record t {
        pending_socket = HashMap.remove tid t.pending_socket;
        tid_to_tgid = HashMap.remove tid t.tid_to_tgid;
      } in
      if not (nat_eq tid tgid) && process_exists tgid w then t' else forget_process tgid t'

  abbrev pub stats : SocketTracker → ℕ
  stats t = length t.fd_dest

  -- The text between `socket:[` and `]` of the link of a descriptor.
  unfoldable pub read_socket_inode : ℕ → ℕ → W → Option Text
  read_socket_inode pid fd w = elim (sys.fd_link (tgid_or_self pid w) fd w) [
    | none ↦ none
    | some link ↦ elim (strip_prefix (codes "socket:[") link) [
      | none ↦ none
      | some rest ↦ strip_suffix_char b']' rest
    ]
  ]

  unfoldable pub probe_socket_is_stream : ℕ → ℕ → W → Result IoError Bool
  probe_socket_is_stream pid fd w = do
    pidfd ← map_err os (sys.pidfd_open (tgid_or_self pid w) w)
    dupfd ← map_err os (sys.pidfd_getfd pidfd fd w)
    sock_type ← map_err os (sys.socket_type dupfd w)
    ok (nat_eq (bit_and sock_type sock_stream) sock_stream)
