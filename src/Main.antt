-- ===== src/Main.antt =====
-- `main` of `src/main.rs`: the steps from the command line to the trace loop, and the loop, and the
-- parent's side of `fork_exec` in `src/tracer/ptrace.rs`.
pub mod ExitCode
use proxec.Base.{
  ℕ, ◌≡◌, refl, ◌⊎◌, inl, inr, Bool, not, ◌&&◌, Option, none, some, List, any, text_eq,
  if◌then◌else◌, Eq-text,
}
use proxec.Base.HashMap
use proxec.Base.Text.{Text}
use proxec.Error.{Error, IoError}
use proxec.Result.{Result, ok, err, map_err}
use proxec.Action.{Action, pure, ◌>>=◌, ◌>>◌}
use proxec.Net.{SocketAddr, IpAddr}
use proxec.NoProxy
use proxec.Env.{Env, clear_proxy_env, clear_proxy_env-Cleared, proxy_env_vars}
use proxec.Proxy.Config.{Url, ProxyConfig}
use proxec.Proxy.Config
use proxec.Tracer.State.{Config}
use proxec.Os.{Os}
use proxec.Socket
use proxec.Tracer.Seccomp.{is_available}
use proxec.Tracer.Child.{Child, Fate, run_child}
use proxec.Tracer.Loop.State.{LoopState}
use proxec.Tracer.Loop.Wait

pub record Args : Type 0 where
  pub proxy : Text
  pub disable_ipv6 : Bool
  pub no_proxy : List Text
  pub allow_ipv6_compat : Bool
  pub command : Text
  pub args : List Text

-- What `main` calls: the runtime and the sockets, the kernel as the tracer sees it, and the calls of
-- a child, on a state `W` of its own.
pub record Host (S W : Type 0) : Type 0 where
  -- `Runtime::new`, a listener on a free port of 127.0.0.1, and its address.
  pub new_runtime : S → Result IoError (Unit {0}) × S
  pub bind_local : S → Result IoError ℕ × S
  pub local_addr : ℕ → S → Result IoError SocketAddr
  -- The local proxy in the background.
  pub spawn_local : ℕ → ProxyConfig → S → S
  -- The release of the kernel.
  pub release : S → Option Text
  -- A child with this program, and the environment that it inherits.
  pub fork : (W → Fate × W) → Env → S → Result ℕ ℕ × S
  pub child : Child W
  pub kernel : Os S

-- What the trace loop is started with.
pub record Launch : Type 0 where
  pub child_pid : ℕ
  pub config : Config
  pub use_seccomp : Bool

module _ (parse_ip : Text → Option IpAddr) (resolve : Text → Option (List IpAddr))
    (parse_url : Text → Option Url) (parse_addr : Text → Option SocketAddr) {S W : Type 0}
    (host : Host S W) where
  abbrev lift : {A : Type 0} → Result Error A → Action (Env × S) A
  lift r t = (r, t)

  -- A call of the host, which leaves the environment of the process as it is.
  abbrev on_host : {A : Type 0} → (S → Result Error A × S) → Action (Env × S) A
  on_host call (env, s) = let (r, s') = call s in (r, (env, s'))

  abbrev io_call : {A : Type 0} → (S → Result IoError A × S) → S → Result Error A × S
  io_call call s = let (r, s') = call s in (map_err Error.io r, s')

  abbrev clear : Action (Env × S) (Unit {0})
  clear (env, s) = (ok tt, ((clear_proxy_env env).1, s))

  abbrev seccomp_mode : Action (Env × S) Bool
  seccomp_mode (env, s) = (ok (is_available (host.release s)), (env, s))

  abbrev pub fork_exec : Text → List Text → Bool → Action (Env × S) ℕ
  fork_exec command args use_seccomp (env, s) =
      let (r, s') = host.fork (run_child host.child command args use_seccomp) env s in
      (map_err Error.fork r, (env, s'))

  -- From the listener on: the local proxy first, then the child.
  unfoldable pub start : Args → NoProxy.NoProxy → ProxyConfig → Action (Env × S) Launch
  unfolding run_child
  start args no_proxy proxy = do
    on_host (io_call host.new_runtime)
    listener ← on_host (io_call host.bind_local)
    local_addr ← on_host (λ s. (map_err Error.io (host.local_addr listener s), s))
    on_host (λ s. (ok tt, host.spawn_local listener proxy s))
    use_seccomp ← seccomp_mode
    child_pid ← fork_exec args.command args.args use_seccomp
    pure (record {
      child_pid = child_pid;
      config = record {
        local_addr = local_addr;
        proxy_addr = proxy.addr;
        no_proxy = no_proxy;
        disable_ipv6 = args.disable_ipv6 && not args.allow_ipv6_compat;
      };
      use_seccomp = use_seccomp;
    })

  -- Everything before the loop.
  unfoldable pub prepare : Args → Action (Env × S) Launch
  unfolding start
  prepare args = do
    no_proxy ← lift (NoProxy.parse parse_ip resolve args.no_proxy)
    clear
    proxy ← lift (Config.parse parse_url parse_addr args.proxy)
    start args no_proxy proxy

  -- The loop on the kernel, with a new tracker.
  abbrev pub traced : List (List ℕ) → Launch → Env × S → Option (Result Error ℕ × LoopState S)
  traced rounds l (env, s) =
      Wait.start host.kernel l.config l.child_pid l.use_seccomp rounds s Socket.new

  abbrev pub result_of : Option (Result Error ℕ × LoopState S) → Option (Result Error ℕ)
  result_of none = none
  result_of (some (r, s)) = some r

  abbrev pub loop_after : List (List ℕ) → Result Error Launch × (Env × S) → Option (Result Error ℕ)
  loop_after rounds (ok l, t) = result_of (traced rounds l t)
  loop_after rounds (err e, t) = some (err e)

  -- The code that the process exits with, or the error that it ends with, if the loop ends within
  -- the rounds; `none` if it still traces then.
  unfoldable pub main : List (List ℕ) → Args → Env × S → Option (Result Error ℕ)
  unfolding prepare Wait.start
  main rounds args t = loop_after rounds (prepare args t)

-- A host on which every child gets the environment `env`, whatever it is called with.
abbrev pub inherits : {S W : Type 0} → Env → Host S W → Host S W
inherits env host = record host { fork = λ program _ s. host.fork program env s }

module _ (parse_ip : Text → Option IpAddr) (resolve : Text → Option (List IpAddr))
    (parse_url : Text → Option Url) (parse_addr : Text → Option SocketAddr) {S W : Type 0}
    (host : Host S W) (rounds : List (List ℕ)) (args : Args) (env : Env) (s : S) where
  -- The arguments cannot be used: the no-proxy rules, or else the proxy.
  abbrev pub IsRefused : Error → Type 0
  IsRefused e =
      (NoProxy.parse parse_ip resolve args.no_proxy ≡ err e)
      ⊎ ((rules : NoProxy.NoProxy) × (NoProxy.parse parse_ip resolve args.no_proxy ≡ ok rules)
          × (Config.parse parse_url parse_addr args.proxy ≡ err e))

  -- Arguments that cannot be used end `main` with the error of the parser, before the host has been
  -- called at all: no socket is opened, no local proxy runs and no child is started.
  pub main_refused :
      (e : Error)
      → IsRefused e
      → (main parse_ip resolve parse_url parse_addr host rounds args (env, s) ≡ some (err e))
        × ((prepare parse_ip resolve parse_url parse_addr host args (env, s)).1.1 ≡ s)
  unfolding main prepare
  main_refused e (inl rules) = rw (rules, main, prepare) (refl, refl)
  main_refused e (inr (no_proxy, rules, proxy)) = rw (rules, proxy, main, prepare) (refl, refl)

  -- Whatever the arguments are, the child inherits the environment that `clear_proxy_env` leaves, in
  -- which none of the eight proxy variables is set and every other variable is as it was.
  pub main-inherits :
      (main parse_ip resolve parse_url parse_addr host rounds args (env, s)
        ≡ main parse_ip resolve parse_url parse_addr
            (inherits (clear_proxy_env env).1 host)
            rounds
            args
            (env, s))
      × ((j : Text)
          → HashMap.get j (clear_proxy_env env).1
            ≡ (if any (text_eq j) proxy_env_vars then none else HashMap.get j env))
  unfolding main prepare start
  main-inherits = (refl, (clear_proxy_env-Cleared env).0)
