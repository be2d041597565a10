-- ===== src/Tests/Main.antt =====
-- `src/main.rs` on a host on which every call succeeds and leaves its mark in the memory.
use proxec.Base.{
  ℕ, suc, ◌≡◌, refl, inr, true, false, Option, none, some, List, [], ◌∷◌, any, text_eq, Eq-text,
  if◌then◌else◌,
}
use proxec.Base.HashMap
use proxec.Base.Text.{Text, codes}
use proxec.Result.{ok}
use proxec.Net.{SocketAddr, IpAddr}
use proxec.NoProxy
use proxec.Env.{Env, clear_proxy_env, proxy_env_vars}
use proxec.Proxy.Config.{Url}
use proxec.Proxy.Config
use proxec.Main.{Args, Host, main, inherits, main-inherits}
use proxec.Main.ExitCode.{Exits, main-Exits}
use proxec.Tracer.Child.{Call}
use proxec.Tests.Kernel.{Bytes, kernel}
use proxec.Tests.Child.{willing}

abbrev tick : Bytes → Bytes
tick s x = suc (s x)

abbrev counting : Host Bytes (List Call)
counting = record {
  new_runtime = λ s. (ok tt, tick s);
  bind_local = λ s. (ok 3, tick s);
  local_addr = λ listener s. ok (SocketAddr.v4 0x7f000001 9999);
  spawn_local = λ listener proxy s. tick s;
  release = λ s. some (codes "6.1.0");
  fork = λ program env s. (ok 10, tick s);
  child = willing;
  kernel = kernel;
}

abbrev zeros : Bytes
zeros x = 0

abbrev no_ip : Text → Option IpAddr
no_ip s = none

abbrev no_names : Text → Option (List IpAddr)
no_names s = none

abbrev no_url : Text → Option Url
no_url s = none

abbrev socks : Text → Option Url
socks s = some (record {
  scheme = codes "socks5";
  host_str = some (codes "127.0.0.1");
  port = some 1080;
  username = [];
  password = none;
})

abbrev to_addr : Text → Option SocketAddr
to_addr s = some (SocketAddr.v4 0x7f000001 1080)

abbrev args : Args
args = record {
  proxy = codes "proxy";
  disable_ipv6 = true;
  no_proxy = [];
  allow_ipv6_compat = false;
  command = codes "ls";
  args = [];
}

abbrev env : Env
env = (codes "http_proxy", codes "http://a:1") ∷ []

-- The child 10 exits with 7.
main_run : main no_ip no_names socks to_addr counting ([] ∷ []) args ([], zeros) ≡ some (ok 7)
unfolding main NoProxy.parse Config.parse proxec.Tracer.Loop.Wait.run
    proxec.Tracer.Loop.Wait.initial proxec.Tracer.Loop.Shutdown.install_shutdown_handlers
    proxec.Tracer.Loop.Wait.iterate proxec.Tracer.Loop.State.prune_gone_tracees
    proxec.Base.HashSet.insert proxec.Tracer.Loop.Wait.on_wait proxec.Tracer.Loop.Status.on_status
    proxec.Tracer.Loop.Status.on_exited proxec.Tracer.Loop.State.cleanup_dead_tracee
    proxec.Tracer.Loop.Shutdown.update_shutdown_state
    proxec.Tracer.Loop.Shutdown.pending_shutdown_signal
main_run = refl

main-inherits_example :
    (main no_ip no_names socks to_addr counting ([] ∷ []) args (env, zeros)
      ≡ main no_ip no_names socks to_addr
          (inherits (clear_proxy_env env).1 counting)
          ([] ∷ [])
          args
          (env, zeros))
    × ((j : Text)
        → HashMap.get j (clear_proxy_env env).1
          ≡ (if any (text_eq j) proxy_env_vars then none else HashMap.get j env))
main-inherits_example = main-inherits no_ip no_names socks to_addr counting ([] ∷ []) args env zeros

main-Exits_example : Exits no_ip no_names socks to_addr counting ([] ∷ []) args ([], zeros) 7
main-Exits_example =
    main-Exits no_ip no_names socks to_addr counting ([] ∷ []) args ([], zeros) 7 main_run
