-- ===== src/Main/ExitCode.antt =====
-- The code that the process of `src/main.rs` exits with.
use proxec.Base.{ℕ, ◌≡◌, refl, sym, ◌∙◌, Option, none, some, List}
use proxec.Base.Text.{Text}
use proxec.Error.{Error}
use proxec.Result.{Result, ok, err}
use proxec.Net.{SocketAddr, IpAddr}
use proxec.Env.{Env}
use proxec.Socket
use proxec.Proxy.Config.{Url}
use proxec.Tracer.Loop.Shutdown.{install_shutdown_handlers}
use proxec.Tracer.Loop.State.{LoopState}
use proxec.Tracer.Loop.Wait.{initial, start}
use proxec.Tracer.Loop.Code.{last_code, events}
use proxec.Tracer.Loop.Code.Rounds.{start-last_code}
use proxec.Main.{Args, Host, Launch, main, prepare, traced, loop_after, result_of}

module _ (parse_ip : Text → Option IpAddr) (resolve : Text → Option (List IpAddr))
    (parse_url : Text → Option Url) (parse_addr : Text → Option SocketAddr) {S W : Type 0}
    (host : Host S W) where
  -- A child has been started, and the code is the one of the last event of the loop that follows it.
  pub record Exits (rounds : List (List ℕ)) (args : Args) (t : Env × S) (code : ℕ) : Type 0 where
    pub launch : Launch
    pub left : Env × S
    pub started : prepare parse_ip resolve parse_url parse_addr host args t ≡ (ok launch, left)
    pub last :
        let w = (install_shutdown_handlers host.kernel left.1).1 in
        code
        ≡ last_code 0 (
            events host.kernel launch.config launch.child_pid launch.use_seccomp rounds
              (initial host.kernel launch.config launch.child_pid launch.use_seccomp w Socket.new))

  -- If `main` exits with a code, everything before the loop has succeeded, a child has been started,
  -- and the code is that of the last event of the loop on this child, and 0 if there is none.
  pub main-Exits :
      (rounds : List (List ℕ)) (args : Args) (t : Env × S) (code : ℕ)
      → main parse_ip resolve parse_url parse_addr host rounds args t ≡ some (ok code)
      → Exits rounds args t code
  unfolding main
  main-Exits rounds args t code e =
      by_launch (prepare parse_ip resolve parse_url parse_addr host args t) refl e
    where
      by_loop :
          (l : Launch) (t' : Env × S) (out : Option (Result Error ℕ × LoopState S))
          → start host.kernel l.config l.child_pid l.use_seccomp rounds t'.1 Socket.new ≡ out
          → result_of parse_ip resolve parse_url parse_addr host out ≡ some (ok code)
          → (let w = (install_shutdown_handlers host.kernel t'.1).1 in
              code
              ≡ last_code 0 (
                  events host.kernel l.config l.child_pid l.use_seccomp rounds
                    (initial host.kernel l.config l.child_pid l.use_seccomp w Socket.new)))
      by_loop l t' none ran e = cc
      by_loop l t' (some (err x, s)) ran e = cc
      by_loop l t' (some (ok c, s)) ran e =
          let same : c ≡ code = cc in
          let (_, last, _) =
            start-last_code host.kernel l.config l.child_pid l.use_seccomp rounds t'.1 Socket.new c
              s ran in
          sym same ∙ last

      by_launch :
          (p : Result Error Launch × (Env × S))
          → prepare parse_ip resolve parse_url parse_addr host args t ≡ p
          → loop_after parse_ip resolve parse_url parse_addr host rounds p ≡ some (ok code)
          → Exits rounds args t code
      by_launch (ok l, t') started e = record {
        launch = l;
        left = t';
        started = started;
        last = by_loop l t' (traced parse_ip resolve parse_url parse_addr host rounds l t') refl e;
      }
      by_launch (err x, t') started e = cc
