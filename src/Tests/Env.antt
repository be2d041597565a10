-- ===== src/Tests/Env.antt =====
-- `src/env.rs` on an environment with a proxy variable, a no-proxy list and a path.
use proxec.Base.{◌≡◌, refl, none, [], ◌∷◌, any, filter, text_eq, Eq-text, if◌then◌else◌}
use proxec.Base.HashMap
use proxec.Base.Text.{Text, codes}
use proxec.Env.{Env, clear_each, clear_proxy_env, clear_proxy_env-Cleared, proxy_env_vars, is_set}

abbrev env : Env
env =
    (codes "PATH", codes "/bin")
    ∷ (codes "NO_PROXY", codes "localhost")
    ∷ (codes "http_proxy", codes "http://a:1")
    ∷ []

ignored_run :
    clear_each (codes "http_proxy" ∷ codes "NO_PROXY" ∷ []) env
    ≡ (codes "http_proxy" ∷ codes "NO_PROXY" ∷ [], (codes "PATH", codes "/bin") ∷ [])
unfolding clear_each HashMap.get HashMap.remove
ignored_run = refl

clear_proxy_env-Cleared_example :
    ((j : Text)
      → HashMap.get j (clear_proxy_env env).1
        ≡ (if any (text_eq j) proxy_env_vars then none else HashMap.get j env))
    × ((clear_proxy_env env).0.ignored_vars ≡ filter (is_set env) proxy_env_vars)
clear_proxy_env-Cleared_example = clear_proxy_env-Cleared env
