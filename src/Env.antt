-- ===== src/Env.antt =====
-- `src/env.rs`: the proxy variables of the environment, which the program ignores and takes away.
use proxec.Base.{
  ◌≡◌, refl, ap, ◌∙◌, inl, inr, Bool, true, false, Option, none, some, List, [], ◌∷◌, if◌then◌else◌,
  any, filter, text_eq, text_eq_iff, Eq-text, Bool-cases, arith,
}
use proxec.Base.HashMap
use proxec.Base.HashMap.{HashMap, get-remove}
use proxec.Base.Text.{Text, codes}

-- The environment of the process: a value for each variable that is set.
abbrev pub Env : Type 0
Env = HashMap Text Text

unfoldable pub proxy_env_vars : List Text
proxy_env_vars =
    codes "http_proxy"
    ∷ codes "HTTP_PROXY"
    ∷ codes "https_proxy"
    ∷ codes "HTTPS_PROXY"
    ∷ codes "all_proxy"
    ∷ codes "ALL_PROXY"
    ∷ codes "no_proxy"
    ∷ codes "NO_PROXY"
    ∷ []

pub record ProxyEnvCleanup : Type 0 where
  pub ignored_vars : List Text

abbrev pub has_ignored_vars : ProxyEnvCleanup → Bool
has_ignored_vars cleanup = elim cleanup.ignored_vars [ [] ↦ false | ◌∷◌ _ _ ↦ true ]

abbrev is_some : Option Text → Bool
is_some none = false
is_some (some _) = true

-- `var_os(key).is_some()`.
abbrev pub is_set : Env → Text → Bool
is_set env key = is_some (HashMap.get key env)

-- `ignored_vars.push(key.to_string())` where the variable was set.
abbrev push_ignored : Bool → Text → List Text × Env → List Text × Env
push_ignored true key (ignored, env) = (key ∷ ignored, env)
push_ignored false key rest = rest

unfoldable pub clear_each : List Text → Env → List Text × Env
clear_each [] env = ([], env)
clear_each (key ∷ keys) env =
    push_ignored (is_set env key) key
      (clear_each keys (if is_set env key then HashMap.remove key env else env))

unfoldable pub clear_proxy_env : Env → ProxyEnvCleanup × Env
unfolding clear_each proxy_env_vars
clear_proxy_env env =
    let (ignored, env') = clear_each proxy_env_vars env in (record { ignored_vars = ignored }, env')

-- No name stands twice.
abbrev Distinct : List Text → Type 0
Distinct [] = Unit
Distinct (k ∷ ks) = (any (text_eq k) ks ≡ false) × Distinct ks

is_set-remove :
    (key k : Text) (env : Env)
    → is_set (HashMap.remove key env) k ≡ (if text_eq key k then false else is_set env k)
is_set-remove key k env = rw (get-remove k key env) (by_test (text_eq key k))
  where
    by_test :
        (b : Bool)
        → is_some (if b then none else HashMap.get k env) ≡ (if b then false else is_set env k)
    by_test true = refl
    by_test false = refl

-- Removing a variable changes nothing for the names that differ from it.
filter-remove :
    (key : Text) (keys : List Text) (env : Env)
    → any (text_eq key) keys ≡ false
    → filter (is_set (HashMap.remove key env)) keys ≡ filter (is_set env) keys
filter-remove key [] env e = refl
filter-remove key (k ∷ keys) env e =
    let apart : text_eq key k ≡ false = ground arith in
    let later : any (text_eq key) keys ≡ false = ground arith in
    let same : is_set (HashMap.remove key env) k ≡ is_set env k =
      is_set-remove key k env ∙ ap (λ b. if b then false else is_set env k) apart in
    ap
      (λ b.
        if b
        then k ∷ filter (is_set (HashMap.remove key env)) keys
        else filter (is_set (HashMap.remove key env)) keys)
      same
    ∙ ap (λ l. if is_set env k then k ∷ l else l) (filter-remove key keys env later)

clear_each-ignored :
    (keys : List Text) (env : Env)
    → Distinct keys
    → (clear_each keys env).0 ≡ filter (is_set env) keys
unfolding clear_each
clear_each-ignored [] env d = refl
clear_each-ignored (key ∷ keys) env d = elim (Bool-cases (is_set env key)) [
  | inl there ↦ rw there (
      ap (λ l. key ∷ l)
        (clear_each-ignored keys (HashMap.remove key env) d.1 ∙ filter-remove key keys env d.0))
  | inr missing ↦ rw missing (clear_each-ignored keys env d.1)
]

not_set : (key : Text) (env : Env) → is_set env key ≡ false → HashMap.get key env ≡ none
not_set key env e = by_value (HashMap.get key env) e
  where
    by_value : (o : Option Text) → is_some o ≡ false → o ≡ none
    by_value none e = refl
    by_value (some v) e = cc

get-clear_each :
    (j : Text) (keys : List Text) (env : Env)
    → HashMap.get j (clear_each keys env).1
      ≡ (if any (text_eq j) keys then none else HashMap.get j env)
unfolding clear_each
get-clear_each j [] env = refl
get-clear_each j (key ∷ keys) env = elim (Bool-cases (is_set env key)) [
  | inl there ↦ rw there (
      ground (
        arith,
        get-clear_each j keys (HashMap.remove key env),
        get-remove j key env,
        text_eq_iff key j,
        text_eq_iff j key,
      ))
  | inr missing ↦
      rw missing
        (ground (arith, get-clear_each j keys env, text_eq_iff j key, not_set key env missing))
]

-- After `clear_proxy_env` none of the eight proxy variables is set and every other variable is as it
-- was, and the names reported as ignored are those of the eight that were set, in their order.
pub clear_proxy_env-Cleared :
    (env : Env)
    → ((j : Text)
        → HashMap.get j (clear_proxy_env env).1
          ≡ (if any (text_eq j) proxy_env_vars then none else HashMap.get j env))
      × ((clear_proxy_env env).0.ignored_vars ≡ filter (is_set env) proxy_env_vars)
unfolding clear_proxy_env
clear_proxy_env-Cleared env = (
  λ j. get-clear_each j proxy_env_vars env,
  clear_each-ignored proxy_env_vars env
      (refl, (refl, (refl, (refl, (refl, (refl, (refl, (refl, tt)))))))),
)
