-- ===== src/Proxy/Local/Accept.antt =====
-- `run` of `src/proxy/local.rs`: a task for every connection that the listener accepts, until it
-- fails, and what is logged of a task's error.
use proxec.Base.{ℕ, Bool, ◌||◌, Option, none, some, List, [], ◌∷◌, if◌then◌else◌}
use proxec.Base.Text.{Text, codes}
use proxec.Error.{Error, IoError}
use proxec.Result.{Result, ok, err}
use proxec.Net.{SocketAddr}
use proxec.Proxy.Http.{contains_text}

pub data Level : Type 0 where
  debug error : Level

-- A client that disconnects is no error.
unfoldable pub is_disconnect : Text → Bool
is_disconnect err_str =
    contains_text (codes "Broken pipe") err_str || contains_text (codes "Connection reset") err_str

-- With the text of an error.
unfoldable pub logged : {A : Type 0} → (Error → Text) → Result Error A → Option Level
unfolding is_disconnect
logged to_string (ok _) = none
logged to_string (err e) = some (if is_disconnect (to_string e) then debug else error)

-- The streams and addresses for which a task was spawned, and the error that ended the loop, if one
-- did.
pub record Served : Type 0 where
  pub tasks : List (ℕ × SocketAddr)
  pub ended : Option Error

unfoldable pub run : List (Result IoError (ℕ × SocketAddr)) → Served
run [] = record { tasks = []; ended = none }
run (err e ∷ accepted) = record { tasks = []; ended = some (Error.io e) }
run (ok client ∷ accepted) = let rest = run accepted in record rest { tasks = client ∷ rest.tasks }
