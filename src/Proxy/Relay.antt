-- ===== src/Proxy/Relay.antt =====
-- `src/proxy/local.rs`: the relay of `proxy_connection`, two copies of which `select!` polls one or
-- the other until either ends. The futures of `tokio::io::copy` are a parameter.
pub mod Carried
use proxec.Base.{ℕ, List, [], ◌∷◌}
use proxec.Error.{IoError}
use proxec.Result.{Result, ok}
use proxec.Action.{Action}

pub data Polled : Type 0 where
  pending : Polled
  ready : Result IoError ℕ → Polled

-- A future of `copy` in the state `F`, for the stream that it reads and the one that it writes.
pub record Copy (N F : Type 0) : Type 0 where
  pub start : F
  pub poll : ℕ → ℕ → F → N → Polled × F × N

pub data Direction : Type 0 where
  client_to_proxy proxy_to_client : Direction

-- After some polls the relay goes on, or a copy has ended it with its result. A connection with no
-- destination has no relay.
pub data Progress : Type 0 where
  unopened : Progress
  relaying : Progress
  closed : Direction → Result IoError ℕ → Progress

-- The two futures.
pub record Copies (F : Type 0) : Type 0 where
  pub upward : F
  pub downward : F

module _ {N F : Type 0} (copy : Copy N F) (client upstream : ℕ) where
  -- The poll of one future, with the other as it is.
  abbrev pub poll : Direction → Copies F → N → Polled × Copies F × N
  poll client_to_proxy fs n =
      let (p, f, n') = copy.poll client upstream fs.upward n in (p, record fs { upward = f }, n')
  poll proxy_to_client fs n =
      let (p, f, n') = copy.poll upstream client fs.downward n in
      (p, record fs { downward = f }, n')

  -- `select!` polls the two in any order; the first that is ready ends it, with an error or without.
  unfoldable pub select : List Direction → Copies F → N → Progress × Copies F × N
  select [] fs n = (relaying, fs, n)
  select (d ∷ polls) fs n =
      let (p, fs', n') = poll d fs n in
      elim p [ pending ↦ select polls fs' n' | ready result ↦ (closed d result, fs', n') ]

  -- The result is not an error, however the copies end.
  unfoldable pub relay : List Direction → Action N Progress
  unfolding select
  relay polls n =
      let (p, fs, n') = select polls (record { upward = copy.start; downward = copy.start }) n in
      (ok p, n')
