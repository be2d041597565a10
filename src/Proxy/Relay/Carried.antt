-- ===== src/Proxy/Relay/Carried.antt =====
-- What the relay of `src/proxy/local.rs` has carried from each of the two streams to the other.
use proxec.Base.{ℕ, ◌≡◌, ◌≢◌, refl, sym, ap, ◌∙◌, List, [], ◌∷◌, ◌++◌, append_assoc, append-nil}
use proxec.Error.{IoError}
use proxec.Result.{Result, ok, err}
use proxec.Proxy.Tcp.{Tcp}
use proxec.Proxy.Tcp.Outcome.{History}
use proxec.Proxy.Relay.{
  Polled, pending, ready, Copy, Direction, client_to_proxy, proxy_to_client, Progress, closed,
  Copies, poll, select, relay,
}

-- What is assumed of `tokio::io::copy`: it holds the bytes that it has read and not yet written, of
-- other streams it changes nothing, and it ends without an error when it holds nothing.
pub record Copying {N F : Type 0} {tcp : Tcp N} (h : History tcp) (copy : Copy N F) : Type 0 where
  pub held : F → List ℕ
  pub start_empty : held copy.start ≡ []
  pub poll_moves :
      (reader writer : ℕ) (f : F) (n : N)
      → (let (p, f', n') = copy.poll reader writer f n in
          (a : List ℕ) × (b : List ℕ) × (h.received reader n' ≡ h.received reader n ++ a)
          × (h.sent writer n' ≡ h.sent writer n ++ b)
          × (held f ++ a ≡ b ++ held f'))
  pub poll_received :
      (reader writer : ℕ) (f : F) (n : N) (other : ℕ)
      → other ≢ reader
      → h.received other (copy.poll reader writer f n).2 ≡ h.received other n
  pub poll_sent :
      (reader writer : ℕ) (f : F) (n : N) (other : ℕ)
      → other ≢ writer
      → h.sent other (copy.poll reader writer f n).2 ≡ h.sent other n
  pub poll_ended :
      (reader writer : ℕ) (f : F) (n : N) (count : ℕ)
      → (copy.poll reader writer f n).0 ≡ ready (ok count)
      → held (copy.poll reader writer f n).1 ≡ []

module _ {N : Type 0} {tcp : Tcp N} (h : History tcp) where
  -- From `n` to `n'`, what `writer` has sent is a beginning of what `reader` has received, and the
  -- rest is `held`.
  pub record Carried (reader writer : ℕ) (n : N) (held : List ℕ) (n' : N) : Type 0 where
    pub moved : List ℕ
    pub taken : h.received reader n' ≡ h.received reader n ++ (moved ++ held)
    pub given : h.sent writer n' ≡ h.sent writer n ++ moved

  Carried-start : (reader writer : ℕ) (n : N) → Carried reader writer n [] n
  Carried-start reader writer n = record {
    moved = [];
    taken = sym (append-nil (h.received reader n));
    given = sym (append-nil (h.sent writer n));
  }

  Carried-same :
      {reader writer : ℕ} {n n' n'' : N} {held : List ℕ}
      → Carried reader writer n held n'
      → h.received reader n'' ≡ h.received reader n'
      → h.sent writer n'' ≡ h.sent writer n'
      → Carried reader writer n held n''
  Carried-same c r s = record { moved = c.moved; taken = r ∙ c.taken; given = s ∙ c.given }

  Carried-more :
      {reader writer : ℕ} {n n' n'' : N} {held held' : List ℕ} (a b : List ℕ)
      → Carried reader writer n held n'
      → h.received reader n'' ≡ h.received reader n' ++ a
      → h.sent writer n'' ≡ h.sent writer n' ++ b
      → held ++ a ≡ b ++ held'
      → Carried reader writer n held' n''
  Carried-more {reader} {writer} {n} {held} {held'} a b c r s e = record {
    moved = c.moved ++ b;
    taken =
        r
        ∙ ap (λ l. l ++ a) c.taken
        ∙ append_assoc (h.received reader n) (c.moved ++ held) a
        ∙ ap (λ l. h.received reader n ++ l)
            (append_assoc c.moved held a
              ∙ ap (λ l. c.moved ++ l) e
              ∙ sym (append_assoc c.moved b held'));
    given = s ∙ ap (λ l. l ++ b) c.given ∙ append_assoc (h.sent writer n) c.moved b;
  }

module _ {N F : Type 0} {tcp : Tcp N} {h : History tcp} {copy : Copy N F} (rules : Copying h copy)
    (client upstream : ℕ) where
  -- Both directions.
  abbrev pub BothWays : N → Copies F → N → Type 0
  BothWays n fs n' =
      Carried h client upstream n (rules.held fs.upward) n'
      × Carried h upstream client n (rules.held fs.downward) n'

  -- A poll carries in its own direction and leaves the other one as it is.
  poll-BothWays :
      (d : Direction) (fs : Copies F) (n n' : N)
      → client ≢ upstream
      → BothWays n fs n'
      → (let (p, fs', n'') = poll copy client upstream d fs n' in BothWays n fs' n'')
  poll-BothWays client_to_proxy fs n n' apart (up, down) =
      let (a, b, r, s, e) = rules.poll_moves client upstream fs.upward n' in
      (
        Carried-more h a b up r s e,
        Carried-same h down
            (rules.poll_received client upstream fs.upward n' upstream (λ q. apart (sym q)))
            (rules.poll_sent client upstream fs.upward n' client apart),
      )
  poll-BothWays proxy_to_client fs n n' apart (up, down) =
      let (a, b, r, s, e) = rules.poll_moves upstream client fs.downward n' in
      (
        Carried-same h up (rules.poll_received upstream client fs.downward n' client apart)
            (rules.poll_sent upstream client fs.downward n' upstream (λ q. apart (sym q))),
        Carried-more h a b down r s e,
      )

  -- The copy that has ended without an error holds nothing.
  abbrev pub Flushed : Progress → Copies F → Type 0
  Flushed (closed client_to_proxy (ok count)) fs = rules.held fs.upward ≡ []
  Flushed (closed proxy_to_client (ok count)) fs = rules.held fs.downward ≡ []
  Flushed other fs = Unit

  poll-Flushed :
      (d : Direction) (fs : Copies F) (n : N) (result : Result IoError ℕ)
      → (poll copy client upstream d fs n).0 ≡ ready result
      → Flushed (closed d result) (poll copy client upstream d fs n).1
  poll-Flushed client_to_proxy fs n (ok count) e =
      rules.poll_ended client upstream fs.upward n count e
  poll-Flushed proxy_to_client fs n (ok count) e =
      rules.poll_ended upstream client fs.downward n count e
  poll-Flushed client_to_proxy fs n (err _) e = tt
  poll-Flushed proxy_to_client fs n (err _) e = tt

  pub select-BothWays :
      (polls : List Direction) (fs : Copies F) (n n' : N)
      → client ≢ upstream
      → BothWays n fs n'
      → (let (p, fs', n'') = select copy client upstream polls fs n' in
          BothWays n fs' n'' × Flushed p fs')
  unfolding select
  select-BothWays [] fs n n' apart both = (both, tt)
  select-BothWays (d ∷ polls) fs n n' apart both =
      after (poll copy client upstream d fs n') (poll-BothWays d fs n n' apart both)
        (poll-Flushed d fs n') (select-BothWays polls)
    where
      Ends : Progress × Copies F × N → Type 0
      Ends (p, fs', n'') = BothWays n fs' n'' × Flushed p fs'

      after :
          (polled : Polled × Copies F × N)
          → BothWays n polled.1 polled.2
          → ((result : Result IoError ℕ)
              → polled.0 ≡ ready result
              → Flushed (closed d result) polled.1)
          → ((fs' : Copies F) (m m' : N)
              → client ≢ upstream
              → BothWays m fs' m'
              → (let (p, fs'', n'') = select copy client upstream polls fs' m' in
                  BothWays m fs'' n'' × Flushed p fs''))
          → Ends (elim polled.0 [
            | pending ↦ select copy client upstream polls polled.1 polled.2
            | ready result ↦ (closed d result, polled.1, polled.2)
          ])
      after (pending, fs', n'') moved flushed later = later fs' n n'' apart moved
      after (ready result, fs', n'') moved flushed later = (moved, flushed result refl)

  -- After the polls, what has been carried each way since `n`, and how the relay stands.
  pub record Relayed (n : N) (p : Progress) (n' : N) : Type 0 where
    pub held_up : List ℕ
    pub held_down : List ℕ
    pub up : Carried h client upstream n held_up n'
    pub down : Carried h upstream client n held_down n'
    pub flushed_up : (count : ℕ) → p ≡ closed client_to_proxy (ok count) → held_up ≡ []
    pub flushed_down : (count : ℕ) → p ≡ closed proxy_to_client (ok count) → held_down ≡ []

  -- For every order of the polls, and however far they go: the relay returns no error of its own;
  -- what it has written to each of two different streams is a beginning of what it has read from the
  -- other; and a copy that has ended the relay without an error has written all that it had read.
  pub relay-Relayed :
      (polls : List Direction) (n : N)
      → client ≢ upstream
      → (p : Progress) × ((relay copy client upstream polls n).0 ≡ ok p)
        × Relayed n p (relay copy client upstream polls n).1
  unfolding relay
  relay-Relayed polls n apart =
      let fs : Copies F = record { upward = copy.start; downward = copy.start } in
      let start = rules.start_empty in
      let begun : BothWays n fs n = (
        rw start (Carried-start h client upstream n),
        rw start (Carried-start h upstream client n),
      ) in
      let (p, fs', n') = select copy client upstream polls fs n in
      let ((up, down), flushed) = select-BothWays polls fs n n apart begun in
      (
        (select copy client upstream polls fs n).0,
        refl,
        record {
          held_up = rules.held (select copy client upstream polls fs n).1.upward;
          held_down = rules.held (select copy client upstream polls fs n).1.downward;
          up = up;
          down = down;
          flushed_up = λ count e. rw e at flushed;
          flushed_down = λ count e. rw e at flushed;
        },
      )
