-- ===== src/Tests/Pair.antt =====
-- A network of two streams for the examples: the stream 0 of the client and the stream 1 to the
-- server, which answers by a function of what it has read. Calls on other streams fail.
use proxec.Base.{
  ℕ, zero, suc, ◌≤◌, ◌≡◌, ◌≢◌, refl, sym, ap, List, [], ◌∷◌, ◌++◌, append-nil, length, take, drop,
  IsBytes, arith,
}
use proxec.Net.{SocketAddr}
use proxec.Error.{IoError}
use proxec.Result.{Result, ok, err}
use proxec.Proxy.Tcp.{Tcp}
use proxec.Proxy.Tcp.Outcome.{History}
use proxec.Proxy.Relay.{Polled, pending, ready, Copy}
use proxec.Proxy.Relay.Carried.{Copying}
use proxec.Tests.Network.{Exchange, nothing_yet, network, history, no_failure}

pub record Pair : Type 0 where
  pub client : Exchange
  pub upstream : Exchange

-- The client sends two bytes, and nothing after them.
abbrev typed : List ℕ → List ℕ
typed out = 71 ∷ 69 ∷ []

typed-IsBytes : (out : List ℕ) → IsBytes (typed out)
typed-IsBytes out = (omega arith, (omega arith, tt))

module _ (reply : List ℕ → List ℕ) where
  abbrev inner : ℕ → Tcp Exchange
  inner zero = network typed
  inner (suc _) = network reply

  abbrev focus : ℕ → Pair → Exchange
  focus zero w = w.client
  focus (suc _) w = w.upstream

  abbrev put : ℕ → Pair → Exchange → Pair
  put zero w x = record w { client = x }
  put (suc _) w x = record w { upstream = x }

  abbrev on :
      {A : Type 0} → ℕ → (Exchange → Result IoError A × Exchange) → Pair → Result IoError A × Pair
  on zero call w = let (r, x) = call w.client in (r, record w { client = x })
  on (suc zero) call w = let (r, x) = call w.upstream in (r, record w { upstream = x })
  on (suc (suc _)) call w = (err IoError.unexpected_eof, w)

  abbrev pub pair : Tcp Pair
  pair = record {
    connect = λ addr w. (ok 1, record w { upstream = nothing_yet });
    write_all = λ c bs w. on c ((inner c).write_all c bs) w;
    read_exact = λ c n w. on c ((inner c).read_exact c n) w;
    read = λ c n w. on c ((inner c).read c n) w;
  }

  abbrev sent : ℕ → Pair → List ℕ
  sent zero w = w.client.sent
  sent (suc zero) w = w.upstream.sent
  sent (suc (suc _)) w = []

  abbrev received : ℕ → Pair → List ℕ
  received zero w = w.client.read
  received (suc zero) w = w.upstream.read
  received (suc (suc _)) w = []

  module _ (bytes : (o : List ℕ) → IsBytes (reply o)) where
    abbrev client_rules : History (network typed)
    client_rules = history typed typed-IsBytes

    abbrev upstream_rules : History (network reply)
    upstream_rules = history reply bytes

    connected :
        (a : SocketAddr) (w : Pair) (c : ℕ)
        → (pair.connect a w).0 ≡ ok c
        → (sent c (pair.connect a w).1 ≡ []) × (received c (pair.connect a w).1 ≡ [])
    connected a w zero e =
        let same : number (ok 1) ≡ 0 = ap number e in absurd (omega (arith, same))
      where
        number : Result IoError ℕ → ℕ
        number (ok c) = c
        number (err _) = 1
    connected a w (suc zero) e = (refl, refl)
    connected a w (suc (suc _)) e = (refl, refl)

    written :
        (c : ℕ) (bs : List ℕ) (w : Pair)
        → (pair.write_all c bs w).0 ≡ ok tt
        → sent c (pair.write_all c bs w).1 ≡ sent c w ++ bs
    written zero bs w e = refl
    written (suc zero) bs w e = refl
    written (suc (suc _)) bs w e = no_failure tt IoError.unexpected_eof (sym e)

    written_part :
        (c : ℕ) (bs : List ℕ) (w : Pair) (e : IoError)
        → (pair.write_all c bs w).0 ≡ err e
        → (p : List ℕ) × (q : List ℕ) × (p ++ q ≡ bs)
          × (sent c (pair.write_all c bs w).1 ≡ sent c w ++ p)
    written_part zero bs w e f = no_failure tt e f
    written_part (suc zero) bs w e f = no_failure tt e f
    written_part (suc (suc _)) bs w e f = ([], bs, refl, refl)

    write_received :
        (c : ℕ) (bs : List ℕ) (w : Pair) → received c (pair.write_all c bs w).1 ≡ received c w
    write_received zero bs w = refl
    write_received (suc zero) bs w = refl
    write_received (suc (suc _)) bs w = refl

    exact_done :
        (c n : ℕ) (w : Pair) (bs : List ℕ)
        → (pair.read_exact c n w).0 ≡ ok bs
        → (length bs ≡ n) × IsBytes bs × (received c (pair.read_exact c n w).1 ≡ received c w ++ bs)
    exact_done zero n w bs e = client_rules.exact_done 0 n w.client bs e
    exact_done (suc zero) n w bs e = upstream_rules.exact_done 1 n w.upstream bs e
    exact_done (suc (suc _)) n w bs e = no_failure bs IoError.unexpected_eof (sym e)

    exact_part :
        (c n : ℕ) (w : Pair) (e : IoError)
        → (pair.read_exact c n w).0 ≡ err e
        → (p : List ℕ) × (received c (pair.read_exact c n w).1 ≡ received c w ++ p)
    exact_part zero n w e f = client_rules.exact_part 0 n w.client e f
    exact_part (suc zero) n w e f = upstream_rules.exact_part 1 n w.upstream e f
    exact_part (suc (suc _)) n w e f = ([], refl)

    exact_sent : (c n : ℕ) (w : Pair) → sent c (pair.read_exact c n w).1 ≡ sent c w
    exact_sent zero n w = client_rules.exact_sent 0 n w.client
    exact_sent (suc zero) n w = upstream_rules.exact_sent 1 n w.upstream
    exact_sent (suc (suc _)) n w = refl

    read_done :
        (c n : ℕ) (w : Pair) (bs : List ℕ)
        → (pair.read c n w).0 ≡ ok bs
        → (length bs ≤ n) × IsBytes bs × (received c (pair.read c n w).1 ≡ received c w ++ bs)
    read_done zero n w bs e = client_rules.read_done 0 n w.client bs e
    read_done (suc zero) n w bs e = upstream_rules.read_done 1 n w.upstream bs e
    read_done (suc (suc _)) n w bs e = no_failure bs IoError.unexpected_eof (sym e)

    read_part :
        (c n : ℕ) (w : Pair) (e : IoError)
        → (pair.read c n w).0 ≡ err e
        → (p : List ℕ) × (received c (pair.read c n w).1 ≡ received c w ++ p)
    read_part zero n w e f = client_rules.read_part 0 n w.client e f
    read_part (suc zero) n w e f = upstream_rules.read_part 1 n w.upstream e f
    read_part (suc (suc _)) n w e f = ([], refl)

    read_sent : (c n : ℕ) (w : Pair) → sent c (pair.read c n w).1 ≡ sent c w
    read_sent zero n w = refl
    read_sent (suc zero) n w = refl
    read_sent (suc (suc _)) n w = refl

    pub pair_history : History pair
    pair_history = record {
      sent = sent;
      received = received;
      connect_new = connected;
      write_done = written;
      write_part = written_part;
      write_received = write_received;
      exact_done = exact_done;
      exact_part = exact_part;
      exact_sent = exact_sent;
      read_done = read_done;
      read_part = read_part;
      read_sent = read_sent;
    }

  -- What a stream has for its reader, two bytes at most.
  abbrev next_two : List ℕ → Exchange → List ℕ
  next_two all x = take 2 (drop (length x.read) all)

  -- A future that writes what it holds and reads two bytes, and is ready when both are none.
  abbrev is_done : List ℕ → List ℕ → Polled
  is_done [] [] = ready (ok 0)
  is_done _ _ = pending

  is_done_lem : (f chunk : List ℕ) (count : ℕ) → is_done f chunk ≡ ready (ok count) → chunk ≡ []
  is_done_lem f [] count e = refl
  is_done_lem [] (x ∷ xs) count e = absurd (ground arith)
  is_done_lem (y ∷ ys) (x ∷ xs) count e = absurd (ground arith)

  abbrev copied : ℕ → ℕ → List ℕ → Pair → Polled × List ℕ × Pair
  copied zero (suc zero) f w =
      let chunk = next_two (typed w.client.sent) w.client in
      (
        is_done f chunk,
        chunk,
        record {
          client = record { sent = w.client.sent; read = w.client.read ++ chunk };
          upstream = record { sent = w.upstream.sent ++ f; read = w.upstream.read };
        },
      )
  copied (suc zero) zero f w =
      let chunk = next_two (reply w.upstream.sent) w.upstream in
      (
        is_done f chunk,
        chunk,
        record {
          client = record { sent = w.client.sent ++ f; read = w.client.read };
          upstream = record { sent = w.upstream.sent; read = w.upstream.read ++ chunk };
        },
      )
  copied _ _ f w = (pending, f, w)

  nothing_moves :
      (r s : ℕ) (f : List ℕ) (w : Pair)
      → (a : List ℕ) × (b : List ℕ) × (received r w ≡ received r w ++ a)
        × (sent s w ≡ sent s w ++ b)
        × (f ++ a ≡ b ++ f)
  nothing_moves r s f w =
      ([], [], sym (append-nil (received r w)), sym (append-nil (sent s w)), append-nil f)

  abbrev pub by_twos : Copy Pair (List ℕ)
  by_twos = record { start = []; poll = copied }

  module _ (bytes : (o : List ℕ) → IsBytes (reply o)) where
    moves :
        (r s : ℕ) (f : List ℕ) (w : Pair)
        → (let (p, f', w') = copied r s f w in
            (a : List ℕ) × (b : List ℕ) × (received r w' ≡ received r w ++ a)
            × (sent s w' ≡ sent s w ++ b)
            × (f ++ a ≡ b ++ f'))
    moves zero (suc zero) f w = (next_two (typed w.client.sent) w.client, f, refl, refl, refl)
    moves (suc zero) zero f w = (next_two (reply w.upstream.sent) w.upstream, f, refl, refl, refl)
    moves zero zero f w = nothing_moves zero zero f w
    moves zero (suc (suc s)) f w = nothing_moves zero (suc (suc s)) f w
    moves (suc zero) (suc s) f w = nothing_moves (suc zero) (suc s) f w
    moves (suc (suc r)) s f w = nothing_moves (suc (suc r)) s f w

    same_received :
        (r s : ℕ) (f : List ℕ) (w : Pair) (other : ℕ)
        → other ≢ r
        → received other (copied r s f w).2 ≡ received other w
    same_received zero (suc zero) f w zero apart = absurd (apart refl)
    same_received zero (suc zero) f w (suc zero) apart = refl
    same_received zero (suc zero) f w (suc (suc _)) apart = refl
    same_received (suc zero) zero f w zero apart = refl
    same_received (suc zero) zero f w (suc zero) apart = absurd (apart refl)
    same_received (suc zero) zero f w (suc (suc _)) apart = refl
    same_received zero zero f w other apart = refl
    same_received zero (suc (suc s)) f w other apart = refl
    same_received (suc zero) (suc s) f w other apart = refl
    same_received (suc (suc r)) s f w other apart = refl

    same_sent :
        (r s : ℕ) (f : List ℕ) (w : Pair) (other : ℕ)
        → other ≢ s
        → sent other (copied r s f w).2 ≡ sent other w
    same_sent zero (suc zero) f w zero apart = refl
    same_sent zero (suc zero) f w (suc zero) apart = absurd (apart refl)
    same_sent zero (suc zero) f w (suc (suc _)) apart = refl
    same_sent (suc zero) zero f w zero apart = absurd (apart refl)
    same_sent (suc zero) zero f w (suc zero) apart = refl
    same_sent (suc zero) zero f w (suc (suc _)) apart = refl
    same_sent zero zero f w other apart = refl
    same_sent zero (suc (suc s)) f w other apart = refl
    same_sent (suc zero) (suc s) f w other apart = refl
    same_sent (suc (suc r)) s f w other apart = refl

    ended :
        (r s : ℕ) (f : List ℕ) (w : Pair) (count : ℕ)
        → (copied r s f w).0 ≡ ready (ok count)
        → (copied r s f w).1 ≡ []
    ended zero (suc zero) f w count e = is_done_lem f _ count e
    ended (suc zero) zero f w count e = is_done_lem f _ count e
    ended zero zero f w count e = absurd (ground arith)
    ended zero (suc (suc s)) f w count e = absurd (ground arith)
    ended (suc zero) (suc s) f w count e = absurd (ground arith)
    ended (suc (suc r)) s f w count e = absurd (ground arith)

    pub by_twos_rules : Copying (pair_history bytes) by_twos
    unfolding pair_history
    by_twos_rules = record {
      held = λ f. f;
      start_empty = refl;
      poll_moves = moves;
      poll_received = same_received;
      poll_sent = same_sent;
      poll_ended = ended;
    }
