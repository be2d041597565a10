-- ===== src/Tests/Network.antt =====
-- A network for the examples: one server, whose bytes are a function of those that it has read. A
-- read that asks for more than there is fails.
use proxec.Base.{
  ℕ, zero, suc, ◌≤◌, ◌≡◌, refl, sym, ap, ◌∙◌, Bool, true, false, List, [], ◌∷◌, ◌++◌, append-nil,
  leb, length, take, drop, length-append, take-append, drop-append, IsBytes, arith,
}
use proxec.Error.{IoError}
use proxec.Result.{Result, ok, err}
use proxec.Proxy.Tcp.{Tcp}
use proxec.Proxy.Tcp.Outcome.{History}
use proxec.Proxy.Tcp.Peer.{Peer}

-- What the client has sent and read.
pub record Exchange : Type 0 where
  pub sent : List ℕ
  pub read : List ℕ

abbrev pub nothing_yet : Exchange
nothing_yet = record { sent = []; read = [] }

length-take : (n : ℕ) (xs : List ℕ) → n ≤ length xs → length (take n xs) ≡ n
length-take zero xs le = refl
length-take (suc n) [] le = absurd (omega (arith, le))
length-take (suc n) (x ∷ xs) le = ap suc (length-take n xs (omega (arith, le)))

length-take_le : (n : ℕ) (xs : List ℕ) → length (take n xs) ≤ n
length-take_le zero xs = omega arith
length-take_le (suc n) [] = omega arith
length-take_le (suc n) (x ∷ xs) = omega (arith, length-take_le n xs)

take-IsBytes : (n : ℕ) (xs : List ℕ) → IsBytes xs → IsBytes (take n xs)
take-IsBytes zero xs h = tt
take-IsBytes (suc n) [] h = tt
take-IsBytes (suc n) (x ∷ xs) h = (h.0, take-IsBytes n xs h.1)

drop-IsBytes : (n : ℕ) (xs : List ℕ) → IsBytes xs → IsBytes (drop n xs)
drop-IsBytes zero xs h = h
drop-IsBytes (suc n) [] h = tt
drop-IsBytes (suc n) (x ∷ xs) h = drop-IsBytes n xs h.1

abbrev pub served : Bool → List ℕ → Exchange → Result IoError (List ℕ) × Exchange
served true bs w = (ok bs, record w { read = w.read ++ bs })
served false bs w = (err IoError.unexpected_eof, w)

pub served_part :
    (b : Bool) (bs : List ℕ) (w : Exchange) → (p : List ℕ) × ((served b bs w).1.read ≡ w.read ++ p)
served_part true bs w = (bs, refl)
served_part false bs w = ([], sym (append-nil w.read))

pub served_sent : (b : Bool) (bs : List ℕ) (w : Exchange) → (served b bs w).1.sent ≡ w.sent
served_sent true bs w = refl
served_sent false bs w = refl

pub no_failure : {A P : Type 0} (a : A) (e : IoError) → ok a ≡ err e → P
no_failure a e f = cc

module _ (reply : List ℕ → List ℕ) where
  abbrev pending : Exchange → List ℕ
  pending w = drop (length w.read) (reply w.sent)

  abbrev pub network : Tcp Exchange
  network = record {
    connect = λ addr w. (ok 1, nothing_yet);
    write_all = λ stream bs w. (ok tt, record w { sent = w.sent ++ bs });
    read_exact = λ stream n w. served (leb n (length (pending w))) (take n (pending w)) w;
    read =
        λ stream n w. (ok (take n (pending w)), record w { read = w.read ++ take n (pending w) });
  }

  pub served_ok :
      (n : ℕ) (w : Exchange) (b : Bool) (bs : List ℕ)
      → leb n (length (pending w)) ≡ b
      → IsBytes (reply w.sent)
      → (served b (take n (pending w)) w).0 ≡ ok bs
      → (length bs ≡ n) × IsBytes bs × ((served b (take n (pending w)) w).1.read ≡ w.read ++ bs)
  served_ok n w true bs le bytes e =
      let e' : take n (pending w) ≡ bs = cc in
      let there : n ≤ length (pending w) = ground arith in
      let taken : IsBytes (take n (pending w)) =
        take-IsBytes n (pending w) (drop-IsBytes (length w.read) (reply w.sent) bytes) in
      (
        sym (ap length e') ∙ length-take n (pending w) there,
        rw (sym e') taken,
        ap (λ t. w.read ++ t) e',
      )
  served_ok n w false bs le bytes e = cc

  pub read_some_lem :
      (n : ℕ) (w : Exchange) (bs : List ℕ)
      → IsBytes (reply w.sent)
      → (served true (take n (pending w)) w).0 ≡ ok bs
      → (length bs ≤ n) × IsBytes bs × (w.read ++ take n (pending w) ≡ w.read ++ bs)
  read_some_lem n w bs bytes e =
      let e' : take n (pending w) ≡ bs = cc in
      let taken : IsBytes (take n (pending w)) =
        take-IsBytes n (pending w) (drop-IsBytes (length w.read) (reply w.sent) bytes) in
      (
        omega (arith, ap length e', length-take_le n (pending w)),
        rw (sym e') taken,
        ap (λ t. w.read ++ t) e',
      )

  abbrev pub history : ((o : List ℕ) → IsBytes (reply o)) → History network
  history bytes = record {
    sent = λ c w. w.sent;
    received = λ c w. w.read;
    connect_new = λ a w c e. (refl, refl);
    write_done = λ c bs w e. refl;
    write_part = λ c bs w e f. no_failure tt e f;
    write_received = λ c bs w. refl;
    exact_done = λ c n w bs e. served_ok n w (leb n (length (pending w))) bs refl (bytes w.sent) e;
    exact_part = λ c n w e f. served_part (leb n (length (pending w))) (take n (pending w)) w;
    exact_sent = λ c n w. served_sent (leb n (length (pending w))) (take n (pending w)) w;
    read_done = λ c n w bs e. read_some_lem n w bs (bytes w.sent) e;
    read_part = λ c n w e f. no_failure (take n (pending w)) e f;
    read_sent = λ c n w. refl;
  }

  pub served_there :
      (bs rest : List ℕ) (w : Exchange)
      → reply w.sent ≡ w.read ++ (bs ++ rest)
      → served (leb (length bs) (length (pending w))) (take (length bs) (pending w)) w
        ≡ (ok bs, record w { read = w.read ++ bs })
  served_there bs rest w e =
      let left : pending w ≡ bs ++ rest =
        ap (drop (length w.read)) e ∙ drop-append w.read (bs ++ rest) in
      let enough : leb (length bs) (length (bs ++ rest)) ≡ true =
        ground (arith, length-append bs rest) in
      rw (left, enough, take-append bs rest) refl

  abbrev pub peer : Peer network 1 reply
  peer = record {
    out = λ w. w.sent;
    inn = λ w. w.read;
    write_ok = λ bs w. (refl, refl, refl);
    read_ok = λ bs rest w e.
        let done = served_there bs rest w e in
        (ap (λ r. r.0) done, ap (λ r. r.1.sent) done, ap (λ r. r.1.read) done);
  }
