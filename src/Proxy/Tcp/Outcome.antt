-- ===== src/Proxy/Tcp/Outcome.antt =====
-- What is assumed of a connection: the bytes that it has sent and received. Rules for what an
-- action on it leaves behind, with a result and with an error, one for each way to build an action.
use proxec.Base.{
  ℕ, ◌≤◌, ◌≡◌, refl, inl, inr, Bool, true, false, List, [], ◌++◌, if◌then◌else◌, length, IsBytes,
}
use proxec.Error.{Error, IoError}
use proxec.Result.{Result, ok, err, Result-cases}
use proxec.Action.{Action, pure, ◌>>=◌}
use proxec.Net.{SocketAddr}
use proxec.Proxy.Tcp.{Tcp, send, receive_exact, receive, fail}

-- A write that fails may have sent a part, a read that fails may have taken a part.
pub record History {W : Type 0} (tcp : Tcp W) : Type 0 where
  pub sent : ℕ → W → List ℕ
  pub received : ℕ → W → List ℕ
  pub connect_new :
      (a : SocketAddr) (w : W) (c : ℕ)
      → (tcp.connect a w).0 ≡ ok c
      → (sent c (tcp.connect a w).1 ≡ []) × (received c (tcp.connect a w).1 ≡ [])
  pub write_done :
      (c : ℕ) (bs : List ℕ) (w : W)
      → (tcp.write_all c bs w).0 ≡ ok tt
      → sent c (tcp.write_all c bs w).1 ≡ sent c w ++ bs
  pub write_part :
      (c : ℕ) (bs : List ℕ) (w : W) (e : IoError)
      → (tcp.write_all c bs w).0 ≡ err e
      → (p : List ℕ) × (q : List ℕ) × (p ++ q ≡ bs)
        × (sent c (tcp.write_all c bs w).1 ≡ sent c w ++ p)
  pub write_received :
      (c : ℕ) (bs : List ℕ) (w : W) → received c (tcp.write_all c bs w).1 ≡ received c w
  pub exact_done :
      (c n : ℕ) (w : W) (bs : List ℕ)
      → (tcp.read_exact c n w).0 ≡ ok bs
      → (length bs ≡ n) × IsBytes bs × (received c (tcp.read_exact c n w).1 ≡ received c w ++ bs)
  pub exact_part :
      (c n : ℕ) (w : W) (e : IoError)
      → (tcp.read_exact c n w).0 ≡ err e
      → (p : List ℕ) × (received c (tcp.read_exact c n w).1 ≡ received c w ++ p)
  pub exact_sent : (c n : ℕ) (w : W) → sent c (tcp.read_exact c n w).1 ≡ sent c w
  pub read_done :
      (c n : ℕ) (w : W) (bs : List ℕ)
      → (tcp.read c n w).0 ≡ ok bs
      → (length bs ≤ n) × IsBytes bs × (received c (tcp.read c n w).1 ≡ received c w ++ bs)
  pub read_part :
      (c n : ℕ) (w : W) (e : IoError)
      → (tcp.read c n w).0 ≡ err e
      → (p : List ℕ) × (received c (tcp.read c n w).1 ≡ received c w ++ p)
  pub read_sent : (c n : ℕ) (w : W) → sent c (tcp.read c n w).1 ≡ sent c w

abbrev pub Judge :
    {A : Type 0}
    → (A → List ℕ → List ℕ → Type 0)
    → (Error → List ℕ → List ℕ → Type 0)
    → Result Error A
    → List ℕ
    → List ℕ
    → Type 0
Judge P Q (ok a) out inn = P a out inn
Judge P Q (err e) out inn = Q e out inn

-- What a connection has sent and received, in each state of the network.
pub record Log (W : Type 0) : Type 0 where
  pub out : W → List ℕ
  pub inn : W → List ℕ

module _ {W : Type 0} (log : Log W) where
  -- With `out` sent and `inn` received so far, `m` ends in `P` or with an error in `Q`.
  pub record Talks {A : Type 0} (m : Action W A) (out inn : List ℕ)
      (P : A → List ℕ → List ℕ → Type 0) (Q : Error → List ℕ → List ℕ → Type 0) : Type 0 where
    pub at :
        (w : W)
        → log.out w ≡ out
        → log.inn w ≡ inn
        → Judge P Q (m w).0 (log.out (m w).1) (log.inn (m w).1)

  module _ {A : Type 0} {P : A → List ℕ → List ℕ → Type 0}
      {Q : Error → List ℕ → List ℕ → Type 0} where
    pub Talks-pure : (a : A) (out inn : List ℕ) → P a out inn → Talks (pure a) out inn P Q
    Talks-pure a out inn p = record { at = λ w s r. rw (s, r) p }

    pub Talks-fail : (e : Error) (out inn : List ℕ) → Q e out inn → Talks (fail e) out inn P Q
    Talks-fail e out inn q = record { at = λ w s r. rw (s, r) q }

    pub Talks-if :
        (b : Bool) (m n : Action W A) (out inn : List ℕ)
        → (b ≡ true → Talks m out inn P Q)
        → (b ≡ false → Talks n out inn P Q)
        → Talks (if b then m else n) out inn P Q
    Talks-if true m n out inn tm tn = tm refl
    Talks-if false m n out inn tm tn = tn refl

  module _ {A B : Type 0} {P : B → List ℕ → List ℕ → Type 0}
      {Q : Error → List ℕ → List ℕ → Type 0} where
    pub Talks-bind :
        (m : Action W A) (f : A → Action W B) (out inn : List ℕ)
        → Talks m out inn (λ a o i. Talks (f a) o i P Q) Q
        → Talks (m >>= f) out inn P Q
    Talks-bind m f out inn t = record { at = λ w s r. step (m w).0 (m w).1 (t.at w s r) }
      where
        step :
            (r : Result Error A) (w : W)
            → Judge (λ a o i. Talks (f a) o i P Q) Q r (log.out w) (log.inn w)
            → (let next = ((λ _. (r, w)) >>= f) w in
                Judge P Q next.0 (log.out next.1) (log.inn next.1))
        step (ok a) w j = j.at w refl refl
        step (err e) w j = j

abbrev pub log : {W : Type 0} {tcp : Tcp W} → History tcp → ℕ → Log W
log h stream = record { out = h.sent stream; inn = h.received stream }

module _ {W : Type 0} {tcp : Tcp W} (h : History tcp) (stream : ℕ) where
  -- The calls on the connection, with the rest of the action after them.
  module _ {B : Type 0} {P : B → List ℕ → List ℕ → Type 0}
      {Q : Error → List ℕ → List ℕ → Type 0} where
    pub Talks-send :
        (f : Unit {0} → Action W B) (bs out inn : List ℕ)
        → Talks (log h stream) (f tt) (out ++ bs) inn P Q
        → ((e : IoError) (p q : List ℕ) → p ++ q ≡ bs → Q (Error.proxy_connect e) (out ++ p) inn)
        → Talks (log h stream) (send tcp stream bs >>= f) out inn P Q
    Talks-send f bs out inn t q = Talks-bind (log h stream) (send tcp stream bs) f out inn (record {
      at = λ w s r. elim (Result-cases (tcp.write_all stream bs w).0) [
        | inl (tt, done) ↦
            rw (done, h.write_done stream bs w done, h.write_received stream bs w, s, r) t
        | inr (e, failed) ↦
            let (p, rest, whole, part) = h.write_part stream bs w e failed in
            rw (failed, part, h.write_received stream bs w, s, r) (q e p rest whole)
      ];
    })

    pub Talks-exact :
        (f : List ℕ → Action W B) (n : ℕ) (out inn : List ℕ)
        → ((bs : List ℕ)
            → length bs ≡ n
            → IsBytes bs
            → Talks (log h stream) (f bs) out (inn ++ bs) P Q)
        → ((e : IoError) (p : List ℕ) → Q (Error.proxy_connect e) out (inn ++ p))
        → Talks (log h stream) (receive_exact tcp stream n >>= f) out inn P Q
    Talks-exact f n out inn t q =
        Talks-bind (log h stream) (receive_exact tcp stream n) f out inn (record {
          at = λ w s r. elim (Result-cases (tcp.read_exact stream n w).0) [
            | inl (bs, done) ↦
                let (long, bytes, more) = h.exact_done stream n w bs done in
                rw (done, more, h.exact_sent stream n w, s, r) (t bs long bytes)
            | inr (e, failed) ↦
                let (p, part) = h.exact_part stream n w e failed in
                rw (failed, part, h.exact_sent stream n w, s, r) (q e p)
          ];
        })

    pub Talks-read :
        (f : List ℕ → Action W B) (n : ℕ) (out inn : List ℕ)
        → ((bs : List ℕ)
            → length bs ≤ n
            → IsBytes bs
            → Talks (log h stream) (f bs) out (inn ++ bs) P Q)
        → ((e : IoError) (p : List ℕ) → Q (Error.proxy_connect e) out (inn ++ p))
        → Talks (log h stream) (receive tcp stream n >>= f) out inn P Q
    Talks-read f n out inn t q =
        Talks-bind (log h stream) (receive tcp stream n) f out inn (record {
          at = λ w s r. elim (Result-cases (tcp.read stream n w).0) [
            | inl (bs, done) ↦
                let (short, bytes, more) = h.read_done stream n w bs done in
                rw (done, more, h.read_sent stream n w, s, r) (t bs short bytes)
            | inr (e, failed) ↦
                let (p, part) = h.read_part stream n w e failed in
                rw (failed, part, h.read_sent stream n w, s, r) (q e p)
          ];
        })
