-- ===== src/Proxy/Socks5/Server.antt =====
-- The server's side of the protocol, after RFC 1928 and RFC 1929: what the bytes of a whole
-- handshake, those of the client and those of the server, mean.
use proxec.Base.{
  ℕ, zero, suc, Bool, ◌&&◌, Option, none, some, List, [], ◌∷◌, ◌++◌, ◌≡◌, refl, ap, ◌∙◌, nat_eq,
  if◌then◌else◌, length, any, get_or, arith,
}
use proxec.Base.Bytes.{from_be_bytes}
use proxec.Net.{SocketAddr}

-- The first `n` bytes and those behind them, if there are as many.
unfoldable pub split_exact : ℕ → List ℕ → Option (List ℕ × List ℕ)
split_exact zero bytes = some ([], bytes)
split_exact (suc n) [] = none
split_exact (suc n) (b ∷ bytes) = elim (split_exact n bytes) [
  | none ↦ none
  | some (front, rest) ↦ some (b ∷ front, rest)
]

pub split_exact-append :
    (n : ℕ) (xs ys : List ℕ) → length xs ≡ n → split_exact n (xs ++ ys) ≡ some (xs, ys)
unfolding split_exact
split_exact-append zero [] ys e = refl
split_exact-append zero (x ∷ xs) ys e = cc
split_exact-append (suc n) [] ys e = cc
split_exact-append (suc n) (x ∷ xs) ys e =
    let tail : split_exact n (xs ++ ys) ≡ some (xs, ys) =
      split_exact-append n xs ys (omega (arith, e)) in
    rw tail refl

-- The bytes of the client and of the server that are still to be read.
abbrev pub Transcript : Type 0
Transcript = List ℕ × List ℕ

abbrev pub Reader : Type 0 → Type 0
Reader A = Transcript → Option (A × Transcript)

abbrev pub pure : {A : Type 0} → A → Reader A
pure a t = some (a, t)

infixl 5 ◌>>=◌ ◌>>◌
abbrev pub ◌>>=◌ : {A B : Type 0} → Reader A → (A → Reader B) → Reader B
◌>>=◌ m f t = elim (m t) [ none ↦ none | some (a, t') ↦ f a t' ]

abbrev pub ◌>>◌ : {A B : Type 0} → Reader A → Reader B → Reader B
m >> k = m >>= λ _. k

pub bind_some :
    {A B : Type 0} (m : Reader A) (f : A → Reader B) (t t' : Transcript) (a : A)
    → m t ≡ some (a, t')
    → (m >>= f) t ≡ f a t'
bind_some m f t t' a e = ap (λ o. ((λ _. o) >>= f) t) e

abbrev check : Bool → Reader (Unit {0})
check b t = if b then some (tt, t) else none

abbrev pub client : ℕ → Reader (List ℕ)
client n (out, inn) = elim (split_exact n out) [
  | none ↦ none
  | some (bytes, rest) ↦ some (bytes, (rest, inn))
]

abbrev pub server : ℕ → Reader (List ℕ)
server n (out, inn) = elim (split_exact n inn) [
  | none ↦ none
  | some (bytes, rest) ↦ some (bytes, (out, rest))
]

pub client-append :
    (n : ℕ) (xs out inn : List ℕ)
    → length xs ≡ n
    → client n (xs ++ out, inn) ≡ some (xs, (out, inn))
client-append n xs out inn e = rw (split_exact-append n xs out e, client) refl

pub server-append :
    (n : ℕ) (out xs inn : List ℕ)
    → length xs ≡ n
    → server n (out, xs ++ inn) ≡ some (xs, (out, inn))
server-append n out xs inn e = rw (split_exact-append n xs inn e, server) refl

-- A byte that is the length of what follows.
abbrev pub counted : Reader (List ℕ)
counted = client 1 >>= λ n. client (get_or n 0 0)

pub counted-append :
    (xs out inn : List ℕ) → counted (length xs ∷ xs ++ out, inn) ≡ some (xs, (out, inn))
unfolding split_exact
counted-append xs out inn = client-append (length xs) xs out inn refl

-- The answer 0 to a name and a password.
abbrev logged_in : List ℕ → List ℕ → Reader (List ℕ × List ℕ)
logged_in user pass = do
  status ← server 2
  check (nat_eq (get_or status 0 0) 1 && nat_eq (get_or status 1 0) 0)
  pure (user, pass)

-- The sub-negotiation of method 2: the version, the name, the password, and the answer.
unfoldable pub credentials : Reader (List ℕ × List ℕ)
unfolding split_exact
credentials = do
  version ← client 1
  check (nat_eq (get_or version 0 0) 1)
  user ← counted
  pass ← counted
  logged_in user pass

pub credentials-lem :
    (user pass out inn : List ℕ)
    → credentials (1 ∷ length user ∷ user ++ (length pass ∷ pass ++ out), 1 ∷ 0 ∷ inn)
      ≡ some ((user, pass), (out, inn))
unfolding credentials split_exact
credentials-lem user pass out inn =
    let after_user : Transcript = (length pass ∷ pass ++ out, 1 ∷ 0 ∷ inn) in
    bind_some counted (λ u. counted >>= logged_in u)
      (length user ∷ user ++ (length pass ∷ pass ++ out), 1 ∷ 0 ∷ inn) after_user user
      (counted-append user (length pass ∷ pass ++ out) (1 ∷ 0 ∷ inn))
    ∙ bind_some counted (logged_in user) after_user (out, 1 ∷ 0 ∷ inn) pass
        (counted-append pass out (1 ∷ 0 ∷ inn))

unfoldable pub login : ℕ → Reader (Option (List ℕ × List ℕ))
unfolding credentials
login method =
    if nat_eq method 0
    then pure none
    else if nat_eq method 2
    then credentials >>= (λ c. pure (some c))
    else (λ t. none)

-- The address and the port of a request; a host name is not one that the program asks for.
unfoldable pub target_addr : ℕ → Reader SocketAddr
unfolding split_exact
target_addr atyp =
    if nat_eq atyp 1
    then (client 4 >>= λ a.
        client 2 >>= λ p. pure (SocketAddr.v4 (from_be_bytes a) (from_be_bytes p)))
    else if nat_eq atyp 4
    then (client 16 >>= λ a.
        client 2 >>= λ p. pure (SocketAddr.v6 (from_be_bytes a) (from_be_bytes p) 0 0))
    else (λ t. none)

-- The address in the answer: four bytes, a name with its length, or sixteen bytes.
unfoldable pub bound_addr : ℕ → Reader (List ℕ)
unfolding split_exact
bound_addr atyp =
    if nat_eq atyp 1
    then server 4
    else if nat_eq atyp 3
    then (server 1 >>= λ n. server (get_or n 0 0))
    else if nat_eq atyp 4
    then server 16
    else (λ t. none)

-- What the client has logged in with, and the destination that it asked for.
pub record Session : Type 0 where
  pub user_pass : Option (List ℕ × List ℕ)
  pub target : SocketAddr

-- The answer that grants a request.
unfoldable pub granted : Reader (List ℕ)
unfolding split_exact bound_addr
granted = do
  reply ← server 4
  check (nat_eq (get_or reply 0 0) 5 && nat_eq (get_or reply 1 0) 0)
  bound_addr (get_or reply 3 0)
  server 2

-- The request and the answer.
unfoldable pub requested : Option (List ℕ × List ℕ) → Reader Session
unfolding split_exact target_addr granted
requested user_pass = do
  request ← client 4
  check (
      nat_eq (get_or request 0 0) 5
      && nat_eq (get_or request 1 0) 1
      && nat_eq (get_or request 2 0) 0)
  target ← target_addr (get_or request 3 0)
  granted
  pure (record { user_pass = user_pass; target = target })

-- A handshake that succeeds, from the greeting to the end of the answer to the request.
unfoldable pub session : Reader Session
unfolding split_exact login requested
session = do
  head ← client 2
  check (nat_eq (get_or head 0 0) 5)
  methods ← client (get_or head 1 0)
  choice ← server 2
  check (nat_eq (get_or choice 0 0) 5 && any (nat_eq (get_or choice 1 0)) methods)
  user_pass ← login (get_or choice 1 0)
  requested user_pass

-- With method 2 the request follows the name and the password.
pub session-credentials :
    (user pass request inn : List ℕ)
    → session (
      5 ∷ 2 ∷ 0 ∷ 2 ∷ 1 ∷ length user ∷ user ++ (length pass ∷ pass ++ request),
      5 ∷ 2 ∷ 1 ∷ 0 ∷ inn,
    )
      ≡ requested (some (user, pass)) (request, inn)
unfolding session login
session-credentials user pass request inn =
    let asked : Transcript =
      (1 ∷ length user ∷ user ++ (length pass ∷ pass ++ request), 1 ∷ 0 ∷ inn) in
    bind_some (login 2) requested asked (request, inn) (some (user, pass))
      (bind_some credentials (λ c. pure (some c)) asked (request, inn) (user, pass)
        (credentials-lem user pass request inn))
