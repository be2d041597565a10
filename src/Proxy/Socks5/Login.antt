-- ===== src/Proxy/Socks5/Login.antt =====
-- The choice of a method in `connect` of `src/proxy/socks5.rs`, and `socks5_auth`: what the
-- connection has sent and received when they end, with a result or with an error.
use proxec.Base.{
  ℕ, ◌≤◌, ◌≡◌, refl, inl, inr, true, false, ◌&&◌, ◌||◌, none, some, List, [], ◌∷◌, ◌++◌, append-nil,
  nat_eq, nat_eq_iff, ltb, length, Bool-cases, arith,
}
use proxec.Base.Text.{Text, codes, display_u8}
use proxec.Base.Utf8.{as_bytes}
use proxec.Error.{Error}
use proxec.Action.{Action, pure, ◌>>=◌, ◌>>◌}
use proxec.Proxy.Tcp.{Tcp, send, receive_exact, fail}
use proxec.Proxy.Tcp.Outcome.{
  log, History, Talks, Talks-pure, Talks-fail, Talks-if, Talks-send, Talks-exact,
}
use proxec.Proxy.Socks5.{
  Auth, auth_request, socks5_auth, user_pass, check_auth, socks_error, authenticate,
}

-- A statement on every list of two bytes holds of a list of that length.
abbrev pub two_bytes :
    (P : List ℕ → Type 0) → ((a b : ℕ) → P (a ∷ b ∷ [])) → (bs : List ℕ) → length bs ≡ 2 → P bs
two_bytes P p (a ∷ b ∷ []) e = p a b
two_bytes P p [] e = absurd (omega (arith, e))
two_bytes P p (a ∷ []) e = absurd (omega (arith, e))
two_bytes P p (a ∷ b ∷ c ∷ bs) e = absurd (omega (arith, e))

-- `D` is what holds of the bytes whenever an action fails; more bytes may have come in.
module _ {W : Type 0} {tcp : Tcp W} (h : History tcp) (stream : ℕ) (D : List ℕ → List ℕ → Type 0)
    (grow : (out inn more : List ℕ) → D out inn → D out (inn ++ more)) where
  -- The exchange of the name and the password ends in the answer `1 0`, or it fails.
  module _ {P : Unit {0} → List ℕ → List ℕ → Type 0} (inn : List ℕ) where
    Talks-check_auth :
        (out bs : List ℕ)
        → length bs ≡ 2
        → D out inn
        → P tt out (inn ++ 1 ∷ 0 ∷ [])
        → Talks (log h stream) (check_auth tcp bs) out (inn ++ bs) P (λ _. D)
    Talks-check_auth out bs two d p =
        two_bytes (λ bs. Talks (log h stream) (check_auth tcp bs) out (inn ++ bs) P (λ _. D))
          (λ a b.
            Talks-if (log h stream) (nat_eq a 1 && nat_eq b 0) (pure tt) (fail auth_failed) out
              (inn ++ a ∷ b ∷ [])
              (λ accepted.
                let (a1, b0) = reply_bytes a b accepted in
                Talks-pure (log h stream) tt out (inn ++ a ∷ b ∷ []) (rw (a1, b0) p))
              (λ refused.
                Talks-fail (log h stream) auth_failed out (inn ++ a ∷ b ∷ [])
                  (grow out inn (a ∷ b ∷ []) d)))
          bs two
      where
        auth_failed : Error
        auth_failed = socks_error (codes "username/password auth failed")

        reply_bytes : (a b : ℕ) → (nat_eq a 1 && nat_eq b 0) ≡ true → (a ≡ 1) × (b ≡ 0)
        reply_bytes a b accepted = ground arith

    Talks-auth :
        (user pass : Text) (out : List ℕ)
        → D out inn
        → ((sent rest : List ℕ)
            → length (as_bytes user) ≤ 255
            → length (as_bytes pass) ≤ 255
            → sent ++ rest ≡ auth_request user pass
            → D (out ++ sent) inn)
        → (length (as_bytes user) ≤ 255
            → length (as_bytes pass) ≤ 255
            → P tt (out ++ auth_request user pass) (inn ++ 1 ∷ 0 ∷ []))
        → Talks (log h stream) (socks5_auth tcp stream user pass) out inn P (λ _. D)
    unfolding socks5_auth
    Talks-auth user pass out d d' p =
        let request = auth_request user pass in
        Talks-if (log h stream)
          (ltb 255 (length (as_bytes user)) || ltb 255 (length (as_bytes pass))) (fail too_long)
          exchange out inn (λ long. Talks-fail (log h stream) too_long out inn d)
          (λ short.
            let (u, v) = fits short in
            let all : D (out ++ request) inn = d' request [] u v (append-nil request) in
            Talks-send h stream (λ _. receive_exact tcp stream 2 >>= check_auth tcp) request out inn
              (Talks-exact h stream (check_auth tcp) 2 (out ++ request) inn
                (λ bs two _. Talks-check_auth (out ++ request) bs two all (p u v))
                (λ e more. grow (out ++ request) inn more all))
              (λ e sent rest whole. d' sent rest u v whole))
      where
        too_long : Error
        too_long = Error.invalid_argument (codes "SOCKS5 username/password too long")

        exchange : Action W (Unit {0})
        exchange =
            send tcp stream (auth_request user pass)
            >> (receive_exact tcp stream 2 >>= check_auth tcp)

        fits :
            (ltb 255 (length (as_bytes user)) || ltb 255 (length (as_bytes pass))) ≡ false
            → (length (as_bytes user) ≤ 255) × (length (as_bytes pass) ≤ 255)
        fits short = ground arith

  pub Talks-authenticate :
      {P : Unit {0} → List ℕ → List ℕ → Type 0} (auth : Auth) (out bs : List ℕ)
      → length bs ≡ 2
      → ((i : List ℕ) → D out i)
      → ((user pass : Text)
          → auth ≡ some (user, pass)
          → (sent rest : List ℕ) → length (as_bytes user) ≤ 255
          → length (as_bytes pass) ≤ 255
          → sent ++ rest ≡ auth_request user pass
          → D (out ++ sent) (5 ∷ 2 ∷ []))
      → P tt out (5 ∷ 0 ∷ [])
      → ((user pass : Text)
          → auth ≡ some (user, pass)
          → length (as_bytes user) ≤ 255
          → length (as_bytes pass) ≤ 255
          → P tt (out ++ auth_request user pass) (5 ∷ 2 ∷ 1 ∷ 0 ∷ []))
      → Talks (log h stream) (authenticate tcp stream auth bs) out bs P (λ _. D)
  unfolding authenticate user_pass
  Talks-authenticate {P} auth out bs two d asked_for none_needed logged_in =
      two_bytes (λ ds. Talks (log h stream) (authenticate tcp stream auth ds) out ds P (λ _. D))
        by_method bs two
    where
      by_auth :
          (auth' : Auth)
          → auth ≡ auth'
          → Talks (log h stream) (user_pass tcp stream auth') out (5 ∷ 2 ∷ []) P (λ _. D)
      by_auth none e = Talks-fail (log h stream) _ out (5 ∷ 2 ∷ []) (d _)
      by_auth (some (user, pass)) e =
          Talks-auth (5 ∷ 2 ∷ []) user pass out (d _) (asked_for user pass e)
            (logged_in user pass e)

      by_method :
          (a b : ℕ)
          → Talks
              (log h stream)
              (authenticate tcp stream auth (a ∷ b ∷ []))
              out
              (a ∷ b ∷ [])
              P
              (λ _. D)
      by_method a b = elim (Bool-cases (nat_eq a 5)) [
        | inr other ↦ rw other (Talks-fail (log h stream) bad_version out (a ∷ b ∷ []) (d _))
        | inl five ↦ elim (Bool-cases (nat_eq b 0)) [
          | inl no_auth ↦
              rw ((nat_eq_iff a 5).0 five, (nat_eq_iff b 0).0 no_auth)
                (Talks-pure (log h stream) tt out (5 ∷ 0 ∷ []) none_needed)
          | inr some_auth ↦ elim (Bool-cases (nat_eq b 2)) [
            | inl asked ↦ rw ((nat_eq_iff a 5).0 five, (nat_eq_iff b 2).0 asked) (by_auth auth refl)
            | inr neither ↦
                rw (five, some_auth, neither)
                  (Talks-if (log h stream) (nat_eq b 0xff) (fail rejected) (fail unsupported) out
                    (a ∷ b ∷ []) (λ _. Talks-fail (log h stream) rejected out (a ∷ b ∷ []) (d _))
                    (λ _. Talks-fail (log h stream) unsupported out (a ∷ b ∷ []) (d _)))
          ]
        ]
      ]
        where
          bad_version : Error
          bad_version =
              socks_error (codes "invalid SOCKS version in method reply: " ++ display_u8 a)

          rejected : Error
          rejected = socks_error (codes "proxy rejected all authentication methods")

          unsupported : Error
          unsupported = socks_error (codes "unsupported SOCKS auth method: " ++ display_u8 b)
