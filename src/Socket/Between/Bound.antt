-- ===== src/Socket/Between/Bound.antt =====
-- The descriptors that `fd_inode` of `src/socket/tracker.rs` records for one inode.
use proxec.Base.{
  ℕ, ◌≡◌, ◌≢◌, refl, sym, ◌∙◌, ap, inl, inr, Bool, true, false, ◌&&◌, some, [], ◌∷◌, arith, nat_eq,
  if◌then◌else◌, Eq-ℕ, Eq-pair, Eq-text, pair_eq, pair_eq_iff, text_eq, text_eq_iff, Bool-cases,
}
use proxec.Base.Text.{Text}
use proxec.Base.HashMap
use proxec.Base.HashMap.{HashMap}
use proxec.Socket.Cleanup.{binds}

module _ (key : ℕ × ℕ) (inode : Text) where
  -- Every entry for the inode is at `key`.
  abbrev pub Sole : HashMap (ℕ × ℕ) Text → Type 0
  Sole [] = Unit
  Sole ((k, i) ∷ m) = (i ≡ inode → k ≡ key) × Sole m

  Sole-if : (b : Bool) (m m' : HashMap (ℕ × ℕ) Text) → Sole m → Sole m' → Sole (if b then m else m')
  Sole-if true m m' s s' = s
  Sole-if false m m' s s' = s'

  pub Sole-remove : (k : ℕ × ℕ) (m : HashMap (ℕ × ℕ) Text) → Sole m → Sole (HashMap.remove k m)
  unfolding HashMap.remove
  Sole-remove k [] s = tt
  Sole-remove k ((j, i) ∷ m) (h, s) =
      let rest = Sole-remove k m s in
      Sole-if (pair_eq j k) (HashMap.remove k m) ((j, i) ∷ HashMap.remove k m) rest (h, rest)

  pub Sole-insert :
      (k : ℕ × ℕ) (i : Text) (m : HashMap (ℕ × ℕ) Text)
      → i ≢ inode
      → Sole m
      → Sole (HashMap.insert k i m)
  unfolding HashMap.insert
  Sole-insert k i m ne s = (λ e. absurd (ne e), Sole-remove k m s)

  pub Sole-retain :
      (p : ℕ × ℕ → Text → Bool) (m : HashMap (ℕ × ℕ) Text) → Sole m → Sole (HashMap.retain p m)
  unfolding HashMap.retain
  Sole-retain p [] s = tt
  Sole-retain p ((k, i) ∷ m) (h, s) =
      let rest = Sole-retain p m s in
      Sole-if (p k i) ((k, i) ∷ HashMap.retain p m) (HashMap.retain p m) (h, rest) rest

  -- No other process has a descriptor for the inode.
  pub Sole-binds :
      (tgid : ℕ) (m : HashMap (ℕ × ℕ) Text) → tgid ≢ key.0 → Sole m → binds tgid inode m ≡ false
  Sole-binds tgid [] ne s = refl
  Sole-binds tgid (((p, fd), i) ∷ m) ne (h, s) =
      elim (Bool-cases (nat_eq p tgid && text_eq i inode)) [
        | inl both ↦
            let e : i ≡ inode = ground (arith, both, text_eq_iff i inode) in
            let at_key : (p, fd) ≡ key = h e in
            let same : p ≡ key.0 = ap (λ (k : ℕ × ℕ). k.0) at_key in
            absurd (ground (arith, both, same, ne))
        | inr other ↦ ground (arith, other, Sole-binds tgid m ne s)
      ]

  -- What another descriptor is recorded for is another inode.
  pub Sole-get :
      (k : ℕ × ℕ) (i : Text) (m : HashMap (ℕ × ℕ) Text)
      → k ≢ key
      → Sole m
      → HashMap.get k m ≡ some i
      → i ≢ inode
  unfolding HashMap.get
  Sole-get k i [] ne s e same = absurd (cc)
  Sole-get k i ((j, v) ∷ m) ne (h, s) e same = elim (Bool-cases (pair_eq j k)) [
    | inl at ↦
        let first : some v ≡ some i = ground (arith, e, at) in
        let v_same : v ≡ inode = cc in ne (sym ((pair_eq_iff j k).0 at) ∙ h v_same)
    | inr other ↦ Sole-get k i m ne s (ground (arith, e, other)) same
  ]
