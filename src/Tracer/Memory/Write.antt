-- ===== src/Tracer/Memory/Write.antt =====
-- The writes of `src/tracer/memory.rs` word by word on mapped memory: exactly the bytes of the buffer
-- change.
use native.Mathlib.Nat.{mod-eq_of_lt, add_assoc}
use proxec.Base.{
  ℕ, zero, suc, ◌+◌, ◌*◌, ◌-◌, ◌/◌, ◌%◌, ◌^◌, ◌≤◌, ◌<◌, ◌≡◌, refl, ap, ◌∙◌, ◌⊎◌, inl, inr, true,
  false, ◌&&◌, List, ◌++◌, ltb, leb, arith, if◌then◌else◌, drop, get_or, length, IsBytes,
  Bool-cases, nat_eq,
}
use proxec.Base.Bytes.{ne_bytes, from_ne_bytes, ne_bytes-from_ne_bytes}
use proxec.Error.{Error}
use proxec.Action.{pure, ◌>>=◌}
use proxec.Result.{Result, ok, err}
use proxec.Os.{Os}
use proxec.Tracer.Memory.{slice, poke, write_words, write_rest, write_bytes}
use proxec.Tracer.Memory.Laws.{Memory}
use proxec.Tracer.Memory.Layout.{
  tabulate, byte_of_word, get_or-slice, slice-IsBytes, tabulate-IsBytes, get_or-tabulate,
  length-slice, get_or-splice, splice-IsBytes,
}

module _ {W : Type 0} (sys : Os W) (pid : ℕ) (m : Memory sys pid) where
  open m use {byte, mapped}

  -- The bytes from `addr + lo` up to `addr + hi` are those of the buffer; no other byte and no
  -- mapping has changed, and the call succeeded.
  pub record IsWritten (addr : ℕ) (buf : List ℕ) (lo hi : ℕ) (w : W)
      (r : Result Error (Unit {0}) × W) : Type 0 where
    pub done : r.0 ≡ ok tt
    pub bytes :
        (x : ℕ)
        → byte x r.1
          ≡ (if leb (addr + lo) x && ltb x (addr + hi) then get_or buf (x - addr) 0 else byte x w)
    pub mappings : (x : ℕ) → mapped x r.1 ≡ mapped x w

  -- The addresses from `addr` on, `n` of them, are mapped.
  abbrev pub IsMapped : ℕ → ℕ → W → Type 0
  IsMapped addr n w = (k : ℕ) → k < n → mapped (addr + k) w ≡ true

  -- A word whose bytes are those of a list.
  poke_list :
      (a : ℕ) (bs : List ℕ) (w : W)
      → IsBytes bs
      → IsMapped a 8 w
      → (x : ℕ)
      → byte x (sys.ptrace_write pid a (from_ne_bytes bs) w).1
        ≡ (if leb a x && ltb x (a + 8) then get_or bs (x - a) 0 else byte x w)
  poke_list a bs w good there x =
      m.poke_byte a (from_ne_bytes bs) w there x
      ∙ ap (λ (b : ℕ). if leb a x && ltb x (a + 8) then b else byte x w)
          (byte_of_word bs (x - a) good)

  -- One word of the buffer.
  poke-IsWritten :
      (addr offset : ℕ) (buf : List ℕ) (w : W)
      → addr + offset < 2 ^ 64
      → IsBytes buf
      → IsMapped (addr + offset) 8 w
      → IsWritten addr buf offset
          (offset + 8)
          w
          (poke sys pid (addr + offset) (from_ne_bytes (slice offset 8 buf)) w)
  poke-IsWritten addr offset buf w fits good there = rw (mod-eq_of_lt fits) (record {
    done = rw (m.poke_done (addr + offset) (from_ne_bytes (slice offset 8 buf)) w there);
    bytes = λ x. ground (
      arith,
      poke_list (addr + offset) (slice offset 8 buf) w (slice-IsBytes offset 8 buf good) there x,
      get_or-slice offset 8 (x - (addr + offset)) buf,
    );
    mappings = λ x. m.poke_mapped (addr + offset) (from_ne_bytes (slice offset 8 buf)) w x;
  })

  -- Two ranges one after the other, and the empty range.
  IsWritten-bind :
      (addr : ℕ) (buf : List ℕ) (lo mid hi : ℕ) (w : W) (r : Result Error (Unit {0}) × W)
      (k : W → Result Error (Unit {0}) × W)
      → lo ≤ mid
      → mid ≤ hi
      → IsWritten addr buf lo mid w r
      → IsWritten addr buf mid hi r.1 (k r.1)
      → IsWritten addr buf lo hi w (elim r.0 [ ok _ ↦ k r.1 | err e ↦ (err e, r.1) ])
  IsWritten-bind addr buf lo mid hi w (ok u, w') k h h' first second = record {
    done = second.done;
    bytes = λ x. ground (arith, first.bytes x, second.bytes x);
    mappings = λ x. second.mappings x ∙ first.mappings x;
  }
  IsWritten-bind addr buf lo mid hi w (err e, w') k h h' first second = absurd (not_err first.done)
    where
      not_err : err e ≡ ok tt → ⊥
      not_err q = cc

  IsWritten-nil : (addr : ℕ) (buf : List ℕ) (lo : ℕ) (w : W) → IsWritten addr buf lo lo w (ok tt, w)
  IsWritten-nil addr buf lo w = record {
    done = refl;
    bytes = λ x. ground arith;
    mappings = λ x. refl;
  }

  write_words-IsWritten :
      (addr : ℕ) (buf : List ℕ) (count offset hi : ℕ) (w : W)
      → offset + count * 8 ≡ hi
      → addr + hi < 2 ^ 64
      → IsBytes buf
      → IsMapped addr hi w
      → IsWritten addr buf offset hi w (write_words sys pid addr buf count offset w)
  unfolding write_words
  write_words-IsWritten addr buf zero offset hi w e fits good there =
      let q : hi ≡ offset = omega arith in rw q (IsWritten-nil addr buf offset w)
  write_words-IsWritten addr buf (suc count) offset hi w e fits good there =
      IsWritten-bind addr buf offset (offset + 8) hi w
        (poke sys pid (addr + offset) (from_ne_bytes (slice offset 8 buf)) w)
        (write_words sys pid addr buf count (offset + 8)) (omega arith) (omega arith) first
        (write_words-IsWritten addr buf count (offset + 8) hi _ (omega arith) fits good
          (λ k l. first.mappings (addr + k) ∙ there k l))
    where
      first :
          IsWritten addr buf offset
            (offset + 8)
            w
            (poke sys pid (addr + offset) (from_ne_bytes (slice offset 8 buf)) w)
      first =
          poke-IsWritten addr offset buf w (omega arith) good (λ k l.
            ap (λ j. mapped j w) (add_assoc addr offset k) ∙ there (offset + k) (omega arith))

  -- The bytes behind the last full word: the rest of that word is written back as it was.
  write_rest-IsWritten :
      (addr : ℕ) (buf : List ℕ) (offset remainder : ℕ) (w : W)
      → remainder < 8
      → offset + remainder ≡ length buf
      → addr + offset < 2 ^ 64
      → IsBytes buf
      → IsMapped (addr + offset) 8 w
      → IsWritten addr buf offset (length buf) w (write_rest sys pid addr buf offset remainder w)
  write_rest-IsWritten addr buf offset remainder w small e fits good there =
      rw (enters, mod-eq_of_lt fits)
        (record {
          done =
              rw (m.poke_done (addr + offset) (from_ne_bytes (part ++ drop remainder old)) w there);
          bytes = λ x. ground (
            arith,
            poke_list (addr + offset) (part ++ drop remainder old) w
                (splice-IsBytes part old remainder (slice-IsBytes offset remainder buf good)
                  old_bytes)
                there x,
            spliced (x - (addr + offset)),
            get_or-slice offset remainder (x - (addr + offset)) buf,
            get_or-tabulate 8 (x - (addr + offset)) (λ k. byte (addr + offset + k) w),
          );
          mappings =
              λ x. m.poke_mapped (addr + offset) (from_ne_bytes (part ++ drop remainder old)) w x;
        })
    where
      old : List ℕ
      old = tabulate 8 (λ k. byte (addr + offset + k) w)

      part : List ℕ
      part = slice offset remainder buf

      old_bytes : IsBytes old
      old_bytes =
          tabulate-IsBytes 8 (λ k. byte (addr + offset + k) w)
            (λ k. m.byte_lt (addr + offset + k) w)

      same : ne_bytes 8 (from_ne_bytes old) ≡ old
      same = ne_bytes-from_ne_bytes old old_bytes

      enters :
          write_rest sys pid addr buf offset remainder w
          ≡ poke sys pid (addr + offset) (from_ne_bytes (part ++ drop remainder old)) w
      enters =
          unfold write_rest in
          rw (mod-eq_of_lt fits, ◌>>=◌)
            (rw (m.peek (addr + offset) w there) (rw (same, mod-eq_of_lt fits) refl))

      spliced :
          (k : ℕ)
          → get_or (part ++ drop remainder old) k 0
            ≡ (if ltb k remainder then get_or part k 0 else get_or old k 0)
      spliced k = rw (length-slice offset remainder buf (omega arith)) at (get_or-splice part old k)

  -- A buffer, the last word it reaches into mapped as a whole.
  pub write_bytes-IsWritten :
      (addr : ℕ) (buf : List ℕ) (w : W)
      → addr + length buf + 8 < 2 ^ 64
      → IsBytes buf
      → IsMapped addr ((length buf + 7) / 8 * 8) w
      → IsWritten addr buf 0 (length buf) w (write_bytes sys pid addr buf w)
  write_bytes-IsWritten addr buf w fits good there =
      unfold write_bytes in
      IsWritten-bind addr buf 0 (length buf / 8 * 8) (length buf) w
        (write_words sys pid addr buf (length buf / 8) 0 w) rest (omega arith) (omega arith) words
        (rest_written (Bool-cases (nat_eq (length buf % 8) 0)))
    where
      w' : W
      w' = (write_words sys pid addr buf (length buf / 8) 0 w).1

      rest : W → Result Error (Unit {0}) × W
      rest =
          if nat_eq (length buf % 8) 0
          then pure tt
          else write_rest sys pid addr buf (length buf / 8 * 8) (length buf % 8)

      words :
          IsWritten addr buf 0
            (length buf / 8 * 8)
            w
            (write_words sys pid addr buf (length buf / 8) 0 w)
      words =
          write_words-IsWritten addr buf (length buf / 8) 0 (length buf / 8 * 8) w (omega arith)
            (omega arith) good (λ k l. there k (omega arith))

      rest_written :
          (nat_eq (length buf % 8) 0 ≡ true) ⊎ (nat_eq (length buf % 8) 0 ≡ false)
          → IsWritten addr buf (length buf / 8 * 8) (length buf) w' (rest w')
      rest_written (inl none_left) =
          let e : length buf / 8 * 8 ≡ length buf = ground arith in
          rw (none_left, e) (IsWritten-nil addr buf (length buf) w')
      rest_written (inr some_left) = rw some_left (
          write_rest-IsWritten addr buf (length buf / 8 * 8) (length buf % 8) w' (omega arith)
            (omega arith) (omega arith) good
            (λ k l.
              words.mappings (addr + length buf / 8 * 8 + k)
              ∙ ap (λ j. mapped j w) (add_assoc addr (length buf / 8 * 8) k)
              ∙ there (length buf / 8 * 8 + k) (ground arith)))
