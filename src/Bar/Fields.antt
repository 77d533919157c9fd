-- ===== src/Bar/Fields.antt =====
-- What it means that a pair of operations sets and gets one field of a register.
use alice_hlt_librorc.Base.{
  ℕ, ◌+◌, ◌-◌, ◌%◌, ◌^◌, ◌≤◌, ◌<◌, ◌≡◌, ◌≢◌, refl, sym, arith, ◌==◌, Bool, not, bit_and, ◌*◌,
  if◌then◌else◌,
}
use alice_hlt_librorc.Base.State.{State}
use alice_hlt_librorc.Base.Bits.{bit}
use alice_hlt_librorc.Base.Slices.{
  put_field, get_field, inside, bit-put_field, get_field-put_field, flag_test, bit-get_one,
}
use alice_hlt_librorc.Bar.{Bar}
use alice_hlt_librorc.Bar.Memory.{IsMemory}

module _ {W : Type 0} (bar : Bar W) where
  -- `op` is one read of a register and one write of what `f` makes of it.
  abbrev pub Modifies : ℕ → (ℕ → ℕ) → State W (Unit {0}) → Type 0
  Modifies address f op =
      (w : W) → op w ≡ bar.set32 address (f (bar.get32 address w).0) (bar.get32 address w).1

  -- `op` is one read of a register, and returns what `f` makes of it.
  abbrev pub Reads : {A : Type 0} → ℕ → (ℕ → A) → State W A → Type 0
  Reads address f op = (w : W) → op w ≡ (f (bar.get32 address w).0, (bar.get32 address w).1)

  module _ (word : ℕ → W → ℕ) where
    -- From `w`, `op` gives the `n` bits from bit `k` on of a register the low bits of `v`. It keeps
    -- the other bits and all other registers.
    pub record SetsField (address k n v : ℕ) (op : State W (Unit {0})) (w : W) : Type 0 where
      pub bits :
          (j : ℕ)
          → j < 32
          → bit j (word address (op w).1)
            ≡ (if inside k n j then bit (j - k) v else bit j (word address w))
      pub others : (b : ℕ) → b ≢ address → word b (op w).1 ≡ word b w

    -- `set` sets the field, and `get` reads it: after `set v` it returns the low `n` bits of `v` and
    -- changes nothing.
    pub record IsField (address k n : ℕ) (get : State W ℕ) (set : ℕ → State W (Unit {0}))
        : Type 0 where
      pub sets : (v : ℕ) (w : W) → SetsField address k n v (set v) w
      pub reads_back : (v : ℕ) (w : W) → get (set v w).1 ≡ (v % 2 ^ n, (set v w).1)

    -- The same of one bit that `get` reads as a Boolean.
    pub record IsFlag (address k : ℕ) (get : State W Bool) (set : ℕ → State W (Unit {0}))
        : Type 0 where
      pub sets : (v : ℕ) (w : W) → SetsField address k 1 v (set v) w
      pub reads_back : (v : ℕ) (w : W) → get (set v w).1 ≡ (v % 2 == 1, (set v w).1)

    module _ (memory : IsMemory bar word) where
      modified :
          (address : ℕ) (f : ℕ → ℕ) (op : State W (Unit {0})) (w : W) (b : ℕ)
          → Modifies address f op
          → word b (op w).1 ≡ (if b == address then f (word address w) else word b w)
      modified address f op w b modifies =
          rw (modifies w, memory.reads address w) (memory.writes address (f (word address w)) w b)

      pub Modifies-SetsField :
          (address k n v : ℕ) (op : State W (Unit {0})) (w : W)
          → k + n ≤ 32
          → Modifies address (put_field k n v) op
          → SetsField address k n v op w
      Modifies-SetsField address k n v op w fits modifies =
          let after : (b : ℕ)
              → word b (op w).1
                ≡ (if b == address then put_field k n v (word address w) else word b w) =
            λ b. modified address (put_field k n v) op w b modifies in
          record {
            bits = λ j h.
                let written : word address (op w).1 ≡ put_field k n v (word address w) =
                  ground (arith, after address) in
                rw written (bit-put_field k n v (word address w) j fits h);
            others = λ b ne. ground (arith, after b, ne);
          }

      pub Modifies-IsField :
          (address k n : ℕ) (get : State W ℕ) (set : ℕ → State W (Unit {0}))
          → k + n ≤ 32
          → ((v : ℕ) → Modifies address (put_field k n v) (set v))
          → Reads address (get_field k n) get
          → IsField address k n get set
      Modifies-IsField address k n get set fits modifies reads = record {
        sets = λ v w. Modifies-SetsField address k n v (set v) w fits (modifies v);
        reads_back = λ v w.
            let after = modified address (put_field k n v) (set v) w address (modifies v) in
            let written : word address (set v w).1 ≡ put_field k n v (word address w) =
              ground (arith, after) in
            rw
              (
                reads (set v w).1,
                memory.reads address (set v w).1,
                written,
                get_field-put_field k n v (word address w) fits,
              )
              refl;
      }

      pub Modifies-IsFlag :
          (address k : ℕ) (get : State W Bool) (set : ℕ → State W (Unit {0}))
          → k < 32
          → ((v : ℕ) → Modifies address (put_field k 1 v) (set v))
          → Reads address (λ reg. not (bit_and reg (1 * 2 ^ k) == 0)) get
          → IsFlag address k get set
      Modifies-IsFlag address k get set fits modifies reads = record {
        sets = λ v w. Modifies-SetsField address k 1 v (set v) w (omega arith) (modifies v);
        reads_back = λ v w.
            let after = modified address (put_field k 1 v) (set v) w address (modifies v) in
            let written : word address (set v w).1 ≡ put_field k 1 v (word address w) =
              ground (arith, after) in
            rw
              (
                reads (set v w).1,
                memory.reads address (set v w).1,
                written,
                flag_test k (put_field k 1 v (word address w)),
                sym (bit-get_one k (put_field k 1 v (word address w))),
                get_field-put_field k 1 v (word address w) (omega arith),
              )
              refl;
      }
