-- ===== src/EventFilter/Fields.antt =====
-- The two fields of the filter register.
use alice_hlt_librorc.Base.{
  ℕ, ◌-◌, ◌*◌, ◌^◌, ◌<◌, ◌≡◌, refl, arith, Bool, true, false, ◌==◌, if◌then◌else◌, not, bit_and,
  bit_or,
}
use alice_hlt_librorc.Base.Bits.{bit, bit-or, bit-and, bit-le}
use alice_hlt_librorc.Base.Slices.{bit-mask, bit-complement, bit-get_one}
use alice_hlt_librorc.Bar.{Bar}
use alice_hlt_librorc.Bar.Memory.{IsMemory}
use alice_hlt_librorc.Bar.Fields.{IsField, Modifies-IsField}
use alice_hlt_librorc.Link.{Link, ddl_reg, set_ddl_reg}
use alice_hlt_librorc.Registers.{rorc_reg_ddl_filter_ctrl}
use alice_hlt_librorc.Ddl.Fields.{ddl_address}
use alice_hlt_librorc.EventFilter.{set_filter_all, get_filter_all, set_filter_mask, get_filter_mask}

abbrev flag_of : Bool → ℕ
flag_of true = 1
flag_of false = 0

flag_of_lem : (f : Bool) → not (flag_of f == 0) ≡ f
flag_of_lem true = refl
flag_of_lem false = refl

-- What `setFilterAll` makes of the register.
abbrev filter_value : Bool → ℕ → ℕ
filter_value filter_all reg =
    if filter_all then bit_or reg (1 * 2 ^ 31) else bit_and reg (2 ^ 32 - 1 - 1 * 2 ^ 31)

bit-filter_value :
    (filter_all : Bool) (reg j : ℕ)
    → j < 32
    → bit j (filter_value filter_all reg) ≡ (if j == 31 then flag_of filter_all else bit j reg)
bit-filter_value true reg j h = rw (bit-or j, bit-mask 31 1 j) (ground (arith, bit-le j reg))
bit-filter_value false reg j h =
    rw (bit-and j, bit-complement 32 (1 * 2 ^ 31) j (omega arith) h, bit-mask 31 1 j)
      (ground (arith, bit-le j reg))

module _ {W : Type 0} (bar : Bar W) (word : ℕ → W → ℕ) (memory : IsMemory bar word) (l : Link) where
  -- On registers that keep their values, the filter mask is a field of 24 bits, and `setFilterAll`
  -- sets bit 31, keeps the other bits, and is read back by `getFilterAll`.
  pub filter_ctrl-fields :
      let ctrl = ddl_address l rorc_reg_ddl_filter_ctrl in
      IsField bar word ctrl 0 24 (get_filter_mask bar l) (set_filter_mask bar l)
      × ((filter_all : Bool) (w : W)
          → (get_filter_all bar l (set_filter_all bar l filter_all w).1).0 ≡ filter_all)
      × ((filter_all : Bool) (w : W) (j : ℕ)
          → j < 31
          → bit j (word ctrl (set_filter_all bar l filter_all w).1) ≡ bit j (word ctrl w))
  unfolding ddl_reg set_ddl_reg set_filter_all get_filter_all set_filter_mask get_filter_mask
  filter_ctrl-fields =
      let ctrl = ddl_address l rorc_reg_ddl_filter_ctrl in
      let after : (f : Bool) (w : W)
          → word ctrl (bar.set32 ctrl (filter_value f (word ctrl w)) w).1
            ≡ filter_value f (word ctrl w) =
        λ f w. ground (arith, memory.writes ctrl (filter_value f (word ctrl w)) w ctrl) in
      (
        Modifies-IsField bar word memory ctrl 0 24 _ _ (omega arith) (λ v w. refl) (λ w. refl),
        λ f w.
            rw
              (
                memory.reads ctrl w,
                memory.reads ctrl,
                after f w,
                bit-get_one 31,
                bit-filter_value f (word ctrl w) 31 (omega arith),
              )
              (flag_of_lem f),
        λ f w j h.
            rw (memory.reads ctrl w, after f w, bit-filter_value f (word ctrl w) j (omega arith))
              (ground arith),
      )
