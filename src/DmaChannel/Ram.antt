-- ===== src/DmaChannel/Ram.antt =====
-- What `configureBufferDescriptorRam` leaves in the descriptor RAM of the firmware.
use native.Mathlib.Decide.{dec_lt}
use alice_hlt_librorc.Base.{
  ℕ, suc, ◌+◌, ◌-◌, ◌*◌, ◌%◌, ◌/◌, ◌^◌, ◌<◌, ◌≡◌, ◌&&◌, List, [], ◌∷◌, arith, All, get_or, length,
  ◌==◌, leb, u32, if◌then◌else◌,
}
use alice_hlt_librorc.Base.Bits.{bit_or_fields, bit_or_swap, bit_and_mask}
use alice_hlt_librorc.Base.State.{}
use alice_hlt_librorc.Bar.{Bar}
use alice_hlt_librorc.Buffer.{ScatterGatherEntry}
use alice_hlt_librorc.Link.{Link, memcopy, set_pci_reg}
use alice_hlt_librorc.Registers.{rorc_reg_sgentry_addr_low, rorc_reg_sgentry_ctrl}
use alice_hlt_librorc.DmaChannel.Pointers.{low_word, high_word}
use alice_hlt_librorc.DmaChannel.SgList.{ram_ctrl, push_sglist_entry_to_ram, write_entries}
use alice_hlt_librorc.DmaChannel.Prepare.{Short}

-- What the comment at `pushSglistEntryToRAM` says of the firmware: a write of the control register
-- with bit 31 set stores the three entry registers in RAM bit 30 at the address in bits 29 to 0.
pub record DescriptorRam {W : Type 0} (bar : Bar W) (l : Link) : Type 0 where
  pub ram : ℕ → ℕ → W → ScatterGatherEntry
  pub stores :
      (low high len sel a : ℕ) (w : W)
      → sel < 2
      → a < 2 ^ 30
      → (sel' a' : ℕ)
      → ram sel' a'
          (set_pci_reg bar l rorc_reg_sgentry_ctrl
            (2 ^ 31 + sel * 2 ^ 30 + a)
            (memcopy bar l rorc_reg_sgentry_addr_low (low ∷ high ∷ len ∷ []) w).1).1
        ≡ (if sel' == sel && a' == a
            then record { pointer = high * 2 ^ 32 + low; length = len }
            else ram sel' a' w)

abbrev pub empty_entry : ScatterGatherEntry
empty_entry = record { pointer = 0; length = 0 }

ram_ctrl_lem : (sel a : ℕ) → sel < 2 → a < 2 ^ 30 → ram_ctrl sel a ≡ 2 ^ 31 + sel * 2 ^ 30 + a
unfolding ram_ctrl
ram_ctrl_lem sel a hs ha = ground (
  arith,
  bit_or_swap (2 ^ 31) a (2 ^ 30),
  bit_or_swap (2 ^ 31) a 0,
  bit_or_fields 30 2 a,
  bit_or_fields 30 3 a,
)

module _ {W : Type 0} (bar : Bar W) (l : Link) (fw : DescriptorRam bar l) where
  open fw use {ram, stores}

  push_lem :
      (e : ScatterGatherEntry) (sel a : ℕ) (w : W)
      → Short e
      → sel < 2
      → a < 2 ^ 30
      → (sel' a' : ℕ)
      → ram sel' a' (push_sglist_entry_to_ram bar l e.pointer (u32 e.length) (ram_ctrl sel a) w).1
        ≡ (if sel' == sel && a' == a then e else ram sel' a' w)
  unfolding push_sglist_entry_to_ram
  push_lem e sel a w short hs ha sel' a' =
      let low : low_word e.pointer ≡ e.pointer % 2 ^ 32 =
        omega (arith, bit_and_mask 32 e.pointer) in
      let high : high_word e.pointer ≡ e.pointer / 2 ^ 32 = omega arith in
      let len : low_word (u32 e.length) ≡ e.length =
        omega (arith, bit_and_mask 32 (u32 e.length)) in
      let law = stores (e.pointer % 2 ^ 32) (e.pointer / 2 ^ 32) e.length sel a w hs ha sel' a' in
      rw (low, high, len, ram_ctrl_lem sel a hs ha) (ground (arith, law))

  -- With firmware that stores entries as documented, entries of 32-bit length and addresses below
  -- 2 ^ 30, `write_entries` leaves the entries one after another from address `a` on in the selected
  -- RAM, and an empty one after them. No other cell of either RAM changes.
  pub write_entries_lem :
      (es : List ScatterGatherEntry) (sel a : ℕ) (w : W)
      → All Short es
      → sel < 2
      → a + length es < 2 ^ 30
      → (sel' a' : ℕ)
      → ram sel' a' (write_entries bar l sel a es w).1 ≡ (
          if sel' == sel && (leb a a' && leb a' (a + length es))
          then get_or es (a' - a) empty_entry
          else ram sel' a' w)
  unfolding write_entries
  write_entries_lem [] sel a w short hs ha sel' a' =
      ground (arith, push_lem empty_entry sel a w (omega arith) hs (omega arith) sel' a')
  write_entries_lem (e ∷ es) sel a w short hs ha sel' a' =
      let pushed = (push_sglist_entry_to_ram bar l e.pointer (u32 e.length) (ram_ctrl sel a) w).1 in
      let next : u32 (a + 1) ≡ a + 1 = omega arith in
      let here = push_lem e sel a w short.0 hs (omega arith) sel' a' in
      let rest = write_entries_lem es sel (a + 1) pushed short.1 hs (omega arith) sel' a' in
      elim (dec_lt a a') [
        | yes lt ↦
            let i : a' - a ≡ suc (a' - (a + 1)) = omega arith in
            rw (next, i) (ground (arith, here, rest))
        | no ge ↦ let i : a' - a ≡ 0 = omega arith in rw (next, i) (ground (arith, here, rest))
      ]
