-- ===== src/Flash/Layout.antt =====
-- `getFlashArchitecture`: the chip is cut into 131 blocks, 127 of 128 kB and 4 of 32 kB.
use native.Mathlib.Decide.{dec_lt}
use alice_hlt_librorc.Base.{
  ℕ, ◌+◌, ◌-◌, ◌*◌, ◌/◌, ◌^◌, ◌<◌, ◌≤◌, ◌≡◌, Option, none, some, arith, bit_and, leb, ltb,
  if◌then◌else◌, sub32, ◌>>>◌,
}
use alice_hlt_librorc.Base.Bits.{bit_and_shifted, bit_and_mask}

pub record FlashArchitecture : Type 0 where
  pub blkaddr : ℕ
  pub blksize : ℕ
  pub blknum : ℕ
  pub bankaddr : ℕ
  pub banksize : ℕ
  pub banknum : ℕ

-- The block at an address in words, among the 127 main ones and among the upper four.
abbrev main_block : ℕ → FlashArchitecture
main_block addr = record {
  blkaddr = bit_and addr 0xffff0000;
  blksize = 0x20000;
  blknum = sub32 130 (addr >>> 16);
  bankaddr = bit_and addr 0xfff80000;
  banksize = 0x100000;
  banknum = sub32 15 (addr >>> 19);
}

abbrev top_block : ℕ → FlashArchitecture
top_block addr = record {
  blkaddr = bit_and addr 0xffffc000;
  blksize = 0x8000;
  blknum = sub32 3 (bit_and (addr >>> 14) 3);
  bankaddr = bit_and addr 0xfff80000;
  banksize = 0x100000;
  banknum = sub32 15 (addr >>> 19);
}

-- `none` is the result -1.
unfoldable pub get_flash_architecture : ℕ → Option FlashArchitecture
get_flash_architecture addr =
    if leb addr 0x7effff
    then some (main_block addr)
    else if leb addr 0x7fffff
    then some (top_block addr)
    else none

-- Where block `i` from the bottom starts, and what it holds in bytes.
abbrev pub block_address : ℕ → ℕ
block_address i = if ltb i 127 then i * 0x10000 else 0x7f0000 + (i - 127) * 0x4000

abbrev pub block_size : ℕ → ℕ
block_size i = if ltb i 127 then 0x20000 else 0x8000

-- The block that an address is in.
abbrev pub block_index : ℕ → ℕ
block_index addr = if ltb addr 0x7f0000 then addr / 0x10000 else 127 + (addr - 0x7f0000) / 0x4000

-- Block `i` as `getFlashArchitecture` describes it to a caller with address `addr`.
pub record Describes (addr : ℕ) (arch : FlashArchitecture) : Type 0 where
  pub inside : block_index addr < 131
  pub start : arch.blkaddr ≡ block_address (block_index addr)
  pub size : arch.blksize ≡ block_size (block_index addr)
  pub number : arch.blknum + block_index addr ≡ 130
  pub contains : arch.blkaddr ≤ addr
  pub ends : addr < arch.blkaddr + arch.blksize / 2
  pub bank : arch.bankaddr ≤ arch.blkaddr
  pub bank_ends : arch.blkaddr + arch.blksize / 2 ≤ arch.bankaddr + arch.banksize / 2
  pub bank_number : arch.banknum * 0x80000 + arch.bankaddr ≡ 15 * 0x80000

-- The masks of the three fields.
bank_mask : (addr : ℕ) → addr < 0x800000 → bit_and addr 0xfff80000 ≡ addr / 2 ^ 19 * 2 ^ 19
bank_mask addr h = omega (arith, bit_and_shifted 19 addr 0x1fff, bit_and_mask 13 (addr / 2 ^ 19))

main_mask : (addr : ℕ) → addr < 0x800000 → bit_and addr 0xffff0000 ≡ addr / 2 ^ 16 * 2 ^ 16
main_mask addr h = omega (arith, bit_and_shifted 16 addr 0xffff, bit_and_mask 16 (addr / 2 ^ 16))

top_mask : (addr : ℕ) → addr < 0x800000 → bit_and addr 0xffffc000 ≡ addr / 2 ^ 14 * 2 ^ 14
top_mask addr h = omega (arith, bit_and_shifted 14 addr 0x3ffff, bit_and_mask 18 (addr / 2 ^ 14))

-- For a word address of the 16 MB, `getFlashArchitecture` returns the one of 131 blocks that contains
-- it, its number counted from the top, and the bank that contains the block.
pub get_flash_architecture-Describes :
    (addr : ℕ)
    → addr < 0x800000
    → (arch : FlashArchitecture) × (get_flash_architecture addr ≡ some arch) × Describes addr arch
unfolding get_flash_architecture
get_flash_architecture-Describes addr h = elim (dec_lt addr 0x7f0000) [
  | yes main ↦ (
    main_block addr,
    ground arith,
    record {
      inside = ground arith;
      start = ground (arith, main_mask addr h);
      size = ground arith;
      number = ground arith;
      contains = omega (arith, main_mask addr h);
      ends = omega (arith, main_mask addr h);
      bank = omega (arith, main_mask addr h, bank_mask addr h);
      bank_ends = omega (arith, main_mask addr h, bank_mask addr h);
      bank_number = omega (arith, bank_mask addr h);
    },
  )
  | no top ↦ (
    top_block addr,
    ground arith,
    record {
      inside = ground arith;
      start = ground (arith, top_mask addr h);
      size = ground arith;
      number = ground (arith, bit_and_mask 2 (addr / 2 ^ 14));
      contains = omega (arith, top_mask addr h);
      ends = omega (arith, top_mask addr h);
      bank = omega (arith, top_mask addr h, bank_mask addr h);
      bank_ends = omega (arith, top_mask addr h, bank_mask addr h);
      bank_number = omega (arith, bank_mask addr h);
    },
  )
]
