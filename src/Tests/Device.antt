-- ===== src/Tests/Device.antt =====
-- Two boards: one whose registers change while the program sleeps, and one whose channel 0 stores
-- the entries of its descriptor RAM as the firmware does.
use alice_hlt_librorc.Base.{
  ℕ, ◌+◌, ◌-◌, ◌*◌, ◌/◌, ◌%◌, ◌^◌, List, [], ◌∷◌, ◌&&◌, ◌≡◌, ◌==◌, leb, ltb, get_or, length, refl,
  if◌then◌else◌, arith,
}
use alice_hlt_librorc.Base.State.{act}
use alice_hlt_librorc.Bar.{Bar}
use alice_hlt_librorc.Bar.Memory.{IsMemory}
use alice_hlt_librorc.Buffer.{ScatterGatherEntry}
use alice_hlt_librorc.Link.{Link, set_pci_reg, memcopy}
use alice_hlt_librorc.Registers.{rorc_reg_sgentry_ctrl}
use alice_hlt_librorc.DmaChannel.Ram.{DescriptorRam, empty_entry}

-- The state is the time that has passed; every register reads `value` of it.
abbrev pub clocked : (ℕ → ℕ) → Bar ℕ
clocked value = record {
  get32 = λ a t. (value t, t);
  set32 = λ a v t. (tt, t);
  get16 = λ a t. (value t, t);
  set16 = λ a v t. (tt, t);
  memcopy = λ a ws t. (tt, t);
  usleep = λ n t. (tt, t + n);
}

-- The entry registers, the two RAMs, and the register that all other addresses share.
pub record Board : Type 0 where
  pub low : ℕ
  pub high : ℕ
  pub len : ℕ
  pub other : ℕ
  pub ram : ℕ → ℕ → ScatterGatherEntry

store_ctrl : ℕ → Board → Board
store_ctrl v w = record w {
  ram = λ sel a.
      if sel == (v - 2 ^ 31) / 2 ^ 30 && a == v % 2 ^ 30
      then record { pointer = w.high * 2 ^ 32 + w.low; length = w.len }
      else w.ram sel a;
}

store : ℕ → ℕ → Board → Board
unfolding store_ctrl
store a v w =
    if a == 0x8000 + rorc_reg_sgentry_ctrl
    then (if leb (2 ^ 31) v then store_ctrl v w else w)
    else record w { other = v }

copy : ℕ → List ℕ → Board → Board
copy a (l ∷ h ∷ n ∷ []) w = if a == 0x8010 then record w { low = l; high = h; len = n } else w
copy a ws w = w

unfoldable pub board : Bar Board
unfolding store copy
board = record {
  get32 = λ a w. (w.other, w);
  set32 = λ a v. act (store a v);
  get16 = λ a w. (w.other, w);
  set16 = λ a v. act (store a v);
  memcopy = λ a ws. act (copy a ws);
  usleep = λ n. act (λ w. w);
}

abbrev pub first_link : Link
first_link = record { base = 0x8000; link_number = 0 }

-- Four entries fit either RAM.
abbrev pub power_on : Board
power_on = record { low = 0; high = 0; len = 0; other = 4 * 2 ^ 16; ram = λ sel a. empty_entry }

pub firmware : DescriptorRam board first_link
unfolding board set_pci_reg memcopy store_ctrl copy
firmware = record {
  ram = λ sel a w. w.ram sel a;
  stores = λ low high len sel a w hs ha sel' a'.
      let selected : (2 ^ 31 + sel * 2 ^ 30 + a - 2 ^ 31) / 2 ^ 30 ≡ sel = omega arith in
      let cell : (2 ^ 31 + sel * 2 ^ 30 + a) % 2 ^ 30 ≡ a = omega arith in
      ground (arith, selected, cell);
}

-- The state is the registers: each keeps what is written to it.
unfoldable pub registers : Bar (ℕ → ℕ)
registers = record {
  get32 = λ a w. (w a, w);
  set32 = λ a v. act (λ w b. if b == a then v else w b);
  get16 = λ a w. (w a, w);
  set16 = λ a v. act (λ w b. if b == a then v else w b);
  memcopy = λ a words.
      act (λ w b. if leb a b && ltb b (a + length words) then get_or words (b - a) 0 else w b);
  usleep = λ n. act (λ w. w);
}

pub registers-IsMemory : IsMemory registers (λ b w. w b)
unfolding registers
registers-IsMemory = record {
  reads = λ a w. refl;
  writes = λ a v w b. refl;
  copies = λ a words w b. refl;
}
