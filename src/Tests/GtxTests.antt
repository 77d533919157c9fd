-- ===== src/Tests/GtxTests.antt =====
-- A transceiver whose reconfiguration port is busy once for every command, and one that gets aligned.
use alice_hlt_librorc.Base.{
  ℕ, ◌+◌, ◌-◌, ◌*◌, ◌/◌, ◌%◌, ◌^◌, ◌≡◌, refl, arith, ◌==◌, ltb, if◌then◌else◌, inl, inr, true,
  false,
}
use alice_hlt_librorc.Base.{◌≢◌, ◌<◌, ◌&&◌, leb}
use alice_hlt_librorc.Base.Bits.{bit, bit_and_shifted}
use alice_hlt_librorc.Base.Int.{pos}
use alice_hlt_librorc.Base.State.{act}
use alice_hlt_librorc.Base.Polling.{FirstAt}
use alice_hlt_librorc.Base.Fallible.{returned}
use alice_hlt_librorc.Bar.{Bar}
use alice_hlt_librorc.Link.{is_gtx_link_up, gtx_link_up, gtx_reg, pci_reg, set_pci_reg}
use alice_hlt_librorc.Gtx.{is_link_up, set_rx_reset, clear_error_counters, rx_initialize}
use alice_hlt_librorc.Gtx.Init.{untried, restarted, rx_initialize-aligned}
use alice_hlt_librorc.Gtx.Drp.{is_busy, drp_update_field}
use alice_hlt_librorc.Gtx.Pll.{GtxpllSettings, drp_get_pll_config, drp_set_pll_config}
use alice_hlt_librorc.Gtx.Port.{DrpPort, drp_update_field-bits}
use alice_hlt_librorc.Gtx.RoundTrip.{IsSupported, drp_get_pll_config-drp_set_pll_config}
use alice_hlt_librorc.Tests.Device.{clocked, first_link}

-- The registers of the port, the last answer, and the polls that find the port busy.
record Transceiver : Type 0 where
  cells : ℕ → ℕ
  answer : ℕ
  busy : ℕ

command : ℕ → Transceiver → Transceiver
command cmd w =
    if ltb cmd (2 ^ 24)
    then record w { answer = w.cells (cmd / 2 ^ 16) % 2 ^ 16; busy = 1 }
    else record w {
      cells = λ b. if b == (cmd - 2 ^ 24) / 2 ^ 16 then cmd % 2 ^ 16 else w.cells b;
      answer = 0;
      busy = 1;
    }

poll : Transceiver → ℕ × Transceiver
poll w = if w.busy == 0 then (w.answer, w) else (2 ^ 31, record w { busy = w.busy - 1 })

unfoldable transceiver : Bar Transceiver
unfolding command poll
transceiver = record {
  get32 = λ a. poll;
  set32 = λ a v. act (command v);
  get16 = λ a. poll;
  set16 = λ a v. act (command v);
  memcopy = λ a ws. act (λ w. w);
  usleep = λ n. act (λ w. w);
}

abbrev register : ℕ → Transceiver → ℕ
register a w = w.cells a % 2 ^ 16

abbrev powered : Transceiver
powered = record { cells = λ a. 0; answer = 0; busy = 0 }

idle : (x : ℕ) → is_busy (x % 2 ^ 16) ≡ false
unfolding is_busy
idle x =
    let none : x % 2 ^ 16 / 2 ^ 31 ≡ 0 = omega arith in
    rw (bit_and_shifted 31 (x % 2 ^ 16) 1, none) refl

port : DrpPort transceiver first_link 10 register
unfolding transceiver command poll pci_reg set_pci_reg is_busy
port = record {
  width = λ a w. omega arith;
  read_answers = λ a w lt.
      let small : ltb (a * 2 ^ 16) (2 ^ 24) ≡ true = ground arith in
      let cell : a * 2 ^ 16 / 2 ^ 16 ≡ a = omega arith in
      record {
        polls = 1;
        status = w.cells a % 2 ^ 16;
        after = record w { answer = w.cells a % 2 ^ 16; busy = 0 };
        settles = rw (small, cell) (refl, (idle (w.cells a), refl));
        soon = omega arith;
      };
  read_status = λ a w lt. omega arith;
  read_keeps = λ a w lt b. refl;
  write_answers = λ a v w lt lt'.
      let large : ltb (2 ^ 24 + a * 2 ^ 16 + v) (2 ^ 24) ≡ false = ground arith in
      let cell : (2 ^ 24 + a * 2 ^ 16 + v - 2 ^ 24) / 2 ^ 16 ≡ a = omega arith in
      let value : (2 ^ 24 + a * 2 ^ 16 + v) % 2 ^ 16 ≡ v = omega arith in
      record {
        polls = 1;
        status = 0;
        after = record w { cells = λ b. if b == a then v else w.cells b; answer = 0; busy = 0 };
        settles = rw (large, cell, value) (refl, (refl, refl));
        soon = omega arith;
      };
  write_sets = λ a v w lt lt' b. ground arith;
}

abbrev settings : GtxpllSettings
settings = record { clk25_div = 9; n1 = 5; n2 = 2; d = 1; m = 1; tx_tdcc_cfg = 0; cp_cfg = 0x0d }

settings-IsSupported : IsSupported settings
settings-IsSupported = record {
  n1 = inr refl;
  n2 = inl refl;
  d = inl refl;
  m = inl refl;
  clk25_positive = omega arith;
  clk25_small = omega arith;
  tdcc = omega arith;
  cp = omega arith;
}

drp_get_pll_config-drp_set_pll_config_example :
    (w' w'' : Transceiver) × (drp_set_pll_config transceiver first_link 10 settings powered
      ≡ (returned tt, w'))
    × (drp_get_pll_config transceiver first_link 10 w' ≡ (returned settings, w''))
drp_get_pll_config-drp_set_pll_config_example =
    drp_get_pll_config-drp_set_pll_config transceiver first_link 10 register port settings powered
      settings-IsSupported

drp_update_field-bits_example :
    (w' : Transceiver) × (drp_update_field transceiver first_link 10 0x1f 5 1 5 powered
      ≡ (returned tt, w'))
    × ((j : ℕ)
        → j < 16
        → bit j (register 0x1f w')
          ≡ (if leb 1 j && ltb j (1 + 5) then bit (j - 1) 5 else bit j (register 0x1f powered)))
    × ((b : ℕ) → b ≢ 0x1f → register b w' ≡ register b powered)
drp_update_field-bits_example =
    drp_update_field-bits transceiver first_link 10 register port 0x1f 5 1 5 powered (omega arith)
      (omega arith)

-- Aligned after 300 microseconds.
abbrev aligning : ℕ → ℕ
aligning t = if ltb t 300 then 0 else 0x23

aligned :
    FirstAt
      (is_link_up (clocked aligning) first_link)
      ((clocked aligning).usleep 100)
      2
      (restarted (clocked aligning) first_link 0)
      300
unfolding is_link_up is_gtx_link_up gtx_link_up gtx_reg pci_reg set_pci_reg set_rx_reset
aligned = (refl, (refl, refl))

rx_initialize-aligned_example :
    rx_initialize (clocked aligning) first_link 0
    ≡ (pos 0, (clear_error_counters (clocked aligning) first_link 300).1)
rx_initialize-aligned_example =
    rx_initialize-aligned (clocked aligning) first_link 2 300 untried (omega arith) aligned
      (omega arith)
