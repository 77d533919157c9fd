-- ===== src/Tests/SerialTests.antt =====
-- A slave of a serial bus that is complete at the second poll of every transfer.
use alice_hlt_librorc.Base.{
  ℕ, ◌+◌, ◌*◌, ◌/◌, ◌%◌, ◌^◌, ◌≡◌, refl, arith, ◌==◌, if◌then◌else◌, leb, ◌&&◌, ◌||◌,
}
use alice_hlt_librorc.Base.State.{act}
use alice_hlt_librorc.Base.Fallible.{returned, thrown}
use alice_hlt_librorc.Bar.{Bar}
use alice_hlt_librorc.Registers.{rorc_reg_i2c_config, rorc_reg_i2c_operation}
use alice_hlt_librorc.Sysmon.I2c.{i2c_invalid_param, i2c_module_start}
use alice_hlt_librorc.Sysmon.Bus.{I2cSlave, i2c_module_start_lem}
use alice_hlt_librorc.RefClk.{Refclkopts, get_current_opts, write_values}
use alice_hlt_librorc.RefClk.RoundTrip.{IsValid, get_current_opts-write_values}

-- The memory of the slave, the operation register, and whether a transfer runs.
record SerialBus : Type 0 where
  cells : ℕ → ℕ
  operation : ℕ
  busy : ℕ

transfer : ℕ → SerialBus → SerialBus
transfer config w =
    if config % 8 == 2
    then record w { operation = w.cells (w.operation % 2 ^ 8) % 2 ^ 8 * 2 ^ 8; busy = 1 }
    else record w {
      cells = λ b. if b == w.operation % 2 ^ 8 then w.operation / 2 ^ 8 % 2 ^ 8 else w.cells b;
      busy = 1;
    }

store : ℕ → ℕ → SerialBus → SerialBus
store a v w = if a == rorc_reg_i2c_config then transfer v w else record w { operation = v }

load : ℕ → SerialBus → ℕ × SerialBus
load a w =
    if a == rorc_reg_i2c_operation
    then (w.operation, w)
    else if w.busy == 0
    then (1, w)
    else (0, record w { busy = 0 })

unfoldable serial_bus : Bar SerialBus
unfolding store load
serial_bus = record {
  get32 = load;
  set32 = λ a v. act (store a v);
  get16 = load;
  set16 = λ a v. act (store a v);
  memcopy = λ a ws. act (λ w. w);
  usleep = λ n. act (λ w. w);
}

abbrev cell : ℕ → SerialBus → ℕ
cell a w = w.cells a % 2 ^ 8

abbrev powered : SerialBus
powered = record { cells = λ a. 0; operation = 0; busy = 0 }

slave : I2cSlave serial_bus 10 4 0x55 cell
unfolding serial_bus store load transfer
slave = record {
  chain_valid = omega arith;
  slave_valid = omega arith;
  reads = λ a w lt.
      let small : a % 2 ^ 8 ≡ a = omega arith in
      record {
        polls = 1;
        status = 1;
        after = record w { operation = w.cells a % 2 ^ 8 * 2 ^ 8; busy = 0 };
        completes = rw small (refl, (refl, refl, refl));
        soon = omega arith;
        acknowledged = refl;
      };
  read_value = λ a w lt. omega arith;
  read_keeps = λ a w lt b. refl;
  writes = λ a v w lt lt'.
      let address : (v * 2 ^ 8 + a) % 2 ^ 8 ≡ a = omega arith in
      let value : (v * 2 ^ 8 + a) / 2 ^ 8 % 2 ^ 8 ≡ v = omega arith in
      record {
        polls = 1;
        status = 1;
        after = record w {
          cells = λ b. if b == a then v else w.cells b;
          operation = v * 2 ^ 8 + a;
          busy = 0;
        };
        completes = rw (address, value) (refl, (refl, refl, refl));
        soon = omega arith;
        acknowledged = refl;
      };
  write_sets = λ a v w lt lt' b. ground arith;
}

abbrev opts : Refclkopts
opts = record { hs_div = 9; n1 = 4; rfreq_int = 0x2f40135a9 }

opts-IsValid : IsValid opts
opts-IsValid = record {
  hs_low = omega arith;
  hs_high = omega arith;
  n1_low = omega arith;
  n1_high = omega arith;
  rfreq = omega arith;
}

get_current_opts-write_values_example :
    (w' w'' : SerialBus) × (write_values serial_bus 10 0 opts powered ≡ (returned tt, w'))
    × (get_current_opts serial_bus 10 0 w' ≡ (returned opts, w''))
get_current_opts-write_values_example =
    get_current_opts-write_values serial_bus 10 cell slave opts powered opts-IsValid

i2c_module_start_lem_example : i2c_module_start serial_bus 6 0x55 2 0 1 powered ≡ (
    if leb 6 5 && leb 1 3 && (2 == 2 || 2 == 4) && leb 0 1
    then (
      returned tt,
      (serial_bus.set32 rorc_reg_i2c_config
          (2 ^ 6 * 2 ^ 24 + 0x55 * 2 ^ 8 + 0 * 2 ^ 5 + 1 * 2 ^ 3 + 2)
          powered).1,
    )
    else (thrown i2c_invalid_param, powered))
i2c_module_start_lem_example = i2c_module_start_lem serial_bus 6 0x55 2 0 1 powered (omega arith)
