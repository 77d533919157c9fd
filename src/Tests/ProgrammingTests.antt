-- ===== src/Tests/ProgrammingTests.antt =====
-- A serial interface that keeps a log of its commands, and a file of two pages.
use alice_hlt_librorc.Base.{
  ℕ, ◌≡◌, refl, arith, ◌==◌, if◌then◌else◌, true, some, List, [], ◌∷◌, ◌++◌,
}
use alice_hlt_librorc.Base.State.{act}
use alice_hlt_librorc.Base.Fallible.{returned}
use alice_hlt_librorc.Bar.{Bar}
use alice_hlt_librorc.Registers.{rorc_reg_uc_spi_data}
use alice_hlt_librorc.Microcontroller.{
  UcFile, uc_spi_prog_enable, uc_spi_erase_chip, uc_spi_ext_addr, program_from_file,
}
use alice_hlt_librorc.Microcontroller.Commands.{SpiPort, page_commands, program_from_file-Sends}

unfoldable spi : Bar (List ℕ)
spi = record {
  get32 = λ a w. (if a == rorc_reg_uc_spi_data then 0x5300 else 0, w);
  set32 = λ a v. act (λ w. if a == rorc_reg_uc_spi_data then w ++ (v ∷ []) else w);
  get16 = λ a w. (0, w);
  set16 = λ a v. act (λ w. w);
  memcopy = λ a ws. act (λ w. w);
  usleep = λ n. act (λ w. w);
}

abbrev log : List ℕ → List ℕ
log w = w

port : SpiPort spi log
unfolding spi
port = record {
  polls = λ cmd w. 0;
  after = λ cmd w. w ++ (cmd ∷ []);
  sends = λ cmd w. (refl, refl);
  soon = λ cmd w. omega arith;
  logs = λ cmd w. refl;
  confirms = λ w. refl;
  implemented = λ w. refl;
  keeps_get = λ w. refl;
  keeps_set = λ v w. refl;
  keeps_usleep = λ n w. refl;
}

abbrev file : UcFile
file = record { opens = true; size = some 6; pages = (0x1234 ∷ 0x5678 ∷ []) ∷ (0x9abc ∷ []) ∷ [] }

program_from_file-Sends_example :
    (w' : List ℕ) × (program_from_file spi file [] ≡ (returned tt, w'))
    × (log w'
        ≡ log []
          ++ (uc_spi_prog_enable
              ∷ uc_spi_erase_chip
              ∷ uc_spi_prog_enable
              ∷ uc_spi_ext_addr
              ∷ page_commands 0 file.pages))
program_from_file-Sends_example = program_from_file-Sends spi log port file 6 [] refl refl refl
