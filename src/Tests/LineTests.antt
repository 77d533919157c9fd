-- ===== src/Tests/LineTests.antt =====
-- The fields of a transceiver.
use alice_hlt_librorc.Base.{◌<◌, ◌==◌, if◌then◌else◌}
use alice_hlt_librorc.Gtx.{get_reset, set_reset}
use alice_hlt_librorc.Gtx.Resets.{get_reset-set_reset}
use alice_hlt_librorc.Base.{ℕ, ◌%◌, ◌*◌, ◌+◌, ◌≡◌}
use alice_hlt_librorc.Base.Bits.{bit}
use alice_hlt_librorc.Bar.Fields.{}
use alice_hlt_librorc.Gtx.{get_tx_post_emph, set_tx_post_emph}
use alice_hlt_librorc.Gtx.Fields.{config, get_tx_post_emph-set_tx_post_emph}
use alice_hlt_librorc.Gtx.Resets.{}
use alice_hlt_librorc.Tests.Device.{first_link, registers, registers-IsMemory}

-- The value of a register.
abbrev keeps : ℕ → (ℕ → ℕ) → ℕ
keeps a w = w a

abbrev some_values : ℕ → ℕ
some_values a = a

get_tx_post_emph-set_tx_post_emph_example :
    (get_tx_post_emph registers first_link
      (set_tx_post_emph registers first_link 31 some_values).1).0
    ≡ 31 % 16 + 16 * bit 28 (keeps (config first_link) some_values)
get_tx_post_emph-set_tx_post_emph_example =
    get_tx_post_emph-set_tx_post_emph registers keeps registers-IsMemory first_link 31 some_values

get_reset-set_reset_example :
    ((get_reset registers first_link (set_reset registers first_link 5 some_values).1).0 ≡ 5 % 8)
    × ((j : ℕ)
        → j < 32
        → bit j (keeps (config first_link) (set_reset registers first_link 5 some_values).1) ≡ (
            if j == 0
            then bit 0 5
            else if j == 1
            then bit 1 5
            else if j == 3
            then bit 2 5
            else bit j (keeps (config first_link) some_values)))
get_reset-set_reset_example =
    get_reset-set_reset registers keeps registers-IsMemory first_link 5 some_values
