-- ===== src/Sysmon/Replay.antt =====
-- src/sysmon.cpp: events for the replay are written to the DDR3 memory in blocks of 15 words with a
-- header.
use alice_hlt_librorc.Base.{
  ℕ, zero, suc, ◌+◌, ◌-◌, ◌^◌, ◌==◌, ltb, leb, Bool, true, false, List, [], ◌∷◌, bit_and, bit_or,
  u8, u16, u32, if◌then◌else◌, get_or, ◌<<<◌,
}
use alice_hlt_librorc.Base.Fallible.{Fallible, ◌>>◌, throw, lift, thrown, returned}
use alice_hlt_librorc.Bar.{Bar}
use alice_hlt_librorc.Registers.{rorc_reg_data_replay_ctrl, rorc_reg_data_replay_payload_base}
use alice_hlt_librorc.Sysmon.I2c.{
  SysmonError, data_replay_invalid, data_replay_timeout, out_of_fuel,
}

abbrev pub sysmon_dr_timeout : ℕ
sysmon_dr_timeout = 10000

abbrev pub data_replay_eoe : ℕ
data_replay_eoe = 2 ^ 8

abbrev pub data_replay_end : ℕ
data_replay_end = 2 ^ 9

abbrev pub data_replay_diu_error : ℕ
data_replay_diu_error = 2 ^ 10

unfoldable pub controller_select : ℕ → ℕ
controller_select channel = if ltb 5 channel then 1 else 0

unfoldable pub channel_select : ℕ → ℕ
channel_select channel = if ltb 5 channel then u8 (1 <<< (channel - 6)) else u8 (1 <<< channel)

-- Word `i + 1` of the block buffer is word `i` of the data if its bit of the mask is set, and else
-- `stale i`, which the source does not set.
unfoldable pub block_words : (ℕ → ℕ) → (ℕ → ℕ) → ℕ → ℕ → ℕ → List ℕ
block_words stale words mask i zero = []
block_words stale words mask i (suc left) =
    (if bit_and mask (1 <<< i) == 0 then stale i else words i)
    ∷ block_words stale words mask (suc i) left

unfoldable pub block_buffer : (ℕ → ℕ) → (ℕ → ℕ) → ℕ → ℕ → ℕ → List ℕ
block_buffer stale words mask channel flags =
    bit_or (bit_or (mask <<< 16) flags) (channel_select channel) ∷ block_words stale words mask 0 15

-- The flags of a last block. An event has no flags before it.
unfoldable pub last_flags : Bool → Bool → ℕ
last_flags last_event diu_error =
    let eoe = bit_or 0 data_replay_eoe in
    let with_error = if diu_error then bit_or eoe data_replay_diu_error else eoe in
    if last_event then bit_or with_error data_replay_end else with_error

module _ {W : Type 0} (bar : Bar W) where
  -- The loop that waits for the write, at most `timeout` sleeps.
  unfoldable pub done_loop : ℕ → ℕ → Fallible SysmonError W (Unit {0})
  done_loop write_done_flag zero w =
      let (status, w') = bar.get32 rorc_reg_data_replay_ctrl w in
      if bit_and status write_done_flag == 0
      then (thrown data_replay_timeout, w')
      else (returned tt, w')
  done_loop write_done_flag (suc timeout) w =
      let (status, w') = bar.get32 rorc_reg_data_replay_ctrl w in
      elim (bit_and status write_done_flag == 0) [
        | true ↦ done_loop write_done_flag timeout (bar.usleep 100 w').1
        | false ↦ (returned tt, w')
      ]

  unfoldable pub write_block : ℕ → List ℕ → ℕ → Fallible SysmonError W (Unit {0})
  write_block start_addr words channel = do
    lift (bar.memcopy rorc_reg_data_replay_payload_base words)
    let drctrl = bit_and start_addr 0x7fff_fffc
    lift (bar.set32 rorc_reg_data_replay_ctrl (bit_or drctrl (1 <<< controller_select channel)))
    done_loop (1 <<< controller_select channel) sysmon_dr_timeout

module _ {W : Type 0} (bar : Bar W) (stale : ℕ → ℕ) where
  unfoldable pub ddr3_data_replay_block_to_ram :
      ℕ → (ℕ → ℕ) → ℕ → ℕ → ℕ → Fallible SysmonError W (Unit {0})
  ddr3_data_replay_block_to_ram start_addr words mask channel flags =
      if ltb 11 channel
      then throw data_replay_invalid
      else write_block bar start_addr (block_buffer stale words mask channel flags) channel

  -- The loop of `ddr3DataReplayEventToRam`: `words` starts at `dataptr`. It takes 15 words in each
  -- round, so that `fuel` may be the number of words.
  unfoldable pub event_loop : ℕ → (ℕ → ℕ) → ℕ → ℕ → ℕ → Bool → Bool → Fallible SysmonError W ℕ
  event_loop zero words num_dws addr channel last_event diu_error w =
      if num_dws == 0 then (returned addr, w) else (thrown out_of_fuel, w)
  event_loop (suc fuel) words num_dws addr channel last_event diu_error w =
      if num_dws == 0
      then (returned addr, w)
      else let is_last = leb num_dws 15 in
        let mask = if is_last then u16 (2 ^ num_dws - 1) else 0x7fff in
        let flags = if is_last then last_flags last_event diu_error else 0 in
        let left = if ltb num_dws 15 then 0 else num_dws - 15 in
        let (outcome, w') = ddr3_data_replay_block_to_ram addr words mask channel flags w in
        elim outcome [
          | returned _ ↦
              event_loop fuel (λ i. words (i + 15)) left (u32 (addr + 8)) channel last_event
                diu_error w'
          | thrown e ↦ (thrown e, w')
        ]

  unfoldable pub ddr3_data_replay_event_to_ram :
      List ℕ → ℕ → ℕ → ℕ → Bool → Bool → Fallible SysmonError W ℕ
  ddr3_data_replay_event_to_ram event_data num_dws ddr3_start_addr channel last_event diu_error =
      event_loop num_dws (λ i. get_or event_data i 0) num_dws ddr3_start_addr channel last_event
        diu_error
