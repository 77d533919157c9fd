-- ===== src/Gtx.antt =====
-- src/gtx.cpp and include/librorc/gtx.hh: the transceiver of one link. The children have its
-- dynamic reconfiguration port.
pub mod Fields
pub mod Init
pub mod Drp
pub mod Port
pub mod RoundTrip
pub mod Pll
pub mod Dfe
pub mod Resets
use alice_hlt_librorc.Base.{
  ℕ, zero, suc, ◌+◌, ◌-◌, ◌^◌, ◌==◌, if◌then◌else◌, Bool, Option, none, some, bit_and, bit_or,
  ◌<<<◌, ◌>>>◌,
}
use alice_hlt_librorc.Base.Int.{ℤ, pos, negsuc}
use alice_hlt_librorc.Base.State.{State, ◌>>=◌, ◌>>◌, pure}
use alice_hlt_librorc.Base.Polling.{wait_until}
use alice_hlt_librorc.Bar.{Bar}
use alice_hlt_librorc.Link.{
  Link, pci_reg, set_pci_reg, gtx_reg, set_gtx_reg, is_gtx_domain_ready, is_gtx_link_up,
}
use alice_hlt_librorc.Registers.{
  rorc_reg_gtx_async_cfg, rorc_reg_gtx_disperr_realign_cnt, rorc_reg_gtx_rxnit_rxlos_cnt,
  rorc_reg_gtx_error_cnt,
}

abbrev pub gtx_asynccfg_reset : ℕ
gtx_asynccfg_reset = 0

abbrev pub gtx_asynccfg_rxreset : ℕ
gtx_asynccfg_rxreset = 1

abbrev pub gtx_asynccfg_txreset : ℕ
gtx_asynccfg_txreset = 3

abbrev pub gtx_rxinit_retry_limit : ℕ
gtx_rxinit_retry_limit = 5

abbrev pub gtx_rxinit_align_timeout : ℕ
gtx_rxinit_align_timeout = 10000

module _ {W : Type 0} (bar : Bar W) (l : Link) where
  unfoldable pub get_tx_diff_ctrl : State W ℕ
  get_tx_diff_ctrl = do
    asynccfg ← pci_reg bar l rorc_reg_gtx_async_cfg
    pure (bit_and (asynccfg >>> 16) 0xf)

  unfoldable pub get_tx_pre_emph : State W ℕ
  get_tx_pre_emph = do
    asynccfg ← pci_reg bar l rorc_reg_gtx_async_cfg
    pure (bit_and (asynccfg >>> 20) 0xf)

  unfoldable pub get_tx_post_emph : State W ℕ
  get_tx_post_emph = do
    asynccfg ← pci_reg bar l rorc_reg_gtx_async_cfg
    pure (bit_and (asynccfg >>> 24) 0x1f)

  unfoldable pub get_rx_eq_mix : State W ℕ
  get_rx_eq_mix = do
    asynccfg ← pci_reg bar l rorc_reg_gtx_async_cfg
    pure (bit_and (asynccfg >>> 29) 0x07)

  unfoldable pub get_loopback : State W ℕ
  get_loopback = do
    asynccfg ← pci_reg bar l rorc_reg_gtx_async_cfg
    pure (bit_and (asynccfg >>> 9) 0x07)

  unfoldable pub get_reset : State W ℕ
  get_reset = do
    asynccfg ← pci_reg bar l rorc_reg_gtx_async_cfg
    let gtx = bit_and (asynccfg >>> gtx_asynccfg_reset) 1
    let rx = bit_and (asynccfg >>> gtx_asynccfg_rxreset) 1 <<< 1
    let tx = bit_and (asynccfg >>> gtx_asynccfg_txreset) 1 <<< 2
    pure (bit_or (bit_or gtx rx) tx)

  unfoldable pub set_tx_diff_ctrl : ℕ → State W (Unit {0})
  set_tx_diff_ctrl value = do
    asynccfg ← pci_reg bar l rorc_reg_gtx_async_cfg
    let cleared = bit_and asynccfg (2 ^ 32 - 1 - (0xf <<< 16))
    set_pci_reg bar l rorc_reg_gtx_async_cfg (bit_or cleared (bit_and value 0xf <<< 16))

  unfoldable pub set_tx_pre_emph : ℕ → State W (Unit {0})
  set_tx_pre_emph value = do
    asynccfg ← pci_reg bar l rorc_reg_gtx_async_cfg
    let cleared = bit_and asynccfg (2 ^ 32 - 1 - (0xf <<< 20))
    set_pci_reg bar l rorc_reg_gtx_async_cfg (bit_or cleared (bit_and value 0xf <<< 20))

  -- Four bits, although `get_tx_post_emph` reads five.
  unfoldable pub set_tx_post_emph : ℕ → State W (Unit {0})
  set_tx_post_emph value = do
    asynccfg ← pci_reg bar l rorc_reg_gtx_async_cfg
    let cleared = bit_and asynccfg (2 ^ 32 - 1 - (0xf <<< 24))
    set_pci_reg bar l rorc_reg_gtx_async_cfg (bit_or cleared (bit_and value 0xf <<< 24))

  unfoldable pub set_rx_eq_mix : ℕ → State W (Unit {0})
  set_rx_eq_mix value = do
    asynccfg ← pci_reg bar l rorc_reg_gtx_async_cfg
    let cleared = bit_and asynccfg (2 ^ 32 - 1 - (0x7 <<< 29))
    set_pci_reg bar l rorc_reg_gtx_async_cfg (bit_or cleared (bit_and value 0x7 <<< 29))

  unfoldable pub set_loopback : ℕ → State W (Unit {0})
  set_loopback value = do
    asynccfg ← pci_reg bar l rorc_reg_gtx_async_cfg
    let cleared = bit_and asynccfg (2 ^ 32 - 1 - (0x7 <<< 9))
    set_pci_reg bar l rorc_reg_gtx_async_cfg (bit_or cleared (bit_and value 0x7 <<< 9))

  unfoldable pub set_reset : ℕ → State W (Unit {0})
  set_reset value = do
    asynccfg ← pci_reg bar l rorc_reg_gtx_async_cfg
    let cleared = bit_and asynccfg (
        2 ^ 32 - 1 - (2 ^ gtx_asynccfg_reset + 2 ^ gtx_asynccfg_rxreset + 2 ^ gtx_asynccfg_txreset))
    let gtx = bit_or cleared (bit_and value 1 <<< gtx_asynccfg_reset)
    let rx = bit_or gtx (bit_and (value >>> 1) 1 <<< gtx_asynccfg_rxreset)
    let tx = bit_or rx (bit_and (value >>> 2) 1 <<< gtx_asynccfg_txreset)
    set_pci_reg bar l rorc_reg_gtx_async_cfg tx

  unfoldable pub get_rx_reset : State W ℕ
  get_rx_reset = do
    asynccfg ← pci_reg bar l rorc_reg_gtx_async_cfg
    pure (bit_and (asynccfg >>> gtx_asynccfg_rxreset) 1)

  unfoldable pub get_tx_reset : State W ℕ
  get_tx_reset = do
    asynccfg ← pci_reg bar l rorc_reg_gtx_async_cfg
    pure (bit_and (asynccfg >>> gtx_asynccfg_txreset) 1)

  unfoldable pub set_rx_reset : ℕ → State W (Unit {0})
  set_rx_reset value = do
    asynccfg ← pci_reg bar l rorc_reg_gtx_async_cfg
    let cleared = bit_and asynccfg (2 ^ 32 - 1 - (1 <<< gtx_asynccfg_rxreset))
    set_pci_reg bar l rorc_reg_gtx_async_cfg
        (bit_or cleared (bit_and value 1 <<< gtx_asynccfg_rxreset))

  unfoldable pub set_tx_reset : ℕ → State W (Unit {0})
  set_tx_reset value = do
    asynccfg ← pci_reg bar l rorc_reg_gtx_async_cfg
    let cleared = bit_and asynccfg (2 ^ 32 - 1 - (1 <<< gtx_asynccfg_txreset))
    set_pci_reg bar l rorc_reg_gtx_async_cfg
        (bit_or cleared (bit_and value 1 <<< gtx_asynccfg_txreset))

  unfoldable pub is_domain_ready : State W Bool
  is_domain_ready = is_gtx_domain_ready bar l

  unfoldable pub is_link_up : State W Bool
  is_link_up = is_gtx_link_up bar l

  unfoldable pub clear_error_counters : State W (Unit {0})
  clear_error_counters = do
    set_gtx_reg bar l rorc_reg_gtx_disperr_realign_cnt 0
    set_gtx_reg bar l rorc_reg_gtx_rxnit_rxlos_cnt 0
    set_gtx_reg bar l rorc_reg_gtx_error_cnt 0

  -- One round of `rxInitialize`: the timeout that is left.
  unfoldable pub rx_attempt : State W ℕ
  unfolding is_link_up
  rx_attempt = do
    set_rx_reset 1
    bar.usleep 100
    set_rx_reset 0
    wait_until is_link_up (bar.usleep 100) gtx_rxinit_align_timeout

  -- The rounds that `retries` still allows: the value of `retryCount` at the round that succeeds.
  unfoldable pub rx_rounds : ℕ → ℕ → State W (Option ℕ)
  unfolding rx_attempt
  rx_rounds zero retry_count w = (none, w)
  rx_rounds (suc retries) retry_count w =
      let (timeout, w') = rx_attempt w in
      let again = rx_rounds retries (suc retry_count) w' in
      if timeout == 0 then again else (some retry_count, w')

  finish_rx : Option ℕ → State W ℤ
  unfolding clear_error_counters
  finish_rx none = pure (negsuc 0)
  finish_rx (some retry_count) = do clear_error_counters; pure (pos retry_count)

  unfoldable pub rx_initialize : State W ℤ
  unfolding rx_rounds finish_rx
  rx_initialize = do done ← rx_rounds gtx_rxinit_retry_limit 0; finish_rx done

  unfoldable pub get_disparity_error_count : State W ℕ
  get_disparity_error_count = do
    cnt ← gtx_reg bar l rorc_reg_gtx_disperr_realign_cnt
    pure (cnt >>> 16)

  unfoldable pub get_realign_count : State W ℕ
  get_realign_count = do
    cnt ← gtx_reg bar l rorc_reg_gtx_disperr_realign_cnt
    pure (bit_and cnt 0xffff)

  unfoldable pub get_rx_not_in_table_error_count : State W ℕ
  get_rx_not_in_table_error_count = do
    cnt ← gtx_reg bar l rorc_reg_gtx_rxnit_rxlos_cnt
    pure (cnt >>> 16)

  unfoldable pub get_rx_loss_of_sync_error_count : State W ℕ
  get_rx_loss_of_sync_error_count = do
    cnt ← gtx_reg bar l rorc_reg_gtx_rxnit_rxlos_cnt
    pure (bit_and cnt 0xffff)
