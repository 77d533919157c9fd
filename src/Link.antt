-- ===== src/Link.antt =====
-- src/link.cpp and include/librorc/link.hh: the registers of one channel, on a `Bar`.
pub mod Domains
pub mod Control
pub mod Wait
use alice_hlt_librorc.Base.{
  ℕ, zero, suc, ◌+◌, ◌-◌, ◌*◌, ◌^◌, ◌==◌, Bool, true, false, List, bit_and, bit_or, not, ◌||◌,
  if◌then◌else◌, u32, u64, ◌<<<◌, ◌>>>◌,
}
use alice_hlt_librorc.Base.Int.{ℤ, pos, negsuc}
use alice_hlt_librorc.Base.State.{State, ◌>>=◌, ◌>>◌, pure}
use alice_hlt_librorc.Bar.{Bar}
use alice_hlt_librorc.Registers.{
  rorc_channel_offset, rorc_reg_gtx_async_cfg, rorc_reg_gtx_ctrl, rorc_reg_ddl_ctrl,
  rorc_regfile_gtx_sel, rorc_regfile_ddl_sel, rorc_cfg_link_type_diu, rorc_cfg_link_type_siu,
  rorc_cfg_link_type_virtual, rorc_cfg_link_type_linktest, rorc_cfg_link_type_ibert,
}

pub record Link : Type 0 where
  pub base : ℕ
  pub link_number : ℕ

unfoldable pub new_link : ℕ → Link
new_link link_number = record {
  base = u32 (u32 (link_number + 1) * rorc_channel_offset);
  link_number = link_number;
}

-- The masks and values of the three status tests.
abbrev pub gtx_domain_mask : ℕ
gtx_domain_mask = 2 ^ 0 + 2 ^ 1 + 2 ^ 2 + 2 ^ 3 + 2 ^ 4 + 2 ^ 5 + 2 ^ 8

abbrev pub gtx_domain_expected : ℕ
gtx_domain_expected = 2 ^ 2 + 2 ^ 4 + 2 ^ 5

abbrev pub ddl_domain_mask : ℕ
ddl_domain_mask = 2 ^ 0 + 2 ^ 7

abbrev pub gtx_link_mask : ℕ
gtx_link_mask = 2 ^ 0 + 2 ^ 1 + 2 ^ 5 + 2 ^ 6 + 2 ^ 9 + 2 ^ 11

abbrev pub gtx_link_expected : ℕ
gtx_link_expected = 2 ^ 0 + 2 ^ 1 + 2 ^ 5

-- The tests of the three register values.
unfoldable pub gtx_domain_ready : ℕ → Bool
gtx_domain_ready cfg = bit_and cfg gtx_domain_mask == gtx_domain_expected

unfoldable pub ddl_domain_ready : ℕ → Bool
ddl_domain_ready cfg = bit_and cfg ddl_domain_mask == 0

unfoldable pub gtx_link_up : ℕ → Bool
gtx_link_up sts = bit_and sts gtx_link_mask == gtx_link_expected

abbrev pub waitforgtx_timeout : ℕ
waitforgtx_timeout = 10000

pub data DataSource : Type 0 where
  ddl ddr pg pci raw unknown : DataSource

diu_source : ℕ → DataSource
diu_source source =
    if source == 0 then ddl else if source == 1 then ddr else if source == 2 then pg else unknown

siu_source : ℕ → DataSource
siu_source source =
    if source == 0 || source == 1 then pci else if source == 2 || source == 3 then pg else unknown

-- The two `switch` statements of `getDataSourceDescr`.
unfoldable pub describe_source : ℕ → ℕ → DataSource
unfolding diu_source siu_source
describe_source link_type source =
    if link_type == rorc_cfg_link_type_diu
    then diu_source source
    else if link_type == rorc_cfg_link_type_siu
    then siu_source source
    else if link_type == rorc_cfg_link_type_virtual
    then raw
    else if link_type == rorc_cfg_link_type_linktest || link_type == rorc_cfg_link_type_ibert
    then pg
    else unknown

module _ {W : Type 0} (bar : Bar W) (l : Link) where
  unfoldable pub set_gtx_reg : ℕ → ℕ → State W (Unit {0})
  set_gtx_reg addr value = bar.set32 (u32 (l.base + 2 ^ rorc_regfile_gtx_sel + addr)) value

  unfoldable pub gtx_reg : ℕ → State W ℕ
  gtx_reg addr = bar.get32 (u32 (l.base + 2 ^ rorc_regfile_gtx_sel + addr))

  unfoldable pub set_ddl_reg : ℕ → ℕ → State W (Unit {0})
  set_ddl_reg addr value = bar.set32 (u32 (l.base + 2 ^ rorc_regfile_ddl_sel + addr)) value

  unfoldable pub ddl_reg : ℕ → State W ℕ
  ddl_reg addr = bar.get32 (u32 (l.base + 2 ^ rorc_regfile_ddl_sel + addr))

  unfoldable pub set_pci_reg : ℕ → ℕ → State W (Unit {0})
  set_pci_reg addr value = bar.set32 (u32 (l.base + addr)) value

  unfoldable pub pci_reg : ℕ → State W ℕ
  pci_reg addr = bar.get32 (u32 (l.base + addr))

  unfoldable pub memcopy : ℕ → List ℕ → State W (Unit {0})
  memcopy target words = bar.memcopy (u64 (l.base + target)) words

  unfoldable pub is_gtx_domain_ready : State W Bool
  unfolding gtx_domain_ready
  is_gtx_domain_ready = do cfg ← pci_reg rorc_reg_gtx_async_cfg; pure (gtx_domain_ready cfg)

  unfoldable pub is_ddl_domain_ready : State W Bool
  unfolding ddl_domain_ready
  is_ddl_domain_ready = do cfg ← pci_reg rorc_reg_gtx_async_cfg; pure (ddl_domain_ready cfg)

  unfoldable pub is_gtx_link_up : State W Bool
  unfolding gtx_link_up
  is_gtx_link_up = do sts ← gtx_reg rorc_reg_gtx_ctrl; pure (gtx_link_up sts)

  unfoldable pub link_type : State W ℕ
  link_type = do cfg ← pci_reg rorc_reg_gtx_async_cfg; pure (bit_and (cfg >>> 12) 7)

  -- The loop of `waitForGTXDomain`, without MODELSIM: the timeout that is left.
  unfoldable pub wait_loop : ℕ → Bool → State W ℕ
  wait_loop zero ready w = (0, w)
  wait_loop (suc timeout) ready w = elim ready [
    | true ↦ (suc timeout, w)
    | false ↦
        let (_, slept) = bar.usleep 100 w in
        let (ready', w') = is_gtx_domain_ready slept in wait_loop timeout ready' w'
  ]

  unfoldable pub wait_for_gtx_domain : State W ℤ
  wait_for_gtx_domain = do
    ready ← is_gtx_domain_ready
    timeout ← wait_loop waitforgtx_timeout ready
    pure (if timeout == 0 then negsuc 0 else pos 0)

  unfoldable pub set_flow_control_enable : ℕ → State W (Unit {0})
  set_flow_control_enable enable = do
    ctrl ← ddl_reg rorc_reg_ddl_ctrl
    let cleared = bit_and ctrl (2 ^ 32 - 1 - 2 ^ 1)
    set_ddl_reg rorc_reg_ddl_ctrl (bit_or cleared (bit_and enable 1 <<< 1))

  unfoldable pub set_channel_active : ℕ → State W (Unit {0})
  set_channel_active active = do
    ctrl ← ddl_reg rorc_reg_ddl_ctrl
    let cleared = bit_and ctrl (2 ^ 32 - 1 - 2 ^ 3)
    set_ddl_reg rorc_reg_ddl_ctrl (bit_or cleared (bit_and active 1 <<< 3))

  -- Bit `k` of the DDL control register, as the five queries below test it.
  ddl_ctrl_flag : ℕ → State W Bool
  ddl_ctrl_flag k = do ctrl ← ddl_reg rorc_reg_ddl_ctrl; pure (not (bit_and ctrl (2 ^ k) == 0))

  unfoldable pub channel_is_active : State W Bool
  unfolding ddl_ctrl_flag
  channel_is_active = ddl_ctrl_flag 3

  unfoldable pub flow_control_is_enabled : State W Bool
  unfolding ddl_ctrl_flag
  flow_control_is_enabled = ddl_ctrl_flag 1

  unfoldable pub pattern_generator_available : State W Bool
  unfolding ddl_ctrl_flag
  pattern_generator_available = ddl_ctrl_flag 15

  unfoldable pub ddr3_data_replay_available : State W Bool
  unfolding ddl_ctrl_flag
  ddr3_data_replay_available = ddl_ctrl_flag 24

  unfoldable pub fast_cluster_finder_available : State W Bool
  unfolding ddl_ctrl_flag
  fast_cluster_finder_available = ddl_ctrl_flag 25

  unfoldable pub set_data_source_mux : ℕ → State W (Unit {0})
  set_data_source_mux value = do
    ctrl ← ddl_reg rorc_reg_ddl_ctrl
    let cleared = bit_and ctrl (2 ^ 32 - 1 - (3 <<< 16))
    set_ddl_reg rorc_reg_ddl_ctrl (bit_or cleared (bit_and value 3 <<< 16))

  unfoldable pub get_data_source_mux : State W ℕ
  get_data_source_mux = do ctrl ← ddl_reg rorc_reg_ddl_ctrl; pure (bit_and (ctrl >>> 16) 3)

  unfoldable pub set_default_data_source : State W (Unit {0})
  set_default_data_source = set_data_source_mux 0

  unfoldable pub set_data_source_diu : State W (Unit {0})
  set_data_source_diu = set_data_source_mux 0

  unfoldable pub set_data_source_pcie : State W (Unit {0})
  set_data_source_pcie = set_data_source_mux 0

  unfoldable pub set_data_source_ddr3_data_replay : State W (Unit {0})
  set_data_source_ddr3_data_replay = set_data_source_mux 1

  unfoldable pub set_data_source_pattern_generator : State W (Unit {0})
  set_data_source_pattern_generator = set_data_source_mux 2

  unfoldable pub get_data_source_descr : State W DataSource
  unfolding get_data_source_mux
  get_data_source_descr = do
    source ← get_data_source_mux
    type ← link_type
    pure (describe_source type source)
