-- ===== src/FastClusterFinder.antt =====
-- src/fastclusterfinder.cpp and include/librorc/fastclusterfinder.hh: the registers of the cluster
-- finder of a link. A field at bit 0 has a shift by 0.
pub mod Fields
use alice_hlt_librorc.Base.{ℕ, ◌-◌, ◌^◌, ◌==◌, Bool, bit_and, bit_or, u8, u16, ◌<<<◌, ◌>>>◌}
use alice_hlt_librorc.Base.State.{State, ◌>>=◌, ◌>>◌, pure}
use alice_hlt_librorc.Bar.{Bar}
use alice_hlt_librorc.Link.{Link, ddl_reg, set_ddl_reg}
use alice_hlt_librorc.Registers.{
  rorc_reg_fcf_ctrl, rorc_reg_fcf_limits, rorc_reg_fcf_limits2, rorc_reg_fcf_ram_ctrl,
  rorc_reg_fcf_ram_data,
}

module _ {W : Type 0} (bar : Bar W) (l : Link) where
  -- `pos` is below 32, as the source asserts.
  unfoldable pub set_ctrl_bit : ℕ → ℕ → State W (Unit {0})
  set_ctrl_bit pos val = do
    fcfctrl ← ddl_reg bar l rorc_reg_fcf_ctrl
    let cleared = bit_and fcfctrl (2 ^ 32 - 1 - (1 <<< pos))
    set_ddl_reg bar l rorc_reg_fcf_ctrl (bit_or cleared (bit_and val 1 <<< pos))

  unfoldable pub get_ctrl_bit : ℕ → State W ℕ
  get_ctrl_bit pos = do
    fcfctrl ← ddl_reg bar l rorc_reg_fcf_ctrl
    pure (bit_and (fcfctrl >>> pos) 1)

  unfoldable pub set_reset : ℕ → State W (Unit {0})
  set_reset val = set_ctrl_bit 15 val

  unfoldable pub set_enable : ℕ → State W (Unit {0})
  set_enable val = set_ctrl_bit 0 val

  unfoldable pub set_bypass : ℕ → State W (Unit {0})
  set_bypass val = set_ctrl_bit 13 val

  unfoldable pub set_state : ℕ → ℕ → State W (Unit {0})
  set_state reset enable = do set_reset reset; set_enable enable

  unfoldable pub is_enabled : State W Bool
  is_enabled = do value ← get_ctrl_bit 0; pure (value == 1)

  unfoldable pub is_in_reset : State W Bool
  is_in_reset = do value ← get_ctrl_bit 15; pure (value == 1)

  unfoldable pub is_bypassed : State W Bool
  is_bypassed = do value ← get_ctrl_bit 13; pure (value == 1)

  unfoldable pub set_single_pad_suppression : ℕ → State W (Unit {0})
  set_single_pad_suppression sp_suppr_value = set_ctrl_bit 2 sp_suppr_value

  unfoldable pub single_pad_suppression : State W ℕ
  single_pad_suppression = get_ctrl_bit 2

  unfoldable pub set_bypass_merger : ℕ → State W (Unit {0})
  set_bypass_merger bypass_value = set_ctrl_bit 3 bypass_value

  unfoldable pub bypass_merger : State W ℕ
  bypass_merger = get_ctrl_bit 3

  unfoldable pub set_deconv_pad : ℕ → State W (Unit {0})
  set_deconv_pad deconv_value = set_ctrl_bit 4 deconv_value

  unfoldable pub deconv_pad : State W ℕ
  deconv_pad = get_ctrl_bit 4

  unfoldable pub set_merger_algorithm : ℕ → State W (Unit {0})
  set_merger_algorithm mode = set_ctrl_bit 5 mode

  unfoldable pub merger_algorithm : State W ℕ
  merger_algorithm = get_ctrl_bit 5

  unfoldable pub set_branch_override : ℕ → State W (Unit {0})
  set_branch_override ovrd = set_ctrl_bit 14 ovrd

  unfoldable pub branch_override : State W ℕ
  branch_override = get_ctrl_bit 14

  unfoldable pub tag_border_clusters : State W ℕ
  tag_border_clusters = get_ctrl_bit 20

  unfoldable pub set_tag_border_clusters : ℕ → State W (Unit {0})
  set_tag_border_clusters tag = set_ctrl_bit 20 tag

  unfoldable pub correct_edge_clusters : State W ℕ
  correct_edge_clusters = get_ctrl_bit 21

  unfoldable pub set_correct_edge_clusters : ℕ → State W (Unit {0})
  set_correct_edge_clusters value = set_ctrl_bit 21 value

  unfoldable pub tag_deconvoluted_clusters : State W ℕ
  tag_deconvoluted_clusters = do
    regval ← ddl_reg bar l rorc_reg_fcf_ctrl
    pure (bit_and (regval >>> 16) 3)

  unfoldable pub set_tag_deconvoluted_clusters : ℕ → State W (Unit {0})
  set_tag_deconvoluted_clusters tag = do
    regval ← ddl_reg bar l rorc_reg_fcf_ctrl
    let cleared = bit_and regval (2 ^ 32 - 1 - (3 <<< 16))
    set_ddl_reg bar l rorc_reg_fcf_ctrl (bit_or cleared (bit_and tag 3 <<< 16))

  unfoldable pub split_cluster_tagging : State W ℕ
  split_cluster_tagging = tag_deconvoluted_clusters

  -- The argument is not used.
  unfoldable pub set_split_cluster_tagging : ℕ → State W (Unit {0})
  set_split_cluster_tagging tag = set_tag_deconvoluted_clusters 1

  unfoldable pub set_single_seq_limit : ℕ → State W (Unit {0})
  set_single_seq_limit singe_seq_limit = do
    limits ← ddl_reg bar l rorc_reg_fcf_limits
    let cleared = bit_and limits (2 ^ 32 - 1 - (0xff <<< 16))
    set_ddl_reg bar l rorc_reg_fcf_limits (bit_or cleared (bit_and singe_seq_limit 0xff <<< 16))

  unfoldable pub single_seq_limit : State W ℕ
  single_seq_limit = do
    limits ← ddl_reg bar l rorc_reg_fcf_limits
    pure (bit_and (limits >>> 16) 0xff)

  unfoldable pub set_cluster_lower_limit : ℕ → State W (Unit {0})
  set_cluster_lower_limit cluster_low_limit = do
    limits ← ddl_reg bar l rorc_reg_fcf_limits
    let cleared = bit_and limits (2 ^ 32 - 1 - 0xffff)
    set_ddl_reg bar l rorc_reg_fcf_limits (bit_or cleared (bit_and cluster_low_limit 0xffff <<< 0))

  unfoldable pub cluster_lower_limit : State W ℕ
  cluster_lower_limit = do
    limits ← ddl_reg bar l rorc_reg_fcf_limits
    pure (bit_and (limits >>> 0) 0xffff)

  unfoldable pub set_merger_distance : ℕ → State W (Unit {0})
  set_merger_distance match_distance = do
    limits ← ddl_reg bar l rorc_reg_fcf_limits
    let cleared = bit_and limits (2 ^ 32 - 1 - (0x0f <<< 24))
    set_ddl_reg bar l rorc_reg_fcf_limits (bit_or cleared (bit_and match_distance 0x0f <<< 24))

  unfoldable pub merger_distance : State W ℕ
  merger_distance = do
    limits ← ddl_reg bar l rorc_reg_fcf_limits
    pure (bit_and (limits >>> 24) 0x0f)

  unfoldable pub set_charge_tolerance : ℕ → State W (Unit {0})
  set_charge_tolerance charge_tolerance = do
    limits ← ddl_reg bar l rorc_reg_fcf_limits
    let cleared = bit_and limits (2 ^ 32 - 1 - (0x0f <<< 28))
    set_ddl_reg bar l rorc_reg_fcf_limits (bit_or cleared (bit_and charge_tolerance 0x0f <<< 28))

  unfoldable pub charge_tolerance : State W ℕ
  charge_tolerance = do
    limits ← ddl_reg bar l rorc_reg_fcf_limits
    pure (bit_and (limits >>> 28) 0x0f)

  unfoldable pub error_mask : State W ℕ
  error_mask = do fcfctrl ← ddl_reg bar l rorc_reg_fcf_ctrl; pure (bit_and (fcfctrl >>> 6) 0x7f)

  unfoldable pub clear_errors : State W (Unit {0})
  clear_errors = do
    fcfctrl ← ddl_reg bar l rorc_reg_fcf_ctrl
    let raised = bit_or fcfctrl (1 <<< 1)
    set_ddl_reg bar l rorc_reg_fcf_ctrl raised
    set_ddl_reg bar l rorc_reg_fcf_ctrl (bit_and raised (2 ^ 32 - 1 - (1 <<< 1)))

  unfoldable pub set_noise_suppression : ℕ → State W (Unit {0})
  set_noise_suppression noise_suppresion = do
    fcfctrl ← ddl_reg bar l rorc_reg_fcf_limits2
    let cleared = bit_and fcfctrl (2 ^ 32 - 1 - (0xf <<< 28))
    set_ddl_reg bar l rorc_reg_fcf_limits2 (bit_or cleared (bit_and noise_suppresion 0xf <<< 28))

  unfoldable pub noise_suppression : State W ℕ
  noise_suppression = do
    fcfctrl ← ddl_reg bar l rorc_reg_fcf_limits2
    pure (bit_and (fcfctrl >>> 28) 0xf)

  unfoldable pub set_noise_suppression_minimum : ℕ → State W (Unit {0})
  set_noise_suppression_minimum noise_suppresion = do
    fcfctrl ← ddl_reg bar l rorc_reg_fcf_limits2
    let cleared = bit_and fcfctrl (2 ^ 32 - 1 - (0xf <<< 24))
    set_ddl_reg bar l rorc_reg_fcf_limits2 (bit_or cleared (bit_and noise_suppresion 0xf <<< 24))

  unfoldable pub noise_suppression_minimum : State W ℕ
  noise_suppression_minimum = do
    fcfctrl ← ddl_reg bar l rorc_reg_fcf_limits2
    pure (bit_and (fcfctrl >>> 24) 0xf)

  unfoldable pub set_noise_suppression_neighbor : ℕ → State W (Unit {0})
  set_noise_suppression_neighbor noise_suppresion = do
    fcfctrl ← ddl_reg bar l rorc_reg_fcf_ctrl
    let cleared = bit_and fcfctrl (2 ^ 32 - 1 - (0x3 <<< 18))
    set_ddl_reg bar l rorc_reg_fcf_ctrl (bit_or cleared (bit_and noise_suppresion 0x3 <<< 18))

  unfoldable pub noise_suppression_neighbor : State W ℕ
  noise_suppression_neighbor = do
    fcfctrl ← ddl_reg bar l rorc_reg_fcf_ctrl
    pure (bit_and (fcfctrl >>> 18) 0x3)

  unfoldable pub set_cluster_qmax_lower_limit : ℕ → State W (Unit {0})
  set_cluster_qmax_lower_limit limit = do
    regval ← ddl_reg bar l rorc_reg_fcf_limits2
    let cleared = bit_and regval (2 ^ 32 - 1 - 0x7ff)
    set_ddl_reg bar l rorc_reg_fcf_limits2 (bit_or cleared (bit_and limit 0x7ff <<< 0))

  unfoldable pub cluster_qmax_lower_limit : State W ℕ
  cluster_qmax_lower_limit = do
    regval ← ddl_reg bar l rorc_reg_fcf_limits2
    pure (bit_and (regval >>> 0) 0x7ff)

  unfoldable pub write_mapping_ram_entry : ℕ → ℕ → State W (Unit {0})
  write_mapping_ram_entry addr data_ = do
    set_ddl_reg bar l rorc_reg_fcf_ram_data data_
    set_ddl_reg bar l rorc_reg_fcf_ram_ctrl (bit_or addr (1 <<< 31))

  unfoldable pub read_mapping_ram_entry : ℕ → State W ℕ
  read_mapping_ram_entry addr = do
    set_ddl_reg bar l rorc_reg_fcf_ram_ctrl addr
    ddl_reg bar l rorc_reg_fcf_ram_data
