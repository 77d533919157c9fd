-- ===== src/Registers.antt =====
-- include/librorc/registers.h: the registers that the modelled components use.
use alice_hlt_librorc.Base.{ℕ}

abbrev pub rorc_channel_offset : ℕ
rorc_channel_offset = 0x8000

abbrev pub rorc_reg_ebdm_n_sg_config : ℕ
rorc_reg_ebdm_n_sg_config = 0

abbrev pub rorc_reg_ebdm_buffer_size_l : ℕ
rorc_reg_ebdm_buffer_size_l = 1

abbrev pub rorc_reg_ebdm_buffer_size_h : ℕ
rorc_reg_ebdm_buffer_size_h = 2

abbrev pub rorc_reg_rbdm_n_sg_config : ℕ
rorc_reg_rbdm_n_sg_config = 3

abbrev pub rorc_reg_rbdm_buffer_size_l : ℕ
rorc_reg_rbdm_buffer_size_l = 4

abbrev pub rorc_reg_rbdm_buffer_size_h : ℕ
rorc_reg_rbdm_buffer_size_h = 5

abbrev pub rorc_reg_ebdm_sw_read_pointer_l : ℕ
rorc_reg_ebdm_sw_read_pointer_l = 6

abbrev pub rorc_reg_ebdm_sw_read_pointer_h : ℕ
rorc_reg_ebdm_sw_read_pointer_h = 7

abbrev pub rorc_reg_rbdm_sw_read_pointer_l : ℕ
rorc_reg_rbdm_sw_read_pointer_l = 8

abbrev pub rorc_reg_rbdm_sw_read_pointer_h : ℕ
rorc_reg_rbdm_sw_read_pointer_h = 9

abbrev pub rorc_reg_dma_ctrl : ℕ
rorc_reg_dma_ctrl = 10

abbrev pub rorc_reg_dma_n_events_processed : ℕ
rorc_reg_dma_n_events_processed = 11

abbrev pub rorc_reg_ebdm_fpga_write_pointer_h : ℕ
rorc_reg_ebdm_fpga_write_pointer_h = 12

abbrev pub rorc_reg_ebdm_fpga_write_pointer_l : ℕ
rorc_reg_ebdm_fpga_write_pointer_l = 13

abbrev pub rorc_reg_rbdm_fpga_write_pointer_l : ℕ
rorc_reg_rbdm_fpga_write_pointer_l = 14

abbrev pub rorc_reg_rbdm_fpga_write_pointer_h : ℕ
rorc_reg_rbdm_fpga_write_pointer_h = 15

abbrev pub rorc_reg_sgentry_addr_low : ℕ
rorc_reg_sgentry_addr_low = 16

abbrev pub rorc_reg_sgentry_addr_high : ℕ
rorc_reg_sgentry_addr_high = 17

abbrev pub rorc_reg_sgentry_len : ℕ
rorc_reg_sgentry_len = 18

abbrev pub rorc_reg_sgentry_ctrl : ℕ
rorc_reg_sgentry_ctrl = 19

abbrev pub rorc_reg_dma_stall_cnt : ℕ
rorc_reg_dma_stall_cnt = 20

abbrev pub rorc_reg_gtx_async_cfg : ℕ
rorc_reg_gtx_async_cfg = 21

abbrev pub rorc_reg_dma_pkt_size : ℕ
rorc_reg_dma_pkt_size = 23

abbrev pub rorc_reg_dma_rate_limiter_waittime : ℕ
rorc_reg_dma_rate_limiter_waittime = 27

abbrev pub rorc_reg_gtx_ctrl : ℕ
rorc_reg_gtx_ctrl = 0

abbrev pub rorc_reg_ddl_ctrl : ℕ
rorc_reg_ddl_ctrl = 8

abbrev pub rorc_regfile_gtx_sel : ℕ
rorc_regfile_gtx_sel = 13

abbrev pub rorc_regfile_ddl_sel : ℕ
rorc_regfile_ddl_sel = 14

abbrev pub rorc_cfg_link_type_diu : ℕ
rorc_cfg_link_type_diu = 0

abbrev pub rorc_cfg_link_type_siu : ℕ
rorc_cfg_link_type_siu = 1

abbrev pub rorc_cfg_link_type_virtual : ℕ
rorc_cfg_link_type_virtual = 2

abbrev pub rorc_cfg_link_type_linktest : ℕ
rorc_cfg_link_type_linktest = 3

abbrev pub rorc_cfg_link_type_ibert : ℕ
rorc_cfg_link_type_ibert = 4

abbrev pub rorc_cfg_timeout_pattern : ℕ
rorc_cfg_timeout_pattern = 0xa5a5a5a5

abbrev pub rorc_reg_firmware_revision : ℕ
rorc_reg_firmware_revision = 0

abbrev pub rorc_reg_firmware_date : ℕ
rorc_reg_firmware_date = 1

abbrev pub rorc_reg_fpga_temperature : ℕ
rorc_reg_fpga_temperature = 2

abbrev pub rorc_reg_fpga_vccint : ℕ
rorc_reg_fpga_vccint = 3

abbrev pub rorc_reg_fpga_vccaux : ℕ
rorc_reg_fpga_vccaux = 4

abbrev pub rorc_reg_sc_req_canceled : ℕ
rorc_reg_sc_req_canceled = 5

abbrev pub rorc_reg_qsfp_led_ctrl : ℕ
rorc_reg_qsfp_led_ctrl = 6

abbrev pub rorc_reg_uptime : ℕ
rorc_reg_uptime = 7

abbrev pub rorc_reg_fpga_id_low : ℕ
rorc_reg_fpga_id_low = 8

abbrev pub rorc_reg_fpga_id_high : ℕ
rorc_reg_fpga_id_high = 9

abbrev pub rorc_reg_dma_tx_timeout : ℕ
rorc_reg_dma_tx_timeout = 10

abbrev pub rorc_reg_i2c_config : ℕ
rorc_reg_i2c_config = 11

abbrev pub rorc_reg_i2c_operation : ℕ
rorc_reg_i2c_operation = 12

abbrev pub rorc_reg_illegal_req : ℕ
rorc_reg_illegal_req = 14

abbrev pub rorc_reg_multidwread : ℕ
rorc_reg_multidwread = 15

abbrev pub rorc_reg_pcie_ctrl : ℕ
rorc_reg_pcie_ctrl = 16

abbrev pub rorc_reg_type_channels : ℕ
rorc_reg_type_channels = 17

abbrev pub rorc_reg_pcie_dst_busy : ℕ
rorc_reg_pcie_dst_busy = 18

abbrev pub rorc_reg_bracket_led_ctrl : ℕ
rorc_reg_bracket_led_ctrl = 19

abbrev pub rorc_reg_fan_ctrl : ℕ
rorc_reg_fan_ctrl = 20

abbrev pub rorc_reg_pcie_terr_drop : ℕ
rorc_reg_pcie_terr_drop = 21

abbrev pub rorc_reg_uc_spi_data : ℕ
rorc_reg_uc_spi_data = 22

abbrev pub rorc_reg_uc_spi_ctrl : ℕ
rorc_reg_uc_spi_ctrl = 23

abbrev pub rorc_reg_pcie_dst_max_busy : ℕ
rorc_reg_pcie_dst_max_busy = 24

abbrev pub rorc_reg_refclk_freq : ℕ
rorc_reg_refclk_freq = 25

abbrev pub rorc_reg_ddr3_ctrl : ℕ
rorc_reg_ddr3_ctrl = 32

abbrev pub rorc_reg_ddr3_c0_tester_rdcnt : ℕ
rorc_reg_ddr3_c0_tester_rdcnt = 33

abbrev pub rorc_reg_ddr3_c0_tester_wrcnt : ℕ
rorc_reg_ddr3_c0_tester_wrcnt = 34

abbrev pub rorc_reg_ddr3_c1_tester_rdcnt : ℕ
rorc_reg_ddr3_c1_tester_rdcnt = 35

abbrev pub rorc_reg_ddr3_c1_tester_wrcnt : ℕ
rorc_reg_ddr3_c1_tester_wrcnt = 36

abbrev pub rorc_reg_ddr3_module : ℕ
rorc_reg_ddr3_module = 37

abbrev pub rorc_reg_data_replay_ctrl : ℕ
rorc_reg_data_replay_ctrl = 45

abbrev pub rorc_reg_data_replay_payload_base : ℕ
rorc_reg_data_replay_payload_base = 48

abbrev pub rorc_reg_dma_elfifo : ℕ
rorc_reg_dma_elfifo = 22

abbrev pub rorc_reg_gtx_drp_ctrl : ℕ
rorc_reg_gtx_drp_ctrl = 24

abbrev pub rorc_reg_gtx_rxdfe : ℕ
rorc_reg_gtx_rxdfe = 1

abbrev pub rorc_reg_gtx_disperr_realign_cnt : ℕ
rorc_reg_gtx_disperr_realign_cnt = 2

abbrev pub rorc_reg_gtx_rxnit_rxlos_cnt : ℕ
rorc_reg_gtx_rxnit_rxlos_cnt = 3

abbrev pub rorc_reg_gtx_error_cnt : ℕ
rorc_reg_gtx_error_cnt = 4

abbrev pub rorc_reg_fcf_limits : ℕ
rorc_reg_fcf_limits = 0

abbrev pub rorc_reg_fcf_sts_rcu : ℕ
rorc_reg_fcf_sts_rcu = 1

abbrev pub rorc_reg_fcf_sts_cfd : ℕ
rorc_reg_fcf_sts_cfd = 2

abbrev pub rorc_reg_fcf_sts_cfm_a : ℕ
rorc_reg_fcf_sts_cfm_a = 3

abbrev pub rorc_reg_fcf_sts_cfm_b : ℕ
rorc_reg_fcf_sts_cfm_b = 4

abbrev pub rorc_reg_fcf_sts_div : ℕ
rorc_reg_fcf_sts_div = 5

abbrev pub rorc_reg_fcf_mp_total_time : ℕ
rorc_reg_fcf_mp_total_time = 6

abbrev pub rorc_reg_fcf_mp_idle_time : ℕ
rorc_reg_fcf_mp_idle_time = 7

abbrev pub rorc_reg_ddl_pg_event_length : ℕ
rorc_reg_ddl_pg_event_length = 9

abbrev pub rorc_reg_ddl_pg_pattern : ℕ
rorc_reg_ddl_pg_pattern = 10

abbrev pub rorc_reg_ddl_pg_num_events : ℕ
rorc_reg_ddl_pg_num_events = 11

abbrev pub rorc_reg_fcf_ctrl : ℕ
rorc_reg_fcf_ctrl = 12

abbrev pub rorc_reg_ddl_cmd : ℕ
rorc_reg_ddl_cmd = 13

abbrev pub rorc_reg_ddl_total_words : ℕ
rorc_reg_ddl_total_words = 15

abbrev pub rorc_reg_ddl_ec : ℕ
rorc_reg_ddl_ec = 16

abbrev pub rorc_reg_ddl_deadtime : ℕ
rorc_reg_ddl_deadtime = 17

abbrev pub rorc_reg_ddl_ctstw : ℕ
rorc_reg_ddl_ctstw = 18

abbrev pub rorc_reg_ddl_festw : ℕ
rorc_reg_ddl_festw = 19

abbrev pub rorc_reg_ddl_dtstw : ℕ
rorc_reg_ddl_dtstw = 20

abbrev pub rorc_reg_ddl_ifstw : ℕ
rorc_reg_ddl_ifstw = 21

abbrev pub rorc_reg_fcf_ram_ctrl : ℕ
rorc_reg_fcf_ram_ctrl = 22

abbrev pub rorc_reg_fcf_ram_data : ℕ
rorc_reg_fcf_ram_data = 23

abbrev pub rorc_reg_ddl_filter_ctrl : ℕ
rorc_reg_ddl_filter_ctrl = 24

abbrev pub rorc_reg_ddl_dma_deadtime : ℕ
rorc_reg_ddl_dma_deadtime = 25

abbrev pub rorc_reg_ddr3_data_replay_channel_ctrl : ℕ
rorc_reg_ddr3_data_replay_channel_ctrl = 26

abbrev pub rorc_reg_ddr3_data_replay_channel_sts : ℕ
rorc_reg_ddr3_data_replay_channel_sts = 27

abbrev pub rorc_reg_fcf_mp_timer_idle : ℕ
rorc_reg_fcf_mp_timer_idle = 28

abbrev pub rorc_reg_fcf_mp_num_events : ℕ
rorc_reg_fcf_mp_num_events = 29

abbrev pub rorc_reg_fcf_mp_num_clusters : ℕ
rorc_reg_fcf_mp_num_clusters = 30

abbrev pub rorc_reg_fcf_limits2 : ℕ
rorc_reg_fcf_limits2 = 31

abbrev pub rorc_cfg_project_hlt_in : ℕ
rorc_cfg_project_hlt_in = 0

abbrev pub rorc_cfg_project_hlt_out : ℕ
rorc_cfg_project_hlt_out = 1

abbrev pub rorc_cfg_project_hlt_in_fcf : ℕ
rorc_cfg_project_hlt_in_fcf = 2

abbrev pub rorc_cfg_project_hlt_in_fcf_ddl2 : ℕ
rorc_cfg_project_hlt_in_fcf_ddl2 = 3

abbrev pub rorc_cfg_project_hwtest : ℕ
rorc_cfg_project_hwtest = 4

abbrev pub rorc_cfg_project_ibert : ℕ
rorc_cfg_project_ibert = 5

abbrev pub rorc_cfg_project_hwcf_coproc : ℕ
rorc_cfg_project_hwcf_coproc = 7

abbrev pub rorc_cfg_project_trorc : ℕ
rorc_cfg_project_trorc = 8

abbrev pub rorc_cfg_link_type_gbt : ℕ
rorc_cfg_link_type_gbt = 5
