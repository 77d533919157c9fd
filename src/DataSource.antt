-- ===== src/DataSource.antt =====
-- src/event_stream.cpp and tools_src/dma/dma_handling.cpp: the devices that a link has, and how the
-- readout programs set them up as the source of a stream.
pub mod ClusterFinder
use alice_hlt_librorc.Base.{ℕ, zero, suc, ◌==◌, Bool, true, false, if◌then◌else◌, ◌&&◌, not}
use alice_hlt_librorc.Base.State.{State}
use alice_hlt_librorc.Base.Fallible.{Fallible, returned, thrown, ◌>>=◌, ◌>>◌, pure, throw, lift}
use alice_hlt_librorc.Bar.{Bar}
use alice_hlt_librorc.Link.{
  Link, pattern_generator_available, fast_cluster_finder_available, is_ddl_domain_ready,
  set_flow_control_enable, set_channel_active, set_default_data_source,
  set_data_source_ddr3_data_replay,
}
use alice_hlt_librorc.Registers.{
  rorc_cfg_link_type_diu, rorc_cfg_link_type_siu, rorc_cfg_link_type_virtual,
}
use alice_hlt_librorc.DmaChannel.Configure.{EventStreamDirection, to_host, to_device}
use alice_hlt_librorc.Base.Int.{is_negative}
use alice_hlt_librorc.Ddl.{set_enable as set_ddl_enable, set_reset as set_ddl_reset_bit}
use alice_hlt_librorc.Ddl.Diu.{
  link_up, prepare_for_siu_data, prepare_for_diu_data, send_fee_ready_to_receive_cmd,
  send_fee_end_of_block_transfer_cmd, use_as_data_source as use_diu_as_data_source,
}
use alice_hlt_librorc.FastClusterFinder.{
  set_reset, set_enable, set_bypass, clear_errors, set_single_pad_suppression, set_bypass_merger,
  set_deconv_pad, set_single_seq_limit, set_cluster_lower_limit, set_merger_distance,
  set_merger_algorithm, set_charge_tolerance,
}
use alice_hlt_librorc.PatternGenerator.{
  pg_pattern_inc, configure_mode, reset_event_id, set_static_event_size,
  use_as_data_source as use_pg_as_data_source, enable, disable,
}

abbrev pub es_src_none : ℕ
es_src_none = 0

abbrev pub es_src_hwpg : ℕ
es_src_hwpg = 1

abbrev pub es_src_diu : ℕ
es_src_diu = 2

abbrev pub es_src_dma : ℕ
es_src_dma = 3

abbrev pub es_src_ddr3 : ℕ
es_src_ddr3 = 4

abbrev pub es_src_raw : ℕ
es_src_raw = 5

abbrev pub es_src_siu : ℕ
es_src_siu = 6

-- `aborted` is a call of `abort`.
pub data SourceError : Type 0 where
  aborted out_of_fuel : SourceError

-- The command line options that the set-up reads.
pub record DmaOptions : Type 0 where
  pub event_size : ℕ
  pub datasource : ℕ
  pub es_type : EventStreamDirection

-- What follows is without the lines that it prints.
module _ {W : Type 0} (bar : Bar W) (l : Link) where
  -- `configureFcf` of a cluster finder that is there.
  unfoldable pub configure_present_fcf : Fallible SourceError W (Unit {0})
  configure_present_fcf = do
    lift (set_reset bar l 1)
    lift (set_enable bar l 0)
    lift (set_bypass bar l 1)
    lift (clear_errors bar l)
    lift (set_single_pad_suppression bar l 0)
    lift (set_bypass_merger bar l 0)
    lift (set_deconv_pad bar l 1)
    lift (set_single_seq_limit bar l 0)
    lift (set_cluster_lower_limit bar l 10)
    lift (set_merger_distance bar l 4)
    lift (set_merger_algorithm bar l 1)
    lift (set_charge_tolerance bar l 0)
    lift (set_reset bar l 0)
    lift (set_enable bar l 1)

  unfoldable pub configure_fcf : Fallible SourceError W (Unit {0})
  configure_fcf = do
    available ← lift (fast_cluster_finder_available bar l)
    if available then configure_present_fcf else pure tt

  unfoldable pub unconfigure_fcf : Fallible SourceError W (Unit {0})
  unconfigure_fcf = do
    available ← lift (fast_cluster_finder_available bar l)
    if available then lift (set_reset bar l 1) >> lift (set_enable bar l 0) else pure tt

  unfoldable pub configure_pattern_generator : DmaOptions → Fallible SourceError W (Unit {0})
  configure_pattern_generator opts = do
    available ← lift (pattern_generator_available bar l)
    if available
        then (do
          lift (configure_mode bar l pg_pattern_inc 0 0)
          lift (reset_event_id bar l)
          lift (set_static_event_size bar l opts.event_size)
          lift (use_pg_as_data_source bar l)
          lift (enable bar l))
        else throw aborted

  unfoldable pub unconfigure_pattern_generator : Fallible SourceError W (Unit {0})
  unconfigure_pattern_generator = do
    available ← lift (pattern_generator_available bar l)
    if available then lift (disable bar l) else throw aborted

  -- The failures of the preparation are only printed.
  unfoldable pub configure_diu : ℕ → DmaOptions → Fallible SourceError W (Unit {0})
  configure_diu linktype opts =
      if linktype == rorc_cfg_link_type_diu
      then (do
        lift (use_diu_as_data_source bar l)
        if opts.datasource == es_src_siu
            then (do
              prepared ← lift (prepare_for_siu_data bar l)
              lift (set_ddl_enable bar l 1)
              ready ← lift (send_fee_ready_to_receive_cmd bar l)
              pure tt)
            else (do prepared ← lift (prepare_for_diu_data bar l); lift (set_ddl_enable bar l 1)))
      else throw aborted

  unfoldable pub unconfigure_diu : ℕ → DmaOptions → Fallible SourceError W (Unit {0})
  unconfigure_diu linktype opts =
      if linktype == rorc_cfg_link_type_diu
      then (do
        if opts.datasource == es_src_siu
            then (do
              up ← lift (link_up bar l)
              if up
                  then (lift (send_fee_end_of_block_transfer_cmd bar l) >>= λ _. pure tt)
                  else pure tt)
            else pure tt
        lift (set_ddl_enable bar l 0))
      else throw aborted

  unfoldable pub configure_raw_readout : ℕ → Fallible SourceError W (Unit {0})
  configure_raw_readout linktype =
      if linktype == rorc_cfg_link_type_virtual
      then lift (set_ddl_enable bar l 1)
      else throw aborted

  unfoldable pub unconfigure_raw_readout : ℕ → Fallible SourceError W (Unit {0})
  unconfigure_raw_readout linktype =
      if linktype == rorc_cfg_link_type_virtual
      then lift (set_ddl_enable bar l 0)
      else throw aborted

  unfoldable pub configure_siu : ℕ → Fallible SourceError W (Unit {0})
  configure_siu linktype =
      if linktype == rorc_cfg_link_type_siu
      then lift (set_ddl_reset_bit bar l 0) >> lift (set_ddl_enable bar l 1)
      else throw aborted

  unfoldable pub unconfigure_siu : ℕ → Fallible SourceError W (Unit {0})
  unconfigure_siu linktype =
      if linktype == rorc_cfg_link_type_siu then lift (set_ddl_enable bar l 0) else throw aborted

  -- `while( !isDdlDomainReady() ) { usleep(100); }`, on fuel.
  unfoldable pub domain_loop : ℕ → Fallible SourceError W (Unit {0})
  domain_loop zero w = (thrown out_of_fuel, w)
  domain_loop (suc rounds) w =
      let (ready, w') = is_ddl_domain_ready bar l w in
      elim ready [ true ↦ (returned tt, w') | false ↦ domain_loop rounds (bar.usleep 100 w').1 ]

  abbrev pub feeds_device : DmaOptions → Bool
  feeds_device opts = elim opts.es_type [
    | to_host ↦ false
    | to_device ↦ not (opts.datasource == es_src_none)
  ]

  abbrev pub to_host_only : EventStreamDirection → Bool
  to_host_only to_host = true
  to_host_only to_device = false

  -- The `switch` of `configureDataSource`.
  unfoldable pub configure_source : ℕ → DmaOptions → Fallible SourceError W (Unit {0})
  configure_source linktype opts =
      if opts.datasource == es_src_hwpg
      then configure_pattern_generator opts
      else if opts.datasource == es_src_siu
      then configure_diu linktype opts
      else if opts.datasource == es_src_diu
      then configure_diu linktype opts
      else if opts.datasource == es_src_dma
      then lift (set_default_data_source bar l)
      else if opts.datasource == es_src_raw
      then configure_raw_readout linktype
      else if opts.datasource == es_src_ddr3
      then lift (set_data_source_ddr3_data_replay bar l)
      else pure tt

  unfoldable pub configure_data_source : ℕ → ℕ → DmaOptions → Fallible SourceError W (Unit {0})
  configure_data_source fuel linktype opts = do
    domain_loop fuel
    lift (set_flow_control_enable bar l 1)
    lift (set_channel_active bar l 1)
    if feeds_device opts then configure_siu linktype else pure tt
    configure_fcf
    configure_source linktype opts

  -- The `switch` of `unconfigureDataSource`.
  unfoldable pub unconfigure_source : ℕ → DmaOptions → Fallible SourceError W (Unit {0})
  unconfigure_source linktype opts =
      if opts.datasource == es_src_hwpg
      then unconfigure_pattern_generator
      else if opts.datasource == es_src_diu
      then unconfigure_diu linktype opts
      else if opts.datasource == es_src_siu
      then unconfigure_diu linktype opts
      else if opts.datasource == es_src_raw
      then unconfigure_raw_readout linktype
      else pure tt

  unfoldable pub unconfigure_data_source : ℕ → DmaOptions → Fallible SourceError W (Unit {0})
  unconfigure_data_source linktype opts = do
    if to_host_only opts.es_type then lift (set_flow_control_enable bar l 0) else pure tt
    lift (set_channel_active bar l 0)
    unconfigure_fcf
    unconfigure_source linktype opts
    if feeds_device opts then unconfigure_siu linktype else pure tt
