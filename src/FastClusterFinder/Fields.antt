-- ===== src/FastClusterFinder/Fields.antt =====
-- The settings of the cluster finder: every setter has its own field, and its getter reads it back.
use alice_hlt_librorc.Base.{ℕ, refl, arith}
use alice_hlt_librorc.Bar.{Bar}
use alice_hlt_librorc.Bar.Memory.{IsMemory}
use alice_hlt_librorc.Bar.Fields.{IsField, SetsField, Modifies-IsField, Modifies-SetsField}
use alice_hlt_librorc.Link.{Link, ddl_reg, set_ddl_reg}
use alice_hlt_librorc.Registers.{rorc_reg_fcf_ctrl, rorc_reg_fcf_limits, rorc_reg_fcf_limits2}
use alice_hlt_librorc.Ddl.Fields.{ddl_address}
use alice_hlt_librorc.FastClusterFinder.{
  set_ctrl_bit, get_ctrl_bit, set_reset, set_enable, set_bypass, set_single_pad_suppression,
  single_pad_suppression, set_bypass_merger, bypass_merger, set_deconv_pad, deconv_pad,
  set_merger_algorithm, merger_algorithm, set_branch_override, branch_override, tag_border_clusters,
  set_tag_border_clusters, correct_edge_clusters, set_correct_edge_clusters,
  tag_deconvoluted_clusters, set_tag_deconvoluted_clusters, set_single_seq_limit, single_seq_limit,
  set_cluster_lower_limit, cluster_lower_limit, set_merger_distance, merger_distance,
  set_charge_tolerance, charge_tolerance, set_noise_suppression, noise_suppression,
  set_noise_suppression_minimum, noise_suppression_minimum, set_noise_suppression_neighbor,
  noise_suppression_neighbor, set_cluster_qmax_lower_limit, cluster_qmax_lower_limit,
}

module _ {W : Type 0} (bar : Bar W) (word : ℕ → W → ℕ) (memory : IsMemory bar word) (l : Link) where
  pub fcf_ctrl-IsField :
      let ctrl = ddl_address l rorc_reg_fcf_ctrl in
      IsField bar word ctrl 2 1 (single_pad_suppression bar l) (set_single_pad_suppression bar l)
      × IsField bar word ctrl 3 1 (bypass_merger bar l) (set_bypass_merger bar l)
      × IsField bar word ctrl 4 1 (deconv_pad bar l) (set_deconv_pad bar l)
      × IsField bar word ctrl 5 1 (merger_algorithm bar l) (set_merger_algorithm bar l)
      × IsField bar word ctrl 14 1 (branch_override bar l) (set_branch_override bar l)
      × IsField bar word ctrl 16 2
          (tag_deconvoluted_clusters bar l)
          (set_tag_deconvoluted_clusters bar l)
      × IsField bar word ctrl 18 2
          (noise_suppression_neighbor bar l)
          (set_noise_suppression_neighbor bar l)
      × IsField bar word ctrl 20 1 (tag_border_clusters bar l) (set_tag_border_clusters bar l)
      × IsField bar word ctrl 21 1 (correct_edge_clusters bar l) (set_correct_edge_clusters bar l)
      × ((v : ℕ) (w : W) → SetsField bar word ctrl 15 1 v (set_reset bar l v) w)
      × ((v : ℕ) (w : W) → SetsField bar word ctrl 0 1 v (set_enable bar l v) w)
      × ((v : ℕ) (w : W) → SetsField bar word ctrl 13 1 v (set_bypass bar l v) w)
  unfolding ddl_reg set_ddl_reg set_ctrl_bit get_ctrl_bit set_reset set_enable set_bypass
      set_single_pad_suppression single_pad_suppression set_bypass_merger bypass_merger
      set_deconv_pad deconv_pad set_merger_algorithm merger_algorithm set_branch_override
      branch_override tag_border_clusters set_tag_border_clusters correct_edge_clusters
      set_correct_edge_clusters tag_deconvoluted_clusters set_tag_deconvoluted_clusters
      set_noise_suppression_neighbor noise_suppression_neighbor
  fcf_ctrl-IsField =
      let ctrl = ddl_address l rorc_reg_fcf_ctrl in
      (
        Modifies-IsField bar word memory ctrl 2 1 _ _ (omega arith) (λ v w. refl) (λ w. refl),
        Modifies-IsField bar word memory ctrl 3 1 _ _ (omega arith) (λ v w. refl) (λ w. refl),
        Modifies-IsField bar word memory ctrl 4 1 _ _ (omega arith) (λ v w. refl) (λ w. refl),
        Modifies-IsField bar word memory ctrl 5 1 _ _ (omega arith) (λ v w. refl) (λ w. refl),
        Modifies-IsField bar word memory ctrl 14 1 _ _ (omega arith) (λ v w. refl) (λ w. refl),
        Modifies-IsField bar word memory ctrl 16 2 _ _ (omega arith) (λ v w. refl) (λ w. refl),
        Modifies-IsField bar word memory ctrl 18 2 _ _ (omega arith) (λ v w. refl) (λ w. refl),
        Modifies-IsField bar word memory ctrl 20 1 _ _ (omega arith) (λ v w. refl) (λ w. refl),
        Modifies-IsField bar word memory ctrl 21 1 _ _ (omega arith) (λ v w. refl) (λ w. refl),
        λ v w. Modifies-SetsField bar word memory ctrl 15 1 v _ w (omega arith) (λ w. refl),
        λ v w. Modifies-SetsField bar word memory ctrl 0 1 v _ w (omega arith) (λ w. refl),
        λ v w. Modifies-SetsField bar word memory ctrl 13 1 v _ w (omega arith) (λ w. refl),
      )

  -- The limits of the cluster finder are fields of two registers, each set and read back with no
  -- effect on another.
  pub fcf_limits-IsField :
      let limits = ddl_address l rorc_reg_fcf_limits in
      let limits2 = ddl_address l rorc_reg_fcf_limits2 in
      IsField bar word limits 0 16 (cluster_lower_limit bar l) (set_cluster_lower_limit bar l)
      × IsField bar word limits 16 8 (single_seq_limit bar l) (set_single_seq_limit bar l)
      × IsField bar word limits 24 4 (merger_distance bar l) (set_merger_distance bar l)
      × IsField bar word limits 28 4 (charge_tolerance bar l) (set_charge_tolerance bar l)
      × IsField bar word limits2 0 11
          (cluster_qmax_lower_limit bar l)
          (set_cluster_qmax_lower_limit bar l)
      × IsField bar word limits2 24 4
          (noise_suppression_minimum bar l)
          (set_noise_suppression_minimum bar l)
      × IsField bar word limits2 28 4 (noise_suppression bar l) (set_noise_suppression bar l)
  unfolding ddl_reg set_ddl_reg set_single_seq_limit single_seq_limit set_cluster_lower_limit
      cluster_lower_limit set_merger_distance merger_distance set_charge_tolerance charge_tolerance
      set_noise_suppression noise_suppression set_noise_suppression_minimum
      noise_suppression_minimum set_cluster_qmax_lower_limit cluster_qmax_lower_limit
  fcf_limits-IsField =
      let limits = ddl_address l rorc_reg_fcf_limits in
      let limits2 = ddl_address l rorc_reg_fcf_limits2 in
      (
        Modifies-IsField bar word memory limits 0 16 _ _ (omega arith) (λ v w. refl) (λ w. refl),
        Modifies-IsField bar word memory limits 16 8 _ _ (omega arith) (λ v w. refl) (λ w. refl),
        Modifies-IsField bar word memory limits 24 4 _ _ (omega arith) (λ v w. refl) (λ w. refl),
        Modifies-IsField bar word memory limits 28 4 _ _ (omega arith) (λ v w. refl) (λ w. refl),
        Modifies-IsField bar word memory limits2 0 11 _ _ (omega arith) (λ v w. refl) (λ w. refl),
        Modifies-IsField bar word memory limits2 24 4 _ _ (omega arith) (λ v w. refl) (λ w. refl),
        Modifies-IsField bar word memory limits2 28 4 _ _ (omega arith) (λ v w. refl) (λ w. refl),
      )
