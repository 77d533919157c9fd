-- ===== src/Link/Domains.antt =====
-- The status tests of a link, bit by bit.
use alice_hlt_librorc.Base.{ℕ, ◌≡◌, ◌↔◌, true, arith}
use alice_hlt_librorc.Base.Bits.{bit, bit_and-masked}
use alice_hlt_librorc.Link.{
  gtx_domain_mask, ddl_domain_mask, gtx_link_mask, gtx_domain_ready, ddl_domain_ready, gtx_link_up,
}

-- The GTX domain is ready exactly when neither the GTX nor its receiver or transmitter is in
-- reset, both resets are done, the receiver's PLL is locked and its clock is not in reset.
pub gtx_domain_ready_iff :
    (cfg : ℕ)
    → (gtx_domain_ready cfg ≡ true) ↔ (
        (bit 0 cfg ≡ 0)
        × (bit 1 cfg ≡ 0)
        × (bit 2 cfg ≡ 1)
        × (bit 3 cfg ≡ 0)
        × (bit 4 cfg ≡ 1)
        × (bit 5 cfg ≡ 1)
        × (bit 8 cfg ≡ 0))
unfolding gtx_domain_ready bit
gtx_domain_ready_iff cfg = ground (arith, bit_and-masked 9 cfg gtx_domain_mask)

-- The DDL domain is ready exactly when neither the GTX nor the DDL clock is in reset.
pub ddl_domain_ready_iff :
    (cfg : ℕ) → (ddl_domain_ready cfg ≡ true) ↔ ((bit 0 cfg ≡ 0) × (bit 7 cfg ≡ 0))
unfolding ddl_domain_ready bit
ddl_domain_ready_iff cfg = ground (arith, bit_and-masked 8 cfg ddl_domain_mask)

-- The link is up exactly when the PHY is ready and enabled, the receiver is byte-aligned and in
-- sync, and neither buffer reports an error.
pub gtx_link_up_iff :
    (sts : ℕ)
    → (gtx_link_up sts ≡ true) ↔ (
        (bit 0 sts ≡ 1)
        × (bit 1 sts ≡ 1)
        × (bit 5 sts ≡ 1)
        × (bit 6 sts ≡ 0)
        × (bit 9 sts ≡ 0)
        × (bit 11 sts ≡ 0))
unfolding gtx_link_up bit
gtx_link_up_iff sts = ground (arith, bit_and-masked 12 sts gtx_link_mask)
