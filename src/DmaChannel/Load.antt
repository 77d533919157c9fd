-- ===== src/DmaChannel/Load.antt =====
-- `configureBufferDescriptorRam` as a whole: what it returns and what it leaves in the RAM.
use alice_hlt_librorc.Base.{
  ℕ, ◌^◌, ◌<◌, ◌≤◌, ◌≡◌, refl, false, ◌&&◌, List, [], none, some, arith, All, get_or, length, ◌==◌,
  leb, not, if◌then◌else◌, Bool-cases, inl, inr,
}
use alice_hlt_librorc.Base.State.{State}
use alice_hlt_librorc.Bar.{Bar}
use alice_hlt_librorc.Buffer.{
  ScatterGatherEntry, Buffer, SglistFile, sg_list, read_sglist, initialize_sglist,
}
use alice_hlt_librorc.Buffer.Locate.{IsValid}
use alice_hlt_librorc.Link.{Link}
use alice_hlt_librorc.DmaChannel.Pointers.{get_ebdm_max_sg_entries, get_rbdm_max_sg_entries}
use alice_hlt_librorc.DmaChannel.SgList.{
  RamResult, written, efbig, prepare_sg_list, write_prepared, configure_buffer_descriptor_ram,
}
use alice_hlt_librorc.DmaChannel.Prepare.{Short, Prepared, prepare_sg_list-Prepared}
use alice_hlt_librorc.DmaChannel.Ram.{DescriptorRam, empty_entry, write_entries_lem}

sg_list-IsValid :
    (file : SglistFile) {b : Buffer} → IsValid b → sg_list file b ≡ (b, b.sglist_vector)
unfolding sg_list
sg_list-IsValid file v = rw v.initialized

sg_list_unread :
    (file : SglistFile) (b : Buffer)
    → b.sglist_initialized ≡ false
    → read_sglist file ≡ none
    → (sg_list file b).1 ≡ []
unfolding sg_list initialize_sglist
sg_list_unread file b unread fails = ground arith

module _ {W : Type 0} (bar : Bar W) (l : Link) (fw : DescriptorRam bar l) where
  open fw use {ram}

  -- The capacity of the selected RAM as the firmware reports it, and the board after that read.
  abbrev pub max_sg : ℕ → State W ℕ
  max_sg target =
      if target == 0 then get_ebdm_max_sg_entries bar l else get_rbdm_max_sg_entries bar l

  write_prepared_lem :
      (target max : ℕ) (out : List ScatterGatherEntry) (w : W)
      → All Short out
      → target < 2
      → max ≤ 2 ^ 16
      → ((write_prepared bar l target max (some out) w).0
          ≡ (if leb max (length out) then efbig else written))
        × ((sel i : ℕ)
            → ram sel i (write_prepared bar l target max (some out) w).1 ≡ (
                if not (leb max (length out)) && (sel == target && leb i (length out))
                then get_or out i empty_entry
                else ram sel i w))
  unfolding write_prepared
  write_prepared_lem target max out w short ht hm = elim (Bool-cases (leb max (length out))) [
    | inl full ↦ rw full (refl, λ sel i. refl)
    | inr fits ↦
        let cell = write_entries_lem bar l fw out target 0 w short ht (ground arith) in
        rw fits (refl, λ sel i. ground (arith, cell sel i))
  ]

  configure-write_prepared :
      (page_size : ℕ) (file : SglistFile) {b : Buffer} (target : ℕ) (w : W)
      {out : List ScatterGatherEntry}
      → IsValid b
      → prepare_sg_list page_size b.sglist_vector ≡ some out
      → let (max, w') = max_sg target w in
        let (r, w'') = write_prepared bar l target max (some out) w' in
        configure_buffer_descriptor_ram bar l page_size file b target w ≡ ((r, b), w'')
  unfolding configure_buffer_descriptor_ram
  configure-write_prepared page_size file target w v e = rw (sg_list-IsValid file v, e)

  -- What a call left: the entries that stand for the list `es`, if they are fewer than the capacity.
  pub record Loaded (target : ℕ) (es : List ScatterGatherEntry) (b : Buffer) (w : W)
      (result : (RamResult × Buffer) × W) : Type 0 where
    pub out : List ScatterGatherEntry
    pub prepared : Prepared es out
    pub answer : result.0.0 ≡ (if leb (max_sg target w).0 (length out) then efbig else written)
    pub buffer : result.0.1 ≡ b
    pub cells :
        (sel i : ℕ)
        → ram sel i result.1 ≡ (
            if not (leb (max_sg target w).0 (length out)) && (sel == target && leb i (length out))
            then get_or out i empty_entry
            else ram sel i (max_sg target w).1)

  -- For a buffer that has read its list, a page size below 4 GB, a RAM of at most 2 ^ 16 entries
  -- and firmware that stores entries as documented: `configureBufferDescriptorRam` prepares a list
  -- that stands for the bytes of the buffer in 32-bit pieces. If it has fewer entries than the RAM,
  -- the call succeeds and the RAM holds the list and an empty entry after it; else the call
  -- fails with EFBIG. No other cell of either RAM changes, and neither does the buffer.
  pub configure_buffer_descriptor_ram-Loaded :
      (page_size : ℕ) (file : SglistFile) {b : Buffer} (target : ℕ) (w : W)
      → 0 < page_size
      → page_size < 2 ^ 32
      → IsValid b
      → target < 2
      → (max_sg target w).0 ≤ 2 ^ 16
      → Loaded target b.sglist_vector b w
          (configure_buffer_descriptor_ram bar l page_size file b target w)
  configure_buffer_descriptor_ram-Loaded page_size file {b} target w pos small v ht hm =
      let (out, eq, p) = prepare_sg_list-Prepared page_size b.sglist_vector pos small v.fits in
      let (max, w') = max_sg target w in
      let loaded = write_prepared_lem target max out w' p.short ht hm in
      rw (configure-write_prepared page_size file target w v eq)
        (record { out = out; prepared = p; answer = loaded.0; buffer = refl; cells = loaded.1 })

  -- With firmware that stores entries as documented and a RAM of 1 to 2 ^ 16 entries: if the list of
  -- a buffer has not been read and cannot be read, `configureBufferDescriptorRam` still succeeds, and
  -- leaves a RAM whose first entry is the empty one that ends the list.
  pub configure_buffer_descriptor_ram_unread :
      (page_size : ℕ) (file : SglistFile) (b : Buffer) (target : ℕ) (w : W)
      → b.sglist_initialized ≡ false
      → read_sglist file ≡ none
      → target < 2
      → 1 ≤ (max_sg target w).0
      → (max_sg target w).0 ≤ 2 ^ 16
      → let result = configure_buffer_descriptor_ram bar l page_size file b target w in
        (result.0.0 ≡ written) × (ram target 0 result.1 ≡ empty_entry)
  unfolding configure_buffer_descriptor_ram prepare_sg_list
  configure_buffer_descriptor_ram_unread page_size file b target w unread fails ht lo hm =
      let none_full : leb (max_sg target w).0 0 ≡ false = ground arith in
      let loaded = write_prepared_lem target (max_sg target w).0 [] (max_sg target w).1 tt ht hm in
      rw (sg_list_unread file b unread fails) (ground (arith, loaded.0, loaded.1 target 0))
