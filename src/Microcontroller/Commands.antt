-- ===== src/Microcontroller/Commands.antt =====
-- The commands that the microcontroller gets when a file is programmed.
use alice_hlt_librorc.Base.{
  ℕ, zero, suc, ◌+◌, ◌-◌, ◌%◌, ◌^◌, ◌≤◌, ◌≡◌, refl, sym, ap, ◌∙◌, arith, true, false, some, ◌==◌,
  List, [], ◌∷◌, ◌++◌, bit_and, bit_or, u32, if◌then◌else◌, ◌*◌,
}
use mathlib.Core.List.{append_assoc, append-nil}
use alice_hlt_librorc.Base.Fallible.{Fallible, returned, ◌>>=◌, ◌>>◌, lift, pure}
use alice_hlt_librorc.Bar.{Bar}
use alice_hlt_librorc.Registers.{
  rorc_reg_uc_spi_data, rorc_reg_uc_spi_ctrl, rorc_cfg_timeout_pattern,
}
use alice_hlt_librorc.Microcontroller.{
  UcError, UcFile, uc_spi_prog_enable, uc_spi_erase_chip, uc_spi_ext_addr, low_command,
  high_command, page_command, configure_spi, set_reset, ce_loop, send_command, enter_prog_mode,
  earse_chip, load_extended_addr, load_mem_page, prog_mem_page, load_words, program_pages,
  program_opened, program_from_file,
}

-- The commands for the words of a page, from index `i` on, and for the pages, from address `addr` on.
abbrev pub word_commands : ℕ → List ℕ → List ℕ
word_commands i [] = []
word_commands i (word ∷ words) =
    low_command i word ∷ high_command i word ∷ word_commands (suc i) words

abbrev pub page_commands : ℕ → List (List ℕ) → List ℕ
page_commands addr [] = []
page_commands addr (page ∷ pages) =
    word_commands 0 page ++ (page_command addr ∷ page_commands (u32 (addr + 64)) pages)

module _ {W : Type 0} (bar : Bar W) where
  -- Reads 0 to k - 1 find the interface busy, and read `k` does not.
  abbrev pub Idle : ℕ → W → W → Type 0
  Idle zero w w' =
      let (ctrl, after) = bar.get32 rorc_reg_uc_spi_ctrl w in
      ((bit_and ctrl (1 * 2 ^ 31) == 0) ≡ true) × (after ≡ w')
  Idle (suc k) w w' =
      let (ctrl, after) = bar.get32 rorc_reg_uc_spi_ctrl w in
      ((bit_and ctrl (1 * 2 ^ 31) == 0) ≡ false) × Idle k (bar.usleep 100 after).1 w'

  ce_loop-Idle :
      (timeout k : ℕ) (w w' : W)
      → Idle k w w'
      → k ≤ timeout
      → ce_loop bar timeout w ≡ (returned tt, w')
  unfolding ce_loop
  ce_loop-Idle zero zero w w' h le = rw (ce_loop, h.0, h.1) refl
  ce_loop-Idle zero (suc k) w w' h le = absurd (omega arith)
  ce_loop-Idle (suc timeout) zero w w' h le = rw (ce_loop, h.0, h.1) refl
  ce_loop-Idle (suc timeout) (suc k) w w' h le =
      let next = (bar.usleep 100 (bar.get32 rorc_reg_uc_spi_ctrl w).1).1 in
      rw (ce_loop, h.0) (ce_loop-Idle timeout k next w' h.1 (omega arith))

  -- An interface that sends every command within the timeout; `log` is what has been sent. The
  -- microcontroller confirms the command that enables programming.
  pub record SpiPort (log : W → List ℕ) : Type 0 where
    pub polls : ℕ → W → ℕ
    pub after : ℕ → W → W
    pub sends :
        (cmd : ℕ) (w : W)
        → Idle (polls cmd w) (bar.set32 rorc_reg_uc_spi_data cmd w).1 (after cmd w)
    pub soon : (cmd : ℕ) (w : W) → polls cmd w ≤ 10000
    pub logs :
        (cmd : ℕ) (w : W)
        → log (bar.get32 rorc_reg_uc_spi_data (after cmd w)).1 ≡ log w ++ (cmd ∷ [])
    pub confirms :
        (w : W)
        → (bit_and (bar.get32 rorc_reg_uc_spi_data (after uc_spi_prog_enable w)).0 0xff00 == 0x5300)
          ≡ true
    pub implemented :
        (w : W) → ((bar.get32 rorc_reg_uc_spi_ctrl w).0 == rorc_cfg_timeout_pattern) ≡ false
    pub keeps_get : (w : W) → log (bar.get32 rorc_reg_uc_spi_ctrl w).1 ≡ log w
    pub keeps_set : (v : ℕ) (w : W) → log (bar.set32 rorc_reg_uc_spi_ctrl v w).1 ≡ log w
    pub keeps_usleep : (n : ℕ) (w : W) → log (bar.usleep n w).1 ≡ log w

  module _ (log : W → List ℕ) (port : SpiPort log) where
    -- The board after a command.
    abbrev sent : ℕ → W → W
    sent cmd w = (bar.get32 rorc_reg_uc_spi_data (port.after cmd w)).1

    send_command_lem :
        (cmd : ℕ) (w : W)
        → send_command bar cmd w
          ≡ (returned (bar.get32 rorc_reg_uc_spi_data (port.after cmd w)).0, sent cmd w)
    unfolding send_command
    send_command_lem cmd w =
        let set = (bar.set32 rorc_reg_uc_spi_data cmd w).1 in
        rw
          (ce_loop-Idle 10000 (port.polls cmd w) set (port.after cmd w) (port.sends cmd w)
            (port.soon cmd w))
          refl

    -- From every state, the operation returns, and has sent the commands.
    abbrev pub Sends : Fallible UcError W (Unit {0}) → List ℕ → Type 0
    Sends op commands =
        (w : W) → (w' : W) × (op w ≡ (returned tt, w')) × (log w' ≡ log w ++ commands)

    Sends-pure : Sends (pure tt) []
    Sends-pure w = (w, refl, sym (append-nil (log w)))

    Sends-then :
        (m k : Fallible UcError W (Unit {0})) (before after : List ℕ)
        → Sends m before
        → Sends k after
        → Sends (m >> k) (before ++ after)
    Sends-then m k before after first second w =
        let (w1, e1, l1) = first w in
        let (w2, e2, l2) = second w1 in
        (w2, rw (e1, e2) refl, l2 ∙ ap (λ l. l ++ after) l1 ∙ append_assoc (log w) before after)

    Sends-command :
        (cmd : ℕ) (k : ℕ → Fallible UcError W (Unit {0})) (after : List ℕ)
        → ((w : W) → Sends (k (bar.get32 rorc_reg_uc_spi_data (port.after cmd w)).0) after)
        → Sends (send_command bar cmd >>= k) (cmd ∷ after)
    Sends-command cmd k after second w =
        let (w2, e2, l2) = second w (sent cmd w) in
        (
          w2,
          rw (send_command_lem cmd w, e2) refl,
          l2 ∙ ap (λ l. l ++ after) (port.logs cmd w) ∙ append_assoc (log w) (cmd ∷ []) after,
        )

    Sends-usleep : (n : ℕ) → Sends (lift (bar.usleep n)) []
    Sends-usleep n w = ((bar.usleep n w).1, refl, port.keeps_usleep n w ∙ sym (append-nil (log w)))

    set_reset-Sends : (rstval : ℕ) → Sends (set_reset bar rstval) []
    unfolding set_reset
    set_reset-Sends rstval w =
        let (ctrl, w1) = bar.get32 rorc_reg_uc_spi_ctrl w in
        let v =
          if rstval == 0
          then bit_or ctrl (1 * 2 ^ 30)
          else bit_and ctrl (2 ^ 32 - 1 - 1 * 2 ^ 30) in
        let (_, w2) = bar.set32 rorc_reg_uc_spi_ctrl v w1 in
        (
          (bar.usleep 20000 w2).1,
          refl,
          port.keeps_usleep 20000 w2
              ∙ port.keeps_set v w1
              ∙ port.keeps_get w
              ∙ sym (append-nil (log w)),
        )

    configure_spi-Sends : Sends (configure_spi bar) []
    unfolding configure_spi
    configure_spi-Sends w =
        let (ctrl, w1) = bar.get32 rorc_reg_uc_spi_ctrl w in
        (
          (bar.set32 rorc_reg_uc_spi_ctrl 1000 w1).1,
          rw (port.implemented w) refl,
          port.keeps_set 1000 w1 ∙ port.keeps_get w ∙ sym (append-nil (log w)),
        )

    enter_prog_mode-Sends : Sends (enter_prog_mode bar) (uc_spi_prog_enable ∷ [])
    unfolding enter_prog_mode
    enter_prog_mode-Sends =
        Sends-command uc_spi_prog_enable _ [] (λ w. rw (port.confirms w) Sends-pure)

    earse_chip-Sends : Sends (earse_chip bar) (uc_spi_prog_enable ∷ uc_spi_erase_chip ∷ [])
    unfolding earse_chip
    earse_chip-Sends = Sends-then _ _ [] _ (set_reset-Sends 1) (
        Sends-then _ _ (uc_spi_prog_enable ∷ []) _ enter_prog_mode-Sends (
          Sends-command uc_spi_erase_chip _ []
            (λ w. Sends-then _ _ [] [] (Sends-usleep 9000) (set_reset-Sends 0))))

    load_mem_page-Sends :
        (addr value : ℕ)
        → Sends
            (load_mem_page bar addr value)
            (low_command addr value ∷ high_command addr value ∷ [])
    unfolding load_mem_page
    load_mem_page-Sends addr value =
        Sends-command (low_command addr value) _ (high_command addr value ∷ [])
          (λ w. Sends-command (high_command addr value) _ [] (λ w'. Sends-pure))

    load_words-Sends :
        (i : ℕ) (words : List ℕ) → Sends (load_words bar i words) (word_commands i words)
    unfolding load_words
    load_words-Sends i [] = Sends-pure
    load_words-Sends i (word ∷ words) =
        Sends-then _ _ (low_command i word ∷ high_command i word ∷ []) (word_commands (suc i) words)
          (load_mem_page-Sends i word) (load_words-Sends (suc i) words)

    program_pages-Sends :
        (addr : ℕ) (pages : List (List ℕ))
        → Sends (program_pages bar addr pages) (page_commands addr pages)
    unfolding program_pages prog_mem_page
    program_pages-Sends addr [] = Sends-pure
    program_pages-Sends addr (page ∷ pages) =
        Sends-then _ _ (word_commands 0 page) _ (load_words-Sends 0 page) (
          Sends-then _ _ (page_command addr ∷ []) (page_commands (u32 (addr + 64)) pages)
            (Sends-command (page_command addr) _ [] (λ w. Sends-usleep 4500))
            (program_pages-Sends (u32 (addr + 64)) pages))

    program_opened-Sends :
        (pages : List (List ℕ))
        → Sends (program_opened bar pages) (
            uc_spi_prog_enable
            ∷ uc_spi_erase_chip
            ∷ uc_spi_prog_enable
            ∷ uc_spi_ext_addr
            ∷ page_commands 0 pages)
    unfolding program_opened load_extended_addr
    program_opened-Sends pages =
        let written =
          Sends-then _ _ (page_commands 0 pages) [] (program_pages-Sends 0 pages)
            (set_reset-Sends 0) in
        let trimmed : page_commands 0 pages ++ [] ≡ page_commands 0 pages =
          append-nil (page_commands 0 pages) in
        Sends-then _ _ [] _ configure_spi-Sends (
          Sends-then _ _ (uc_spi_prog_enable ∷ uc_spi_erase_chip ∷ []) _ earse_chip-Sends (
            Sends-then _ _ [] _ (set_reset-Sends 1) (
              Sends-then _ _ (uc_spi_prog_enable ∷ []) _ enter_prog_mode-Sends (
                Sends-then _ _ (uc_spi_ext_addr ∷ []) _
                  (Sends-command uc_spi_ext_addr _ [] (λ w. Sends-pure)) (rw trimmed at written)))))

    -- On a working interface, `programFromFile` of a file of even size returns, and has sent, in this
    -- order, the commands to enable programming and erase the chip, to enable it again, to select
    -- the extended address 0, and for every page those that load its words and write it.
    pub program_from_file-Sends :
        (file : UcFile) (size : ℕ) (w : W)
        → file.opens ≡ true
        → file.size ≡ some size
        → size % 2 ≡ 0
        → (w' : W) × (program_from_file bar file w ≡ (returned tt, w'))
          × (log w'
              ≡ log w
                ++ (uc_spi_prog_enable
                    ∷ uc_spi_erase_chip
                    ∷ uc_spi_prog_enable
                    ∷ uc_spi_ext_addr
                    ∷ page_commands 0 file.pages))
    unfolding program_from_file
    program_from_file-Sends file size w opens known even =
        rw (opens, known, even) (program_opened-Sends file.pages w)
