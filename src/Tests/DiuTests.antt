-- ===== src/Tests/DiuTests.antt =====
-- Units that answer after some time.
use alice_hlt_librorc.Base.{ℕ, ◌≡◌, refl, arith, ltb, if◌then◌else◌}
use alice_hlt_librorc.Base.Int.{}
use alice_hlt_librorc.Base.Polling.{}
use alice_hlt_librorc.Link.{ddl_reg}
use alice_hlt_librorc.Ddl.Diu.{no_status, wait_for_status_word}
use alice_hlt_librorc.Ddl.Commands.{Answers, wait_for_status_word_lem}
use alice_hlt_librorc.Tests.Device.{clocked, first_link}

-- No status for 200 microseconds.
abbrev answering : ℕ → ℕ
answering t = if ltb t 200 then no_status else 0x1234

answers : Answers (clocked answering) first_link 0x40 2 0 0x1234 200
unfolding ddl_reg
answers = (refl, (refl, ((λ e. omega arith), refl)))

wait_for_status_word_lem_example :
    (wait_for_status_word (clocked answering) first_link 0x40 0).0
    ≡ (if ltb 10000 2 then no_status else 0x1234)
wait_for_status_word_lem_example =
    wait_for_status_word_lem (clocked answering) first_link 0x40 2 0 0x1234 200 answers
