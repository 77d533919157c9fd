-- ===== src/Tests/ReplayTests.antt =====
-- A board that writes the replay blocks to its two memories at once.
use alice_hlt_librorc.Base.{
  ℕ, zero, suc, ◌+◌, ◌-◌, ◌*◌, ◌/◌, ◌%◌, ◌^◌, ◌<◌, ◌≡◌, refl, arith, ◌==◌, if◌then◌else◌, true,
  false, List, [], ◌∷◌, ◌&&◌, get_or, bit_and,
}
use alice_hlt_librorc.Base.State.{act}
use alice_hlt_librorc.Base.Fallible.{returned}
use alice_hlt_librorc.Bar.{Bar}
use alice_hlt_librorc.Sysmon.Replay.{ddr3_data_replay_event_to_ram}
use alice_hlt_librorc.Sysmon.Stored.{
  ReplayPort, Stored, commanded, ddr3_data_replay_event_to_ram-Stored,
}

record Memories : Type 0 where
  payload : List ℕ
  blocks : ℕ → ℕ → List ℕ

-- The command has the address and the bit of the controller.
write : ℕ → Memories → Memories
write v w = record w {
  blocks = λ c a. if c == v % 8 / 2 && a == v - v % 8 then w.payload else w.blocks c a;
}

unfoldable memories : Bar Memories
unfolding write
memories = record {
  get32 = λ a w. (3, w);
  set32 = λ a v. act (write v);
  get16 = λ a w. (3, w);
  set16 = λ a v. act (write v);
  memcopy = λ a ws. act (λ w. record w { payload = ws });
  usleep = λ n. act (λ w. w);
}

abbrev block : ℕ → ℕ → Memories → List ℕ
block c a w = w.blocks c a

selects :
    (c a : ℕ) → c < 2 → a % 8 ≡ 0 → ((a + 2 ^ c) % 8 / 2 ≡ c) × (a + 2 ^ c - (a + 2 ^ c) % 8 ≡ a)
selects zero a lt aligned = (omega arith, omega arith)
selects (suc zero) a lt aligned = (omega arith, omega arith)
selects (suc (suc c)) a lt aligned = absurd (omega arith)

finished : (c : ℕ) → c < 2 → (bit_and 3 (1 * 2 ^ c) == 0) ≡ false
finished zero lt = refl
finished (suc zero) lt = refl
finished (suc (suc c)) lt = absurd (omega arith)

port : ReplayPort memories block
unfolding memories write
port = record {
  stores = λ words c a w lt aligned fits.
      let (controller, address) = selects c a lt aligned in
      (
        0,
        commanded memories words c a w,
        (finished c lt, refl),
        omega arith,
        λ c' a'. rw (controller, address) refl,
      );
}

abbrev empty : Memories
empty = record { payload = []; blocks = λ c a. [] }

abbrev event_data : List ℕ
event_data = 1 ∷ 2 ∷ 3 ∷ 4 ∷ 5 ∷ 6 ∷ 7 ∷ 8 ∷ 9 ∷ 10 ∷ 11 ∷ 12 ∷ 13 ∷ 14 ∷ 15 ∷ 16 ∷ 17 ∷ []

abbrev stale : ℕ → ℕ
stale i = 0

ddr3_data_replay_event_to_ram-Stored_example :
    (w' : Memories) × (ddr3_data_replay_event_to_ram memories stale event_data 17 64 7 true false
        empty
      ≡ (returned (64 + 8 * ((17 + 14) / 15)), w'))
    × Stored memories block port stale (λ i. get_or event_data i 0) 17 64 7 true false empty w'
ddr3_data_replay_event_to_ram-Stored_example =
    ddr3_data_replay_event_to_ram-Stored memories block port stale event_data 17 64 7 true false
      empty (omega arith) refl (omega arith)
