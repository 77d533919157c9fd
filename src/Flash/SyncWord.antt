-- ===== src/Flash/SyncWord.antt =====
-- `findFpgaSyncWord` against a search of the contents of the chip.
use alice_hlt_librorc.Base.{
  ℕ, zero, suc, ◌+◌, ◌-◌, ◌*◌, ◌/◌, ◌%◌, ◌^◌, ◌<◌, ◌≤◌, ◌≡◌, ◌==◌, true, false, ◌&&◌, Option, none,
  some, arith, if◌then◌else◌, u32, ◌<<<◌, Bool-cases, inl, inr, ap, sym, ◌∙◌, ==_iff, sub32,
}
use alice_hlt_librorc.Base.Int.{ℤ, pos, negsuc}
use alice_hlt_librorc.Bar.{Bar}
use alice_hlt_librorc.Flash.{Flash, get}
use alice_hlt_librorc.Flash.Program.{
  to_int32, searching, fpga_syncword, find_loop, find_fpga_sync_word,
}

-- The chip is in read-array mode: a read gives a 16-bit word of the contents and changes nothing.
pub record Holds {W : Type 0} (bar : Bar W) (f : Flash) (content : ℕ → ℕ) : Type 0 where
  pub reads : (a : ℕ) (w : W) → get bar f a w ≡ (content a, w)
  pub words : (a : ℕ) → content a < 2 ^ 16

-- The first place of the two halves of the word among `n` from `i` on.
abbrev pub first_sync : (ℕ → ℕ) → ℕ → ℕ → Option ℕ
first_sync content i zero = none
first_sync content i (suc n) =
    if content i == 0x5599 && content (suc i) == 0xaa66
    then some i
    else first_sync content (suc i) n

-- The offset in bytes of the second half, or -1.
abbrev pub second_half : Option ℕ → ℤ
second_half none = negsuc 0
second_half (some i) = pos (2 * i + 2)

-- What the loop leaves, where the word before was `cur_word` and the next is at `i + 1`.
abbrev Outcome : Option ℕ → Option (ℕ × ℕ) → Type 0
Outcome (some i) (some (cur_word, offset)) =
    (cur_word ≡ fpga_syncword) × (offset ≡ 2 * i + 4) × (2 * i + 2 < 2 ^ 31)
Outcome none (some (cur_word, offset)) = (cur_word == fpga_syncword) ≡ false
Outcome found none = ⊥

module _ {W : Type 0} (bar : Bar W) (f : Flash) (content : ℕ → ℕ)
    (holds : Holds bar f content) where
  find_loop-suc :
      (fuel i cur_word end : ℕ) (w : W)
      → (cur_word == fpga_syncword) ≡ false
      → 2 * i + 2 < end
      → end < 2 ^ 31
      → find_loop bar f (suc fuel) cur_word (2 * i + 2) end w
        ≡ find_loop bar f fuel (u32 ((cur_word <<< 16) + content (suc i))) (2 * suc i + 2) end w
  unfolding find_loop
  find_loop-suc fuel i cur_word end w ne more small =
      let go : searching cur_word (2 * i + 2) end ≡ true = ground (arith, ne) in
      let at : (2 * i + 2) / 2 ≡ suc i = omega arith in
      let next : u32 (2 * i + 2 + 2) ≡ 2 * suc i + 2 = omega arith in
      ground (arith, go, at, next, holds.reads (suc i) w)

  find_loop_end :
      (fuel cur_word offset end : ℕ) (w : W)
      → searching cur_word offset end ≡ false
      → find_loop bar f fuel cur_word offset end w ≡ (some (cur_word, offset), w)
  unfolding find_loop
  find_loop_end zero cur_word offset end w stop = rw (find_loop, stop)
  find_loop_end (suc fuel) cur_word offset end w stop = rw (find_loop, stop)

  -- The two words that the loop compares.
  shifted :
      (cur_word i : ℕ)
      → cur_word % 2 ^ 16 ≡ content i
      → u32 ((cur_word <<< 16) + content (suc i)) ≡ content i * 2 ^ 16 + content (suc i)
  shifted cur_word i e = omega (arith, holds.words (suc i))

  is_sync :
      (i : ℕ)
      → (content i * 2 ^ 16 + content (suc i) == fpga_syncword)
        ≡ (content i == 0x5599 && content (suc i) == 0xaa66)
  is_sync i = ground (arith, holds.words i, holds.words (suc i))

  find_loop_lem :
      (n fuel i cur_word end : ℕ) (w : W)
      → cur_word % 2 ^ 16 ≡ content i
      → (cur_word == fpga_syncword) ≡ false
      → i + 1 + n ≡ (end + 1) / 2
      → end < 2 ^ 31
      → n ≤ fuel
      → (out : Option (ℕ × ℕ)) × (find_loop bar f fuel cur_word (2 * i + 2) end w ≡ (out, w))
        × Outcome (first_sync content i n) out
  find_loop_lem zero fuel i cur_word end w e ne last small enough = (
    some (cur_word, 2 * i + 2),
    find_loop_end fuel cur_word (2 * i + 2) end w (ground (arith, ne)),
    ne,
  )
  find_loop_lem (suc n) zero i cur_word end w e ne last small enough = absurd (omega arith)
  find_loop_lem (suc n) (suc fuel) i cur_word end w e ne last small enough =
      let here = content i * 2 ^ 16 + content (suc i) in
      let step : find_loop bar f (suc fuel) cur_word (2 * i + 2) end w
          ≡ find_loop bar f fuel here (2 * suc i + 2) end w =
        find_loop-suc fuel i cur_word end w ne (omega arith) small
        ∙ ap (λ c. find_loop bar f fuel c (2 * suc i + 2) end w) (shifted cur_word i e) in
      elim (Bool-cases (here == fpga_syncword)) [
        | inl hit ↦
            let pair : (content i == 0x5599 && content (suc i) == 0xaa66) ≡ true =
              sym (is_sync i) ∙ hit in
            let found : here ≡ fpga_syncword = (==_iff _ _).0 hit in
            let place : 2 * suc i + 2 ≡ 2 * i + 4 = omega arith in
            (
              some (here, 2 * suc i + 2),
              step ∙ find_loop_end fuel here (2 * suc i + 2) end w (ground (arith, hit)),
              rw (first_sync, pair) (found, place, omega arith),
            )
        | inr miss ↦
            let pair : (content i == 0x5599 && content (suc i) == 0xaa66) ≡ false =
              sym (is_sync i) ∙ miss in
            let low : here % 2 ^ 16 ≡ content (suc i) = omega (arith, holds.words (suc i)) in
            let (out, rest, good) =
              find_loop_lem n fuel (suc i) here end w low miss (omega arith) small (omega arith) in
            (out, step ∙ rest, rw (first_sync, pair) good)
      ]

  find_loop_start :
      (fuel first end : ℕ) (w : W)
      → 2 * first < end
      → end < 2 ^ 31
      → find_loop bar f (suc fuel) 0 (2 * first) end w
        ≡ find_loop bar f fuel (content first) (2 * first + 2) end w
  unfolding find_loop
  find_loop_start fuel first end w more small =
      let go : searching 0 (2 * first) end ≡ true = ground arith in
      let at : 2 * first / 2 ≡ first = omega arith in
      let next : u32 (2 * first + 2) ≡ 2 * first + 2 = omega arith in
      let word : u32 ((0 <<< 16) + content first) ≡ content first =
        omega (arith, holds.words first) in
      ground (arith, go, at, next, word, holds.reads first w)

  answer : Option (ℕ × ℕ) → W → Option ℤ × W
  answer none w = (none, w)
  answer (some (cur_word, offset)) w =
      (some (if cur_word == fpga_syncword then to_int32 (sub32 offset 2) else negsuc 0), w)

  answer_lem :
      (found : Option ℕ) (out : Option (ℕ × ℕ)) (w : W)
      → Outcome found out
      → answer out w ≡ (some (second_half found), w)
  unfolding answer
  answer_lem found none w o = absurd (ground arith)
  answer_lem none (some (cur_word, offset)) w o = rw o
  answer_lem (some i) (some (cur_word, offset)) w o = ground (arith, o)

  find_fpga_sync_word-answer :
      (start_offset search_length fuel offset end : ℕ) (w : W) {out : Option (ℕ × ℕ)}
      → search_length / 2 + 1 ≡ fuel
      → start_offset / 2 * 2 ≡ offset
      → u32 (start_offset + search_length / 2 * 2) ≡ end
      → find_loop bar f fuel 0 offset end w ≡ (out, w)
      → find_fpga_sync_word bar f start_offset search_length w ≡ answer out w
  unfolding find_fpga_sync_word answer
  find_fpga_sync_word-answer start_offset search_length fuel offset end w {out = none} a b c e =
      ground (arith, a, b, c, e)
  find_fpga_sync_word-answer start_offset search_length fuel offset end w
        {out = some (cur_word, last)} a b c e =
      ground (arith, a, b, c, e)

  -- On a chip whose reads give its contents and change nothing, for a range of at least two bytes
  -- that ends below 2 GB, `findFpgaSyncWord` ends. It returns -1 if no two words in a row of the range
  -- are the synchronisation word, and else the byte offset of the second word of the first such pair.
  pub find_fpga_sync_word-first_sync :
      (start_offset search_length : ℕ) (w : W)
      → 1 ≤ search_length / 2
      → start_offset + search_length < 2 ^ 31
      → let first = start_offset / 2 in
        let end = (start_offset + search_length / 2 * 2 + 1) / 2 in
        find_fpga_sync_word bar f start_offset search_length w
        ≡ (some (second_half (first_sync content first (end - first - 1))), w)
  find_fpga_sync_word-first_sync start_offset search_length w some_words small =
      let m = search_length / 2 in
      let first = start_offset / 2 in
      let end = start_offset + m * 2 in
      let n = (end + 1) / 2 - first - 1 in
      let start : start_offset / 2 * 2 ≡ 2 * first = omega arith in
      let fuel : m + 1 ≡ suc m = omega arith in
      let stop : u32 (start_offset + m * 2) ≡ end = omega arith in
      let low : content first % 2 ^ 16 ≡ content first = omega (arith, holds.words first) in
      let small_word : (content first == fpga_syncword) ≡ false =
        ground (arith, holds.words first) in
      let (out, rest, good) =
        find_loop_lem n m first (content first) end w low small_word (omega arith) (omega arith)
          (omega arith) in
      find_fpga_sync_word-answer start_offset search_length (suc m) (2 * first) end w fuel start
        stop (find_loop_start m first end w (omega arith) (omega arith) ∙ rest)
      ∙ answer_lem (first_sync content first n) out w good
