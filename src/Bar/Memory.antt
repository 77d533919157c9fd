-- ===== src/Bar/Memory.antt =====
-- Registers that keep what is written to them.
use alice_hlt_librorc.Base.{
  ℕ, ◌+◌, ◌-◌, ◌≡◌, ◌&&◌, List, ◌==◌, leb, ltb, if◌then◌else◌, get_or, length,
}
use alice_hlt_librorc.Bar.{Bar}

-- The words of `keeps` hold the last value written; a read of one changes nothing, and a sleep
-- neither.
pub record IsMemory {W : Type 0} (bar : Bar W) (word : ℕ → W → ℕ) : Type 0 where
  pub reads : (a : ℕ) (w : W) → bar.get32 a w ≡ (word a w, w)
  pub writes :
      (a v : ℕ) (w : W) (b : ℕ) → word b (bar.set32 a v w).1 ≡ (if b == a then v else word b w)
  pub copies :
      (a : ℕ) (words : List ℕ) (w : W) (b : ℕ)
      → word b (bar.memcopy a words w).1
        ≡ (if leb a b && ltb b (a + length words) then get_or words (b - a) 0 else word b w)
