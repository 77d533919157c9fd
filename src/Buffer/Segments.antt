-- ===== src/Buffer/Segments.antt =====
-- What a scatter-gather list stands for: the physical address of every byte of the buffer; and
-- that `initializeSglist` keeps it when it combines records.
use alice_hlt_librorc.Base.{
  ℕ, ◌+◌, ◌-◌, ◌%◌, ◌^◌, ◌<◌, ◌≡◌, refl, List, [], ◌∷◌, Option, none, some, arith, ltb,
  if◌then◌else◌, All, map, true,
}
use alice_hlt_librorc.Buffer.{ScatterGatherEntry, Scatter, entry_of, combines, combine, combine_all}

abbrev pub total : List ScatterGatherEntry → ℕ
total [] = 0
total (e ∷ es) = e.length + total es

-- The address of the byte at an offset, and the bytes from it to the end of its entry.
unfoldable pub locate : List ScatterGatherEntry → ℕ → Option (ℕ × ℕ)
locate [] o = none
locate (e ∷ es) o =
    if ltb o e.length then some (e.pointer + o, e.length - o) else locate es (o - e.length)

-- The address alone.
unfoldable pub address : List ScatterGatherEntry → ℕ → Option ℕ
address [] o = none
address (e ∷ es) o = if ltb o e.length then some (e.pointer + o) else address es (o - e.length)

-- No entry reaches the end of the 64-bit address space.
abbrev pub Fits : ScatterGatherEntry → Type 0
Fits e = e.pointer + e.length < 2 ^ 64

abbrev pub ScatterFits : Scatter → Type 0
ScatterFits s = s.dma_address + s.length < 2 ^ 64

record Joined (entry : ScatterGatherEntry) (next : Scatter) : Type 0 where
  adjacent : entry.pointer + entry.length ≡ next.dma_address

combines-Joined :
    (entry : ScatterGatherEntry) (current : ℕ) (next : Scatter)
    → Fits entry
    → combines entry current next ≡ true
    → Joined entry next
unfolding combines
combines-Joined entry current next f h = ground arith

combine_lem :
    (entry : ScatterGatherEntry) (current : ℕ) (rest : List Scatter) (o : ℕ)
    → Fits entry
    → All ScatterFits rest
    → address (combine entry current rest) o ≡ address (entry ∷ map entry_of rest) o
unfolding combine address entry_of
combine_lem entry current [] o f fs = refl
combine_lem entry current (next ∷ rest) o f fs = ground (
  arith,
  combines-Joined entry current next f,
  combine_lem (record entry { length = (entry.length + next.length) % 2 ^ 64 }) next.length rest o,
  combine_lem (entry_of next) next.length rest (o - entry.length),
)

-- For records that end within the 64-bit address space, combining adjacent ones leaves the physical
-- address of every offset as it was.
pub address-combine_all :
    (scatter : List Scatter) (o : ℕ)
    → All ScatterFits scatter
    → address (combine_all scatter) o ≡ address (map entry_of scatter) o
unfolding combine_all
address-combine_all [] o fs = refl
address-combine_all (s ∷ rest) o fs =
    combine_lem (entry_of s) s.length rest o (unfold entry_of in fs.0) fs.1

total-combine :
    (entry : ScatterGatherEntry) (current : ℕ) (rest : List Scatter)
    → Fits entry
    → All ScatterFits rest
    → (total (combine entry current rest) ≡ entry.length + total (map entry_of rest))
      × All Fits (combine entry current rest)
unfolding combine entry_of
total-combine entry current [] f fs = (refl, (f, tt))
total-combine entry current (next ∷ rest) f fs = ground (
  arith,
  combines-Joined entry current next f,
  total-combine (record entry { length = (entry.length + next.length) % 2 ^ 64 }) next.length rest,
  total-combine (entry_of next) next.length rest,
)

pub total-combine_all :
    (scatter : List Scatter)
    → All ScatterFits scatter
    → (total (combine_all scatter) ≡ total (map entry_of scatter)) × All Fits (combine_all scatter)
unfolding combine_all
total-combine_all [] fs = (refl, tt)
total-combine_all (s ∷ rest) fs =
    total-combine (entry_of s) s.length rest (unfold entry_of in fs.0) fs.1
