-- ===== src/DmaChannel/Prepare.antt =====
-- `prepareSgList`: what it makes of a list stands for the same bytes, in 32-bit pieces.
use native.Mathlib.Decide.{dec_lt}
use alice_hlt_librorc.Base.{
  ℕ, zero, suc, ◌+◌, ◌-◌, ◌^◌, ◌<◌, ◌≤◌, ◌≡◌, refl, List, [], ◌∷◌, ◌++◌, some, arith, All, ap,
  All-append, ltb, if◌then◌else◌, u64, length, length-append, sub64,
}
use alice_hlt_librorc.Buffer.{ScatterGatherEntry}
use alice_hlt_librorc.Buffer.Segments.{total, address, Fits}
use alice_hlt_librorc.DmaChannel.SgList.{piece, split_loop, prepare_sg_list}

abbrev pub Short : ScatterGatherEntry → Type 0
Short e = (e.length < 2 ^ 32) × (e.pointer + e.length < 2 ^ 64)

-- The pieces of one segment.
record Pieces (cur rem : ℕ) (out : List ScatterGatherEntry) : Type 0 where
  complete : total out ≡ rem
  short : All Short out
  some_piece : 1 ≤ length out
  more : 2 ^ 32 ≤ rem → 2 ≤ length out
  same : (o : ℕ) → o < rem → address out o ≡ some (cur + o)

split_loop-suc :
    (fuel page_size cur rem : ℕ) {rest : List ScatterGatherEntry}
    → 0 < page_size
    → page_size < 2 ^ 32
    → cur + rem < 2 ^ 64
    → 2 ^ 32 ≤ rem
    → split_loop fuel page_size (cur + (2 ^ 32 - page_size)) (rem - (2 ^ 32 - page_size))
      ≡ some rest
    → split_loop (suc fuel) page_size cur rem
      ≡ some (record { pointer = cur; length = 2 ^ 32 - page_size } ∷ rest)
unfolding split_loop
split_loop-suc fuel page_size cur rem {rest} pos small fits long e =
    let cut : piece page_size ≡ 2 ^ 32 - page_size = omega arith in
    let next : u64 (cur + piece page_size) ≡ cur + (2 ^ 32 - page_size) = omega arith in
    let left : sub64 rem (piece page_size) ≡ rem - (2 ^ 32 - page_size) = omega arith in
    ground (arith, cut, next, left, e)

split_loop_lem :
    (fuel page_size cur rem : ℕ)
    → 0 < page_size
    → page_size < 2 ^ 32
    → cur + rem < 2 ^ 64
    → rem < fuel
    → (out : List ScatterGatherEntry) × (split_loop fuel page_size cur rem ≡ some out)
      × Pieces cur rem out
unfolding split_loop address
split_loop_lem zero page_size cur rem pos small fits h = absurd (omega arith)
split_loop_lem (suc fuel) page_size cur rem pos small fits h = elim (dec_lt rem (2 ^ 32)) [
  | yes lt ↦ (
    record { pointer = cur; length = rem } ∷ [],
    ground arith,
    record {
      complete = omega arith;
      short = omega arith;
      some_piece = omega arith;
      more = λ ge. absurd (omega arith);
      same = λ o lt. ground arith;
    },
  )
  | no ge ↦
      let cut : ℕ = 2 ^ 32 - page_size in
      let (rest, eq, p) =
        split_loop_lem fuel page_size (cur + cut) (rem - cut) pos small (omega arith)
          (omega arith) in
      (
        record { pointer = cur; length = cut } ∷ rest,
        split_loop-suc fuel page_size cur rem pos small fits (omega arith) eq,
        record {
          complete = omega (arith, p.complete);
          short = (omega arith, p.short);
          some_piece = omega arith;
          more = λ g. omega (arith, p.some_piece);
          same = λ o lt. ground (arith, p.same (o - cut));
        },
      )
]

address-append :
    (xs ys : List ScatterGatherEntry) (o : ℕ)
    → address (xs ++ ys) o ≡ (if ltb o (total xs) then address xs o else address ys (o - total xs))
unfolding address
address-append [] ys o = ground arith
address-append (x ∷ xs) ys o =
    let shift : o - x.length - total xs ≡ o - (x.length + total xs) = omega arith in
    ground (arith, address-append xs ys (o - x.length), shift)

total-append : (xs ys : List ScatterGatherEntry) → total (xs ++ ys) ≡ total xs + total ys
total-append [] ys = omega arith
total-append (x ∷ xs) ys = omega (arith, total-append xs ys)

-- The list `out` stands for the same bytes as `es`, in entries of 32-bit length.
pub record Prepared (es out : List ScatterGatherEntry) : Type 0 where
  pub complete : total out ≡ total es
  pub short : All Short out
  pub no_shorter : length es ≤ length out
  pub same : (o : ℕ) → address out o ≡ address es o

Prepared-cons :
    (e : ScatterGatherEntry) (es pieces out : List ScatterGatherEntry)
    → Pieces e.pointer e.length pieces
    → Prepared es out
    → Prepared (e ∷ es) (pieces ++ out)
unfolding address
Prepared-cons e es pieces out p r = record {
  complete = omega (arith, total-append pieces out, p.complete, r.complete);
  short = All-append Short pieces out p.short r.short;
  no_shorter = omega (arith, length-append pieces out, p.some_piece, r.no_shorter);
  same = λ o. ground (
    arith,
    address-append pieces out o,
    p.complete,
    p.same o,
    r.same (o - total pieces),
    ap (λ t. address es (o - t)) p.complete,
  );
}

prepare-cons :
    (page_size : ℕ) (e : ScatterGatherEntry) (es : List ScatterGatherEntry)
    {pieces out : List ScatterGatherEntry}
    → split_loop (suc e.length) page_size e.pointer e.length ≡ some pieces
    → prepare_sg_list page_size es ≡ some out
    → prepare_sg_list page_size (e ∷ es) ≡ some (pieces ++ out)
unfolding prepare_sg_list
prepare-cons page_size e es split rest = ground (arith, split, rest)

-- With a page size below 4 GB and segments that end within the 64-bit address space,
-- `prepareSgList` ends, and its list stands for the same bytes in entries of 32-bit length.
pub prepare_sg_list-Prepared :
    (page_size : ℕ) (es : List ScatterGatherEntry)
    → 0 < page_size
    → page_size < 2 ^ 32
    → All Fits es
    → (out : List ScatterGatherEntry) × (prepare_sg_list page_size es ≡ some out) × Prepared es out
unfolding prepare_sg_list
prepare_sg_list-Prepared page_size [] pos small f =
    ([], refl, record { complete = refl; short = tt; no_shorter = omega arith; same = λ o. refl })
prepare_sg_list-Prepared page_size (e ∷ es) pos small f =
    let (pieces, split, p) =
      split_loop_lem (suc e.length) page_size e.pointer e.length pos small f.0 (omega arith) in
    let (out, rest, r) = prepare_sg_list-Prepared page_size es pos small f.1 in
    (pieces ++ out, prepare-cons page_size e es split rest, Prepared-cons e es pieces out p r)
