-- ===== src/EventStream/Ring.antt =====
-- Positions in the ring of report entries, and one round of the loop of `updateBufferOffsets`.
use native.Mathlib.Decide.{ℕ_discrete}
use alice_hlt_librorc.Base.{
  ℕ, zero, suc, ◌+◌, ◌-◌, ◌^◌, ◌<◌, ◌≤◌, ◌≡◌, refl, Bool, true, false, ◌&&◌, List, [], ◌∷◌, arith,
  get_or, set, length, ◌==◌, ltb, leb, if◌then◌else◌, get_or-set_self, get_or-set_ne, length-set,
  u64, ◌*◌, ◌%◌,
}
use alice_hlt_librorc.Buffer.{event_descriptor_size}
use alice_hlt_librorc.EventStream.{
  EventDescriptor, cleared, next_index, count_pending, clear_reports, Releasing, release_body,
}

-- The position `k` places after `i`, and how many places `j` is after `i`.
abbrev pub ring_pos : ℕ → ℕ → ℕ → ℕ
ring_pos max i k = if ltb (i + k) max then i + k else i + k - max

abbrev pub ring_dist : ℕ → ℕ → ℕ → ℕ
ring_dist max i j = if leb i j then j - i else j + max - i

pub next_index_lem : (max i : ℕ) → i < max → max < 2 ^ 63 → next_index max i ≡ ring_pos max i 1
next_index_lem max i h small = ground arith

pub get_or-clear_reports :
    (rs : List EventDescriptor) (start count j : ℕ)
    → get_or (clear_reports rs start count) j cleared
      ≡ (if leb start j && ltb j (start + count) then cleared else get_or rs j cleared)
unfolding clear_reports
get_or-clear_reports [] start count j = ground arith
get_or-clear_reports (r ∷ rs) zero zero zero = ground arith
get_or-clear_reports (r ∷ rs) zero zero (suc j) = ground arith
get_or-clear_reports (r ∷ rs) zero (suc count) zero = ground arith
get_or-clear_reports (r ∷ rs) zero (suc count) (suc j) =
    ground (arith, get_or-clear_reports rs zero count j)
get_or-clear_reports (r ∷ rs) (suc start) count zero = ground arith
get_or-clear_reports (r ∷ rs) (suc start) count (suc j) =
    ground (arith, get_or-clear_reports rs start count j)

pub length-clear_reports :
    (rs : List EventDescriptor) (start count : ℕ)
    → length (clear_reports rs start count) ≡ length rs
unfolding clear_reports
length-clear_reports [] start count = refl
length-clear_reports (r ∷ rs) zero zero = refl
length-clear_reports (r ∷ rs) zero (suc count) = omega (arith, length-clear_reports rs zero count)
length-clear_reports (r ∷ rs) (suc start) count = omega (arith, length-clear_reports rs start count)

pub count_pending-set :
    (bs : List Bool) (i : ℕ)
    → get_or bs i false ≡ true
    → count_pending bs ≡ count_pending (set bs i false) + 1
unfolding count_pending
count_pending-set [] i h = ground arith
count_pending-set (b ∷ bs) zero h = ground arith
count_pending-set (b ∷ bs) (suc i) h = ground (arith, count_pending-set bs i h)

pub count_pending-le : (bs : List Bool) → count_pending bs ≤ length bs
unfolding count_pending
count_pending-le [] = omega arith
count_pending-le (b ∷ bs) = ground (arith, count_pending-le bs)

pub get_or-set :
    (bs : List Bool) (i j : ℕ)
    → i < length bs
    → get_or (set bs i false) j false ≡ (if j == i then false else get_or bs j false)
get_or-set bs i j h = elim (ℕ_discrete i j) [
  | yes e ↦ rw (← e) (ground (arith, get_or-set_self bs i false false h))
  | no ne ↦ ground (arith, get_or-set_ne bs i j false false ne)
]

-- What holds before each round: the entries that still have to be cleared end where the loop is.
pub record Rolling (max : ℕ) (r : Releasing) : Type 0 where
  pub small : max < 2 ^ 58
  pub map_length : length r.release_map ≡ max
  pub reports_length : length r.reports ≡ max
  pub inside : r.release_index < max
  pub pending : r.index_start + r.index_count ≡ r.release_index

-- An entry of the report buffer, once what is pending is cleared.
abbrev pub entry : Releasing → ℕ → EventDescriptor
entry r j = get_or (clear_reports r.reports r.index_start r.index_count) j cleared

abbrev pub flag : Releasing → ℕ → Bool
flag r j = get_or r.release_map j false

-- One round frees the entry at the index and goes on to the next.
pub record Round (max size : ℕ) (r r' : Releasing) : Type 0 where
  pub rolling : Rolling max r'
  pub index : r'.release_index ≡ ring_pos max r.release_index 1
  pub flags : (j : ℕ) → flag r' j ≡ (if j == r.release_index then false else flag r j)
  pub entries : (j : ℕ) → entry r' j ≡ (if j == r.release_index then cleared else entry r j)
  pub offset : r'.event_buffer_offset ≡ (entry r r.release_index).offset
  pub report_offset : r'.report_buffer_offset ≡ u64 (r.release_index * event_descriptor_size) % size

pub release_body-Round :
    (max size : ℕ) (r : Releasing) → Rolling max r → Round max size r (release_body max size r)
unfolding release_body
release_body-Round max size r v = record {
  rolling = ground (
    arith,
    length-set r.release_map r.release_index false,
    length-clear_reports r.reports r.index_start (r.index_count + 1),
  );
  index = ground arith;
  flags = λ j. ground (arith, get_or-set r.release_map r.release_index j);
  entries = λ j. ground (
    arith,
    get_or-clear_reports r.reports r.index_start r.index_count j,
    get_or-clear_reports r.reports r.index_start (r.index_count + 1) j,
    get_or-clear_reports (clear_reports r.reports r.index_start (r.index_count + 1)) 0 0 j,
  );
  offset =
      ground (arith, get_or-clear_reports r.reports r.index_start r.index_count r.release_index);
  report_offset = ground arith;
}

pub count_pending-release_body :
    (max size : ℕ) (r : Releasing)
    → flag r r.release_index ≡ true
    → count_pending (release_body max size r).release_map + 1 ≡ count_pending r.release_map
unfolding release_body
count_pending-release_body max size r h =
    ground (arith, count_pending-set r.release_map r.release_index h)
