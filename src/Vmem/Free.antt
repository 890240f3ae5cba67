-- ===== src/Vmem/Free.antt =====
-- What vfree does to the area that holds the range.
use pzos.Base.{ℕ, ◌+◌, ◌-◌, ◌%◌, ◌^◌, ◌≤◌, ◌<◌, ◌≡◌, ◌≢◌, refl, arith, true, false}
use pzos.Base.{ltb, leb, ◌==◌}
use pzos.Vmem.{Vmas, ok, end_of, change, alloc_vma, split_vma, free_range, minus}
use pzos.Vmem.Areas.{areas_end}

module _ (s : Vmas) (prev addr need : ℕ)
    (upto : (s.node prev).base + (s.node prev).size ≤ areas_end) (some_bytes : need ≢ 0)
    (inside : addr + need ≤ (s.node prev).base + (s.node prev).size) where
  no_overrun : ltb (end_of (s.node prev)) ((addr + need) % 2 ^ 64) ≡ false
  no_overrun = ground arith

  -- The back of an area is freed: the area keeps its base and ends where the range began, and no
  -- other area changes.
  pub free_range-back :
      (s.node prev).base < addr
      → addr + need ≡ (s.node prev).base + (s.node prev).size
      → (t : Vmas) × (free_range addr need prev s ≡ ok tt t)
        × ((t.node prev).base ≡ (s.node prev).base)
        × (end_of (t.node prev) ≡ addr)
        × ((i : ℕ) → i ≢ prev → t.node i ≡ s.node i)
  unfolding free_range
  free_range-back after whole =
      let below : leb (s.node prev).base addr ≡ true = ground arith in
      let front : (addr == (s.node prev).base) ≡ false = ground arith in
      let back : ((addr + need) % 2 ^ 64 == end_of (s.node prev)) ≡ true = ground arith in
      (
        change prev (λ v. record v { size = minus v.size need }) s,
        rw (free_range, below, no_overrun, front, back) refl,
        ground arith,
        ground arith,
        λ i other. ground arith,
      )

  -- The front of an area is freed: its base moves up but its size stays, so that it ends `need` bytes
  -- behind its old end.
  pub free_range-front :
      addr ≡ (s.node prev).base
      → need < (s.node prev).size
      → (t : Vmas) × (free_range addr need prev s ≡ ok tt t)
        × ((t.node prev).base ≡ addr + need)
        × ((t.node prev).base + (t.node prev).size ≡ (s.node prev).base + (s.node prev).size + need)
  unfolding free_range
  free_range-front start less =
      let below : leb (s.node prev).base addr ≡ true = ground arith in
      let front : (addr == (s.node prev).base) ≡ true = ground arith in
      let part : (need == (s.node prev).size) ≡ false = ground arith in
      (
        change prev (λ v. record v { base = (v.base + need) % 2 ^ 64 }) s,
        rw (free_range, below, no_overrun, front, part) refl,
        ground arith,
        ground arith,
      )

  -- The state behind the split.
  abbrev split_result : Vmas
  split_result =
      let vma = s.vma_free_list in
      let s1 = change prev (λ v. record v { size = minus addr v.base }) s in
      let p = s1.node prev in
      let base = (addr + need) % 2 ^ 64 in
      change prev (λ v. record v { next = vma })
        (change vma
          (λ v. record v { base = base; size = minus (end_of p) base; next = p.next; prev = prev })
          (record s1 { vma_free_list = (s1.node vma).next }))

  -- The middle of an area is freed, with a free node at hand: the area ends where the range began, but
  -- the new area behind the range gets the size 2 ^ 64 - `need`, whatever is left of the old one.
  pub free_range-middle :
      (s.node prev).base < addr
      → addr + need < (s.node prev).base + (s.node prev).size
      → s.vma_free_list ≢ 0
      → s.vma_free_list ≢ prev
      → (t : Vmas) × (free_range addr need prev s ≡ ok tt t)
        × (end_of (t.node prev) ≡ addr)
        × ((t.node prev).next ≡ s.vma_free_list)
        × ((t.node s.vma_free_list).base ≡ addr + need)
        × ((t.node s.vma_free_list).size ≡ 2 ^ 64 - need)
  unfolding free_range split_vma alloc_vma
  free_range-middle after before some_free other =
      let below : leb (s.node prev).base addr ≡ true = ground arith in
      let front : (addr == (s.node prev).base) ≡ false = ground arith in
      let back : ((addr + need) % 2 ^ 64 == end_of (s.node prev)) ≡ false = ground arith in
      let taken : (s.vma_free_list == 0) ≡ false = ground arith in
      (
        split_result,
        rw (free_range, below, no_overrun, front, back) (rw (split_vma, alloc_vma, taken) refl),
        ground arith,
        ground arith,
        ground arith,
        ground arith,
      )
