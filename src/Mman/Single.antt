-- ===== src/Mman/Single.antt =====
-- alloc_page and free_page.
use pzos.Base.{ℕ, ◌+◌, ◌-◌, ◌*◌, ◌/◌, ◌%◌, ◌^◌, ◌≤◌, ◌<◌, ◌≡◌, ◌≢◌, refl, ap, true, false}
use pzos.Base.{some, arith, ◌==◌, ltb, if◌then◌else◌, inl, inr, Bool-cases, Option-cases}
use pzos.Base.Bits.{test}
use pzos.Mman.{
  Pages, ok, panic, update, lowmem_size, max_page, bitmap_size, stack_word, ctz, bsr, find_word,
  alloc_page, free_page, entry, set_entry, mark_free,
}
use pzos.Mman.Bitmap.{is_free, is_free-mark_free}
use pzos.Mman.Entries.{entry-set_entry, is_free-set_entry}
use pzos.Mman.Scan.{
  ctz-test, ctz-lt, ctz-lowest, ctz-odd, zero-test, IsFirst, find_word-some, find_word-eq,
  find_word-none,
}

-- Words are of 64 bits.
abbrev pub AreWords : (ℕ → ℕ) → Type 0
AreWords ws = (i : ℕ) → ws i < 2 ^ 64

-- free_page of an address in low memory succeeds, makes that page free and changes no other page,
-- and leaves the page stack as it was.
pub free_page-low :
    (ptr : ℕ) (s : Pages)
    → ptr < lowmem_size
    → (t : Pages) × (free_page ptr s ≡ ok tt t)
      × (t.depth ≡ s.depth)
      × ((q : ℕ) → is_free t.words q ≡ (if ptr / 0x1000 == q then true else is_free s.words q))
      × ((k : ℕ) → entry t.words k ≡ entry s.words k)
unfolding free_page
free_page-low ptr s h = (
  record s { words = mark_free s.words (ptr / 0x1000) },
  ground arith,
  refl,
  λ q. is_free-mark_free s.words (ptr / 0x1000) q,
  λ k. unfold entry mark_free in ground arith,
)

-- A page at or above low memory that is freed onto a stack which is not empty is what alloc_page
-- hands out next, but under its address modulo 2 ^ 32. The stack is then as before, and no bit of the
-- bitmap has changed.
pub alloc_page-free_page :
    (ptr : ℕ) (s : Pages)
    → lowmem_size ≤ ptr
    → ptr % 0x1000 ≡ 0
    → s.depth ≢ 0
    → (t u : Pages) × (free_page ptr s ≡ ok tt t)
      × (alloc_page t ≡ ok (ptr % 2 ^ 32) u)
      × (u.depth ≡ s.depth)
      × ((k : ℕ) → k < s.depth → entry u.words k ≡ entry s.words k)
      × ((q : ℕ) → q < max_page → is_free u.words q ≡ is_free s.words q)
unfolding alloc_page free_page
alloc_page-free_page ptr s high aligned more =
    let ws = set_entry s.words s.depth (ptr / 0x1000) in
    (
      record s { words = ws; depth = s.depth + 1 },
      record s { words = ws },
      ground arith,
      ground (arith, entry-set_entry s.words s.depth (ptr / 0x1000) (s.depth + 1 - 1)),
      refl,
      λ k h. ground (arith, entry-set_entry s.words s.depth (ptr / 0x1000) k),
      λ q h. is_free-set_entry s.words s.depth (ptr / 0x1000) q h,
    )

-- After alloc_page has taken the last page of the stack, that page cannot be given back: free_page
-- of any address at or above low memory panics.
pub free_page-alloc_last :
    (ptr a : ℕ) (s t : Pages)
    → s.depth ≡ 1
    → lowmem_size ≤ ptr
    → alloc_page s ≡ ok a t
    → free_page ptr t ≡ panic
unfolding alloc_page free_page
free_page-alloc_last ptr a s t one high h = ground arith

-- The word that alloc_page takes a page from.
alloc_page-word :
    (s : Pages) (k : ℕ)
    → s.depth ≡ 0
    → find_word bitmap_size 0 s.words ≡ some k
    → alloc_page s
      ≡ ok
          ((k * 64 + ctz (s.words k)) * 0x1000)
          (record s { words = update s.words k (bsr (s.words k)) })
unfolding alloc_page
alloc_page-word s k d e = ground (arith, e)

-- A page below `64 * k + c` is not free, if the words before `k` are zero and so are the bits of
-- word `k` before `c`.
below_first :
    (ws : ℕ → ℕ) (k q : ℕ)
    → ((j : ℕ) → j < k → ws j ≡ 0)
    → q < k * 64 + ctz (ws k)
    → ctz (ws k) < 64
    → is_free ws q ≡ false
below_first ws k q empty h c = elim (Bool-cases (ltb (q / 64) k)) [
  | inl before ↦
      let z : ws (q / 64) ≡ 0 = empty (q / 64) (ground arith) in rw z (zero-test (q % 64))
  | inr at ↦
      let e : q / 64 ≡ k = ground arith in rw e (ctz-lowest (ws k) (q % 64) (omega (arith, e)))
]

module _ (s : Pages) (bits : AreWords s.words) (empty : s.depth ≡ 0) where
  taken_word :
      (k : ℕ)
      → IsFirst s.words 0 bitmap_size k
      → (find_word bitmap_size 0 s.words ≡ some k)
        × (is_free s.words (k * 64 + ctz (s.words k)) ≡ true)
        × ((r : ℕ) → r < k * 64 + ctz (s.words k) → is_free s.words r ≡ false)
  taken_word k f =
      let c = ctz (s.words k) in
      let c_lt : c < 64 = ctz-lt (s.words k) f.found (bits k) in
      let at : (k * 64 + c) / 64 ≡ k = omega (arith, c_lt) in
      let bit : (k * 64 + c) % 64 ≡ c = omega (arith, c_lt) in
      (
        find_word-eq bitmap_size 0 s.words k f.from f.upto f.found f.first,
        rw (at, bit) (ctz-test (s.words k) f.found (bits k)),
        λ r h. below_first s.words k r (λ j lt. f.first j (omega arith) lt) h c_lt,
      )

  -- With an empty stack and some page of low memory free, alloc_page hands out the free page with the
  -- lowest number. Of memory it changes only that page's word of the bitmap, which becomes the index
  -- of its highest bit.
  pub alloc_page-lowest :
      (p : ℕ)
      → p < max_page
      → is_free s.words p ≡ true
      → (q : ℕ) × (t : Pages) × (alloc_page s ≡ ok (q * 0x1000) t)
        × (q ≤ p)
        × (is_free s.words q ≡ true)
        × ((r : ℕ) → r < q → is_free s.words r ≡ false)
        × (t.words (q / 64) ≡ bsr (s.words (q / 64)))
        × ((j : ℕ) → j ≢ q / 64 → t.words j ≡ s.words j)
        × (t.depth ≡ 0)
  alloc_page-lowest p h free = elim (Option-cases (find_word bitmap_size 0 s.words)) [
    | inl nothing ↦
        let z : s.words (p / 64) ≡ 0 =
          find_word-none bitmap_size 0 s.words (p / 64) nothing (omega arith) (omega arith) in
        absurd (ground (arith, zero-test (p % 64), ap (λ w. test w (p % 64)) z))
    | inr (k, e) ↦
        let f : IsFirst s.words 0 bitmap_size k = find_word-some bitmap_size 0 s.words e in
        let (found, good, low) = taken_word k f in
        let c_lt : ctz (s.words k) < 64 = ctz-lt (s.words k) f.found (bits k) in
        let at : (k * 64 + ctz (s.words k)) / 64 ≡ k = omega (arith, c_lt) in
        (
          k * 64 + ctz (s.words k),
          record s { words = update s.words k (bsr (s.words k)) },
          alloc_page-word s k empty e,
          elim (Bool-cases (ltb p (k * 64 + ctz (s.words k)))) [
            | inl before ↦ absurd (ground (arith, low p))
            | inr after ↦ ground arith
          ],
          good,
          low,
          rw at (ground arith),
          λ j ne. ground (arith, at),
          empty,
        )
  ]

  -- A double allocation: with an empty page stack and a bitmap of 64-bit words, if the lowest free page
  -- is the first of its word, and the highest free page of that word is one with an odd index, then
  -- alloc_page hands out that same lowest page twice.
  pub alloc_page_twice :
      (k : ℕ)
      → k < bitmap_size
      → ((j : ℕ) → j < k → s.words j ≡ 0)
      → s.words k % 2 ≡ 1
      → bsr (s.words k) % 2 ≡ 1
      → (t u : Pages) × (alloc_page s ≡ ok (k * 64 * 0x1000) t)
        × (alloc_page t ≡ ok (k * 64 * 0x1000) u)
  alloc_page_twice k inside zeros odd high =
      let t : Pages = record s { words = update s.words k (bsr (s.words k)) } in
      let first : find_word bitmap_size 0 s.words ≡ some k =
        find_word-eq bitmap_size 0 s.words k (omega arith) (omega arith) (omega arith)
          (λ j a b. zeros j b) in
      let second : find_word bitmap_size 0 t.words ≡ some k =
        find_word-eq bitmap_size 0 t.words k (omega arith) (omega arith) (ground arith)
          (λ j a b. ground (arith, zeros j)) in
      let at : t.words k ≡ bsr (s.words k) = ground arith in
      (
        t,
        record t { words = update t.words k (bsr (t.words k)) },
        ground (arith, alloc_page-word s k empty first, ctz-odd (s.words k) odd),
        ground (arith, alloc_page-word t k empty second, ctz-odd (t.words k), at),
      )

  -- With nothing free at all, alloc_page reads on behind the bitmap: if a word there is not zero, it
  -- hands out an address at or above low memory.
  pub alloc_page-stale :
      (i : ℕ)
      → ((j : ℕ) → j < stack_word → s.words j ≡ 0)
      → stack_word ≤ i
      → i < bitmap_size
      → s.words i ≢ 0
      → (a : ℕ) × (t : Pages) × (alloc_page s ≡ ok a t) × (lowmem_size ≤ a)
  alloc_page-stale i zeros behind inside stale =
      elim (Option-cases (find_word bitmap_size 0 s.words)) [
        | inl nothing ↦
            absurd
              (stale (find_word-none bitmap_size 0 s.words i nothing (omega arith) (omega arith)))
        | inr (k, e) ↦
            let f : IsFirst s.words 0 bitmap_size k = find_word-some bitmap_size 0 s.words e in
            (
              (k * 64 + ctz (s.words k)) * 0x1000,
              record s { words = update s.words k (bsr (s.words k)) },
              alloc_page-word s k empty e,
              elim (Bool-cases (ltb k stack_word)) [
                | inl low ↦ absurd (f.found (zeros k (ground arith)))
                | inr high ↦ ground arith
              ],
            )
      ]
