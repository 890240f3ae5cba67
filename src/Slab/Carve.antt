-- ===== src/Slab/Carve.antt =====
-- The objects of a new page form one free list.
use pzos.Base.{
  ℕ, zero, suc, ◌+◌, ◌-◌, ◌*◌, ◌≤◌, ◌<◌, ◌≡◌, ◌≢◌, ◌⊎◌, inl, inr, refl, sym, subst, true,
}
use pzos.Base.{arith, ltb}
use native.Mathlib.Nat.{suc-mul}
use pzos.Mman.{update, page_size}
use pzos.Slab.{link_from, carve}
use pzos.Slab.Chain.{IsChain, IsChain-from, objects}

link_from-below :
    (f base size offset : ℕ) (word : ℕ → ℕ) (a : ℕ)
    → size ≤ offset
    → a < base + offset - size
    → link_from f base size offset word a ≡ word a
unfolding link_from
link_from-below zero base size offset word a le low = refl
link_from-below (suc f) base size offset word a le low =
    let next = update word (base + offset - size) (base + offset) in
    let rest : link_from f base size (offset + size) next a ≡ next a =
      link_from-below f base size (offset + size) next a (omega arith) (omega arith) in
    ground (arith, rest)

link_from-above :
    (f base size offset : ℕ) (word : ℕ → ℕ) (a : ℕ)
    → size ≤ offset
    → size ≢ 0
    → base + page_size ≤ a
    → link_from f base size offset word a ≡ word a
unfolding link_from
link_from-above zero base size offset word a le some_size high = refl
link_from-above (suc f) base size offset word a le some_size high =
    let next = update word (base + offset - size) (base + offset) in
    let rest : link_from f base size (offset + size) next a ≡ next a =
      link_from-above f base size (offset + size) next a (omega arith) some_size high in
    ground (arith, rest)

-- `n` objects behind the one that ends at `offset`.
link_from-IsChain :
    (n f base size offset : ℕ) (word : ℕ → ℕ)
    → base ≢ 0
    → size ≢ 0
    → size ≤ offset
    → offset + n * size ≡ page_size
    → n ≤ f
    → IsChain
        (update (link_from f base size offset word) (base + page_size - size) 0)
        (base + offset - size)
        (objects (suc n) (base + offset - size) size)
unfolding link_from
link_from-IsChain zero f base size offset word some_base some_size le end fuel =
    let last : offset ≡ page_size = omega arith in (refl, omega arith, ground arith)
link_from-IsChain (suc n) zero base size offset word some_base some_size le end fuel =
    absurd (omega arith)
link_from-IsChain (suc n) (suc f) base size offset word some_base some_size le end fuel =
    let one_more : suc n * size ≡ n * size + size = suc-mul n size in
    let more : ltb offset page_size ≡ true = ground (arith, end, one_more) in
    let next = update word (base + offset - size) (base + offset) in
    let here : base + (offset + size) - size ≡ base + offset = omega arith in
    let there : base + offset - size + size ≡ base + offset = omega arith in
    let rest : IsChain
        (update (link_from f base size (offset + size) next) (base + page_size - size) 0)
        (base + offset) (objects (suc n) (base + offset) size) =
      subst
        (λ a.
          IsChain (update (link_from f base size (offset + size) next) (base + page_size - size) 0)
            a (objects (suc n) a size))
        here
        (link_from-IsChain n f base size (offset + size) next some_base some_size (omega arith)
          (omega (arith, end, one_more)) (omega arith)) in
    let below : link_from f base size (offset + size) next (base + offset - size)
        ≡ next (base + offset - size) =
      link_from-below f base size (offset + size) next (base + offset - size) (omega arith)
        (omega arith) in
    let link : update (link_from f base size (offset + size) next) (base + page_size - size) 0
          (base + offset - size)
        ≡ base + offset =
      ground (arith, below, end, one_more) in
    let x = base + offset - size in
    let linked = link_from f base size (offset + size) next in
    let all = update linked (base + page_size - size) 0 in
    let behind : IsChain all (base + offset) (objects (suc n) (x + size) size) =
      subst (λ a. IsChain all (base + offset) (objects (suc n) a size)) (sym there) rest in
    let stepped : link_from (suc f) base size offset word ≡ linked = rw more refl in
    subst (λ w. IsChain (update w (base + page_size - size) 0) x (objects (suc (suc n)) x size))
      (sym stepped)
      (
        refl,
        omega arith,
        IsChain-from all x (base + offset) (objects (suc n) (x + size) size) link behind,
      )

-- A page of `suc n` objects: the free list leads through all of them, in order.
pub carve-IsChain :
    (n base size : ℕ) (word : ℕ → ℕ)
    → base ≢ 0
    → size ≢ 0
    → suc n * size ≡ page_size
    → n ≤ page_size
    → IsChain (carve base size word) base (objects (suc n) base size)
unfolding carve
carve-IsChain n base size word some_base some_size full fuel =
    let start : base + size - size ≡ base = omega arith in
    let end : size + n * size ≡ page_size = omega (arith, suc-mul n size, full) in
    subst (λ a. IsChain (carve base size word) a (objects (suc n) a size)) start
      (link_from-IsChain n page_size base size size word some_base some_size (omega arith) end fuel)

-- Only words of the page are written.
pub carve-outside :
    (base size : ℕ) (word : ℕ → ℕ) (a : ℕ)
    → size ≢ 0
    → size ≤ page_size
    → (a < base) ⊎ (base + page_size ≤ a)
    → carve base size word a ≡ word a
unfolding carve
carve-outside base size word a some_size le (inl low) =
    ground (arith, link_from-below page_size base size size word a (omega arith) (omega arith))
carve-outside base size word a some_size le (inr high) =
    ground (arith, link_from-above page_size base size size word a (omega arith) some_size high)
