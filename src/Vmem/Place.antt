-- ===== src/Vmem/Place.antt =====
-- Where vmalloc_at places an area.
use pzos.Base.{
  ℕ, zero, suc, ◌+◌, ◌*◌, ◌%◌, ◌^◌, ◌≤◌, ◌<◌, ◌≡◌, ◌≢◌, ◌⊎◌, inl, inr, refl, sym, subst, arith,
}
use pzos.Base.{Option-cases, ◌&&◌, List, [], ◌∷◌, true, false, leb, ◌==◌, Bool-cases}
use pzos.Mman.{page_size}
use pzos.Vmem.{
  Vma, Vmas, Result, ok, panic, end_of, bytes, Found, gap, behind, lost, search, use_gap,
  append_vma, prepend_vma, at_found, vmalloc_at, at_address, alloc_vma, create_vma,
}
use pzos.Vmem.Areas.{AreAreas, IsClear, IsClear-below, end_of-areas, areas_end}

-- What the search of vmalloc_at has found for the areas from `prev` on: the end of an area, behind
-- which the range is clear, or an area beyond `end`.
abbrev Good : (ℕ → Vma) → ℕ → ℕ → ℕ → List ℕ → Found → Type 0
Good node lo end need xs (gap p c) =
    (lo ≤ end_of (node p)) × (end_of (node p) ≤ areas_end) × IsClear node (end_of (node p)) need xs
Good node lo end need xs (behind p) =
    (end_of (node p) ≤ areas_end)
    × ((end ≤ (node p).base × ((node p).base ≤ end_of (node p)))
        ⊎ ((lo ≤ end_of (node p)) × IsClear node (end_of (node p)) need xs))
Good node lo end need xs lost = Unit {0}

module _ (s : Vmas) (start end need : ℕ) (small : need < 2 ^ 43) where
  Good-cons :
      (x lo : ℕ) (xs : List ℕ) (r : Found)
      → (s.node x).base + (s.node x).size ≤ lo
      → Good s.node lo end need xs r
      → Good s.node ((s.node x).base + (s.node x).size) end need (x ∷ xs) r
  Good-cons x lo xs (gap p c) le (from, upto, clear) =
      (omega arith, upto, (inr (omega arith), clear))
  Good-cons x lo xs (behind p) le (upto, inl beyond) = (upto, inl beyond)
  Good-cons x lo xs (behind p) le (upto, inr (from, clear)) =
      (upto, inr (omega arith, (inr (omega arith), clear)))
  Good-cons x lo xs lost le good = tt

  search-Good :
      (f prev lo : ℕ) (xs : List ℕ)
      → AreAreas s.node prev lo (prev ∷ xs)
      → Good s.node
          ((s.node prev).base + (s.node prev).size)
          end
          need
          (prev ∷ xs)
          (search f start end need prev (s.node prev).next s)
  unfolding search
  search-Good zero prev lo xs areas = tt
  search-Good (suc f) prev lo [] (at, some_node, from, upto, last) =
      let e : end_of (s.node prev) ≡ (s.node prev).base + (s.node prev).size =
        end_of-areas (s.node prev) upto in
      rw last (rw e (upto, inr (omega arith, (inr (omega arith), tt))))
  search-Good (suc f) prev lo (y ∷ ys)
        (at, some_node, from, upto, (at_y, some_y, above, upto_y, rest)) =
      let e : end_of (s.node prev) ≡ (s.node prev).base + (s.node prev).size =
        end_of-areas (s.node prev) upto in
      let more : (y == 0) ≡ false = ground arith in
      let after : Good s.node ((s.node prev).base + (s.node prev).size) end need (prev ∷ y ∷ ys)
          (search f start end need y (s.node y).next s) =
        Good-cons prev ((s.node y).base + (s.node y).size) (y ∷ ys)
          (search f start end need y (s.node y).next s) (omega arith)
          (search-Good f y (s.node y).base ys (refl, some_y, omega arith, upto_y, rest)) in
      rw (search, at_y, more)
        (elim (Bool-cases (leb start (end_of (s.node prev)))) [
          | inr early ↦ rw early after
          | inl late ↦
              elim (Bool-cases (leb ((end_of (s.node prev) + need) % 2 ^ 64) (s.node y).base)) [
                | inl fits ↦
                    rw (late, fits)
                      (let le : end_of (s.node prev) + need ≤ (s.node y).base =
                          ground (arith, e, fits) in
                        (
                          omega (arith, e),
                          omega (arith, e),
                          (
                            inr (omega (arith, e)),
                            (
                              inl le,
                              IsClear-below s.node (s.node y).next
                                  ((s.node y).base + (s.node y).size) (end_of (s.node prev)) need ys
                                  rest (omega (arith, le)),
                            ),
                          ),
                        ))
                | inr tight ↦ elim (Bool-cases (leb end (s.node prev).base)) [
                  | inl beyond ↦
                      rw (late, tight, beyond)
                        (omega (arith, e), inl (ground arith, omega (arith, e)))
                  | inr on ↦ rw (late, tight, on) after
                ]
              ]
        ])

ok-injective : (a b : ℕ) (s t : Vmas) → ◌≡◌ {A = Result ℕ} (ok a s) (ok b t) → a ≡ b
ok-injective a b s t e = cc e

at_address-ok : (a b : ℕ) (r : Result (Unit {0})) (t : Vmas) → at_address a r ≡ ok b t → b ≡ a
at_address-ok a b (ok _ s) t e = ok-injective b a t s (sym e)
at_address-ok a b panic t e = cc e
at_address-ok a b Result.deadlock t e = cc e
at_address-ok a b Result.fault t e = cc e
at_address-ok a b Result.no_fuel t e = cc e

use_gap-address :
    (f need flags prev curr a : ℕ) (s t : Vmas)
    → use_gap f need flags prev curr s ≡ ok a t
    → a ≡ end_of (s.node prev)
unfolding use_gap
use_gap-address f need flags prev curr a s t e = elim (Bool-cases ((s.node prev).flags == flags)) [
  | inl same ↦ ok-injective a (end_of (s.node prev)) t _ (sym (rw (use_gap, same) at e))
  | inr other ↦
      elim (Bool-cases (
        (end_of (s.node prev) + need) % 2 ^ 64 == (s.node curr).base
        && (s.node curr).flags == flags)) [
          | inl grows ↦
              ok-injective a (end_of (s.node prev)) t _ (sym (rw (use_gap, other, grows) at e))
          | inr new ↦
              at_address-ok (end_of (s.node prev)) a
                (create_vma f (end_of (s.node prev)) need flags s) t (rw (use_gap, other, new) at e)
        ]
]

append_vma-address :
    (need flags prev a : ℕ) (s t : Vmas)
    → append_vma need flags prev s ≡ ok a t
    → a ≡ end_of (s.node prev)
unfolding append_vma
append_vma-address need flags prev a s t e = elim (Option-cases (alloc_vma s)) [
  | inl none_left ↦ cc (rw (append_vma, none_left) at e)
  | inr ((vma, s1), got) ↦
      ok-injective a (end_of (s.node prev)) t _ (sym (rw (append_vma, got) at e))
]

prepend_vma-address :
    (start need flags a : ℕ) (s t : Vmas) → prepend_vma start need flags s ≡ ok a t → a ≡ start
unfolding prepend_vma
prepend_vma-address start need flags a s t e = elim (Option-cases (alloc_vma s)) [
  | inl none_left ↦ cc (rw (prepend_vma, none_left) at e)
  | inr ((vma, s1), got) ↦ ok-injective a start t _ (sym (rw (prepend_vma, got) at e))
]

at_found-IsClear :
    (f lo end need flags a : ℕ) (xs : List ℕ) (r : Found) (s t : Vmas)
    → need < 2 ^ 43
    → need ≢ 0
    → Good s.node lo end need xs r
    → at_found f end need flags r s ≡ ok a t
    → IsClear s.node a need xs
unfolding at_found
at_found-IsClear f lo end need flags a xs (gap p c) s t small some_pages (from, upto, clear) e =
    rw (use_gap-address f need flags p c a s t e) clear
at_found-IsClear f lo end need flags a xs (behind p) s t small some_pages (upto, good) e =
    elim (Bool-cases (leb ((end_of (s.node p) + need) % 2 ^ 64) end)) [
      | inr no_room ↦ cc (rw (at_found, no_room) at e)
      | inl room ↦
          let at : a ≡ end_of (s.node p) =
            append_vma-address need flags p a s t (rw (at_found, room) at e) in
          elim good [
            | inl (beyond, order) ↦ absurd (ground (arith, room, beyond, order, upto))
            | inr (from, clear) ↦ rw at clear
          ]
    ]
at_found-IsClear f lo end need flags a xs lost s t small some_pages good e = cc e

-- The range that vmalloc_at hands out overlaps with no area, if the areas are in order, without
-- overlap and below the framebuffer, and fewer than 2 ^ 31 pages are asked for, one at least, from a
-- `start` below the framebuffer.
pub vmalloc_at-IsClear :
    (f start end npages flags a : ℕ) (xs : List ℕ) (s t : Vmas)
    → AreAreas s.node s.vma_list 0 xs
    → npages ≢ 0
    → npages < 2 ^ 31
    → start ≤ areas_end
    → vmalloc_at f start end npages flags s ≡ ok a t
    → IsClear s.node a (npages * page_size) xs
unfolding vmalloc_at
vmalloc_at-IsClear f start end npages flags a [] s t areas some_pages small low e = tt
vmalloc_at-IsClear f start end npages flags a (x ∷ []) s t (head, some_node, from, upto, last)
      some_pages small low e =
    let need : bytes npages ≡ npages * page_size = omega arith in
    let node : (s.vma_list == 0) ≡ false = ground arith in
    let one : ((s.node s.vma_list).next == 0) ≡ true = rw head (ground (arith, last)) in
    let stop : end_of (s.node x) ≡ (s.node x).base + (s.node x).size =
      end_of-areas (s.node x) upto in
    elim (Bool-cases (leb ((start + bytes npages) % 2 ^ 64) (s.node s.vma_list).base)) [
      | inl before ↦
          let place : a ≡ start =
            prepend_vma-address start (bytes npages) flags a s t
              (rw (vmalloc_at, node, one, before) at e) in
          let fits : leb ((start + bytes npages) % 2 ^ 64) (s.node x).base ≡ true =
            rw head at before in
          (inl (ground (arith, fits, place, need)), tt)
      | inr after ↦
          elim (Bool-cases (leb ((end_of (s.node s.vma_list) + bytes npages) % 2 ^ 64) end)) [
            | inr no_room ↦ cc (rw (vmalloc_at, node, one, after, no_room) at e)
            | inl room ↦
                let behind_head : a ≡ end_of (s.node s.vma_list) =
                  append_vma-address (bytes npages) flags s.vma_list a s t
                    (rw (vmalloc_at, node, one, after, room) at e) in
                let place : a ≡ end_of (s.node x) = rw head at behind_head in
                (inr (omega (arith, place, stop)), tt)
          ]
    ]
vmalloc_at-IsClear f start end npages flags a (x ∷ y ∷ ys) s t
      (head, some_node, from, upto, (at_y, some_y, above, upto_y, rest)) some_pages small low e =
    let need : bytes npages ≡ npages * page_size = omega arith in
    let node : (s.vma_list == 0) ≡ false = ground arith in
    let more : ((s.node s.vma_list).next == 0) ≡ false = rw head (ground (arith, at_y)) in
    let areas : AreAreas s.node s.vma_list 0 (s.vma_list ∷ y ∷ ys) =
      rw head (refl, some_node, from, upto, (at_y, some_y, above, upto_y, rest)) in
    let clear : IsClear s.node a (bytes npages) (s.vma_list ∷ y ∷ ys) =
      at_found-IsClear f ((s.node s.vma_list).base + (s.node s.vma_list).size) end (bytes npages)
        flags a (s.vma_list ∷ y ∷ ys)
        (search f start end (bytes npages) s.vma_list (s.node s.vma_list).next s) s t (omega arith)
        (omega arith)
        (search-Good s start end (bytes npages) (omega arith) f s.vma_list 0 (y ∷ ys) areas)
        (rw (vmalloc_at, node, more) at e) in
    subst (λ n. IsClear s.node a n (x ∷ y ∷ ys)) need
      (subst (λ h. IsClear s.node a (bytes npages) (h ∷ y ∷ ys)) head clear)
