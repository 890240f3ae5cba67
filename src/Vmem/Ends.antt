-- ===== src/Vmem/Ends.antt =====
-- vmalloc_at comes to an end.
use pzos.Base.{ℕ, zero, suc, ◌+◌, ◌%◌, ◌^◌, ◌<◌, ◌≡◌, ◌≢◌, inl, inr, refl, sym, arith, not}
use pzos.Base.{◌&&◌, Bool, List, [], ◌∷◌, true, false, ltb, leb, ◌==◌, if◌then◌else◌, Bool-cases}
use pzos.Base.{some, length}
use pzos.Vmem.{
  Vma, Vmas, Result, ok, panic, end_of, bytes, Found, gap, behind, lost, search, use_gap,
  append_vma, prepend_vma, first_vma, at_found, vmalloc_at, at_address, alloc_vma, create_vma,
  find_place, change, set_area,
}

-- The pointers lead from `a` through the nodes `xs`, to NULL.
abbrev pub Links : (ℕ → Vma) → ℕ → List ℕ → Type 0
Links node a [] = a ≡ 0
Links node a (x ∷ xs) = (a ≡ x) × (x ≢ 0) × Links node (node x).next xs

-- An address or a panic; no deadlock, no read through NULL, and enough fuel.
abbrev pub Ends : {A : Type 0} → Result A → Type 0
Ends (ok a s) = Unit {0}
Ends panic = Unit {0}
Ends Result.deadlock = ⊥
Ends Result.fault = ⊥
Ends Result.no_fuel = ⊥

Links-node :
    (u v : ℕ → Vma) (a : ℕ) (xs : List ℕ)
    → ((i : ℕ) → (u i).next ≡ (v i).next)
    → Links u a xs
    → Links v a xs
Links-node u v a [] same links = links
Links-node u v a (x ∷ xs) same (at, some_node, rest) =
    (at, some_node, rw (sym (same x)) (Links-node u v (u x).next xs same rest))

find_place-ends :
    (f base prev curr : ℕ) (xs : List ℕ) (s : Vmas)
    → Links s.node curr xs
    → length xs < f
    → (r : ℕ × ℕ) × (find_place f base prev curr s ≡ some r)
unfolding find_place
find_place-ends zero base prev curr xs s links fuel = absurd (omega arith)
find_place-ends (suc f) base prev curr [] s links fuel =
    ((prev, curr), (let last : (curr == 0) ≡ true = ground (arith, links) in rw last refl))
find_place-ends (suc f) base prev curr (x ∷ xs) s (at, some_node, rest) fuel =
    elim (Bool-cases (not (curr == 0) && ltb (s.node curr).base base)) [
      | inr stop ↦ ((prev, curr), rw stop refl)
      | inl on ↦
          let links : Links s.node (s.node curr).next xs = rw at rest in
          let (r, e) = find_place-ends f base curr (s.node curr).next xs s links (omega arith) in
          (r, rw on e)
    ]

create_vma-Ends :
    (f base size flags : ℕ) (xs : List ℕ) (s : Vmas)
    → Links s.node s.vma_list xs
    → length xs < f
    → s.vma_free_list ≢ 0
    → Ends (create_vma f base size flags s)
unfolding create_vma alloc_vma
create_vma-Ends f base size flags xs s links fuel some_free =
    let vma = s.vma_free_list in
    let s1 = record s { vma_free_list = (s.node vma).next } in
    let s2 = change vma (set_area base size flags) s1 in
    let taken : (vma == 0) ≡ false = ground arith in
    let same : (i : ℕ) → (s.node i).next ≡ (s2.node i).next = λ i. ground arith in
    let (r, e) =
      find_place-ends f base 0 s.vma_list xs s2 (Links-node s.node s2.node s.vma_list xs same links)
        fuel in
    rw (create_vma, alloc_vma, taken) (rw e tt)

not_lost :
    (a b c d : Bool) (p q : ℕ) (r : Found)
    → r ≢ lost
    → (if a then behind p else if b then (if c then gap p q else if d then behind p else r) else r)
      ≢ lost
not_lost true b c d p q r found = λ e. cc e
not_lost false true true d p q r found = λ e. cc e
not_lost false true false true p q r found = λ e. cc e
not_lost false true false false p q r found = found
not_lost false false c d p q r found = found

search-found :
    (f start end need prev curr : ℕ) (xs : List ℕ) (s : Vmas)
    → Links s.node curr xs
    → length xs < f
    → search f start end need prev curr s ≢ lost
unfolding search
search-found zero start end need prev curr xs s links fuel = absurd (omega arith)
search-found (suc f) start end need prev curr [] s links fuel =
    let last : (curr == 0) ≡ true = ground (arith, links) in rw last (λ e. cc e)
search-found (suc f) start end need prev curr (x ∷ xs) s (at, some_node, rest) fuel =
    let links : Links s.node (s.node curr).next xs = rw at rest in
    let later : search f start end need curr (s.node curr).next s ≢ lost =
      search-found f start end need curr (s.node curr).next xs s links (omega arith) in
    not_lost (curr == 0) (leb start (end_of (s.node prev)))
      (leb ((end_of (s.node prev) + need) % 2 ^ 64) (s.node curr).base) (leb end (s.node prev).base)
      prev curr (search f start end need curr (s.node curr).next s) later

append_vma-Ends :
    (need flags prev : ℕ) (s : Vmas) → s.vma_free_list ≢ 0 → Ends (append_vma need flags prev s)
unfolding append_vma alloc_vma
append_vma-Ends need flags prev s some_free =
    let taken : (s.vma_free_list == 0) ≡ false = ground arith in
    rw (append_vma, alloc_vma, taken) tt

prepend_vma-Ends :
    (start need flags : ℕ) (s : Vmas) → s.vma_free_list ≢ 0 → Ends (prepend_vma start need flags s)
unfolding prepend_vma alloc_vma
prepend_vma-Ends start need flags s some_free =
    let taken : (s.vma_free_list == 0) ≡ false = ground arith in
    rw (prepend_vma, alloc_vma, taken) tt

first_vma-Ends :
    (start need flags : ℕ) (s : Vmas) → s.vma_free_list ≢ 0 → Ends (first_vma start need flags s)
unfolding first_vma alloc_vma
first_vma-Ends start need flags s some_free =
    let taken : (s.vma_free_list == 0) ≡ false = ground arith in rw (first_vma, alloc_vma, taken) tt

at_address-Ends : (a : ℕ) (r : Result (Unit {0})) → Ends r → Ends (at_address a r)
at_address-Ends a (ok _ s) ends = tt
at_address-Ends a panic ends = tt
at_address-Ends a Result.deadlock ends = ends
at_address-Ends a Result.fault ends = ends
at_address-Ends a Result.no_fuel ends = ends

use_gap-Ends :
    (f need flags prev curr : ℕ) (xs : List ℕ) (s : Vmas)
    → Links s.node s.vma_list xs
    → length xs < f
    → s.vma_free_list ≢ 0
    → Ends (use_gap f need flags prev curr s)
unfolding use_gap
use_gap-Ends f need flags prev curr xs s links fuel some_free =
    elim (Bool-cases ((s.node prev).flags == flags)) [
      | inl same ↦ rw same tt
      | inr other ↦
          elim (Bool-cases (
            (end_of (s.node prev) + need) % 2 ^ 64 == (s.node curr).base
            && (s.node curr).flags == flags)) [
              | inl grows ↦ rw (other, grows) tt
              | inr new ↦
                  rw (other, new)
                    (at_address-Ends (end_of (s.node prev))
                      (create_vma f (end_of (s.node prev)) need flags s)
                      (create_vma-Ends f (end_of (s.node prev)) need flags xs s links fuel
                        some_free))
            ]
    ]

at_found-Ends :
    (f end need flags : ℕ) (xs : List ℕ) (r : Found) (s : Vmas)
    → r ≢ lost
    → Links s.node s.vma_list xs
    → length xs < f
    → s.vma_free_list ≢ 0
    → Ends (at_found f end need flags r s)
unfolding at_found
at_found-Ends f end need flags xs (gap p c) s found links fuel some_free =
    use_gap-Ends f need flags p c xs s links fuel some_free
at_found-Ends f end need flags xs (behind p) s found links fuel some_free =
    elim (Bool-cases (leb ((end_of (s.node p) + need) % 2 ^ 64) end)) [
      | inl room ↦ rw room (append_vma-Ends need flags p s some_free)
      | inr no_room ↦ rw no_room tt
    ]
at_found-Ends f end need flags xs lost s found links fuel some_free = absurd (found refl)

-- With a free node left, and more fuel than there are areas, vmalloc_at hands out an address or
-- panics.
pub vmalloc_at-Ends :
    (f start end npages flags : ℕ) (xs : List ℕ) (s : Vmas)
    → Links s.node s.vma_list xs
    → length xs < f
    → s.vma_free_list ≢ 0
    → Ends (vmalloc_at f start end npages flags s)
unfolding vmalloc_at
vmalloc_at-Ends f start end npages flags [] s links fuel some_free =
    let none_yet : (s.vma_list == 0) ≡ true = ground (arith, links) in
    rw none_yet (first_vma-Ends start (bytes npages) flags s some_free)
vmalloc_at-Ends f start end npages flags (x ∷ xs) s (head, some_node, rest) fuel some_free =
    let node : (s.vma_list == 0) ≡ false = ground arith in
    let links : Links s.node (s.node s.vma_list).next xs = rw head rest in
    elim (Bool-cases ((s.node s.vma_list).next == 0)) [
      | inl one ↦
          elim (Bool-cases (leb ((start + bytes npages) % 2 ^ 64) (s.node s.vma_list).base)) [
            | inl before ↦
                rw (node, one, before) (prepend_vma-Ends start (bytes npages) flags s some_free)
            | inr after ↦
                elim (Bool-cases (leb ((end_of (s.node s.vma_list) + bytes npages) % 2 ^ 64) end)) [
                  | inl room ↦
                      rw (node, one, after, room)
                        (append_vma-Ends (bytes npages) flags s.vma_list s some_free)
                  | inr no_room ↦ rw (node, one, after, no_room) tt
                ]
          ]
      | inr more ↦
          rw (node, more)
            (at_found-Ends f end (bytes npages) flags (x ∷ xs)
              (search f start end (bytes npages) s.vma_list (s.node s.vma_list).next s) s
              (search-found f start end (bytes npages) s.vma_list (s.node s.vma_list).next xs s
                links (omega arith))
              (head, some_node, rest) fuel some_free)
    ]
