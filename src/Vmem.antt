-- ===== src/Vmem.antt =====
-- kernel/src/vmem.c: the areas of virtual memory, a doubly linked list of nodes in order of their
-- addresses. Nodes are held in a store by their address; the address 0 is NULL. Pointers and sizes
-- wrap around at 2 ^ 64.
pub mod Areas
pub mod Place
pub mod Ends
pub mod Free
mod Tests
use pzos.Base.{
  ℕ, zero, suc, ◌+◌, ◌-◌, ◌*◌, ◌/◌, ◌%◌, ◌^◌, Bool, true, false, ◌&&◌, Option, none, some,
}
use pzos.Base.{ltb, leb, ◌==◌, if◌then◌else◌, not}
use pzos.Mman.{page_size}

-- vma_list_t
pub record Vma : Type 0 where
  pub base : ℕ
  pub size : ℕ
  pub flags : ℕ
  pub next : ℕ
  pub prev : ℕ

pub record Vmas : Type 0 where
  pub node : ℕ → Vma
  pub vma_list : ℕ
  pub vma_free_list : ℕ

-- `deadlock`: alloc_vma has no node left and calls vmalloc, which waits for the lock that its caller
-- holds. `fault` is a read through NULL, `no_fuel` a list that is longer than the fuel.
pub data Result (A : Type 0) : Type 0 where
  ok : A → Vmas → Result A
  panic : Result A
  deadlock : Result A
  fault : Result A
  no_fuel : Result A

abbrev pub end_of : Vma → ℕ
end_of v = (v.base + v.size) % 2 ^ 64

abbrev pub bytes : ℕ → ℕ
bytes npages = npages * page_size % 2 ^ 64

-- An assignment to the node at `a`.
abbrev pub change : ℕ → (Vma → Vma) → Vmas → Vmas
change a f s = record s { node = λ i. if a == i then f (s.node i) else s.node i }

abbrev pub set_area : ℕ → ℕ → ℕ → Vma → Vma
set_area base size flags v = record v { base = base; size = size; flags = flags }

unfoldable pub alloc_vma : Vmas → Option (ℕ × Vmas)
alloc_vma s =
    let vma = s.vma_free_list in
    if vma == 0 then none else some (vma, record s { vma_free_list = (s.node vma).next })

unfoldable pub free_vma : ℕ → Vmas → Vmas
free_vma vma s = record (change vma (λ v. record v { next = s.vma_free_list }) s) {
  vma_free_list = vma;
}

-- `while (curr && curr->base < base)`: prev and curr behind it.
unfoldable pub find_place : ℕ → ℕ → ℕ → ℕ → Vmas → Option (ℕ × ℕ)
find_place zero base prev curr s = none
find_place (suc f) base prev curr s =
    let rest = find_place f base curr (s.node curr).next s in
    if not (curr == 0) && ltb (s.node curr).base base then rest else some (prev, curr)

-- The new node at `vma` comes between `prev` and `curr`. At the head its `prev` is not set.
unfoldable pub link_vma : ℕ → ℕ → ℕ → Vmas → Vmas
link_vma vma prev curr s =
    if prev == 0
    then (let s1 = change vma (λ v. record v { next = s.vma_list }) s in
        record (if s.vma_list == 0
          then s1
          else change s.vma_list (λ v. record v { prev = vma }) s1) { vma_list = vma })
    else (let s1 =
          change vma (λ v. record v { prev = prev; next = curr })
            (change prev (λ v. record v { next = vma }) s) in
        if curr == 0 then s1 else change curr (λ v. record v { prev = vma }) s1)

abbrev pub link_at : ℕ → Vmas → Option (ℕ × ℕ) → Result (Unit {0})
link_at vma s none = no_fuel
link_at vma s (some (prev, curr)) = ok tt (link_vma vma prev curr s)

unfoldable pub create_vma : ℕ → ℕ → ℕ → ℕ → Vmas → Result (Unit {0})
create_vma f base size flags s = elim (alloc_vma s) [
  | none ↦ deadlock
  | some (vma, s1) ↦
      let s2 = change vma (set_area base size flags) s1 in
      link_at vma s2 (find_place f base 0 s2.vma_list s2)
]

unfoldable pub destroy_vma : ℕ → Vmas → Vmas
destroy_vma vma s =
    let v = s.node vma in
    let s1 =
      if v.prev == 0
      then record s { vma_list = v.next }
      else change v.prev (λ u. record u { next = v.next }) s in
    let s2 = if v.next == 0 then s1 else change v.next (λ u. record u { prev = v.prev }) s1 in
    free_vma vma s2

-- Where the search of vmalloc_at ends.
pub data Found : Type 0 where
  gap : ℕ → ℕ → Found
  behind : ℕ → Found
  lost : Found

unfoldable pub search : ℕ → ℕ → ℕ → ℕ → ℕ → ℕ → Vmas → Found
search zero start end need prev curr s = lost
search (suc f) start end need prev curr s =
    let p = s.node prev in
    let c = s.node curr in
    let next = search f start end need curr c.next s in
    if curr == 0
    then behind prev
    else if leb start (end_of p)
    then (if leb ((end_of p + need) % 2 ^ 64) c.base
        then gap prev curr
        else if leb end p.base
        then behind prev
        else next)
    else next

-- The gap between `prev` and `curr` is used: one of them grows, or a new node is created.
unfoldable pub merge_right : ℕ → ℕ → ℕ → Vmas → Vmas
merge_right flags prev curr s =
    let p = s.node prev in
    let c = s.node curr in
    if end_of p == c.base && c.flags == flags
    then (let s1 =
          change prev (λ v. record v { size = (v.size + c.size) % 2 ^ 64; next = c.next }) s in
        free_vma curr
          (if c.next == 0 then s1 else change c.next (λ v. record v { prev = prev }) s1))
    else s

abbrev pub at_address : ℕ → Result (Unit {0}) → Result ℕ
at_address a (ok _ s) = ok a s
at_address a panic = panic
at_address a deadlock = deadlock
at_address a fault = fault
at_address a no_fuel = no_fuel

unfoldable pub use_gap : ℕ → ℕ → ℕ → ℕ → ℕ → Vmas → Result ℕ
use_gap f need flags prev curr s =
    let p = s.node prev in
    let c = s.node curr in
    let addr = end_of p in
    if p.flags == flags
    then ok addr (
        merge_right flags prev curr
          (change prev (λ v. record v { size = (v.size + need) % 2 ^ 64 }) s))
    else if (addr + need) % 2 ^ 64 == c.base && c.flags == flags
    then ok addr (change curr (λ v. record v { base = addr; size = (v.size + need) % 2 ^ 64 }) s)
    else at_address addr (create_vma f addr need flags s)

-- A new last node behind `prev`.
unfoldable pub append_vma : ℕ → ℕ → ℕ → Vmas → Result ℕ
append_vma need flags prev s =
    let addr = end_of (s.node prev) in
    elim (alloc_vma s) [
      | none ↦ deadlock
      | some (vma, s1) ↦ ok addr (
          change vma (λ v. record (set_area addr need flags v) { prev = prev; next = 0 })
            (change prev (λ v. record v { next = vma }) s1))
    ]

-- A new head before the only node.
unfoldable pub prepend_vma : ℕ → ℕ → ℕ → Vmas → Result ℕ
prepend_vma start need flags s = elim (alloc_vma s) [
  | none ↦ deadlock
  | some (vma, s1) ↦
      ok start
        (record (change s.vma_list (λ v. record v { prev = vma })
          (change vma (λ v. record (set_area start need flags v) { next = s.vma_list; prev = 0 })
            s1)) { vma_list = vma })
]

unfoldable pub first_vma : ℕ → ℕ → ℕ → Vmas → Result ℕ
first_vma start need flags s = elim (alloc_vma s) [
  | none ↦ deadlock
  | some (vma, s1) ↦
      ok start
        (record (change vma (λ v. record (set_area start need flags v) { next = 0; prev = 0 }) s1) {
          vma_list = vma;
        })
]

unfoldable pub at_found : ℕ → ℕ → ℕ → ℕ → Found → Vmas → Result ℕ
at_found f end need flags (gap prev curr) s = use_gap f need flags prev curr s
at_found f end need flags (behind prev) s =
    if leb ((end_of (s.node prev) + need) % 2 ^ 64) end then append_vma need flags prev s else panic
at_found f end need flags lost s = no_fuel

-- `f` is fuel for each of the loops.
unfoldable pub vmalloc_at : ℕ → ℕ → ℕ → ℕ → ℕ → Vmas → Result ℕ
vmalloc_at f start end npages flags s =
    let need = bytes npages in
    let head = s.node s.vma_list in
    if s.vma_list == 0
    then first_vma start need flags s
    else if head.next == 0
    then (if leb ((start + need) % 2 ^ 64) head.base
        then prepend_vma start need flags s
        else if leb ((end_of head + need) % 2 ^ 64) end
        then append_vma need flags s.vma_list s
        else panic)
    else at_found f end need flags (search f start end need s.vma_list head.next s) s

abbrev pub virt_base : ℕ
virt_base = 0xffffc80000000000

abbrev pub virt_end : ℕ
virt_end = 0xffffe80000000000

unfoldable pub vmalloc : ℕ → ℕ → ℕ → Vmas → Result ℕ
vmalloc f npages flags s = vmalloc_at f virt_base virt_end npages flags s

-- vfree's search: the last node whose base is not above `addr`, or else the first.
unfoldable pub find_owner : ℕ → ℕ → ℕ → ℕ → Vmas → Option ℕ
find_owner zero addr prev curr s = none
find_owner (suc f) addr prev curr s =
    let rest = find_owner f addr curr (s.node curr).next s in
    if curr == 0 then some prev else if ltb addr (s.node curr).base then some prev else rest

abbrev pub minus : ℕ → ℕ → ℕ
minus a b = (a + (2 ^ 64 - b)) % 2 ^ 64

unfoldable pub split_vma : ℕ → ℕ → ℕ → Vmas → Result (Unit {0})
split_vma addr need prev s =
    let s1 = change prev (λ v. record v { size = minus addr v.base }) s in
    let p = s1.node prev in
    let base = (addr + need) % 2 ^ 64 in
    elim (alloc_vma s1) [
      | none ↦ deadlock
      | some (vma, s2) ↦ ok tt (
          change prev (λ v. record v { next = vma })
            (change vma
              (λ v. record v {
                base = base;
                size = minus (end_of p) base;
                next = p.next;
                prev = prev;
              })
              s2))
    ]

unfoldable pub free_range : ℕ → ℕ → ℕ → Vmas → Result (Unit {0})
free_range addr need prev s =
    let p = s.node prev in
    let stop = (addr + need) % 2 ^ 64 in
    if leb p.base addr
    then (if ltb (end_of p) stop
        then panic
        else if addr == p.base && need == p.size
        then ok tt (destroy_vma prev s)
        else if addr == p.base
        then ok tt (change prev (λ v. record v { base = (v.base + need) % 2 ^ 64 }) s)
        else if stop == end_of p
        then ok tt (change prev (λ v. record v { size = minus v.size need }) s)
        else split_vma addr need prev s)
    else panic

-- The two functions of paging.c that vfree calls, on a state of the page tables.
pub record Paging (P : Type 0) : Type 0 where
  pub is_mapped : ℕ → P → Bool
  pub unmap_page : ℕ → P → P

module _ {P : Type 0} (paging : Paging P) where
  -- `for (size_t i = 0; i < npages; i++)`, with `n` rounds left.
  unfoldable pub unmap_all : ℕ → ℕ → ℕ → P → P
  unmap_all zero addr i p = p
  unmap_all (suc n) addr i p =
      unmap_all n addr (i + 1) (
        if paging.is_mapped ((addr + i * page_size) % 2 ^ 64) p
        then paging.unmap_page addr p
        else p)

  abbrev pub with_pages : P → Result (Unit {0}) → Result P
  with_pages p (ok _ s) = ok p s
  with_pages p panic = panic
  with_pages p deadlock = deadlock
  with_pages p fault = fault
  with_pages p no_fuel = no_fuel

  unfoldable pub vfree : ℕ → ℕ → ℕ → P → Vmas → Result P
  vfree f ptr npages p s =
      let addr = ptr / page_size * page_size in
      if s.vma_list == 0
      then fault
      else (elim (find_owner f addr s.vma_list (s.node s.vma_list).next s) [
        | none ↦ no_fuel
        | some prev ↦ with_pages (unmap_all npages addr 0 p) (free_range addr (bytes npages) prev s)
      ])
