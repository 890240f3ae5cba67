-- ===== src/Paging/Map.antt =====
-- What map_page makes of the tables.
use pzos.Base.{ℕ, ◌+◌, ◌*◌, ◌/◌, ◌%◌, ◌^◌, ◌≤◌, ◌<◌, ◌≡◌, ◌≢◌, refl, arith, ap, ◌∙◌, some}
use pzos.Base.{true, false, Bool-cases, inl, inr, if◌then◌else◌, ◌==◌}
use pzos.Paging.{
  Tables, ok, entry_addr, entry_below, page_of, is_present, is_large, set_count, inc_page,
  counted_table, set_page, map_page,
}
use pzos.Paging.Address.{page_of-page}
use pzos.Paging.Walk.{walk, same_indices}
use pzos.Paging.Unmap.{pml4e, pdpte, pde, pte}
use pzos.Paging.Entry.{IsFrame, IsFlags, page_entry, page_entry-parts}

-- The tables of a page are there, and its entry is in none of their entries' places.
pub record HasTables (virt : ℕ) (t : Tables) : Type 0 where
  pub page : page_of virt ≡ virt
  pub present4 : is_present (t.words (pml4e virt t)) ≡ true
  pub present3 : is_present (t.words (pdpte virt t)) ≡ true
  pub small3 : is_large (t.words (pdpte virt t)) ≡ false
  pub present2 : is_present (t.words (pde virt t)) ≡ true
  pub small2 : is_large (t.words (pde virt t)) ≡ false
  pub apart4 : pml4e virt t ≢ pte virt t
  pub apart3 : pdpte virt t ≢ pte virt t
  pub apart2 : pde virt t ≢ pte virt t

map_page-set_page :
    (virt phys flags : ℕ) (t : Tables)
    → virt ≢ 0
    → IsFrame phys
    → HasTables virt t
    → map_page virt phys flags t ≡ set_page (pde virt t) (pte virt t) phys flags t
unfolding map_page entry_below counted_table
map_page-set_page virt phys flags t nonzero f h =
    let some_page : (virt == 0) ≡ false = ground arith in
    let frame : page_of phys ≡ phys = page_of-page phys (omega arith) ∙ omega arith in
    ground (arith, some_page, h.page, frame)

pub walk-entry :
    (virt phys : ℕ) (t u : Tables)
    → virt < 2 ^ 64
    → HasTables virt t
    → u.cr3 ≡ t.cr3
    → ((j : ℕ) → j ≢ pte virt t → u.words j ≡ t.words j)
    → is_present (u.words (pte virt t)) ≡ true
    → entry_addr (u.words (pte virt t)) ≡ phys
    → walk u virt ≡ some phys
unfolding walk
walk-entry virt phys t u lt h root kept present names =
    let k4 = kept (pml4e virt t) h.apart4 in
    let k3 = kept (pdpte virt t) h.apart3 in
    let k2 = kept (pde virt t) h.apart2 in
    let whole : page_of virt ≡ virt / 2 ^ 12 * 2 ^ 12 = page_of-page virt lt in
    let start : virt % 2 ^ 12 ≡ 0 = omega (arith, h.page, whole) in
    ground (arith, root, k4, k3, k2, present, names, start)

-- The same for an address within the page.
pub walk-address :
    (addr phys : ℕ) (t u : Tables)
    → addr < 2 ^ 64
    → HasTables (page_of addr) t
    → u.cr3 ≡ t.cr3
    → ((j : ℕ) → j ≢ pte (page_of addr) t → u.words j ≡ t.words j)
    → is_present (u.words (pte (page_of addr) t)) ≡ true
    → entry_addr (u.words (pte (page_of addr) t)) ≡ phys
    → walk u addr ≡ some (phys + addr % 2 ^ 12)
unfolding walk
walk-address addr phys t u lt h root kept present names =
    let (i4, i3, i2, i1) = same_indices addr lt in
    let k4 = kept (pml4e (page_of addr) t) h.apart4 in
    let k3 = kept (pdpte (page_of addr) t) h.apart3 in
    let k2 = kept (pde (page_of addr) t) h.apart2 in
    ground (arith, root, k4, k3, k2, present, names, i4, i3, i2, i1)

page_of-page_of : (a : ℕ) → a < 2 ^ 64 → page_of (page_of a) ≡ page_of a
page_of-page_of a lt =
    let p = page_of-page a lt in page_of-page (page_of a) (omega (arith, p)) ∙ omega (arith, p)

-- Only the page of the address counts.
pub map_page-page_of :
    (addr phys flags : ℕ) (t : Tables)
    → addr < 2 ^ 64
    → 0x1000 ≤ addr
    → map_page addr phys flags t ≡ map_page (page_of addr) phys flags t
unfolding map_page
map_page-page_of addr phys flags t lt high =
    let p = page_of-page addr lt in
    let one : (addr == 0) ≡ false = ground arith in
    let two : (page_of addr == 0) ≡ false = ground (arith, p) in
    rw (map_page, one, two, page_of-page_of addr lt) refl

abbrev counted : ℕ → Tables → Tables
counted phys t = set_count (phys / 0x1000) ((t.refcount (phys / 0x1000) + 1) % 2 ^ 32) t

abbrev entered : ℕ → ℕ → Tables → Tables
entered a e t = record t { words = λ j. if j == a then e else t.words j }

-- The three ways of the last step: the page is there, another frame is, or none.
set_page-same :
    (d a phys flags : ℕ) (t : Tables)
    → is_present (t.words a) ≡ true
    → (entry_addr (t.words a) == phys) ≡ true
    → set_page d a phys flags t ≡ ok tt t
unfolding set_page
set_page-same d a phys flags t there same = rw (set_page, there, same) refl

set_page-other :
    (d a phys flags : ℕ) (t : Tables)
    → is_present (t.words a) ≡ true
    → (entry_addr (t.words a) == phys) ≡ false
    → set_page d a phys flags t ≡ ok tt (counted phys (entered a (page_entry phys flags) t))
unfolding set_page inc_page
set_page-other d a phys flags t there other = rw (set_page, there, other) refl

set_page-new :
    (d a phys flags : ℕ) (t : Tables)
    → is_present (t.words a) ≡ false
    → set_page d a phys flags t
      ≡ ok tt
          (counted phys (entered a (page_entry phys flags) (counted (entry_addr (t.words d)) t)))
unfolding set_page inc_page
set_page-new d a phys flags t absent = rw (set_page, absent) refl

-- What map_page leaves: the entry names the frame, and no other word has changed.
pub record Maps (virt phys : ℕ) (t u : Tables) : Type 0 where
  pub root : u.cr3 ≡ t.cr3
  pub kept : (j : ℕ) → j ≢ pte virt t → u.words j ≡ t.words j
  pub present : is_present (u.words (pte virt t)) ≡ true
  pub names : entry_addr (u.words (pte virt t)) ≡ phys

entered-Maps :
    (virt phys flags : ℕ) (t u : Tables)
    → IsFrame phys
    → IsFlags flags
    → u.cr3 ≡ t.cr3
    → ((j : ℕ) → u.words j ≡ (if j == pte virt t then page_entry phys flags else t.words j))
    → Maps virt phys t u
entered-Maps virt phys flags t u f g root w =
    let (names, present) = page_entry-parts phys flags f g in
    let here : u.words (pte virt t) ≡ page_entry phys flags = w (pte virt t) ∙ ground arith in
    record {
      root = root;
      kept = λ j other. ground (arith, w j);
      present = rw here present;
      names = rw here names;
    }

pub map_page-Maps :
    (virt phys flags : ℕ) (t : Tables)
    → virt ≢ 0
    → IsFrame phys
    → IsFlags flags
    → HasTables virt t
    → (u : Tables) × (map_page virt phys flags t ≡ ok tt u) × Maps virt phys t u
map_page-Maps virt phys flags t nonzero f g h =
    let a = pte virt t in
    let d = pde virt t in
    let e = page_entry phys flags in
    let start = map_page-set_page virt phys flags t nonzero f h in
    elim (Bool-cases (is_present (t.words a))) [
      | inl there ↦ elim (Bool-cases (entry_addr (t.words a) == phys)) [
        | inl same ↦ (
          t,
          start ∙ set_page-same d a phys flags t there same,
          record { root = refl; kept = λ j other. refl; present = there; names = ground arith },
        )
        | inr other ↦
            let u = counted phys (entered a e t) in
            (
              u,
              start ∙ set_page-other d a phys flags t there other,
              entered-Maps virt phys flags t u f g refl (λ j. refl),
            )
      ]
      | inr absent ↦
          let u = counted phys (entered a e (counted (entry_addr (t.words d)) t)) in
          (
            u,
            start ∙ set_page-new d a phys flags t absent,
            entered-Maps virt phys flags t u f g refl (λ j. refl),
          )
    ]

-- When the tables of a page are there, map_page returns, the processor then finds the frame at the
-- page's address, and no word of memory but the page's entry has changed.
pub map_page-walk :
    (virt phys flags : ℕ) (t : Tables)
    → virt ≢ 0
    → virt < 2 ^ 64
    → IsFrame phys
    → IsFlags flags
    → HasTables virt t
    → (u : Tables) × (map_page virt phys flags t ≡ ok tt u)
      × (walk u virt ≡ some phys)
      × ((j : ℕ) → j ≢ pte virt t → u.words j ≡ t.words j)
map_page-walk virt phys flags t nonzero lt f g h =
    let (u, done, m) = map_page-Maps virt phys flags t nonzero f g h in
    (u, done, walk-entry virt phys t u lt h m.root m.kept m.present m.names, m.kept)

-- A page that is mapped again to another frame: the new frame is counted up, and the old one is not counted down.
pub map_page-remap :
    (virt phys flags : ℕ) (t : Tables)
    → virt ≢ 0
    → IsFrame phys
    → HasTables virt t
    → is_present (t.words (pte virt t)) ≡ true
    → entry_addr (t.words (pte virt t)) / 0x1000 ≢ phys / 0x1000
    → (u : Tables) × (map_page virt phys flags t ≡ ok tt u)
      × (u.refcount (phys / 0x1000) ≡ (t.refcount (phys / 0x1000) + 1) % 2 ^ 32)
      × (u.refcount (entry_addr (t.words (pte virt t)) / 0x1000)
          ≡ t.refcount (entry_addr (t.words (pte virt t)) / 0x1000))
map_page-remap virt phys flags t nonzero f h there other =
    let a = pte virt t in
    let differs : (entry_addr (t.words a) == phys) ≡ false =
      elim (Bool-cases (entry_addr (t.words a) == phys)) [
        | inl same ↦
            let equal : entry_addr (t.words a) ≡ phys = ground arith in
            absurd (other (ap (λ p. p / 0x1000) equal))
        | inr no_match ↦ no_match
      ] in
    let u = counted phys (entered a (page_entry phys flags) t) in
    (
      u,
      map_page-set_page virt phys flags t nonzero f h
          ∙ set_page-other (pde virt t) a phys flags t there differs,
      ground arith,
      ground arith,
    )
