-- ===== src/Paging/Unmap.antt =====
-- What unmap_page leaves of the tables.
use pzos.Base.{ℕ, ◌+◌, ◌-◌, ◌*◌, ◌/◌, ◌^◌, ◌<◌, ◌≡◌, ◌≢◌, ◌⊎◌, refl, arith, ap, ◌∙◌, sym, subst}
use pzos.Base.{true, false, Bool-cases, inl, inr, if◌then◌else◌, ◌==◌}
use pzos.Mman.{free_page}
use pzos.Mman
use pzos.Paging.{
  Tables, Result, ok, panic, stuck, M, ◌>>=◌, ◌>>◌, unless, write, from_pages, return, pml4_index,
  pdpt_index, pd_index, pt_index, entry_addr, entry_below, page_of, is_present, is_large,
  is_positive, is_mapped, dec_page, set_count, release_table, unmap_page,
}

-- The addresses of the entries for the page `virt`.
abbrev pub pml4e : ℕ → Tables → ℕ
pml4e virt t = t.cr3 + 8 * pml4_index virt

abbrev pub pdpte : ℕ → Tables → ℕ
pdpte virt t = entry_addr (t.words (pml4e virt t)) + 8 * pdpt_index virt

abbrev pub pde : ℕ → Tables → ℕ
pde virt t = entry_addr (t.words (pdpte virt t)) + 8 * pd_index virt

abbrev pub pte : ℕ → Tables → ℕ
pte virt t = entry_addr (t.words (pde virt t)) + 8 * pt_index virt

-- The page is mapped by tables of all four levels.
pub record IsPage (virt : ℕ) (t : Tables) : Type 0 where
  pub page : page_of virt ≡ virt
  pub present4 : is_present (t.words (pml4e virt t)) ≡ true
  pub present3 : is_present (t.words (pdpte virt t)) ≡ true
  pub small3 : is_large (t.words (pdpte virt t)) ≡ false
  pub present2 : is_present (t.words (pde virt t)) ≡ true
  pub small2 : is_large (t.words (pde virt t)) ≡ false
  pub present1 : is_present (t.words (pte virt t)) ≡ true

abbrev pub frame : ℕ → Tables → ℕ
frame virt t = entry_addr (t.words (pte virt t)) / 0x1000

bind-ok :
    {A B : Type 0} (m : M A) (f : A → M B) (t : Tables) {a : A} {u : Tables}
    → m t ≡ ok a u
    → (m >>= f) t ≡ f a u
bind-ok m f t {a} {u} h = rw (◌>>=◌, h) refl

bind-panic : {A B : Type 0} (m : M A) (f : A → M B) (t : Tables) → m t ≡ panic → (m >>= f) t ≡ panic
bind-panic m f t h = rw (◌>>=◌, h) refl

abbrev lowered : ℕ → Tables → Tables
lowered phys t = set_count (phys / 0x1000) (t.refcount (phys / 0x1000) - 1) t

dec_page-lowered :
    (phys : ℕ) (t : Tables)
    → (t.refcount (phys / 0x1000) == 0) ≡ false
    → dec_page phys t ≡ ok (t.refcount (phys / 0x1000) - 1) (lowered phys t)
unfolding dec_page
dec_page-lowered phys t h = rw (dec_page, h) refl

dec_page-zero :
    (phys : ℕ) (t : Tables) → (t.refcount (phys / 0x1000) == 0) ≡ true → dec_page phys t ≡ panic
unfolding dec_page
dec_page-zero phys t h = rw (dec_page, h) refl

-- What is left of unmap_page when it has found the page.
abbrev clear_page : ℕ → Tables → M (Unit {0})
clear_page virt t = dec_page (entry_addr (t.words (pte virt t))) >>= λ n. unless (is_positive n) (
    write (pte virt t) 0
    >> release_table (pde virt t)
        (release_table (pdpte virt t) (release_table (pml4e virt t) (return tt))))

unmap_page-clear_page :
    (virt : ℕ) (t : Tables) → IsPage virt t → unmap_page virt t ≡ clear_page virt t t
unfolding unmap_page entry_below
unmap_page-clear_page virt t p =
    rw (unmap_page, p.page, p.present4, entry_below, p.present3, p.present2, p.present1) refl

is_mapped-page : (virt : ℕ) (t : Tables) → IsPage virt t → is_mapped virt t ≡ true
unfolding is_mapped
is_mapped-page virt t p =
    rw (is_mapped, p.page, p.present4, p.present3, p.small3, p.present2, p.small2, p.present1) refl

-- A page frame that is mapped elsewhere too stays mapped here: unmap_page only counts it down.
pub unmap_page-shared :
    (virt : ℕ) (t : Tables)
    → IsPage virt t
    → 1 < t.refcount (frame virt t)
    → t.refcount (frame virt t) < 2 ^ 31
    → let u = set_count (frame virt t) (t.refcount (frame virt t) - 1) t in
      (unmap_page virt t ≡ ok tt u) × (is_mapped virt u ≡ true)
unfolding dec_page is_mapped
unmap_page-shared virt t p shared small =
    let some_left : (t.refcount (frame virt t) == 0) ≡ false = ground arith in
    let left : is_positive (t.refcount (frame virt t) - 1) ≡ true = ground arith in
    let phys = entry_addr (t.words (pte virt t)) in
    (
      unmap_page-clear_page virt t p
          ∙ (bind-ok (dec_page phys) _ t (dec_page-lowered phys t some_left) ∙ rw left refl),
      is_mapped-page virt t p,
    )

-- Only cleared entries are new.
abbrev Clears : Tables → Result (Unit {0}) → Type 0
Clears t (ok _ u) = (u.cr3 ≡ t.cr3) × ((j : ℕ) → (u.words j ≡ t.words j) ⊎ (u.words j ≡ 0))
Clears t panic = Unit {0}
Clears t stuck = Unit {0}

Clears-trans :
    (t u : Tables) (r : Result (Unit {0}))
    → u.cr3 ≡ t.cr3
    → ((j : ℕ) → (u.words j ≡ t.words j) ⊎ (u.words j ≡ 0))
    → Clears u r
    → Clears t r
Clears-trans t u (ok _ v) e old c = (
  c.0 ∙ e,
  λ j. elim (c.1 j) [
    | inl same ↦ elim (old j) [ inl before ↦ inl (same ∙ before) | inr gone ↦ inr (same ∙ gone) ]
    | inr gone ↦ inr gone
  ],
)
Clears-trans t u panic e old c = tt
Clears-trans t u stuck e old c = tt

-- What follows when the page of a table is given back.
freed-Clears :
    (e : ℕ) (above : M (Unit {0})) (t : Tables) (o : Mman.Outcome (Unit {0}))
    → ((u : Tables) → Clears u (above u))
    → Clears t (((λ u. from_pages o u) >> (write e 0 >> above)) t)
freed-Clears e above t (Mman.ok a p) rest =
    let u = record t { pages = p; words = λ j. if j == e then 0 else t.words j } in
    Clears-trans t u (above u) refl
      (λ j. elim (Bool-cases (j == e)) [
        | inl here ↦ inr (ground arith)
        | inr there ↦ inl (ground arith)
      ])
      (rest u)
freed-Clears e above t Mman.panic rest = tt
freed-Clears e above t Mman.stuck rest = tt

release_table-Clears :
    (e : ℕ) (above : M (Unit {0})) (t : Tables)
    → ((u : Tables) → Clears u (above u))
    → Clears t (release_table e above t)
unfolding release_table dec_page
release_table-Clears e above t rest =
    let page = entry_addr (t.words e) in
    let n = t.refcount (page / 0x1000) in
    let u = set_count (page / 0x1000) (n - 1) t in
    let freed = freed-Clears e above u (free_page page u.pages) rest in
    elim (Bool-cases (n == 0)) [
      | inl none_left ↦
          subst (Clears t) (sym (bind-panic (dec_page page) _ t (dec_page-zero page t none_left)))
            tt
      | inr some_left ↦
          subst (Clears t) (sym (bind-ok (dec_page page) _ t (dec_page-lowered page t some_left)))
            (elim (Bool-cases (is_positive (n - 1))) [
              | inl left ↦ rw left (refl, λ j. inl refl)
              | inr last ↦ rw last (Clears-trans t u _ refl (λ j. inl refl) freed)
            ])
    ]

return-Clears : (t : Tables) → Clears t (return tt t)
return-Clears t = (refl, λ j. inl refl)

zero_absent : is_present 0 ≡ false
zero_absent = refl

-- An entry that is cleared is not present, and the tables below it are not read.
abbrev Unmapped : ℕ → Result (Unit {0}) → Type 0
Unmapped virt (ok _ u) = is_mapped virt u ≡ false
Unmapped virt panic = Unit {0}
Unmapped virt stuck = Unit {0}

cleared-Unmapped :
    (virt : ℕ) (t u : Tables) (r : Result (Unit {0}))
    → IsPage virt t
    → u.cr3 ≡ t.cr3
    → ((j : ℕ) → (u.words j ≡ t.words j) ⊎ (u.words j ≡ 0))
    → u.words (pte virt t) ≡ 0
    → Clears u r
    → Unmapped virt r
unfolding is_mapped
cleared-Unmapped virt t u (ok _ v) p e old gone c =
    let (root, kept) = Clears-trans t u (ok tt v) e old c in
    let last : v.words (pte virt t) ≡ 0 = elim (c.1 (pte virt t)) [
      | inl same ↦ same ∙ gone
      | inr zero ↦ zero
    ] in
    ground (arith, p.page, kept (pml4e virt t), kept (pdpte virt t), kept (pde virt t), zero_absent)
cleared-Unmapped virt t u panic p e old gone c = tt
cleared-Unmapped virt t u stuck p e old gone c = tt

release_table-left :
    (e : ℕ) (above : M (Unit {0})) (t : Tables) (page : ℕ)
    → entry_addr (t.words e) ≡ page
    → (t.refcount (page / 0x1000) == 0) ≡ false
    → is_positive (t.refcount (page / 0x1000) - 1) ≡ true
    → release_table e above t ≡ ok tt (lowered page t)
unfolding release_table
release_table-left e above t page names some_left left =
    rw names (bind-ok (dec_page page) _ t (dec_page-lowered page t some_left) ∙ rw left refl)

-- The last mapping of a frame, in a table with other entries: the page is not mapped any more, and only its entry
-- has changed.
pub unmap_page-last :
    (virt : ℕ) (t : Tables)
    → IsPage virt t
    → t.refcount (frame virt t) ≡ 1
    → frame virt t ≢ entry_addr (t.words (pde virt t)) / 0x1000
    → 1 < t.refcount (entry_addr (t.words (pde virt t)) / 0x1000)
    → t.refcount (entry_addr (t.words (pde virt t)) / 0x1000) < 2 ^ 31
    → pde virt t ≢ pte virt t
    → (u : Tables) × (unmap_page virt t ≡ ok tt u)
      × (is_mapped virt u ≡ false)
      × ((j : ℕ) → j ≢ pte virt t → u.words j ≡ t.words j)
unmap_page-last virt t p one apart others small distinct =
    let phys = entry_addr (t.words (pte virt t)) in
    let table = entry_addr (t.words (pde virt t)) in
    let cleared = record (lowered phys t) {
      words = λ j. if j == pte virt t then 0 else t.words j;
    } in
    let u = lowered table cleared in
    let some_left : (t.refcount (frame virt t) == 0) ≡ false = ground arith in
    let none_left : is_positive (t.refcount (frame virt t) - 1) ≡ false = ground arith in
    let below : cleared.words (pde virt t) ≡ t.words (pde virt t) = ground arith in
    let same : cleared.refcount (table / 0x1000) ≡ t.refcount (table / 0x1000) = ground arith in
    let table_left : (cleared.refcount (table / 0x1000) == 0) ≡ false = ground (arith, same) in
    let more : is_positive (cleared.refcount (table / 0x1000) - 1) ≡ true = ground (arith, same) in
    let kept_table =
      release_table-left (pde virt t)
        (release_table (pdpte virt t) (release_table (pml4e virt t) (return tt))) cleared table
        (ap entry_addr below) table_left more in
    let kept : (j : ℕ) → j ≢ pte virt t → u.words j ≡ t.words j = λ j other. ground arith in
    let last : cleared.words (pte virt t) ≡ 0 = ground arith in
    let old : (j : ℕ) → (cleared.words j ≡ t.words j) ⊎ (cleared.words j ≡ 0) = λ j.
      elim (Bool-cases (j == pte virt t)) [
        | inl here ↦ inr (rw here refl)
        | inr there ↦ inl (rw there refl)
      ] in
    (
      u,
      unmap_page-clear_page virt t p
          ∙ (bind-ok (dec_page phys) _ t (dec_page-lowered phys t some_left)
              ∙ rw none_left kept_table),
      cleared-Unmapped virt t cleared (ok tt u) p refl old last (refl, λ j. inl refl),
      kept,
    )
