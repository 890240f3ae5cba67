-- ===== src/Mman/Contig.antt =====
-- alloc_contig and free_contig.
use pzos.Base.{ℕ, ◌*◌, ◌/◌, ◌^◌, ◌<◌, ◌≡◌, ◌≢◌, subst, true, false, arith, if◌then◌else◌}
use pzos.Base.{inl, inr}
use pzos.Mman.{Pages, ok, alloc_contig, free_contig}
use pzos.Mman.Bitmap.{is_free, within, is_free-free_window}
use pzos.Mman.Aligned.{IsFirstFit, alloc_aligned-FirstFit, IsFirstFit-pages}

-- free_contig of a run of pages that does not begin with page 0 makes exactly these pages free.
free_contig-pages :
    (a npages : ℕ) (s : Pages) (q : ℕ)
    → a ≢ 0
    → is_free (free_contig (a * 0x1000) npages s).words q
      ≡ (if within a npages q then true else is_free s.words q)
unfolding free_contig
free_contig-pages a npages s q h =
    let page : a * 0x1000 / 0x1000 ≡ a = omega arith in
    ground (arith, page, is_free-free_window npages a s.words q)

contig_fit :
    (npages addr : ℕ) (s t : Pages)
    → npages ≢ 0
    → npages < 2 ^ 64
    → alloc_contig npages s ≡ ok addr t
    → (b : ℕ) × (addr ≡ b * 0x1000) × IsFirstFit npages 1 b s t
unfolding alloc_contig
contig_fit npages addr s t some_pages word got =
    elim (alloc_aligned-FirstFit npages 1 s (omega arith) (omega arith) some_pages word) [
      | inr (failed, _) ↦ cc (failed, got)
      | inl (b, u, e, fit) ↦
          let state : u ≡ t = cc (e, got) in
          (b, cc (e, got), subst (IsFirstFit npages 1 b s) state fit)
    ]

-- What alloc_contig hands out, free_contig gives back: every page is free afterwards exactly if it
-- was before, and the page stack has the depth that it had. This holds of each allocation of at least one page
-- that does not begin with page 0.
pub free_contig-alloc_contig :
    (npages addr : ℕ) (s t : Pages)
    → npages ≢ 0
    → npages < 2 ^ 64
    → alloc_contig npages s ≡ ok addr t
    → addr ≢ 0
    → ((q : ℕ) → is_free (free_contig addr npages t).words q ≡ is_free s.words q)
      × ((free_contig addr npages t).depth ≡ s.depth)
unfolding free_contig
free_contig-alloc_contig npages addr s t some_pages word got high =
    let (b, at, fit) = contig_fit npages addr s t some_pages word got in
    let (were, now, depth) = IsFirstFit-pages npages 1 s fit in
    (
      λ q. rw at (ground (arith, free_contig-pages b npages t q, were q, now q)),
      ground (arith, depth),
    )

-- An allocation that begins with page 0 has the address NULL. free_contig ignores that address, and
-- all of the pages stay in use.
pub free_contig-null :
    (npages : ℕ) (s t : Pages)
    → npages ≢ 0
    → npages < 2 ^ 64
    → alloc_contig npages s ≡ ok 0 t
    → (q : ℕ) → q < npages
    → is_free (free_contig 0 npages t).words q ≡ false
unfolding free_contig
free_contig-null npages s t some_pages word got q h =
    let (b, at, fit) = contig_fit npages 0 s t some_pages word got in
    let (_, now, _) = IsFirstFit-pages npages 1 s fit in ground (arith, now q)
