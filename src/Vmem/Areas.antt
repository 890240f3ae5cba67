-- ===== src/Vmem/Areas.antt =====
-- A list of areas in order, and the ranges that are clear of them.
use pzos.Base.{ℕ, ◌+◌, ◌-◌, ◌^◌, ◌≤◌, ◌≡◌, ◌≢◌, ◌⊎◌, inl, arith}
use pzos.Base.{List, [], ◌∷◌}
use pzos.Vmem.{Vma, end_of}

-- All areas end here at the latest: the framebuffer and the page tables are above.
abbrev pub areas_end : ℕ
areas_end = 2 ^ 64 - 2 ^ 43

-- From `a` on the nodes `xs`, their areas in order and from `lo` on, without overlap.
abbrev pub AreAreas : (ℕ → Vma) → ℕ → ℕ → List ℕ → Type 0
AreAreas node a lo [] = a ≡ 0
AreAreas node a lo (x ∷ xs) =
    (a ≡ x)
    × (x ≢ 0)
    × (lo ≤ (node x).base)
    × ((node x).base + (node x).size ≤ areas_end)
    × AreAreas node (node x).next ((node x).base + (node x).size) xs

-- The range of `need` bytes from `a` on overlaps with none of the areas.
abbrev pub IsClear : (ℕ → Vma) → ℕ → ℕ → List ℕ → Type 0
IsClear node a need [] = Unit {0}
IsClear node a need (x ∷ xs) =
    ((a + need ≤ (node x).base) ⊎ ((node x).base + (node x).size ≤ a)) × IsClear node a need xs

-- A range that ends below all the areas.
pub IsClear-below :
    (node : ℕ → Vma) (b lo a need : ℕ) (xs : List ℕ)
    → AreAreas node b lo xs
    → a + need ≤ lo
    → IsClear node a need xs
IsClear-below node b lo a need [] areas le = tt
IsClear-below node b lo a need (x ∷ xs) (at, some_node, from, upto, rest) le = (
  inl (omega arith),
  IsClear-below node (node x).next ((node x).base + (node x).size) a need xs rest (omega arith),
)

pub end_of-areas : (v : Vma) → v.base + v.size ≤ areas_end → end_of v ≡ v.base + v.size
end_of-areas v le = omega arith
