-- ===== src/Slab/Chain.antt =====
-- A free list as the list of the free objects.
use pzos.Base.{ℕ, zero, suc, ◌+◌, ◌≡◌, ◌≢◌, List, [], ◌∷◌, arith}
use pzos.Mman.{update}

-- From `a` on the words lead through the objects `xs`, to NULL.
abbrev pub IsChain : (ℕ → ℕ) → ℕ → List ℕ → Type 0
IsChain word a [] = a ≡ 0
IsChain word a (x ∷ xs) = (a ≡ x) × (x ≢ 0) × IsChain word (word x) xs

pub IsChain-from :
    (word : ℕ → ℕ) (a b : ℕ) (xs : List ℕ)
    → word a ≡ b
    → IsChain word b xs
    → IsChain word (word a) xs
IsChain-from word a b xs e chain = rw e chain

abbrev pub IsNotIn : ℕ → List ℕ → Type 0
IsNotIn x [] = Unit {0}
IsNotIn x (y ∷ ys) = (x ≢ y) × IsNotIn x ys

-- A write to a word that no object of the chain begins with.
pub IsChain-update :
    (word : ℕ → ℕ) (a x v : ℕ) (xs : List ℕ)
    → IsNotIn x xs
    → IsChain word a xs
    → IsChain (update word x v) a xs
IsChain-update word a x v [] other chain = chain
IsChain-update word a x v (y ∷ ys) (ne, other) (at, some_object, chain) =
    let same : update word x v y ≡ word y = ground arith in
    (at, some_object, rw same (IsChain-update word (word y) x v ys other chain))

-- `n` objects of `size` bytes, one behind the other.
abbrev pub objects : ℕ → ℕ → ℕ → List ℕ
objects zero base size = []
objects (suc n) base size = base ∷ objects n (base + size) size
