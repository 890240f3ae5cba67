-- ===== src/Kbd/Ring.antt =====
-- A ring of 256 entries as a queue: the entries from the read index up to the write index.
use pzos.Base.{ℕ, zero, suc, ◌+◌, ◌-◌, ◌%◌, ◌≤◌, ◌<◌, ◌≡◌, ◌≢◌, refl, ap, arith}
use pzos.Base.{List, [], ◌∷◌, ◌++◌, length, get_or, set, get_or-set_self, get_or-set_ne}
use pzos.Kbd.{next_idx}
use mathlib.Core.Path.{ap₂}

-- How many entries are pending.
abbrev pub pending : ℕ → ℕ → ℕ
pending ridx widx = (widx + 256 - ridx) % 256

module _ {ℓ} {A : Type ℓ} (d : A) where
  abbrev pub window : List A → ℕ → ℕ → List A
  window buf i zero = []
  window buf i (suc n) = get_or buf i d ∷ window buf (next_idx i) n

  pub length-window : (buf : List A) (i n : ℕ) → length (window buf i n) ≡ n
  length-window buf i zero = refl
  length-window buf i (suc n) = ap suc (length-window buf (next_idx i) n)

  -- A write just behind fewer than 256 entries adds to them, and changes none.
  pub window-set :
      (buf : List A) (v : A) (n i w : ℕ)
      → length buf ≡ 256
      → i < 256
      → n < 256
      → w ≡ (i + n) % 256
      → window (set buf w v) i (suc n) ≡ window buf i n ++ (v ∷ [])
  window-set buf v zero i w len hi hn e =
      let at : w ≡ i = omega arith in
      rw at (ap (λ x. x ∷ []) (get_or-set_self buf i v d (omega arith)))
  window-set buf v (suc n) i w len hi hn e =
      ap₂ ◌∷◌ (get_or-set_ne buf w i v d (omega arith))
        (window-set buf v n (next_idx i) w len (omega arith) (omega arith) (omega arith))

  pub window-set_out :
      (buf : List A) (v : A) (n i w : ℕ)
      → i < 256
      → w < 256
      → n ≤ pending i w
      → window (set buf w v) i n ≡ window buf i n
  window-set_out buf v zero i w hi hw out = refl
  window-set_out buf v (suc n) i w hi hw out =
      ap₂ ◌∷◌ (get_or-set_ne buf w i v d (omega arith))
        (window-set_out buf v n (next_idx i) w (omega arith) hw (omega arith))

  -- `window` matches on `suc`, and the driver compares the indices.
  pub window-pop :
      (buf : List A) (i n : ℕ)
      → n ≢ 0
      → window buf i n ≡ get_or buf i d ∷ window buf (next_idx i) (n - 1)
  window-pop buf i zero h = absurd (h refl)
  window-pop buf i (suc n) h = ap (λ k. window buf i (suc k)) (omega arith)
