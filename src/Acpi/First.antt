-- ===== src/Acpi/First.antt =====
-- kernel/arch/x86_64/acpi.c, acpi_get_table: which table is found.
use pzos.Base.{ℕ, zero, suc, ◌+◌, ◌<◌, ◌≤◌, ◌≡◌, ◌≢◌, ◌⊎◌, inl, inr, refl}
use pzos.Base.{true, false, arith, ◌==◌, Bool-cases}
use pzos.Memory.{Bytes}
use pzos.Acpi.{is_wanted, table_at, num_entries, find_table, acpi_get_table}

-- Entry `k` is the first from `i` on whose table is wanted.
pub record IsFirstTable (hhdm_off signature rsdt i k : ℕ) (m : Bytes) : Type 0 where
  pub from : i ≤ k
  pub wanted : is_wanted signature m (table_at hhdm_off rsdt k m) ≡ true
  pub first : (j : ℕ) → i ≤ j → j < k → is_wanted signature m (table_at hhdm_off rsdt j m) ≡ false

-- What a search of the entries from `i`, `n` of them, comes to.
abbrev pub Found : ℕ → ℕ → ℕ → ℕ → ℕ → Bytes → ℕ → Type 0
Found hhdm_off signature rsdt n i m found =
    ((k : ℕ) × (k < i + n)
      × IsFirstTable hhdm_off signature rsdt i k m
      × (found ≡ table_at hhdm_off rsdt k m))
    ⊎ ((found ≡ 0)
        × ((j : ℕ)
            → i ≤ j
            → j < i + n
            → is_wanted signature m (table_at hhdm_off rsdt j m) ≡ false))

find_table-Found :
    (hhdm_off signature rsdt n i : ℕ) (m : Bytes)
    → Found hhdm_off signature rsdt n i m (find_table hhdm_off signature rsdt n i m)
unfolding find_table
find_table-Found hhdm_off signature rsdt zero i m = inr (refl, λ j le lt. absurd (omega arith))
find_table-Found hhdm_off signature rsdt (suc n) i m =
    elim (Bool-cases (is_wanted signature m (table_at hhdm_off rsdt i m))) [
      | inl good ↦ inl (
        i,
        omega arith,
        record { from = omega arith; wanted = good; first = λ j le lt. absurd (omega arith) },
        rw (find_table, good) refl,
      )
      | inr other ↦ elim (find_table-Found hhdm_off signature rsdt n (i + 1) m) [
        | inl (k, lt, p, eq) ↦ inl (
          k,
          omega arith,
          record {
            from = omega (arith, p.from);
            wanted = p.wanted;
            first = λ j le less. elim (here j le) [
              | inl e ↦ rw e other
              | inr more ↦ p.first j more less
            ];
          },
          rw (find_table, other) eq,
        )
        | inr (eq, none_wanted) ↦ inr (
          rw (find_table, other) eq,
          λ j le less. elim (here j le) [
            | inl e ↦ rw e other
            | inr more ↦ none_wanted j more (omega arith)
          ],
        )
      ]
    ]
  where
    here : (j : ℕ) → i ≤ j → (j ≡ i) ⊎ (i + 1 ≤ j)
    here j le = ground arith

-- acpi_get_table gives the first table of the root table that has the signature and a checksum of 0, and
-- NULL if there is none.
pub acpi_get_table-Found :
    (hhdm_off signature rsdt : ℕ) (m : Bytes)
    → rsdt ≢ 0
    → Found hhdm_off signature rsdt
        (num_entries rsdt m)
        0
        m
        (acpi_get_table hhdm_off signature rsdt m)
unfolding acpi_get_table
acpi_get_table-Found hhdm_off signature rsdt m some_rsdt =
    let given : (rsdt == 0) ≡ false = ground arith in
    rw (acpi_get_table, given) (find_table-Found hhdm_off signature rsdt (num_entries rsdt m) 0 m)
