-- ===== src/Pci/Walking.antt =====
-- kernel/arch/x86_64/pci.c, pci_enumerate_bus: the walk ends.
use pzos.Base.{
  ℕ, ◌≢◌, ◌+◌, zero, suc, ◌+◌, ◌-◌, ◌*◌, ◌<◌, ◌≤◌, ◌≡◌, refl, arith, Option, none, some,
}
use pzos.Base.{Bool, true, false, ◌&&◌, not, ◌==◌, if◌then◌else◌, ◌∷◌, [], ◌++◌}
use pzos.Memory.{Bytes}
use pzos.Acpi.{load}
use pzos.Pci.{
  Pci, for_each, config_addr, is_absent, is_bridge, is_multi, secondary, pci_add_device, add_bus,
  pci_check_func, pci_enumerate_bus,
}

-- The walk gives a state.
abbrev pub Ends : {H : Type 0} → Option (Pci H) → Type 0
Ends r = (t : Pci _) × (r ≡ some t)

if-Ends :
    {H : Type 0} (b : Bool) (x y : Option (Pci H))
    → (b ≡ true → Ends x)
    → (b ≡ false → Ends y)
    → Ends (if b then x else y)
if-Ends true x y h h' = h refl
if-Ends false x y h h' = h' refl

then-Ends :
    {H : Type 0} (r : Option (Pci H)) (k : Pci H → Option (Pci H))
    → Ends r
    → ((t : Pci H) → Ends (k t))
    → Ends (elim r as (λ x. Option (Pci H)) [ none ↦ none | some t ↦ k t ])
then-Ends r k (t, run) each = rw run (each t)

-- Each bridge on a bus that has a base leads to a bus of a higher number, or to one without a base.
abbrev pub IsUpward : Bytes → (ℕ → ℕ) → Type 0
IsUpward config mmio_bases =
    (bus dev func : ℕ)
    → bus < 256
    → mmio_bases bus ≢ 0
    → dev < 32
    → func < 8
    → is_absent config (config_addr (mmio_bases bus) dev func) ≡ false
    → is_bridge config (config_addr (mmio_bases bus) dev func) ≡ true
    → mmio_bases (secondary config (config_addr (mmio_bases bus) dev func)) ≢ 0
    → bus < secondary config (config_addr (mmio_bases bus) dev func)

secondary-lt : (config : Bytes) (cfg_addr : ℕ) → secondary config cfg_addr < 256
unfolding load
secondary-lt config cfg_addr = omega arith

module _ {H : Type 0} (kmalloc : ℕ → H → ℕ × H) (config : Bytes) (mmio_bases : ℕ → ℕ) where
  for_each-Ends :
      (body : ℕ → Pci H → Option (Pci H)) (n first : ℕ) (s : Pci H)
      → ((i : ℕ) (t : Pci H) → first ≤ i → i < first + n → Ends (body i t))
      → Ends (for_each kmalloc body n first s)
  unfolding for_each
  for_each-Ends body zero first s each = (s, refl)
  for_each-Ends body (suc n) first s each =
      let (t, run) = each first s (omega arith) (omega arith) in
      let (u, rest) =
        for_each-Ends body n (first + 1) t (λ i v le lt. each i v (omega arith) (omega arith)) in
      (u, rw (for_each, run) rest)

  module _ (upward : IsUpward config mmio_bases) where
    -- Function 0 may walk the other functions of the device, and needs a call more than they.
    abbrev enough : ℕ → ℕ → ℕ
    enough bus func = 2 * (256 - bus) + (if func == 0 then 1 else 0)

    check-Ends :
        (f bus dev func bus_ptr : ℕ) (s : Pci H)
        → bus < 256
        → mmio_bases bus ≢ 0
        → dev < 32
        → func < 8
        → enough bus func ≤ f
        → Ends (pci_check_func kmalloc config mmio_bases f bus dev func (mmio_bases bus) bus_ptr s)
    unfolding pci_check_func
    check-Ends zero bus dev func bus_ptr s lt base dev_lt func_lt fuel = absurd (ground arith)
    check-Ends (suc f) bus dev func bus_ptr s lt base dev_lt func_lt fuel =
        let mmio = mmio_bases bus in
        let cfg_addr = config_addr mmio dev func in
        let t = record s { mapped = s.mapped ++ (cfg_addr ∷ []) } in
        let (new_dev, u) = pci_add_device kmalloc bus_ptr dev func cfg_addr t in
        let second = secondary config cfg_addr in
        let (new_bus, v) = add_bus kmalloc bus_ptr new_dev second u in
        let below : ℕ → Pci H → Option (Pci H) = λ d w.
          pci_check_func kmalloc config mmio_bases f second d 0 (mmio_bases second) new_bus w in
        let beside : ℕ → Pci H → Option (Pci H) =
          λ fun w. pci_check_func kmalloc config mmio_bases f bus dev fun mmio bus_ptr w in
        let bridge = is_bridge config cfg_addr && not (mmio_bases second == 0) in
        let walked = if bridge then for_each kmalloc below 32 0 v else some u in
        let others : Option (Pci H) = elim walked as (λ x. Option (Pci H)) [
          | none ↦ none
          | some w ↦ for_each kmalloc beside 7 1 w
        ] in
        if-Ends (is_absent config cfg_addr) (some t)
          (if is_multi config func cfg_addr then others else walked) (λ h. (t, refl))
          (λ present.
            let walked-Ends : Ends walked =
              if-Ends bridge (for_each kmalloc below 32 0 v) (some u)
                (λ h.
                  let leads : is_bridge config cfg_addr ≡ true = ground arith in
                  let known : mmio_bases second ≢ 0 = ground arith in
                  let more = upward bus dev func lt base dev_lt func_lt present leads known in
                  let less = secondary-lt config cfg_addr in
                  for_each-Ends below 32 0 v (λ d w le lt'.
                    check-Ends f second d 0 new_bus w less known lt' (omega arith) (ground arith)))
                (λ h. (u, refl)) in
            if-Ends (is_multi config func cfg_addr) others walked
              (λ h.
                then-Ends walked (λ w. for_each kmalloc beside 7 1 w) walked-Ends
                  (λ w. for_each-Ends beside 7 1 w (λ fun x le lt'.
                    check-Ends f bus dev fun bus_ptr x lt base dev_lt lt' (ground arith))))
              (λ h. walked-Ends))

    -- Where each bridge that is present leads to a bus of a higher number, or to one without a base, which
    -- is skipped, the walk of a bus below 256 that has a base ends: 513 nested calls are enough for
    -- pci_enumerate_bus.
    pub pci_enumerate_bus-Ends :
        (bus bus_ptr : ℕ) (s : Pci H)
        → bus < 256
        → mmio_bases bus ≢ 0
        → (t : Pci H) × (pci_enumerate_bus kmalloc config mmio_bases 513 bus
              (mmio_bases bus)
              bus_ptr
              s
            ≡ some t)
    unfolding pci_enumerate_bus
    pci_enumerate_bus-Ends bus bus_ptr s lt base =
        for_each-Ends
          (λ dev. pci_check_func kmalloc config mmio_bases 513 bus dev 0 (mmio_bases bus) bus_ptr)
          32 0 s
          (λ dev t le lt'.
            check-Ends 513 bus dev 0 bus_ptr t lt base lt' (omega arith) (ground arith))
