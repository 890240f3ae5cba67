-- ===== src/Pci.antt =====
-- kernel/arch/x86_64/pci.c: the list of devices and the tree of buses, the walk that fills them, and
-- pci_register_driver. Configuration space is bytes at virtual addresses that do not change; kmalloc and
-- the attach function of a driver are parameters. The log is left out.
pub mod Walking
pub mod Asking
pub mod Drivers
mod Tests
use pzos.Base.{ℕ, zero, suc, ◌+◌, ◌-◌, ◌*◌, ◌/◌, ◌%◌, ◌^◌, bit_and, bit_or, Option, none, some}
use pzos.Base.{
  Bool, true, false, ◌&&◌, ◌||◌, not, List, [], ◌∷◌, ◌++◌, ltb, leb, ◌==◌, if◌then◌else◌,
}
use pzos.Memory.{Bytes}
use pzos.Acpi.{load}

abbrev pub any_id : ℕ
any_id = 2 ^ 32 - 1

-- Pointers are addresses, and 0 is NULL.
pub record Device : Type 0 where
  pub sibling : ℕ
  pub next : ℕ
  pub bus : ℕ
  pub device : ℕ
  pub function : ℕ
  pub header : ℕ
  pub driver : ℕ

pub record Bus : Type 0 where
  pub parent : ℕ
  pub children : ℕ
  pub next : ℕ
  pub bridge : ℕ
  pub devices : ℕ
  pub bus : ℕ

pub record Driver : Type 0 where
  pub next : ℕ
  pub class_code : ℕ
  pub class_mask : ℕ
  pub vendor_id : ℕ
  pub device_id : ℕ
  pub attach : ℕ

-- `heap` is what kmalloc keeps, `mapped` the addresses that map_page was called with.
pub record Pci (H : Type 0) : Type 0 where
  pub device_at : ℕ → Device
  pub bus_at : ℕ → Bus
  pub driver_at : ℕ → Driver
  pub pci_devices : ℕ
  pub pci_drivers : ℕ
  pub heap : H
  pub mapped : List ℕ

abbrev pub set : {A : Type 0} → (ℕ → A) → ℕ → A → ℕ → A
set f a v j = if j == a then v else f j

abbrev pub config_addr : ℕ → ℕ → ℕ → ℕ
config_addr mmio_base dev func = mmio_base + bit_or (dev * 2 ^ 15) (func * 2 ^ 12)

abbrev pub is_absent : Bytes → ℕ → Bool
is_absent config cfg_addr = load 2 cfg_addr config == 0xffff

abbrev pub header_type : Bytes → ℕ → ℕ
header_type config cfg_addr = load 1 (cfg_addr + 0x0e) config

abbrev pub secondary : Bytes → ℕ → ℕ
secondary config cfg_addr = load 1 (cfg_addr + 0x19) config

abbrev pub is_bridge : Bytes → ℕ → Bool
is_bridge config cfg_addr = bit_and (header_type config cfg_addr) 0x7f == 1

abbrev pub is_multi : Bytes → ℕ → ℕ → Bool
is_multi config func cfg_addr = func == 0 && not (bit_and (header_type config cfg_addr) 0x80 == 0)

module _ {H : Type 0} (kmalloc : ℕ → H → ℕ × H) where
  -- sizeof(pci_dev_t) is 40, sizeof(pci_bus_t) is 48.
  unfoldable pub pci_add_device : ℕ → ℕ → ℕ → ℕ → Pci H → ℕ × Pci H
  pci_add_device bus dev func cfg_addr s =
      let (new_dev, heap) = kmalloc 40 s.heap in
      let b = s.bus_at bus in
      (
        new_dev,
        record s {
          heap = heap;
          device_at = set s.device_at new_dev (record {
            sibling = b.devices;
            next = s.pci_devices;
            bus = b.bus;
            device = dev;
            function = func;
            header = cfg_addr;
            driver = 0;
          });
          pci_devices = new_dev;
          bus_at = set s.bus_at bus (record b { devices = new_dev });
        },
      )

  -- The bus behind a bridge.
  unfoldable pub add_bus : ℕ → ℕ → ℕ → Pci H → ℕ × Pci H
  add_bus bus_ptr bridge secondary_bus s =
      let (new_bus, heap) = kmalloc 48 s.heap in
      let b = s.bus_at bus_ptr in
      (
        new_bus,
        record s {
          heap = heap;
          bus_at =
              let buses = set s.bus_at new_bus (record {
                parent = bus_ptr;
                children = 0;
                next = b.children;
                bridge = bridge;
                devices = 0;
                bus = secondary_bus;
              }) in
              set buses bus_ptr (record (buses bus_ptr) { children = new_bus });
        },
      )

  -- `for (int i = first; i < first + n; i++)`, for a body that may run out of fuel.
  unfoldable pub for_each : (ℕ → Pci H → Option (Pci H)) → ℕ → ℕ → Pci H → Option (Pci H)
  for_each body zero first s = some s
  for_each body (suc n) first s = elim (body first s) [
    | none ↦ none
    | some t ↦ for_each body n (first + 1) t
  ]

  module _ (config : Bytes) (mmio_bases : ℕ → ℕ) where
    -- The result of the C function is used by no caller.
    unfoldable pub pci_check_func : ℕ → ℕ → ℕ → ℕ → ℕ → ℕ → Pci H → Option (Pci H)
    unfolding pci_add_device add_bus for_each
    pci_check_func zero bus dev func mmio_base bus_ptr s = none
    pci_check_func (suc f) bus dev func mmio_base bus_ptr s =
        let cfg_addr = config_addr mmio_base dev func in
        let t = record s { mapped = s.mapped ++ (cfg_addr ∷ []) } in
        let (new_dev, u) = pci_add_device bus_ptr dev func cfg_addr t in
        let second = secondary config cfg_addr in
        let (new_bus, v) = add_bus bus_ptr new_dev second u in
        let behind =
          for_each (λ d. pci_check_func f second d 0 (mmio_bases second) new_bus) 32 0 v in
        let walked =
          if is_bridge config cfg_addr && not (mmio_bases second == 0) then behind else some u in
        let others : Option (Pci H) = elim walked [
          | none ↦ none
          | some w ↦ for_each (λ fun. pci_check_func f bus dev fun mmio_base bus_ptr) 7 1 w
        ] in
        if is_absent config cfg_addr
        then some t
        else if is_multi config func cfg_addr
        then others
        else walked

    unfoldable pub pci_enumerate_bus : ℕ → ℕ → ℕ → ℕ → Pci H → Option (Pci H)
    unfolding pci_check_func
    pci_enumerate_bus f bus mmio_base bus_ptr =
        for_each (λ dev. pci_check_func f bus dev 0 mmio_base bus_ptr) 32 0

-- Whether the driver is for the device with this header.
abbrev pub is_match : Bytes → Driver → ℕ → Bool
is_match config d header =
    (d.vendor_id == any_id || d.vendor_id == load 2 header config)
    && ((d.device_id == any_id || d.device_id == load 2 (header + 2) config)
        && (d.class_mask == 0
            || bit_and d.class_code d.class_mask
              == bit_and (load 4 (header + 9) config) d.class_mask))

-- `call` is a call of a driver's attach function on a device, with a state of its own.
module _ {H W : Type 0} (config : Bytes) (call : ℕ → ℕ → W → Bool × W) where
  -- The body of the loop.
  unfoldable pub offer : ℕ → ℕ → Pci H × W → Pci H × W
  offer driver dev (s, w) =
      let d = s.driver_at driver in
      let n = s.device_at dev in
      let (claimed, w') = call d.attach dev w in
      let taken = record s { device_at = set s.device_at dev (record n { driver = driver }) } in
      if n.driver == 0 && is_match config d n.header
      then (if claimed then taken else s, w')
      else (s, w)

  -- The loop from `dev` on. `none` is the end of the fuel.
  unfoldable pub offer_all : ℕ → ℕ → ℕ → Pci H × W → Option (Pci H × W)
  unfolding offer
  offer_all zero driver dev p = none
  offer_all (suc f) driver dev p =
      let q = offer driver dev p in
      let rest = offer_all f driver ((q.0.device_at dev).next) q in
      if dev == 0 then some p else rest

  unfoldable pub pci_register_driver : ℕ → ℕ → Pci H × W → Option (Bool × (Pci H × W))
  unfolding offer_all
  pci_register_driver f driver (s, w) =
      let d = s.driver_at driver in
      let t = record s {
        driver_at = set s.driver_at driver (record d { next = s.pci_drivers });
        pci_drivers = driver;
      } in
      let rest : Option (Bool × (Pci H × W)) = elim (offer_all f driver t.pci_devices (t, w)) [
        | none ↦ none
        | some p ↦ some (true, p)
      ] in
      if driver == 0 || d.attach == 0 then some (false, (s, w)) else rest
