-- ===== src/Pci/Tests.antt =====
-- A bus 0 whose device 0 is a bridge to bus 2, and a driver for the one device of a list.
use pzos.Base.{ℕ, ◌+◌, ◌*◌, ◌^◌, ◌≡◌, inl, inr, refl, arith, subst}
use pzos.Base.{
  Bool, true, false, Option, none, some, List, [], ◌∷◌, ltb, ◌==◌, if◌then◌else◌, Bool-cases,
}
use pzos.Memory.{Bytes}
use pzos.Acpi.{load}
use pzos.Pci.{
  Device, Driver, Pci, any_id, config_addr, is_bridge, pci_enumerate_bus, offer, offer_all,
  pci_register_driver,
}
use pzos.Pci.Walking.{IsUpward, pci_enumerate_bus-Ends}
use pzos.Pci.Asking.{IsChain, AreDistinct, has, ask_all}
use pzos.Pci.Drivers.{pci_register_driver-ask_all}

abbrev config : Bytes
config j = if j == 2 ^ 20 + 14 then 1 else if j == 2 ^ 20 + 25 then 2 else 0

-- Four buses; the others have no base.
abbrev bases : ℕ → ℕ
bases bus = if ltb bus 4 then (bus + 1) * 2 ^ 20 else 0

-- Addresses from a counter.
abbrev counting : ℕ → ℕ → ℕ × ℕ
counting size n = (n, n + size)

abbrev blank_device : Device
blank_device = record {
  sibling = 0;
  next = 0;
  bus = 0;
  device = 0;
  function = 0;
  header = 0;
  driver = 0;
}

abbrev any_driver : Driver
any_driver = record {
  next = 0;
  class_code = 0x010800;
  class_mask = 0xffff00;
  vendor_id = any_id;
  device_id = any_id;
  attach = 0x5000;
}

abbrev start : Pci ℕ
start = record {
  device_at = λ a. blank_device;
  bus_at = λ a. record { parent = 0; children = 0; next = 0; bridge = 0; devices = 0; bus = 0 };
  driver_at = λ a. any_driver;
  pci_devices = 0x1000;
  pci_drivers = 0;
  heap = 0x9000;
  mapped = [];
}

bridge_place : (a : ℕ) → is_bridge config a ≡ true → a ≡ 2 ^ 20
unfolding load
bridge_place a h = elim (Bool-cases (a == 2 ^ 20)) [
  | inl e ↦ ground arith
  | inr e ↦ elim (Bool-cases (a == 2 ^ 20 + 11)) [
    | inl e' ↦
        let place : a ≡ 2 ^ 20 + 11 = ground arith in
        let two : is_bridge config (2 ^ 20 + 11) ≡ true =
          subst (λ b. is_bridge config b ≡ true) place h in
        absurd (ground arith)
    | inr e' ↦
        let first : (a + 14 == 2 ^ 20 + 14) ≡ false = ground arith in
        let second : (a + 14 == 2 ^ 20 + 25) ≡ false = ground arith in
        let blank : is_bridge config a ≡ false = rw (first, second) refl in absurd (ground arith)
  ]
]

upward : IsUpward config bases
unfolding load
upward bus dev func small has_base lt lt' present h other =
    let place = bridge_place (config_addr (bases bus) dev func) h in
    let zero : bus ≡ 0 = ground (arith, place) in rw (place, zero) (omega arith)

pci_enumerate_bus-Ends_example :
    (t : Pci ℕ) × (pci_enumerate_bus counting config bases 513 0 (bases 0) 0x8000 start ≡ some t)
pci_enumerate_bus-Ends_example =
    pci_enumerate_bus-Ends counting config bases upward 0 0x8000 start (omega arith) (omega arith)

-- attach claims each device, and counts its calls.
abbrev claim : ℕ → ℕ → ℕ → Bool × ℕ
claim attach dev calls = (true, calls + 1)

abbrev nvme_header : Bytes
nvme_header j = if j == 10 then 0x08 else if j == 11 then 0x01 else 0

abbrev driver_of : Option (Bool × (Pci ℕ × ℕ)) → ℕ
driver_of none = 0
driver_of (some (b, (s, n))) = (s.device_at 0x1000).driver

attach_run : driver_of (pci_register_driver nvme_header claim 3 0x7000 (start, 0)) ≡ 0x7000
unfolding pci_register_driver offer_all offer load
attach_run = refl

start-IsChain : IsChain start.device_at 0x1000 (0x1000 ∷ [])
unfolding IsChain
start-IsChain = (refl, ground arith, refl)

start-AreDistinct : AreDistinct (0x1000 ∷ [])
unfolding AreDistinct has
start-AreDistinct = (refl, tt)

pci_register_driver-ask_all_example :
    (t : Pci ℕ) × (claims : List ℕ) × (w' : ℕ) × (pci_register_driver nvme_header claim 3 0x7000
        (start, 0)
      ≡ some (true, (t, w')))
    × (ask_all nvme_header claim any_driver start.device_at (0x1000 ∷ []) 0 ≡ (claims, w'))
    × ((a : ℕ)
        → t.device_at a ≡ (
            if has claims a
            then record (start.device_at a) { driver = 0x7000 }
            else start.device_at a))
    × (t.pci_drivers ≡ 0x7000)
    × ((t.driver_at 0x7000).next ≡ 0)
pci_register_driver-ask_all_example =
    pci_register_driver-ask_all nvme_header claim 3 0x7000 start 0 (0x1000 ∷ []) (omega arith)
      (omega arith) start-IsChain start-AreDistinct (omega arith)

ask_run : ask_all nvme_header claim any_driver start.device_at (0x1000 ∷ []) 0 ≡ (0x1000 ∷ [], 1)
unfolding ask_all load
ask_run = refl
