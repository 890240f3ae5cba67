-- ===== src/Pci/Drivers.antt =====
-- kernel/arch/x86_64/pci.c, pci_register_driver: which devices a new driver gets.
use pzos.Base.{ℕ, zero, suc, ◌<◌, ◌≡◌, ◌≢◌, inl, inr, refl, ap, subst, sym, ◌∙◌, arith, some}
use pzos.Base.{Bool, true, false, ◌&&◌, ◌||◌, List, [], ◌∷◌, ◌==◌, if◌then◌else◌, Bool-cases}
use pzos.Memory.{Bytes}
use pzos.Pci.{Device, Driver, Pci, set, offer, offer_all, pci_register_driver}
use pzos.Pci.Asking.{
  IsChain, AreDistinct, count, has, claimed_by, with_driver, IsChain-next, claimed-add, is_free,
  ask_all, ask_all-agree, has-ask_all, ask_all-next,
}

with_driver-next :
    (c : Bool) (driver a b : ℕ) (dev : ℕ → Device)
    → ((if c then with_driver dev a driver else dev) b).next ≡ (dev b).next
with_driver-next false driver a b dev = refl
with_driver-next true driver a b dev = elim (Bool-cases (b == a)) [
  | inl same ↦ let e : b ≡ a = ground arith in rw same (ap (λ x. (dev x).next) (sym e))
  | inr other ↦ rw other refl
]

with_driver-other :
    (c : Bool) (driver a b : ℕ) (dev : ℕ → Device)
    → b ≢ a
    → (if c then with_driver dev a driver else dev) b ≡ dev b
with_driver-other false driver a b dev ne = refl
with_driver-other true driver a b dev ne =
    let other : (b == a) ≡ false = ground arith in rw other refl

with_second : {A B : Type 0} (p : A × B) (b : B) → p.1 ≡ b → p ≡ (p.0, b)
with_second p b e i = (p.0, e i)

choice :
    {H W : Type 0} (g c : Bool) (s : Pci H) (dev : ℕ → Device) (w w' : W)
    → ◌≡◌ {A = Pci H × W}
        (if g then (if c then record s { device_at = dev } else s, w') else (s, w))
        (record s { device_at = if g && c then dev else s.device_at }, if g then w' else w)
choice true true s dev w w' = refl
choice true false s dev w w' = refl
choice false c s dev w w' = refl

module _ {H W : Type 0} (config : Bytes) (call : ℕ → ℕ → W → Bool × W) (driver : ℕ) where
  -- The state behind the body of the loop.
  abbrev offered : Driver → ℕ → Pci H → W → Pci H × W
  offered d a s w =
      let g = is_free config call d s.device_at a in
      let (c, w') = call d.attach a w in
      (
        record s { device_at = if g && c then with_driver s.device_at a driver else s.device_at },
        if g then w' else w,
      )

  offer-offered :
      (a : ℕ) (s : Pci H) (w : W)
      → offer config call driver a (s, w) ≡ offered (s.driver_at driver) a s w
  unfolding offer
  offer-offered a s w =
      let d = s.driver_at driver in
      let (c, w') = call d.attach a w in
      choice (is_free config call d s.device_at a) c s (with_driver s.device_at a driver) w w'

  module _ (d : Driver) where
    abbrev IsDone : (ℕ → Device) → List ℕ → W → Pci H → Pci H × W → Type 0
    IsDone dev l w s q =
        ((b : ℕ) → q.0.device_at b ≡ claimed_by driver (ask_all config call d dev l w).0 dev b)
        × (q.1 ≡ (ask_all config call d dev l w).1)
        × (q.0.driver_at ≡ s.driver_at)
        × (q.0.pci_drivers ≡ s.pci_drivers)

    offer_all-IsDone :
        (l : List ℕ) (f p : ℕ) (s : Pci H) (w : W)
        → s.driver_at driver ≡ d
        → IsChain s.device_at p l
        → AreDistinct l
        → count l < f
        → (q : Pci H × W) × (offer_all config call f driver p (s, w) ≡ some q)
          × IsDone s.device_at l w s q
    unfolding offer_all IsChain AreDistinct ask_all has
    offer_all-IsDone l zero p s w here chain distinct fuel = absurd (omega arith)
    offer_all-IsDone [] (suc f) p s w here chain distinct fuel =
        let over : (p == 0) ≡ true = ground arith in
        ((s, w), rw (offer_all, over) refl, (λ b. refl, refl, refl, refl))
    offer_all-IsDone (a ∷ rest) (suc f) p s w here (at, some_dev, chain) (new, distinct) fuel =
        let r = offered d a s w in
        let c = is_free config call d s.device_at a && (call d.attach a w).0 in
        let next = λ (b : ℕ). with_driver-next c driver a b s.device_at in
        let chain' =
          IsChain-next s.device_at r.0.device_at rest (r.0.device_at a).next next
            (rw (next a) chain) in
        let (q, run, (devices, calls, drivers, head)) =
          offer_all-IsDone rest f (r.0.device_at a).next r.0 r.1 here chain' distinct
            (omega arith) in
        let same : ask_all config call d r.0.device_at rest r.1
            ≡ ask_all config call d s.device_at rest r.1 =
          ask_all-agree config call d s.device_at r.0.device_at rest r.1 (λ b h.
            with_driver-other c driver a b s.device_at
              (λ e. absurd (ground (arith, subst (λ x. has rest x ≡ true) e h, new)))) in
        let later = ask_all config call d s.device_at rest r.1 in
        let untouched = has-ask_all config call d s.device_at rest r.1 a new in
        let more : (a == 0) ≡ false = ground arith in
        let step : offer config call driver a (s, w) ≡ r =
          offer-offered a s w ∙ ap (λ e. offered e a s w) here in
        let run' : offer_all config call (suc f) driver a (s, w) ≡ some q =
          rw (offer_all, more)
            (ap (λ u. offer_all config call f driver (u.0.device_at a).next u) step ∙ run) in
        (
          q,
          subst (λ x. offer_all config call (suc f) driver x (s, w) ≡ some q) (sym at) run',
          (
            λ b.
                devices b
                ∙ (ap (λ u. claimed_by driver u.0 r.0.device_at b) same
                    ∙ claimed-add c driver a b later.0 s.device_at untouched),
            calls ∙ ap (λ u. u.1) same,
            drivers,
            head,
          ),
        )

-- pci_register_driver with a driver that has an attach function puts the driver at the front of the
-- list and ends. It calls attach once for each device on the list that has no driver and matches, in
-- the order of the list, and gives the driver to those that attach claims; no other device changes.
-- `l` are the addresses of the devices on the list, each there once.
pub pci_register_driver-ask_all :
    {H W : Type 0} (config : Bytes) (call : ℕ → ℕ → W → Bool × W) (f driver : ℕ) (s : Pci H) (w : W)
    (l : List ℕ)
    → driver ≢ 0
    → (s.driver_at driver).attach ≢ 0
    → IsChain s.device_at s.pci_devices l
    → AreDistinct l
    → count l < f
    → (t : Pci H) × (claims : List ℕ) × (w' : W) × (pci_register_driver config call f driver (s, w)
        ≡ some (true, (t, w')))
      × (ask_all config call (s.driver_at driver) s.device_at l w ≡ (claims, w'))
      × ((a : ℕ)
          → t.device_at a
            ≡ (if has claims a then record (s.device_at a) { driver = driver } else s.device_at a))
      × (t.pci_drivers ≡ driver)
      × ((t.driver_at driver).next ≡ s.pci_drivers)
unfolding pci_register_driver ask_all
pci_register_driver-ask_all config call f driver s w l some_driver attaches chain distinct fuel =
    let d = s.driver_at driver in
    let d' = record d { next = s.pci_drivers } in
    let t = record s { driver_at = set s.driver_at driver d'; pci_drivers = driver } in
    let here : t.driver_at driver ≡ d' = ground arith in
    let (q, run, (devices, calls, drivers, head)) =
      offer_all-IsDone config call driver d' l f s.pci_devices t w here chain distinct fuel in
    let live : (driver == 0 || d.attach == 0) ≡ false = ground arith in
    let same = ask_all-next config call d s.pci_drivers s.device_at l w in
    (
      q.0,
      (ask_all config call d s.device_at l w).0,
      q.1,
      rw (pci_register_driver, live, run) refl,
      with_second (ask_all config call d s.device_at l w) q.1 (sym (calls ∙ ap (λ u. u.1) same)),
      λ a. devices a ∙ ap (λ u. claimed_by driver u.0 s.device_at a) same,
      head,
      ap (λ g. (g driver).next) drivers ∙ ap (λ e. e.next) here,
    )
