-- ===== src/Pci/Asking.antt =====
-- kernel/arch/x86_64/pci.c, pci_register_driver: what the loop over a list of devices should do.
use pzos.Base.{ℕ, suc, ◌≡◌, ◌≢◌, inl, inr, refl, ap, subst, sym, ◌∙◌, arith}
use pzos.Base.{Bool, true, false, ◌&&◌, ◌||◌, List, [], ◌∷◌, ◌==◌, if◌then◌else◌, Bool-cases}
use pzos.Memory.{Bytes}
use pzos.Pci.{Device, Driver, set, is_match}

-- The list from `p` on has the devices at these addresses.
unfoldable pub IsChain : (ℕ → Device) → ℕ → List ℕ → Type 0
IsChain dev p [] = p ≡ 0
IsChain dev p (a ∷ rest) = (p ≡ a) × (a ≢ 0) × IsChain dev (dev a).next rest

abbrev pub count : List ℕ → ℕ
count [] = 0
count (a ∷ rest) = suc (count rest)

-- `a` is one of the addresses.
unfoldable pub has : List ℕ → ℕ → Bool
has [] a = false
has (b ∷ rest) a = a == b || has rest a

unfoldable pub AreDistinct : List ℕ → Type 0
unfolding has
AreDistinct [] = Unit
AreDistinct (a ∷ rest) = (has rest a ≡ false) × AreDistinct rest

-- The device at `a` with the driver at `driver`, if it is one of those.
abbrev pub claimed_by : ℕ → List ℕ → (ℕ → Device) → ℕ → Device
claimed_by driver claimed dev a =
    if has claimed a then record (dev a) { driver = driver } else dev a

abbrev pub with_driver : (ℕ → Device) → ℕ → ℕ → ℕ → Device
with_driver dev p driver = set dev p (record (dev p) { driver = driver })

pub IsChain-next :
    (dev dev' : ℕ → Device) (l : List ℕ) (p : ℕ)
    → ((a : ℕ) → (dev' a).next ≡ (dev a).next)
    → IsChain dev p l
    → IsChain dev' p l
unfolding IsChain
IsChain-next dev dev' [] p same chain = chain
IsChain-next dev dev' (a ∷ l) p same (here, some_dev, chain) =
    (here, some_dev, IsChain-next dev dev' l (dev' a).next same (rw (same a) chain))

pub has-add :
    (c : Bool) (a b : ℕ) (l : List ℕ) → has (if c then a ∷ l else l) b ≡ (c && b == a || has l b)
unfolding has
has-add true a b l = refl
has-add false a b l = refl

-- The claims of the devices behind `a`, with `a` itself in `c`.
pub claimed-add :
    (c : Bool) (driver a b : ℕ) (l : List ℕ) (dev : ℕ → Device)
    → has l a ≡ false
    → claimed_by driver l (if c then with_driver dev a driver else dev) b
      ≡ claimed_by driver (if c then a ∷ l else l) dev b
unfolding has
claimed-add false driver a b l dev new = refl
claimed-add true driver a b l dev new = elim (Bool-cases (b == a)) [
  | inl same ↦
      let e : b ≡ a = ground arith in
      let gone : has l b ≡ false = subst (λ x. has l x ≡ false) (sym e) new in
      rw (same, gone) (ap (λ x. record (dev x) { driver = driver }) (sym e))
  | inr other ↦ rw other refl
]

module _ {W : Type 0} (config : Bytes) (call : ℕ → ℕ → W → Bool × W) (d : Driver) where
  -- A device is asked for if it has no driver and matches.
  abbrev pub is_free : (ℕ → Device) → ℕ → Bool
  is_free dev a = (dev a).driver == 0 && is_match config d (dev a).header

  -- The calls of attach for the devices in their order, one for each that is free: the devices that
  -- attach claims, and the state behind the calls.
  unfoldable pub ask_all : (ℕ → Device) → List ℕ → W → List ℕ × W
  ask_all dev [] w = ([], w)
  ask_all dev (a ∷ rest) w =
      let (claims, w') = call d.attach a w in
      let later = ask_all dev rest (if is_free dev a then w' else w) in
      (if is_free dev a && claims then a ∷ later.0 else later.0, later.1)

  pub ask_all-agree :
      (dev dev' : ℕ → Device) (l : List ℕ) (w : W)
      → ((a : ℕ) → has l a ≡ true → dev' a ≡ dev a)
      → ask_all dev' l w ≡ ask_all dev l w
  unfolding ask_all has
  ask_all-agree dev dev' [] w same = refl
  ask_all-agree dev dev' (a ∷ rest) w same =
      let here : dev' a ≡ dev a = same a (ground arith) in
      let more = λ (v : W). ask_all-agree dev dev' rest v (λ b h. same b (ground arith)) in
      rw (ask_all, here, more (if is_free dev a then (call d.attach a w).1 else w)) refl

  pub has-ask_all :
      (dev : ℕ → Device) (l : List ℕ) (w : W) (b : ℕ)
      → has l b ≡ false
      → has (ask_all dev l w).0 b ≡ false
  unfolding ask_all has
  has-ask_all dev [] w b h = refl
  has-ask_all dev (a ∷ rest) w b h =
      let w' = if is_free dev a then (call d.attach a w).1 else w in
      has-add (is_free dev a && (call d.attach a w).0) a b (ask_all dev rest w').0
      ∙ ground (arith, has-ask_all dev rest w' b)

-- The next driver is not read.
pub ask_all-next :
    {W : Type 0} (config : Bytes) (call : ℕ → ℕ → W → Bool × W) (d : Driver) (p : ℕ)
    (dev : ℕ → Device) (l : List ℕ) (w : W)
    → ask_all config call (record d { next = p }) dev l w ≡ ask_all config call d dev l w
unfolding ask_all
ask_all-next config call d p dev [] w = refl
ask_all-next config call d p dev (a ∷ rest) w =
    let more = ask_all-next config call d p dev rest in
    rw (ask_all, more (if is_free config call d dev a then (call d.attach a w).1 else w)) refl
