-- ===== src/Memory/Copy.antt =====
-- memset, memcpy and memmove write what they mean to write.
use pzos.Base.{
  ℕ, zero, suc, ◌+◌, ◌-◌, ◌*◌, ◌/◌, ◌%◌, ◌^◌, ◌≤◌, ◌≡◌, ◌≢◌, ◌⊎◌, inl, inr, refl, ap, ◌∙◌,
}
use pzos.Base.{true, ltb, leb, ◌==◌, if◌then◌else◌, arith, Bool-cases}
use pzos.Memory.{
  Bytes, store, in_range, store8, store1, memset, copy_bytes, copy_words, memcpy, back_bytes,
  back_words, memmove,
}

-- Memory after `n` bytes have been copied at once: each is what stood at its source before.
abbrev pub copied : ℕ → ℕ → ℕ → Bytes → Bytes
copied d s n m j = if in_range d n j then m (s + (j - d)) else m j

-- A copy upwards does not overwrite what it has yet to read.
abbrev pub IsForward : ℕ → ℕ → ℕ → Type 0
IsForward d s n = (d ≤ s) ⊎ (s + n ≤ d)

pub copy_bytes-copied :
    (n d s : ℕ) (m : Bytes) (j : ℕ) → IsForward d s n → copy_bytes d s n m j ≡ copied d s n m j
unfolding copy_bytes
copy_bytes-copied zero d s m j way = ground arith
copy_bytes-copied (suc n) d s m j way =
    let step : copy_bytes (d + 1) (s + 1) n (store1 d s m) j
        ≡ copied (d + 1) (s + 1) n (store1 d s m) j =
      copy_bytes-copied n (d + 1) (s + 1) (store1 d s m) j (ground arith) in
    step ∙ ground arith

copy_words-copied :
    (f n d s : ℕ) (m : Bytes) (j : ℕ) → IsForward d s n → copy_words f d s n m j ≡ copied d s n m j
unfolding copy_words
copy_words-copied zero n d s m j way = copy_bytes-copied n d s m j way
copy_words-copied (suc f) n d s m j way = elim (Bool-cases (leb 8 n)) [
  | inr short ↦ rw short (copy_bytes-copied n d s m j way)
  | inl long ↦
      let step : copy_words f (d + 8) (s + 8) (n - 8) (store8 d s m) j
          ≡ copied (d + 8) (s + 8) (n - 8) (store8 d s m) j =
        copy_words-copied f (n - 8) (d + 8) (s + 8) (store8 d s m) j (ground arith) in
      rw long (step ∙ ground arith)
]

-- memcpy copies `n` bytes, if the destination does not begin inside the source, behind its start.
pub memcpy-copied :
    (d s n : ℕ) (m : Bytes) (j : ℕ) → IsForward d s n → memcpy d s n m j ≡ copied d s n m j
unfolding memcpy
memcpy-copied d s n m j way = copy_words-copied n n d s m j way

-- A copy of `n` bytes, after the `k` bytes that stand behind them.
copied-behind :
    (k n e t : ℕ) (m u : Bytes) (j : ℕ)
    → t ≤ e
    → ((i : ℕ) → u i ≡ copied (e + n) (t + n) k m i)
    → copied e t n u j ≡ copied e t (n + k) m j
copied-behind k n e t m u j way behind =
    let here : u j ≡ copied (e + n) (t + n) k m j = behind j in
    let source : u (t + (j - e)) ≡ copied (e + n) (t + n) k m (t + (j - e)) =
      behind (t + (j - e)) in
    ground (arith, here, source)

back_bytes-copied :
    (n d s e t : ℕ) (m : Bytes) (j : ℕ)
    → t ≤ e
    → d + 1 ≡ e + n
    → s + 1 ≡ t + n
    → back_bytes d s n m j ≡ copied e t n m j
unfolding back_bytes
back_bytes-copied zero d s e t m j way at_d at_s = ground arith
back_bytes-copied (suc zero) d s e t m j way at_d at_s =
    let de : d ≡ e = omega arith in let st : s ≡ t = omega arith in rw (de, st) (ground arith)
back_bytes-copied (suc (suc n)) d s e t m j way at_d at_s =
    back_bytes-copied (suc n) (d - 1) (s - 1) e t (store1 d s m) j way (omega arith) (omega arith)
    ∙ copied-behind 1 (suc n) e t m (store1 d s m) j way (λ i.
      (let de : d ≡ e + suc n = omega arith in
        let st : s ≡ t + suc n = omega arith in rw (de, st) (ground arith)))
    ∙ ap (λ k. copied e t k m j) (omega arith)

back_words-zero : (f d s : ℕ) (m : Bytes) → back_words f d s 0 m ≡ m
unfolding back_words
back_words-zero zero d s m = refl
back_words-zero (suc f) d s m = refl

back_words-copied :
    (f n d s e t : ℕ) (m : Bytes) (j : ℕ)
    → t ≤ e
    → n ≤ f
    → (n ≢ 0 → d + 8 ≡ e + n * 8)
    → (n ≢ 0 → s + 8 ≡ t + n * 8)
    → back_words f d s (n * 8) m j ≡ copied e t (n * 8) m j
unfolding back_words
back_words-copied f zero d s e t m j way fuel at_d at_s =
    ap (λ u. u j) (back_words-zero f d s m) ∙ ground arith
back_words-copied zero (suc n) d s e t m j way fuel at_d at_s = absurd (omega arith)
back_words-copied (suc f) (suc n) d s e t m j way fuel at_d at_s =
    let more : leb 8 (suc n * 8) ≡ true = ground arith in
    let left : suc n * 8 - 8 ≡ n * 8 = omega arith in
    let de : d ≡ e + n * 8 = omega (arith, at_d (omega arith)) in
    let st : s ≡ t + n * 8 = omega (arith, at_s (omega arith)) in
    let rest : back_words f (d - 8) (s - 8) (n * 8) (store8 d s m) j
        ≡ copied e t (n * 8) (store8 d s m) j =
      back_words-copied f n (d - 8) (s - 8) e t (store8 d s m) j way (omega arith)
        (λ some. omega arith) (λ some. omega arith) in
    rw (more, left)
      (rest
        ∙ copied-behind 8 (n * 8) e t m (store8 d s m) j way (λ i. rw (de, st) (ground arith))
        ∙ ap (λ k. copied e t k m j) (omega arith))

tail_bytes :
    (d s n : ℕ) (m : Bytes) (i : ℕ)
    → s ≤ d
    → back_bytes (d + n - 1) (s + n - 1) (n % 8) m i
      ≡ copied (d + n / 8 * 8) (s + n / 8 * 8) (n % 8) m i
unfolding back_bytes
tail_bytes d s n m i way = elim (Bool-cases (n % 8 == 0)) [
  | inl none_left ↦ let z : n % 8 ≡ 0 = ground arith in rw z (ground arith)
  | inr some_left ↦
      back_bytes-copied (n % 8) (d + n - 1) (s + n - 1) (d + n / 8 * 8) (s + n / 8 * 8) m i
        (omega arith) (ground arith) (ground arith)
]

-- memmove copies `n` bytes, wherever the two ranges lie.
pub memmove-copied : (d s n : ℕ) (m : Bytes) (j : ℕ) → memmove d s n m j ≡ copied d s n m j
unfolding memmove
memmove-copied d s n m j = elim (Bool-cases (ltb d s)) [
  | inl up ↦ rw up (memcpy-copied d s n m j (inl (ground arith)))
  | inr down ↦
      let way : s ≤ d = ground arith in
      let words : n - n % 8 ≡ n / 8 * 8 = omega arith in
      let behind : (i : ℕ)
          → back_bytes (d + n - 1) (s + n - 1) (n % 8) m i
            ≡ copied (d + n / 8 * 8) (s + n / 8 * 8) (n % 8) m i =
        λ i. tail_bytes d s n m i way in
      rw (down, words)
        (back_words-copied n (n / 8) (d + n - 1 - n % 8 - 7) (s + n - 1 - n % 8 - 7) d s
            (back_bytes (d + n - 1) (s + n - 1) (n % 8) m) j way (omega arith) (λ some. omega arith)
            (λ some. omega arith)
          ∙ copied-behind (n % 8) (n / 8 * 8) d s m (back_bytes (d + n - 1) (s + n - 1) (n % 8) m) j
              way behind
          ∙ ap (λ k. copied d s k m j) (omega arith))
]

-- memset fills `n` bytes with the low byte of `c`.
pub memset-filled :
    (n p c : ℕ) (m : Bytes) (j : ℕ) → memset p c n m j ≡ (if in_range p n j then c % 2 ^ 8 else m j)
unfolding memset
memset-filled zero p c m j = ground arith
memset-filled (suc n) p c m j = memset-filled n (p + 1) c (store p c m) j ∙ ground arith
