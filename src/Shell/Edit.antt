-- ===== src/Shell/Edit.antt =====
-- What an edit does to the line.
use pzos.Base.{ℕ, ◌+◌, ◌-◌, ◌^◌, ◌≤◌, ◌<◌, ◌≡◌, ◌≢◌, inl, inr, refl, ◌∙◌, false}
use pzos.Base.{ltb, ◌==◌, arith, Bool-cases}
use pzos.Memory.{memmove, memcpy}
use pzos.Memory.Copy.{copied, memmove-copied, memcpy-copied}
use pzos.Shell.{Line, insert, backspace}

module _ (buf : ℕ) where
  -- The character at place `i` of the line.
  abbrev pub char_at : Line → ℕ → ℕ
  char_at s i = s.memory (buf + i)

  -- A printable character goes to the cursor: what is before it stays, what is from there on moves one
  -- place up, and the cursor is behind it.
  pub insert-chars :
      (c : ℕ) (s : Line)
      → c < 2 ^ 8
      → s.bufpos ≤ s.buflen
      → ((i : ℕ) → i < s.bufpos → char_at (insert buf c s) i ≡ char_at s i)
        × (char_at (insert buf c s) s.bufpos ≡ c)
        × ((i : ℕ) → s.bufpos ≤ i → i < s.buflen → char_at (insert buf c s) (i + 1) ≡ char_at s i)
        × ((insert buf c s).buflen ≡ s.buflen + 1)
        × ((insert buf c s).bufpos ≡ s.bufpos + 1)
  unfolding insert
  insert-chars c s char order =
      let moved : (j : ℕ)
          → memmove (buf + s.bufpos + 1) (buf + s.bufpos) (s.buflen - s.bufpos) s.memory j
            ≡ copied (buf + s.bufpos + 1) (buf + s.bufpos) (s.buflen - s.bufpos) s.memory j =
        memmove-copied (buf + s.bufpos + 1) (buf + s.bufpos) (s.buflen - s.bufpos) s.memory in
      elim (Bool-cases (ltb s.bufpos s.buflen)) [
        | inl inside ↦
            rw (insert, inside)
              (
                λ i lt. ground (arith, moved (buf + i)),
                ground arith,
                λ i from upto. ground (arith, moved (buf + (i + 1))),
                refl,
                refl,
              )
        | inr at_end ↦
            rw (insert, at_end)
              (λ i lt. ground arith, ground arith, λ i from upto. ground arith, refl, refl)
      ]

  -- Backspace behind a character takes it out: what is before it stays, and what is behind it moves
  -- one place down, with the cursor.
  pub backspace-chars :
      (s : Line)
      → s.bufpos ≢ 0
      → s.bufpos ≤ s.buflen
      → ((i : ℕ) → i + 1 < s.bufpos → char_at (backspace buf s) i ≡ char_at s i)
        × ((i : ℕ)
            → s.bufpos ≤ i + 1
            → i + 1 < s.buflen
            → char_at (backspace buf s) i ≡ char_at s (i + 1))
        × ((backspace buf s).buflen ≡ s.buflen - 1)
        × ((backspace buf s).bufpos ≡ s.bufpos - 1)
  unfolding backspace
  backspace-chars s some_char order =
      let inside : (s.bufpos == 0) ≡ false = ground arith in
      let moved : (j : ℕ)
          → memcpy (buf + s.bufpos - 1) (buf + s.bufpos) (s.buflen - s.bufpos) s.memory j
            ≡ copied (buf + s.bufpos - 1) (buf + s.bufpos) (s.buflen - s.bufpos) s.memory j =
        λ j.
          memcpy-copied (buf + s.bufpos - 1) (buf + s.bufpos) (s.buflen - s.bufpos) s.memory j
            (inl (omega arith)) in
      rw (backspace, inside)
        (
          λ i lt. ground (arith, moved (buf + i)),
          λ i from upto. ground (arith, moved (buf + i)),
          refl,
          refl,
        )

  -- Backspace undoes a character: the line and the cursor are as they were.
  pub backspace-insert :
      (c : ℕ) (s : Line)
      → c < 2 ^ 8
      → s.bufpos ≤ s.buflen
      → ((i : ℕ) → i < s.buflen → char_at (backspace buf (insert buf c s)) i ≡ char_at s i)
        × ((backspace buf (insert buf c s)).buflen ≡ s.buflen)
        × ((backspace buf (insert buf c s)).bufpos ≡ s.bufpos)
  backspace-insert c s char order =
      let (before, here, behind, len, pos) = insert-chars c s char order in
      let t = insert buf c s in
      let (keep, down, len', pos') =
        backspace-chars t (omega (arith, pos)) (omega (arith, pos, len)) in
      (
        λ i lt. elim (Bool-cases (ltb i s.bufpos)) [
          | inl low ↦ keep i (ground (arith, pos, low)) ∙ before i (ground arith)
          | inr high ↦
              down i (ground (arith, pos, high)) (ground (arith, len)) ∙ behind i (ground arith) lt
        ],
        omega (arith, len, len'),
        omega (arith, pos, pos'),
      )
