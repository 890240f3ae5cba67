-- ===== src/Shell/Tests.antt =====
-- The edits on the line "abc", with the cursor behind the a.
use pzos.Base.{ℕ, ◌+◌, ◌-◌, ◌≤◌, ◌<◌, ◌≡◌, refl, arith, leb, ltb, ◌&&◌, if◌then◌else◌}
use pzos.Base.{Option, none, some, List, [], ◌∷◌, ◌==◌, inl}
use pzos.Memory.{memcpy, copy_words, copy_bytes}
use pzos.Strings.{strlen, strlen_from}
use pzos.Shell.Session.{
  Session, no_index, key_up_pressed, key_down_pressed, enter, show_entry, characters, string_at,
}
use pzos.Shell.Recall.{key_down-key_up, enter-empty}
use pzos.Shell.{Line, insert, backspace, left, right}
use pzos.Shell.Edit.{char_at, insert-chars, backspace-chars, backspace-insert}

abbrev abc : Line
abc = record {
  memory = λ j. if leb 1000 j && ltb j 1003 then j - 1000 + b'a' else 0;
  bufpos = 1;
  buflen = 3;
}

cursor_runs : ((left abc).bufpos ≡ 0) × ((right abc).bufpos ≡ 2) × ((left (left abc)).bufpos ≡ 0)
cursor_runs = (refl, refl, refl)

insert-chars_test :
    ((i : ℕ) → i < 1 → char_at 1000 (insert 1000 b'x' abc) i ≡ char_at 1000 abc i)
    × (char_at 1000 (insert 1000 b'x' abc) 1 ≡ b'x')
    × ((i : ℕ) → 1 ≤ i → i < 3 → char_at 1000 (insert 1000 b'x' abc) (i + 1) ≡ char_at 1000 abc i)
    × ((insert 1000 b'x' abc).buflen ≡ 4)
    × ((insert 1000 b'x' abc).bufpos ≡ 2)
insert-chars_test = insert-chars 1000 b'x' abc (omega arith) (omega arith)

backspace_test :
    ((i : ℕ) → i + 1 < 1 → char_at 1000 (backspace 1000 abc) i ≡ char_at 1000 abc i)
    × ((i : ℕ)
        → 1 ≤ i + 1
        → i + 1 < 3
        → char_at 1000 (backspace 1000 abc) i ≡ char_at 1000 abc (i + 1))
    × ((backspace 1000 abc).buflen ≡ 2)
    × ((backspace 1000 abc).bufpos ≡ 0)
backspace_test = backspace-chars 1000 abc (omega arith) (omega arith)

backspace-insert_example :
    ((i : ℕ) → i < 3 → char_at 1000 (backspace 1000 (insert 1000 b'x' abc)) i ≡ char_at 1000 abc i)
    × ((backspace 1000 (insert 1000 b'x' abc)).buflen ≡ 3)
    × ((backspace 1000 (insert 1000 b'x' abc)).bufpos ≡ 1)
backspace-insert_example = backspace-insert 1000 b'x' abc (omega arith) (omega arith)

-- "ls" is typed, and the one entry of the history is "ok".
abbrev typed : Session
typed = record {
  line = record {
    memory = λ j.
        if j == 1000
        then b'l'
        else if j == 1001
        then b's'
        else if j == 4000
        then b'o'
        else if j == 4001
        then b'k'
        else 0;
    bufpos = 1;
    buflen = 2;
  };
  history_cnt = 1;
  history_idx = no_index;
  sent = [];
}

abbrev line_of : Option Session → List ℕ
line_of none = []
line_of (some s) = characters s.line.buflen 1000 s.line.memory

session_run : line_of (key_up_pressed 1000 4000 100 80 9 typed) ≡ b'o' ∷ b'k' ∷ []
unfolding key_up_pressed show_entry characters string_at strlen strlen_from memcpy copy_words
    copy_bytes
session_run = refl

key_down-key_up_example :
    (t u : Session) × (key_up_pressed 1000 4000 100 80 9 typed ≡ some t)
    × (key_down_pressed 1000 4000 100 80 9 t ≡ some u)
    × (t.line.buflen ≡ 2)
    × (t.line.bufpos ≡ 2)
    × (t.history_idx ≡ 0)
    × ((i : ℕ) → i < 2 → t.line.memory (1000 + i) ≡ typed.line.memory (4000 + i))
    × (u.line.buflen ≡ 2)
    × (u.line.bufpos ≡ 2)
    × (u.history_idx ≡ no_index)
    × ((i : ℕ) → i < 2 → u.line.memory (1000 + i) ≡ typed.line.memory (1000 + i))
key_down-key_up_example =
    key_down-key_up 1000 4000 100 80 (inl (omega arith)) typed 2 (omega arith) (omega arith) refl
      (omega arith) (λ i lt. ground arith) refl (omega arith) (λ i lt. ground arith, refl) 9
      (omega arith) (omega arith)

abbrev emptied : Session
emptied = record typed { line = record typed.line { bufpos = 0; buflen = 0 } }

enter-empty_example :
    (t : Session) × (enter 1000 4000 100 9 emptied ≡ some t)
    × (t.history_cnt ≡ 2)
    × (t.line.memory 5024 ≡ 0)
enter-empty_example =
    enter-empty 1000 4000 100 80 (inl (omega arith)) 9 emptied refl (omega arith) refl (omega arith)
      (omega arith)
