-- ===== src/Shell.antt =====
-- kernel/src/main.c: the line that the shell edits. Its buffer lies in memory at `buf`, and the edits
-- are the memmove and memcpy of libc. Session has the rest of the loop on a keystroke, with what is sent
-- to the terminal; the prompt at the start and the wait for an interrupt are left out.
pub mod Edit
pub mod Session
pub mod Recall
mod Tests
use pzos.Base.{ℕ, suc, ◌+◌, ◌-◌, Bool, true, false, ltb, leb, ◌==◌, if◌then◌else◌}
use pzos.Memory.{Bytes, store, memmove, memcpy}

pub record Line : Type 0 where
  pub memory : Bytes
  pub bufpos : ℕ
  pub buflen : ℕ

module _ (buf : ℕ) where
  -- A printable character.
  unfoldable pub insert : ℕ → Line → Line
  insert c s =
      if ltb s.bufpos s.buflen
      then record s {
        memory =
            store (buf + s.bufpos) c
              (memmove (buf + s.bufpos + 1) (buf + s.bufpos) (s.buflen - s.bufpos) s.memory);
        bufpos = s.bufpos + 1;
        buflen = s.buflen + 1;
      }
      else record s {
        memory = store (buf + s.bufpos) c s.memory;
        bufpos = s.bufpos + 1;
        buflen = s.buflen + 1;
      }

  unfoldable pub backspace : Line → Line
  backspace s = if s.bufpos == 0 then s else record s {
    memory = memcpy (buf + s.bufpos - 1) (buf + s.bufpos) (s.buflen - s.bufpos) s.memory;
    bufpos = s.bufpos - 1;
    buflen = s.buflen - 1;
  }

abbrev pub left : Line → Line
left s = if s.bufpos == 0 then s else record s { bufpos = s.bufpos - 1 }

abbrev pub right : Line → Line
right s = if s.bufpos == s.buflen then s else record s { bufpos = s.bufpos + 1 }
