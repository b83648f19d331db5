-- ===== src/TwoPl/Helper/Calls.antt =====
-- protocol/TwoPL/TwoPLHelper.h: the calls on a row, in any interleaving. A client is a number; it releases only what
-- it holds. It holds a lock until a release of it goes through, so that it still holds the write lock when the weak
-- exchange of a commit's release failed for no reason.
use prdcc.Base.{some, ℕ, ◌^◌, ◌<◌, ◌≡◌, Bool, List, [], ◌∷◌, In, ◌==◌, if◌then◌else◌}
use prdcc.TwoPl.Helper.{
  LockResult, write_lock_wait, read_lock, write_lock, read_lock_release, write_lock_release,
  write_lock_release_to,
}

-- The word of a row, with who holds it for reading and for writing.
pub record Row : Type 0 where
  pub word : ℕ
  pub readers : List ℕ
  pub writers : List ℕ

-- One occurrence of a client is taken off.
abbrev pub erase : ℕ → List ℕ → List ℕ
erase c [] = []
erase c (x ∷ xs) = if x == c then xs else x ∷ erase c xs

abbrev pub grant : Bool → ℕ → List ℕ → List ℕ
grant success c xs = if success then c ∷ xs else xs

pub data Step (s u : Row) : Type 0 where
  read_tried :
      (c : ℕ)
      → u ≡ record {
        word = (read_lock s.word).word;
        readers = grant (read_lock s.word).success c s.readers;
        writers = s.writers;
      }
      → Step s u
  -- The client loaded `seen` at some time before.
  write_tried :
      (c seen : ℕ)
      → u ≡ record {
        word = (write_lock seen s.word).word;
        readers = s.readers;
        writers = grant (write_lock seen s.word).success c s.writers;
      }
      → Step s u
  -- The write lock that waits, when it gets through.
  write_waited :
      (c : ℕ) (r : LockResult)
      → write_lock_wait s.word ≡ some r
      → u ≡ record { word = r.word; readers = s.readers; writers = grant r.success c s.writers }
      → Step s u
  read_released :
      (c : ℕ)
      → In c s.readers
      → u ≡ record {
        word = read_lock_release s.word;
        readers = erase c s.readers;
        writers = s.writers;
      }
      → Step s u
  write_aborted :
      (c : ℕ)
      → In c s.writers
      → u ≡ record {
        word = write_lock_release s.word;
        readers = s.readers;
        writers = erase c s.writers;
      }
      → Step s u
  write_committed :
      (c commit_tid : ℕ) (spurious : Bool)
      → In c s.writers
      → commit_tid < 2 ^ 54
      → u ≡ record {
        word = write_lock_release_to spurious s.word commit_tid;
        readers = s.readers;
        writers = if spurious then s.writers else erase c s.writers;
      }
      → Step s u

pub data Reach (s : Row) : Row → Type 0 where
  here : Reach s s
  next : {t u : Row} → Reach s t → Step t u → Reach s u
