-- ===== src/Wire/Writer.antt =====
-- io: the interface `io.Writer` with what it documents.

use control_protocol.Prelude.{ℕ, ◌≤◌, ◌≡◌, Option, none, List, ◌++◌, length, take}
use control_protocol.Errors.{Error}

pub record WriteResult {ℓ} (W : Type ℓ) : Type ℓ where
  pub writer : W
  pub count : ℕ
  pub error : Option Error

-- `W` is the state of the writer, and `sent` the bytes that it has accepted. `Write(p)` returns the
-- number of bytes accepted from the front of `p`, and an error if it accepted less than all.
pub record Writer {ℓ} (W : Type ℓ) : Type ℓ where
  pub write : W → List ℕ → WriteResult W
  pub sent : W → List ℕ
  pub write_prefix :
      (w : W) (p : List ℕ) → sent (write w p).writer ≡ sent w ++ take (write w p).count p
  pub write_le : (w : W) (p : List ℕ) → (write w p).count ≤ length p
  pub write_all : (w : W) (p : List ℕ) → (write w p).error ≡ none → (write w p).count ≡ length p
