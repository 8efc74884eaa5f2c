-- ===== src/Utility/ZlibUtil/Memory.antt =====
-- The memory at `*out`, into which zlib's bytes are copied one after the other.
use newbee.Base.{
  ℕ, zero, suc, ◌+◌, ◌<◌, ◌≡◌, refl, ap, ◌∙◌, List, [], ◌∷◌, ◌++◌, length, arith, ==_ne, ==_iff,
}
use native.Mathlib.Nat.{zero-add, add-zero, suc-add}
use newbee.Rpc.Message.{Byte, copy_bytes, set_byte}

-- `n` bytes of the memory from `at` on.
abbrev pub bytes_from : (at n : ℕ) → (ℕ → Byte) → List Byte
bytes_from at zero mem = []
bytes_from at (suc n) mem = mem at ∷ bytes_from (at + 1) n mem

copy_bytes-below :
    (mem : ℕ → Byte) (at i : ℕ) (bytes : List Byte) → i < at → copy_bytes mem at bytes i ≡ mem i
unfolding set_byte
copy_bytes-below mem at i [] h = refl
copy_bytes-below mem at i (b ∷ bytes) h =
    copy_bytes-below (set_byte mem at b) (at + 1) i bytes (omega arith)
    ∙ rw (==_ne i at (omega arith)) refl

bytes_from-copy_bytes :
    (mem : ℕ → Byte) (at : ℕ) (bytes : List Byte)
    → bytes_from at (length bytes) (copy_bytes mem at bytes) ≡ bytes
unfolding set_byte
bytes_from-copy_bytes mem at [] = refl
bytes_from-copy_bytes mem at (b ∷ bytes) =
    rw
      (
        copy_bytes-below (set_byte mem at b) (at + 1) at bytes (omega arith),
        bytes_from-copy_bytes (set_byte mem at b) (at + 1) bytes,
        (==_iff at at).1 refl,
      )
      refl

bytes_from-agree :
    (mem mem' : ℕ → Byte) (at n : ℕ)
    → ((i : ℕ) → i < at + n → mem i ≡ mem' i)
    → bytes_from at n mem ≡ bytes_from at n mem'
bytes_from-agree mem mem' at zero h = refl
bytes_from-agree mem mem' at (suc n) h =
    rw (h at (omega arith), bytes_from-agree mem mem' (at + 1) n (λ i l. h i (omega arith))) refl

suc_shift : (at n : ℕ) → at + 1 + n ≡ at + suc n
suc_shift at n = omega arith

bytes_from-add :
    (mem : ℕ → Byte) (at n m : ℕ)
    → bytes_from at (n + m) mem ≡ bytes_from at n mem ++ bytes_from (at + n) m mem
bytes_from-add mem at zero m = rw (zero-add m, add-zero at) refl
bytes_from-add mem at (suc n) m =
    rw (suc-add n m, ← suc_shift at n) (ap (◌∷◌ (mem at)) (bytes_from-add mem (at + 1) n m))

-- Bytes that are copied behind those that are there.
pub bytes_from-append :
    (mem : ℕ → Byte) (n : ℕ) (bytes : List Byte)
    → bytes_from 0 (n + length bytes) (copy_bytes mem n bytes) ≡ bytes_from 0 n mem ++ bytes
bytes_from-append mem n bytes =
    bytes_from-add (copy_bytes mem n bytes) 0 n (length bytes)
    ∙ rw
        (
          zero-add n,
          bytes_from-copy_bytes mem n bytes,
          bytes_from-agree (copy_bytes mem n bytes) mem 0 n
              (λ i h. copy_bytes-below mem n i bytes (omega arith)),
        )
        refl
