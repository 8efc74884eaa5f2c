-- ===== src/Utility/ZlibUtil/Chunks.antt =====
-- `copied`, and the chunks of the input that `compress` and `uncompress` go through.
use newbee.Base.{
  ℕ, suc, ◌+◌, ◌*◌, ◌^◌, ◌<◌, ◌≤◌, ◌≡◌, ◌≢◌, sym, ap, ◌∙◌, false, List, [], ◌++◌, append-nil,
  append_assoc, ltb, length, take, drop, arith, length-append, length-drop, length-eq-zero,
  take-drop, drop-append,
}
use newbee.Rpc.Message.{Byte}
use newbee.Utility.ZlibUtil.{chunk, is_too_large, int_as_size, next_chunk}

pub next_chunk-take :
    (input taken left : List Byte) (copied : ℕ)
    → input ≡ taken ++ left
    → copied ≡ length taken
    → next_chunk input copied ≡ take chunk left
next_chunk-take input taken left copied e c = rw (e, c) (ap (take chunk) (drop-append taken left))

pub within :
    (input taken left : List Byte) (copied : ℕ)
    → input ≡ taken ++ left
    → copied ≡ length taken
    → ltb (length input) copied ≡ false
within input taken left copied e c =
    let long = ap length e ∙ length-append taken left in ground arith

pub is_too_large-lt : {n : ℕ} → n < 2 ^ 31 → is_too_large n ≡ false
is_too_large-lt h = ground arith

pub int_as_size-lt : {n : ℕ} → n < 2 ^ 31 → int_as_size n ≡ n
unfolding int_as_size
int_as_size-lt h = ground arith

-- One chunk further.
pub next_chunk-append :
    (input taken left : List Byte) (copied : ℕ)
    → input ≡ taken ++ left
    → copied ≡ length taken
    → (input ≡ (taken ++ next_chunk input copied) ++ drop chunk left)
      × (copied + length (next_chunk input copied) ≡ length (taken ++ next_chunk input copied))
next_chunk-append input taken left copied e c =
    let x = next_chunk-take input taken left copied e c in
    (
      e
          ∙ ap (λ bytes. taken ++ bytes)
              (sym (take-drop chunk left) ∙ ap (λ bytes. bytes ++ drop chunk left) (sym x))
          ∙ sym (append_assoc taken (next_chunk input copied) (drop chunk left)),
      ap (λ n. n + length (next_chunk input copied)) c ∙ sym (length-append taken _),
    )

-- The `int` does not wrap in an input that it can count.
pub next_chunk-int :
    (input taken left : List Byte) (copied : ℕ)
    → input ≡ taken ++ left
    → copied ≡ length taken
    → length input < 2 ^ 31
    → int_as_size (copied + length (next_chunk input copied))
      ≡ copied + length (next_chunk input copied)
next_chunk-int input taken left copied e c small =
    let (split, count) = next_chunk-append input taken left copied e c in
    let long = ap length split ∙ length-append (taken ++ next_chunk input copied) _ in
    int_as_size-lt (omega arith)

pub next_chunk-last :
    (input taken left : List Byte) (copied : ℕ)
    → input ≡ taken ++ left
    → copied ≡ length taken
    → length input ≡ copied + length (next_chunk input copied)
    → taken ++ next_chunk input copied ≡ input
next_chunk-last input taken left copied e c last =
    let (split, count) = next_chunk-append input taken left copied e c in
    let long = ap length split ∙ length-append (taken ++ next_chunk input copied) _ in
    let nothing = length-eq-zero (drop chunk left) (omega arith) in
    sym (split ∙ rw nothing (append-nil _))

-- There is a chunk less to go, and something is left, unless it was the last one.
pub next_chunk-more :
    (input taken left : List Byte) (copied fuel : ℕ)
    → input ≡ taken ++ left
    → copied ≡ length taken
    → length input ≢ copied + length (next_chunk input copied)
    → length left < suc fuel * chunk
    → length (drop chunk left) < fuel * chunk
next_chunk-more input taken left copied fuel e c more h =
    let (split, count) = next_chunk-append input taken left copied e c in
    let long = ap length split ∙ length-append (taken ++ next_chunk input copied) _ in
    omega (arith, length-drop chunk left)

pub next_chunk-nonempty :
    (input taken left : List Byte) (copied fuel : ℕ)
    → input ≡ taken ++ left
    → copied ≡ length taken
    → length (next_chunk input copied) ≢ 0
    → length left + chunk ≤ suc fuel * chunk
    → length (drop chunk left) + chunk ≤ fuel * chunk
next_chunk-nonempty input taken left copied fuel e c some_bytes h =
    let (split, count) = next_chunk-append input taken left copied e c in
    let long = ap length split ∙ length-append (taken ++ next_chunk input copied) _ in
    omega (
      arith,
      length-drop chunk left,
      ap length e,
      length-append taken left,
      length-append taken (next_chunk input copied),
    )

pub next_chunk-drop :
    (input taken left : List Byte) (copied : ℕ)
    → input ≡ taken ++ left
    → copied ≡ length taken
    → (cut : List Byte) → left ++ cut ≡ next_chunk input copied ++ (drop chunk left ++ cut)
next_chunk-drop input taken left copied e c cut = rw (next_chunk-take input taken left copied e c) (
    ap (λ bytes. bytes ++ cut) (sym (take-drop chunk left))
    ∙ append_assoc (take chunk left) (drop chunk left) cut)

pub next_chunk-empty :
    (input taken left : List Byte) (copied : ℕ)
    → input ≡ taken ++ left
    → copied ≡ length taken
    → length (next_chunk input copied) ≡ 0
    → left ≡ []
next_chunk-empty input taken left copied e c nothing = length-eq-zero left (
    omega (
      arith,
      length-drop chunk left,
      ap length (next_chunk-drop input taken left copied e c []),
      length-append left [],
      length-append (next_chunk input copied) (drop chunk left ++ []),
      length-append (drop chunk left) [],
    ))
