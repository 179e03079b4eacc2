-- ===== src/ReCore/Writer/Contents.antt =====
-- What a writer holds: the bytes written so far, over a slack of zeros.
use universal_symbols.Prelude.{
  ℕ, zero, suc, leb, take-append, ◌==◌, ◌+◌, ◌%◌, ◌-◌, ◌*◌, ◌≤◌, ◌<◌, ◌≡◌, refl, Bool, true, false,
  List, [], ◌∷◌, ◌++◌, none, some, if◌then◌else◌, arith, length, replicate, length-append,
  length-replicate, replicate-add, append_assoc, sym, ap, ◌∙◌, ◌⊎◌, Bool-cases, inl, inr,
}
use universal_symbols.ReCore.Memory.{size_mod, copy_into, copy_out, copy_into-zeros, copy_out_all}
use universal_symbols.ReCore.Buffer.{Buffer, block, is_overflow, resize, advance}
use universal_symbols.ReCore.Writer.{write_to_file, saved, refused, sized, grown_size, write_impl}

abbrev pub zeros : ℕ → List ℕ
zeros n = replicate n 0

pub record Holds (b : Buffer) (bytes : List ℕ) : Type 0 where
  pub slack : ℕ
  pub filled : b.memory ≡ some (bytes ++ zeros slack)
  pub at : b.position ≡ length bytes
  pub room : b.size ≡ length bytes + slack

pub sized-Holds : (n : ℕ) → 0 < n → Holds (sized n) []
unfolding sized
sized-Holds n h = record {
  slack = n;
  filled = ground arith;
  at = ground arith;
  room = ground arith;
}

-- The new block is a copy of the old one with more zeros behind it.
resize-Holds :
    (n : ℕ) (b : Buffer) (bytes : List ℕ)
    → Holds b bytes
    → b.size ≤ n
    → (b' : Buffer) × (resize n b ≡ some b') × Holds b' bytes × (b'.size ≡ n)
unfolding resize
resize-Holds n b bytes h le =
    let old = bytes ++ zeros h.slack in
    let long : length old ≡ b.size =
      omega
        (arith, length-append bytes (zeros h.slack), length-replicate {A = ℕ} h.slack 0, h.room) in
    let owned : block b ≡ old = rw h.filled in
    let read : copy_out (block b) 0 b.size ≡ some old =
      rw owned (copy_out_all old b.size (sym long)) in
    let wrote : copy_into (zeros n) 0 old ≡ some (old ++ zeros (n - length old)) =
      copy_into-zeros [] old n (omega arith) in
    (
      record { size = n; position = b.position; memory = some (old ++ zeros (n - length old)) },
      rw (read, wrote),
      record {
        slack = h.slack + (n - length old);
        filled = ap some (
            append_assoc bytes (zeros h.slack) _
            ∙ ap (λ l. bytes ++ l) (sym (replicate-add h.slack (n - length old) 0)));
        at = h.at;
        room = omega arith;
      },
      refl,
    )

module _ (grow : ℕ → ℕ) where
  grown_size_bounds :
      (size count : ℕ)
      → grow size ≤ 2 * size
      → size + count < size_mod
      → 2 * size < size_mod
      → (size + count ≤ grown_size grow size count)
        × ((grown_size grow size count ≤ 2 * size) ⊎ (grown_size grow size count ≡ size + count))
  unfolding grown_size
  grown_size_bounds size count g h k = ground arith

  put_bytes :
      (src : List ℕ) (b : Buffer) (bytes : List ℕ)
      → Holds b bytes
      → b.position + length src ≤ b.size
      → b.position + length src < size_mod
      → (d : List ℕ) × (copy_into (block b) b.position src ≡ some d)
        × Holds (advance (length src) (record b { memory = some d })) (bytes ++ src)
  unfolding advance
  put_bytes src b bytes h fits small =
      let owned : block b ≡ bytes ++ zeros h.slack = rw h.filled in
      (
        (bytes ++ src) ++ zeros (h.slack - length src),
        rw (owned, h.at) (copy_into-zeros bytes src h.slack (omega (arith, h.at, h.room))),
        record {
          slack = h.slack - length src;
          filled = refl;
          at = omega (arith, length-append bytes src, h.at);
          room = omega (arith, length-append bytes src, h.at, h.room);
        },
      )

  -- A writer whose block holds what was written and zeros behind it, whose growth at most
  -- doubles and whose sizes stay below the range of `size_t`: `write_impl` does not leave the
  -- block, and appends the source to what was written; the block stays within twice what is
  -- written above the size it began with, and never shrinks.
  pub write_impl-Holds :
      (cap : ℕ) (src : List ℕ) (b : Buffer) (bytes : List ℕ)
      → grow b.size ≤ 2 * b.size
      → Holds b bytes
      → b.size ≤ cap + 2 * b.position
      → cap + 2 * (b.position + length src) < size_mod
      → (b' : Buffer) × (write_impl grow src b ≡ some b')
        × Holds b' (bytes ++ src)
        × (b'.size ≤ cap + 2 * b'.position)
        × (b.size ≤ b'.size)
  unfolding write_impl is_overflow advance
  write_impl-Holds cap src b bytes g h small big = elim (Bool-cases (is_overflow (length src) b)) [
    | inl over ↦
        let n = grown_size grow b.size (length src) in
        let bounds = grown_size_bounds b.size (length src) g (omega arith) (ground arith) in
        let (b1, e1, h1, s1) = resize-Holds n b bytes h (omega (arith, bounds)) in
        let (d, e2, h2) = put_bytes src b1 bytes h1 (ground arith) (ground arith) in
        (
          advance (length src) (record b1 { memory = some d }),
          rw (over, e1, e2),
          h2,
          ground (arith, h1.at, h.at),
          omega (arith, bounds),
        )
    | inr within ↦
        let (d, e2, h2) = put_bytes src b bytes h (ground arith) (ground arith) in
        (
          advance (length src) (record b { memory = some d }),
          rw (within, e2),
          h2,
          ground arith,
          omega arith,
        )
  ]

copy_out_past :
    (bytes : List ℕ) (slack : ℕ)
    → copy_out (bytes ++ zeros slack) 0 (length bytes + 1)
      ≡ (if slack == 0 then none else some (bytes ++ (0 ∷ [])))
unfolding copy_out replicate
copy_out_past bytes zero =
    let over : leb (0 + (length bytes + 1)) (length (bytes ++ [])) ≡ false =
      ground (arith, length-append bytes []) in
    rw over
copy_out_past bytes (suc n) =
    let fits : leb (0 + (length bytes + 1)) (length (bytes ++ zeros (suc n))) ≡ true =
      ground (arith, length-append bytes (zeros (suc n))) in
    let regroup : bytes ++ zeros (suc n) ≡ (bytes ++ (0 ∷ [])) ++ zeros n =
      sym (append_assoc bytes (0 ∷ []) (zeros n)) in
    let long : length bytes + 1 ≡ length (bytes ++ (0 ∷ [])) =
      omega (arith, length-append bytes (0 ∷ [])) in
    rw (fits, regroup, long, take-append) (ground arith)

-- A writer whose block holds what was written and zeros behind it, with a position below the top
-- of `size_t`: `WriteToFile` stores one byte more than was written, a zero of the slack. With no
-- slack it reads past its block, which is a fault; with no stream it refuses.
pub write_to_file-Holds :
    (opens : Bool) (b : Buffer) (bytes : List ℕ) (h : Holds b bytes)
    → b.position + 1 < size_mod
    → write_to_file opens b ≡ (
        if opens
        then if h.slack == 0 then none else some (saved (bytes ++ (0 ∷ [])))
        else some refused)
unfolding write_to_file
write_to_file-Holds false b bytes h small = rw h.filled
write_to_file-Holds true b bytes h small =
    let at : (b.position + 1) % size_mod ≡ length bytes + 1 = omega (arith, h.at) in
    ground (arith, copy_out_past bytes h.slack)
