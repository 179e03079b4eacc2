-- ===== src/Serializers/Binary/Run.antt =====
-- A whole run of `SerializeToFile` with the binary serializer.
use universal_symbols.Prelude.{
  ℕ, ◌+◌, ◌*◌, ◌≤◌, ◌<◌, ◌≡◌, true, false, List, [], ◌∷◌, ◌++◌, some, arith, ◌==◌, length, text_eq,
  append_assoc, length-append,
}
use universal_symbols.ReCore.Memory.{size_mod, le_bytes}
use universal_symbols.ReCore.Buffer.{Buffer}
use universal_symbols.ReCore.Writer.Contents.{Holds, write_to_file-Holds}
use universal_symbols.Usym.{Usym}
use universal_symbols.Serializers.{Disk, store, SerializeResult, Answer, serialize_to_file}
use universal_symbols.Serializers.Binary.{
  BinarySerializer, serializer, serialize_header, serialize_type_symbols,
  serialize_function_symbols, with_usym, write_to_file,
}
use universal_symbols.Serializers.Binary.Format.{
  usym_bytes, header_bytes, types_bytes, functions_bytes,
}
use universal_symbols.Serializers.Binary.Refines.{
  serialize_header-Writes, serialize_type_symbols-Writes, serialize_function_symbols-Writes,
}

-- The three steps from a writer with enough room: each leaves a larger writer.
record Steps (grow : ℕ → ℕ) (w : Buffer) (u : Usym) (before : List ℕ) : Type 0 where
  headed : Buffer
  typed : Buffer
  final : Buffer
  header : serialize_header grow u w ≡ some headed
  types : serialize_type_symbols grow u headed ≡ some typed
  functions : serialize_function_symbols grow u typed ≡ some final
  holds : Holds final (before ++ usym_bytes u)
  grown : w.size ≤ final.size
  limit : final.size ≤ w.size + 2 * final.position

module _ (grow : ℕ → ℕ) (bound : (n : ℕ) → grow n ≤ 2 * n) where
  run-Steps :
      (w : Buffer) (u : Usym) (before : List ℕ)
      → Holds w before
      → w.position + length (usym_bytes u) < w.size
      → 3 * w.size < size_mod
      → Steps grow w u before
  unfolding usym_bytes
  run-Steps w u before held fits small =
      let a = header_bytes u.header in
      let b = le_bytes 8 (length u.type_symbols) ++ types_bytes u.type_symbols in
      let c = le_bytes 8 (length u.function_symbols) ++ functions_bytes u.function_symbols in
      let long : length (a ++ (b ++ c)) ≡ length a + (length b + length c) =
        omega (arith, length-append a (b ++ c), length-append b c) in
      let (w1, e1, h1, small1, up1) =
        serialize_header-Writes grow bound u w.size w before held (omega arith) (omega arith) in
      let at1 : w1.position ≡ w.position + length a =
        omega (arith, h1.at, held.at, length-append before a) in
      let (w2, e2, h2, small2, up2) =
        serialize_type_symbols-Writes grow bound u w.size w1 (before ++ a) h1 small1
          (omega arith) in
      let at2 : w2.position ≡ w1.position + length b =
        omega (arith, h2.at, h1.at, length-append (before ++ a) b) in
      let (w3, e3, h3, small3, up3) =
        serialize_function_symbols-Writes grow bound u w.size w2 ((before ++ a) ++ b) h2 small2
          (omega arith) in
      record {
        headed = w1;
        typed = w2;
        final = w3;
        header = e1;
        types = e2;
        functions = e3;
        holds = rw (append_assoc (before ++ a) b c, append_assoc before a (b ++ c)) at h3;
        grown = omega arith;
        limit = small3;
      }

  -- Where the symbols fit the block with a byte to spare, the run succeeds, and the file holds what
  -- the writer held before, then the symbols, then one zero byte. The writer keeps what it holds,
  -- its block does not shrink, and grows to three times its size at most.
  pub serialize_to_file_stores :
      (s : BinarySerializer) (u : Usym) (before : List ℕ) (d : Disk)
      → s.usym ≡ some u
      → text_eq s.target_file_name [] ≡ false
      → d.opens s.target_file_name ≡ true
      → Holds s.writer before
      → s.writer.position + length (usym_bytes u) < s.writer.size
      → 3 * s.writer.size < size_mod
      → (w : Buffer) × (serialize_to_file (serializer grow) s d
          ≡ some (
            record s { writer = w },
            store s.target_file_name ((before ++ usym_bytes u) ++ (0 ∷ [])) d,
            Answer.returned SerializeResult.ok,
          ))
        × Holds w (before ++ usym_bytes u)
        × (s.writer.size ≤ w.size)
        × (w.size ≤ 3 * s.writer.size)
  unfolding serialize_to_file serializer with_usym write_to_file
  serialize_to_file_stores s u before d aimed named opens held fits small =
      let run = run-Steps s.writer u before held fits small in
      let at : run.final.position ≡ s.writer.position + length (usym_bytes u) =
        omega (arith, run.holds.at, held.at, length-append before (usym_bytes u)) in
      let spare : (run.holds.slack == 0) ≡ false =
        ground (arith, run.holds.room, run.holds.at, run.grown) in
      let wrote = write_to_file-Holds true run.final _ run.holds (omega (arith, held.room)) in
      (
        run.final,
        ground (arith, run.header, run.types, run.functions, wrote, spare),
        run.holds,
        run.grown,
        omega (arith, run.limit),
      )
