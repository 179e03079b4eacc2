-- ===== src/Serialize/Files.antt =====
-- The files that `USYM::Serialize` leaves.
use universal_symbols.Prelude.{
  ℕ, ◌+◌, ◌*◌, ◌≤◌, ◌<◌, ◌≡◌, refl, true, false, not, List, [], ◌∷◌, ◌++◌, some, arith, length,
  Text, codes, text_eq, text_eq_refl,
}
use universal_symbols.Prelude.Map.{Distinct}
use universal_symbols.ReCore.Memory.{size_mod}
use universal_symbols.ReCore.Buffer.{Buffer}
use universal_symbols.ReCore.Writer.{sized}
use universal_symbols.ReCore.Writer.Contents.{Holds, sized-Holds}
use universal_symbols.Usym.{TypeSymbol, Usym}
use universal_symbols.Usym.Purge.{purge_duplicate_types}
use universal_symbols.Usym.Verify.{verify_type_ids}
use universal_symbols.Serializers.{SerializeResult, Answer, Disk, store}
use universal_symbols.Serializers.Binary
use universal_symbols.Serializers.Binary.{BinarySerializer}
use universal_symbols.Serializers.Binary.Format.{usym_bytes}
use universal_symbols.Serializers.Binary.Decode.{read_usym}
use universal_symbols.Serializers.Binary.RoundTrip.{by_own_ids, IsStorable, read_usym-usym_bytes}
use universal_symbols.Serialize.Storable.{purge_duplicate_types-IsStorable}
use universal_symbols.Serializers.Binary.Run.{serialize_to_file_stores}
use universal_symbols.Serializers.Library.{JsonLibrary}
use universal_symbols.Serialize.{binary, Program, Outcome, serialize}

module _ (l : JsonLibrary) (hash : TypeSymbol → ℕ) (grow : ℕ → ℕ)
    (bound : (n : ℕ) → grow n ≤ 2 * n) where
  -- The name of a file with this extension is never empty.
  named : (output : Text) → text_eq (output ++ codes ".usym") [] ≡ false
  named [] = refl
  named (c ∷ s) = refl

  -- The program after a call that went well, with this writer in its serializer.
  abbrev pub after : Usym → Text → Buffer → Program l hash grow
  after u output w = record {
    usym = u;
    serializer =
        some (
          binary
            (record { target_file_name = output ++ codes ".usym"; usym = some u; writer = w }));
  }

  -- `Serialize` with the binary serializer purges the symbols, and appends them to what its writer
  -- holds; the file holds all of that and one zero byte. The writer's block does not shrink.
  pub serialize_appends :
      (output : Text) (p : Program l hash grow) (s : BinarySerializer) (before : List ℕ) (d : Disk)
      → p.serializer ≡ some (binary s)
      → d.opens (output ++ codes ".usym") ≡ true
      → Holds s.writer before
      → s.writer.position + length (usym_bytes (purge_duplicate_types hash p.usym)) < s.writer.size
      → 3 * s.writer.size < size_mod
      → (w : Buffer) × (serialize l hash grow output p d
          ≡ some (record {
            program = after (purge_duplicate_types hash p.usym) output w;
            disk =
                store
                  (output ++ codes ".usym")
                  ((before ++ usym_bytes (purge_duplicate_types hash p.usym)) ++ (0 ∷ []))
                  d;
            result = Answer.returned SerializeResult.ok;
            critical = not (verify_type_ids (purge_duplicate_types hash p.usym));
          }))
        × Holds w (before ++ usym_bytes (purge_duplicate_types hash p.usym))
        × (s.writer.size ≤ w.size)
        × (w.size ≤ 3 * s.writer.size)
  unfolding serialize Binary.setup
  serialize_appends output p s before d owns opens held fits small =
      let u = purge_duplicate_types hash p.usym in
      let aimed : BinarySerializer = record {
        target_file_name = output ++ codes ".usym";
        usym = some u;
        writer = s.writer;
      } in
      let (w, stored, holds, up, limit) =
        serialize_to_file_stores grow bound aimed u before d refl (named output) opens held fits
          small in
      (w, ground (arith, stored), holds, up, limit)

  -- With a new binary serializer, a file that opens, one entry for every identity, names without a zero byte, numbers within the widths of their C++ types
  -- and less than the writer's first block to write, `Serialize` answers ok, and the file reads back as
  -- the purged symbols in their order, each under its own id, which takes the place of its key, with one
  -- byte left over.
  pub serialize_reads_back :
      (output : Text) (p : Program l hash grow) (d : Disk)
      → p.serializer ≡ some (binary Binary.new)
      → d.opens (output ++ codes ".usym") ≡ true
      → Distinct p.usym.type_symbols
      → IsStorable p.usym
      → length (usym_bytes (purge_duplicate_types hash p.usym)) < 1_000_000_000
      → (o : Outcome l hash grow) × (bytes : List ℕ) × (serialize l hash grow output p d ≡ some o)
        × (o.result ≡ Answer.returned SerializeResult.ok)
        × (o.disk.files (output ++ codes ".usym") ≡ some bytes)
        × (read_usym bytes ≡ some (by_own_ids (purge_duplicate_types hash p.usym), 0 ∷ []))
  unfolding Binary.new sized
  serialize_reads_back output p d owns opens distinct storable small =
      let u = purge_duplicate_types hash p.usym in
      let (w, ran, holds, up, limit) =
        serialize_appends output p Binary.new [] d owns opens
          (sized-Holds 1_000_000_000 (omega arith)) (omega arith) (omega arith) in
      (
        _,
        usym_bytes u ++ (0 ∷ []),
        ran,
        refl,
        rw (text_eq_refl (output ++ codes ".usym")),
        read_usym-usym_bytes u (purge_duplicate_types-IsStorable hash p.usym distinct storable)
            (0 ∷ []),
      )

  -- `Setup` does not reset the writer: with a new binary serializer, a file that opens and room
  -- for both runs in the writer's first block, the file holds both runs after a second call.
  pub serialize_twice :
      (output : Text) (p : Program l hash grow) (d : Disk)
      → p.serializer ≡ some (binary Binary.new)
      → d.opens (output ++ codes ".usym") ≡ true
      → length (usym_bytes (purge_duplicate_types hash p.usym))
          + length (usym_bytes (purge_duplicate_types hash (purge_duplicate_types hash p.usym)))
        < 1_000_000_000
      → (first : Outcome l hash grow) × (second : Outcome l hash grow) × (serialize l hash grow
            output p d
          ≡ some first)
        × (serialize l hash grow output first.program first.disk ≡ some second)
        × (second.disk.files (output ++ codes ".usym")
            ≡ some (
                (usym_bytes (purge_duplicate_types hash p.usym)
                  ++ usym_bytes (purge_duplicate_types hash (purge_duplicate_types hash p.usym)))
                ++ (0 ∷ [])))
  unfolding Binary.new sized
  serialize_twice output p d owns opens small =
      let u = purge_duplicate_types hash p.usym in
      let (w, ran, holds, up, limit) =
        serialize_appends output p Binary.new [] d owns opens
          (sized-Holds 1_000_000_000 (omega arith)) (omega arith) (omega arith) in
      let (w', ran', holds', up', limit') =
        serialize_appends output (after u output w) _ (usym_bytes u) _ refl opens holds
          (omega (arith, holds.at)) (omega arith) in
      (_, _, ran, ran', rw (text_eq_refl (output ++ codes ".usym")))
