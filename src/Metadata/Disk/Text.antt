-- ===== src/Metadata/Disk/Text.antt =====
-- No line of the store holds a line end, so the text splits into the lines again.
use distributed_file_grid.Prelude.{
  ℕ, ◌≡◌, refl, Bool, true, false, List, [], ◌∷◌, ◌++◌, map, arith, ◌==◌, if◌then◌else◌, All,
  All-append, All-mono,
}
use distributed_file_grid.Prelude.Int.{ℤ, pos, negsuc}
use distributed_file_grid.Prelude.Key.{Bytes, bytes_key, ℤ_key}
use distributed_file_grid.Prelude.Text.{is_space, int_to_string, int_limit, long_limit}
use distributed_file_grid.Prelude.Text.Words.{IsWord}
use distributed_file_grid.Prelude.Text.Decimal.{to_string-not-space}
use distributed_file_grid.Metadata.{ChunkRecord, FileRecord, is_empty, is_positive}
use distributed_file_grid.Metadata.Disk.{
  hash_line, hash_mark, replicas_line, replicas_mark, chunk_line, chunk_fields, file_lines, newline,
  blank,
}
use distributed_file_grid.Metadata.Disk.Lines.{
  IsLine, IsNatural, NoSpace, IsStorable, IsWord-NoSpace,
}

pub IsLine-append : (xs ys : Bytes) → IsLine xs → IsLine ys → IsLine (xs ++ ys)
IsLine-append xs ys = All-append (λ c. (c == newline) ≡ false) xs ys

not_newline : (c : ℕ) → is_space c ≡ false → (c == newline) ≡ false
not_newline c h = ground arith

pub NoSpace-IsLine : (s : Bytes) → NoSpace s → IsLine s
NoSpace-IsLine s h =
    All-mono (λ c. is_space c ≡ false) (λ c. (c == newline) ≡ false) s not_newline h

pub word-IsLine : (w : Bytes) → IsWord w → IsLine w
word-IsLine w h = NoSpace-IsLine w (IsWord-NoSpace w h)

pub spaced-IsLine : (w rest : Bytes) → NoSpace w → IsLine rest → IsLine (w ++ (blank ∷ rest))
spaced-IsLine w rest h r = IsLine-append w (blank ∷ rest) (NoSpace-IsLine w h) (refl, r)

pub natural-IsLine : (limit : ℕ) (n : ℤ) → IsNatural limit n → NoSpace (int_to_string n)
unfolding int_to_string
natural-IsLine limit (pos n) h = to_string-not-space n
natural-IsLine limit (negsuc n) h = absurd h

chunk_line-IsLine :
    (name : Bytes) (cr : ChunkRecord) → IsWord name → IsStorable cr → IsLine (chunk_line name cr)
unfolding chunk_line chunk_fields
chunk_line-IsLine name cr named s =
    let counted = int_to_string cr.replica_count in
    let summed = cr.checksum ++ (blank ∷ counted) in
    let placed = cr.path ++ (blank ∷ summed) in
    let served = cr.server ++ (blank ∷ placed) in
    spaced-IsLine name (int_to_string cr.chunk_id ++ (blank ∷ served)) (IsWord-NoSpace name named) (
      spaced-IsLine (int_to_string cr.chunk_id) served (natural-IsLine long_limit cr.chunk_id s.0) (
        spaced-IsLine cr.server placed (IsWord-NoSpace cr.server s.1) (
          spaced-IsLine cr.path summed (IsWord-NoSpace cr.path s.2) (
            spaced-IsLine cr.checksum counted (IsWord-NoSpace cr.checksum s.3)
              (NoSpace-IsLine counted (natural-IsLine int_limit cr.replica_count s.4))))))

chunk_lines-IsLine :
    (name : Bytes) (chunks : List ChunkRecord)
    → IsWord name
    → All IsStorable chunks
    → All IsLine (map (chunk_line name) chunks)
chunk_lines-IsLine name [] named s = tt
chunk_lines-IsLine name (cr ∷ rest) named s =
    (chunk_line-IsLine name cr named s.0, chunk_lines-IsLine name rest named s.1)

All-if_cons : (b : Bool) (line : Bytes) → IsLine line → All IsLine (if b then line ∷ [] else [])
All-if_cons true line h = (h, tt)
All-if_cons false line h = tt

All-if_nil : (b : Bool) (line : Bytes) → IsLine line → All IsLine (if b then [] else line ∷ [])
All-if_nil true line h = tt
All-if_nil false line h = (h, tt)

pub file_lines-IsLine :
    (name : Bytes) (rec : FileRecord)
    → IsWord name
    → NoSpace rec.file_hash
    → IsNatural int_limit rec.replica_count
    → All IsStorable rec.chunks
    → All IsLine (file_lines name rec)
unfolding file_lines hash_line replicas_line
file_lines-IsLine name rec named h fits s =
    let counted = int_to_string rec.replica_count in
    let spaced = IsWord-NoSpace name named in
    All-append IsLine (if is_empty rec.file_hash then [] else hash_line name rec.file_hash ∷ []) _
      (All-if_nil (is_empty rec.file_hash) _ (
        spaced-IsLine name (hash_mark ++ rec.file_hash) spaced (
          IsLine-append hash_mark rec.file_hash (refl, (refl, (refl, (refl, (refl, tt)))))
            (NoSpace-IsLine rec.file_hash h))))
      (All-append IsLine
        (if is_positive rec.replica_count then replicas_line name rec.replica_count ∷ [] else []) _
        (All-if_cons (is_positive rec.replica_count) _ (
          spaced-IsLine name (replicas_mark ++ counted) spaced (
            IsLine-append replicas_mark counted
              (refl, (refl, (refl, (refl, (refl, (refl, (refl, (refl, (refl, tt)))))))))
              (NoSpace-IsLine counted (natural-IsLine int_limit rec.replica_count fits)))))
        (chunk_lines-IsLine name rec.chunks named s))
