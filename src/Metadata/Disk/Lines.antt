-- ===== src/Metadata/Disk/Lines.antt =====
-- Each kind of line, written and read back.
use distributed_file_grid.Prelude.{
  ℕ, ◌<◌, ◌≡◌, refl, sym, ◌∙◌, ap, subst, true, false, List, [], ◌∷◌, ◌++◌, some, arith, ◌==◌, All,
}
use distributed_file_grid.Prelude.Int.{ℤ, pos, negsuc}
use distributed_file_grid.Prelude.Key.{Bytes, bytes_key, ℤ_key}
use distributed_file_grid.Prelude.Text.{
  is_space, is_digit, to_string, int_to_string, read_int, int_limit, long_limit,
}
use distributed_file_grid.Prelude.Text.Words.{
  read_int-blank, IsWord, starts_blank, read_word-append, read_word-blank,
}
use distributed_file_grid.Prelude.Text.Decimal.{
  to_string-head, stoll-to_string, read_int-to_string, to_string-not-space, stoi-to_string,
}
use distributed_file_grid.Metadata.{ChunkRecord, MetadataMap}
use distributed_file_grid.Metadata.Disk.{
  chunk_line, add_chunk, chunk_fields, read_chunk, read_count, hash_line, hash_mark, replicas_line,
  replicas_mark, unlines, getlines, load_line, load_entry, newline, blank, update,
}
use mathlib.Core.List.{append_assoc, append-nil}

abbrev pub IsLine : Bytes → Type 0
IsLine line = All (λ c. (c == newline) ≡ false) line

getlines-line :
    (cur line rest : Bytes)
    → IsLine line
    → getlines cur (line ++ (newline ∷ rest)) ≡ (cur ++ line) ∷ getlines [] rest
unfolding getlines
getlines-line cur [] rest h = rw append-nil
getlines-line cur (c ∷ line) rest h = rw h.0 (
    getlines-line (cur ++ (c ∷ [])) line rest h.1
    ∙ ap (λ l. l ∷ getlines [] rest) (append_assoc cur (c ∷ []) line))

-- Lines that hold no line end are read back one by one.
pub getlines-unlines : (lines : List Bytes) → All IsLine lines → getlines [] (unlines lines) ≡ lines
unfolding unlines
getlines-unlines [] h = unfold getlines in refl
getlines-unlines (line ∷ rest) h =
    getlines-line [] line (unlines rest) h.0 ∙ ap (◌∷◌ line) (getlines-unlines rest h.1)

-- A non-negative value of a type with the given limit.
abbrev pub IsNatural : ℕ → ℤ → Type 0
IsNatural limit (pos n) = n < limit
IsNatural limit (negsuc n) = ⊥

abbrev pub NoSpace : Bytes → Type 0
NoSpace = All (λ c. is_space c ≡ false)

pub IsWord-NoSpace : (w : Bytes) → IsWord w → NoSpace w
IsWord-NoSpace [] h = tt
IsWord-NoSpace (c ∷ s) h = h

-- The two words at the start of a line.
load_line-words :
    (store : MetadataMap) (name token rest : Bytes)
    → IsWord name
    → IsWord token
    → starts_blank rest ≡ true
    → load_line store (name ++ (blank ∷ (token ++ rest))) ≡ load_entry store name token rest
unfolding load_line
load_line-words store name token rest hn ht hb =
    rw (read_word-append name (blank ∷ (token ++ rest)) hn refl)
      (rw (read_word-blank (token ++ rest), read_word-append token rest ht hb))

module _ (store : MetadataMap) (name : Bytes) (named : IsWord name) where
  pub load_line-hash_line :
      (h : Bytes)
      → NoSpace h
      → load_line store (hash_line name h) ≡ update store name (λ rec. record rec { file_hash = h })
  unfolding hash_line
  load_line-hash_line h w = rw (← append-nil (hash_mark ++ h)) (
      load_line-words store name (hash_mark ++ h) [] named (refl, (refl, (refl, (refl, (refl, w)))))
        refl
      ∙ (unfold load_entry in refl))

  pub load_line-replicas_line :
      (n : ℤ)
      → IsNatural int_limit n
      → load_line store (replicas_line name n)
        ≡ update store name (λ rec. record rec { replica_count = n })
  unfolding replicas_line int_to_string
  load_line-replicas_line (negsuc n) fits = absurd fits
  load_line-replicas_line (pos n) fits = rw (← append-nil (replicas_mark ++ to_string n)) (
      load_line-words store name (replicas_mark ++ to_string n) [] named
        (
          refl,
          (refl, (refl, (refl, (refl, (refl, (refl, (refl, (refl, to_string-not-space n)))))))),
        )
        refl
      ∙ (unfold load_entry in rw (stoi-to_string n fits)))

-- A chunk record that a line can hold.
abbrev pub IsStorable : ChunkRecord → Type 0
IsStorable cr =
    IsNatural long_limit cr.chunk_id
    × IsWord cr.server
    × IsWord cr.path
    × IsWord cr.checksum
    × IsNatural int_limit cr.replica_count

read_int-natural :
    (n : ℤ) → IsNatural int_limit n → read_count (read_int int_limit (blank ∷ int_to_string n)) ≡ n
unfolding int_to_string
read_int-natural (negsuc n) h = absurd h
read_int-natural (pos n) h =
    rw read_int-blank
      (rw (← append-nil (to_string n)) (rw (read_int-to_string int_limit n [] h refl)))

read_chunk-fields :
    (cr : ChunkRecord) (n : ℕ)
    → cr.chunk_id ≡ pos n
    → n < long_limit
    → IsStorable cr
    → read_chunk (to_string n) (blank ∷ chunk_fields cr) ≡ some cr
unfolding read_chunk chunk_fields
read_chunk-fields cr n e fits s =
    let counted = blank ∷ int_to_string cr.replica_count in
    let summed = blank ∷ (cr.checksum ++ counted) in
    let placed = blank ∷ (cr.path ++ summed) in
    rw (stoll-to_string n fits) (
      rw (read_word-blank (cr.server ++ placed), read_word-append cr.server placed s.1 refl)
        (rw (read_word-blank (cr.path ++ summed), read_word-append cr.path summed s.2 refl)
          (rw
            (
              read_word-blank (cr.checksum ++ counted),
              read_word-append cr.checksum counted s.3 refl,
            )
            (rw (read_int-natural cr.replica_count s.4) (ground (arith, e))))))

load_entry-digit :
    (store : MetadataMap) (name rest : Bytes) (c : ℕ) (s : Bytes)
    → is_digit c ≡ true
    → load_entry store name (c ∷ s) rest ≡ add_chunk store name (read_chunk (c ∷ s) rest)
unfolding load_entry
load_entry-digit store name rest c s d =
    let not_hash : (72 == c) ≡ false = ground arith in
    let not_replicas : (82 == c) ≡ false = ground arith in rw not_hash (rw not_replicas)

load_entry-number :
    (store : MetadataMap) (name rest : Bytes) (n : ℕ)
    → load_entry store name (to_string n) rest
      ≡ add_chunk store name (read_chunk (to_string n) rest)
load_entry-number store name rest n =
    let (c, s, e, d) = to_string-head n in rw e (load_entry-digit store name rest c s d)

to_string-IsWord : (n : ℕ) → IsWord (to_string n)
to_string-IsWord n =
    let (c, s, e, d) = to_string-head n in
    subst IsWord (sym e) (subst NoSpace e (to_string-not-space n))

pub load_line-chunk_line :
    (store : MetadataMap) (name : Bytes) (cr : ChunkRecord)
    → IsWord name
    → IsStorable cr
    → load_line store (chunk_line name cr)
      ≡ update store name (λ rec. record rec { chunks = rec.chunks ++ (cr ∷ []) })
unfolding chunk_line int_to_string
load_line-chunk_line store name cr named s = by_id cr.chunk_id refl s.0
  where
    by_id :
        (cid : ℤ)
        → cr.chunk_id ≡ cid
        → IsNatural long_limit cid
        → load_line store (chunk_line name cr)
          ≡ update store name (λ rec. record rec { chunks = rec.chunks ++ (cr ∷ []) })
    by_id (negsuc n) e fits = absurd fits
    by_id (pos n) e fits =
        ap
          (λ cid.
            load_line store (name ++ (blank ∷ (int_to_string cid ++ (blank ∷ chunk_fields cr)))))
          e
        ∙ load_line-words store name (to_string n) (blank ∷ chunk_fields cr) named
            (to_string-IsWord n) refl
        ∙ load_entry-number store name (blank ∷ chunk_fields cr) n
        ∙ ap (add_chunk store name) (read_chunk-fields cr n e fits s)
