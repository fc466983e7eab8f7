-- ===== src/ChunkStorage/Files.antt =====
-- The reading and writing loops of `ChunkStorage` in src/cluster_server/chunk_service.cpp. The answers
-- of the system calls are an argument: each loop takes them in order, one for each call, and is `none`
-- where it would make a call for which there is no answer.
use distributed_file_grid.Prelude.{
  ℕ, zero, suc, ◌+◌, ◌≤◌, ◌≡◌, sym, ◌∙◌, ap, Bool, true, false, List, [], ◌∷◌, ◌++◌, Option, none,
  some, arith, length, take, drop, replicate, All, length-drop, take-append-drop,
}
use distributed_file_grid.Prelude.Key.{Bytes, bytes_key, ℤ_key}
use mathlib.Core.List.{append_assoc, append-nil}

-- One ::read or ::write: the number of bytes it moved, EINTR, or another error.
pub data CallAnswer : Type 0 where
  moved : ℕ → CallAnswer
  interrupted : CallAnswer
  failed : CallAnswer

-- The bytes of the file at the end, and whether all were written.
pub record WriteResult : Type 0 where
  pub success : Bool
  pub content : Bytes

-- The loop over ::write. A call writes at most what it is asked to.
unfoldable pub write_all : List CallAnswer → Bytes → Bytes → Option WriteResult
write_all calls written [] = some (record { success = true; content = written })
write_all [] written (b ∷ left) = none
write_all (interrupted ∷ calls) written (b ∷ left) = write_all calls written (b ∷ left)
write_all (failed ∷ calls) written (b ∷ left) = some (record { success = false; content = written })
write_all (moved n ∷ calls) written (b ∷ left) =
    write_all calls (written ++ take n (b ∷ left)) (drop n (b ∷ left))

-- The loop over ::read, with the bytes that are still to come. The buffer has the size of the file and
-- starts with zeros, which stay where a read ends early.
unfoldable pub read_all : List CallAnswer → Bytes → Bytes → Option Bytes
read_all calls read [] = some read
read_all [] read (b ∷ left) = none
read_all (interrupted ∷ calls) read (b ∷ left) = read_all calls read (b ∷ left)
read_all (failed ∷ calls) read (b ∷ left) = some []
read_all (moved zero ∷ calls) read (b ∷ left) = some (read ++ replicate (length (b ∷ left)) 0)
read_all (moved (suc n) ∷ calls) read (b ∷ left) =
    read_all calls (read ++ take (suc n) (b ∷ left)) (drop (suc n) (b ∷ left))

-- A loop that reports success has written all bytes, however the calls cut them.
pub write_all_complete :
    (calls : List CallAnswer) (written left : Bytes) (r : WriteResult)
    → write_all calls written left ≡ some r
    → r.success ≡ true
    → r.content ≡ written ++ left
unfolding write_all
write_all_complete calls written [] r h ok = cc (append-nil written)
write_all_complete [] written (b ∷ left) r h ok = ground arith
write_all_complete (interrupted ∷ calls) written (b ∷ left) r h ok =
    write_all_complete calls written (b ∷ left) r h ok
write_all_complete (failed ∷ calls) written (b ∷ left) r h ok =
    let same : record { success = false; content = written } ≡ r = cc in
    absurd (cc (ap (λ t. t.success) same))
write_all_complete (moved n ∷ calls) written (b ∷ left) r h ok =
    write_all_complete calls (written ++ take n (b ∷ left)) (drop n (b ∷ left)) r h ok
    ∙ append_assoc written (take n (b ∷ left)) (drop n (b ∷ left))
    ∙ ap (◌++◌ written) (take-append-drop n (b ∷ left))

-- The bytes that the calls move.
unfoldable pub total : List CallAnswer → ℕ
total [] = 0
total (moved n ∷ calls) = n + total calls
total (interrupted ∷ calls) = total calls
total (failed ∷ calls) = total calls

abbrev advances : CallAnswer → Bool
advances failed = false
advances (moved zero) = false
advances (moved (suc n)) = true
advances interrupted = true

-- No call fails or moves nothing, and together they can move n bytes.
abbrev pub IsEnough : List CallAnswer → ℕ → Type 0
IsEnough calls n = All (λ c. advances c ≡ true) calls × (n ≤ total calls)

-- Calls that can move all the bytes bring both loops to their end.
pub write_all_enough :
    (calls : List CallAnswer) (written left : Bytes)
    → IsEnough calls (length left)
    → write_all calls written left ≡ some (record { success = true; content = written ++ left })
unfolding write_all total
write_all_enough calls written [] h =
    ap (λ c. some (record { success = true; content = c })) (sym (append-nil written))
write_all_enough [] written (b ∷ left) h = absurd (omega (arith, h.1))
write_all_enough (interrupted ∷ calls) written (b ∷ left) h =
    write_all_enough calls written (b ∷ left) (h.0.1, h.1)
write_all_enough (failed ∷ calls) written (b ∷ left) h = absurd (cc (h.0.0))
write_all_enough (moved n ∷ calls) written (b ∷ left) h =
    write_all_enough calls (written ++ take n (b ∷ left)) (drop n (b ∷ left))
      (h.0.1, omega (arith, h.1, length-drop n (b ∷ left)))
    ∙ ap (λ c. some (record { success = true; content = c }))
        (append_assoc written (take n (b ∷ left)) (drop n (b ∷ left))
          ∙ ap (◌++◌ written) (take-append-drop n (b ∷ left)))

pub read_all_enough :
    (calls : List CallAnswer) (read left : Bytes)
    → IsEnough calls (length left)
    → read_all calls read left ≡ some (read ++ left)
unfolding read_all total
read_all_enough calls read [] h = ap some (sym (append-nil read))
read_all_enough [] read (b ∷ left) h = absurd (omega (arith, h.1))
read_all_enough (interrupted ∷ calls) read (b ∷ left) h =
    read_all_enough calls read (b ∷ left) (h.0.1, h.1)
read_all_enough (failed ∷ calls) read (b ∷ left) h = absurd (cc (h.0.0))
read_all_enough (moved zero ∷ calls) read (b ∷ left) h = absurd (cc (h.0.0))
read_all_enough (moved (suc n) ∷ calls) read (b ∷ left) h =
    read_all_enough calls (read ++ take (suc n) (b ∷ left)) (drop (suc n) (b ∷ left))
      (h.0.1, omega (arith, h.1, length-drop (suc n) (b ∷ left)))
    ∙ ap some (
        append_assoc read (take (suc n) (b ∷ left)) (drop (suc n) (b ∷ left))
        ∙ ap (◌++◌ read) (take-append-drop (suc n) (b ∷ left)))
