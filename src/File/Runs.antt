-- ===== src/File/Runs.antt =====
-- The buffered file over a disk in memory.
use yubindb.Prelude.{ℕ, ◌≡◌, refl, some, List, [], ◌∷◌, ◌++◌, replicate, length-replicate, arith}
use yubindb.State.{State}
use yubindb.File.{WritableFile, append, flush, flush_loop, append_rest, write_at, buffer_size}
use yubindb.File.Buffer.{IsValid, written, appended, append_stores}
use yubindb.Sample.{memory_disk, memory_disk-IsReliable}

abbrev three : WritableFile (List ℕ)
three = record { buf = 7 ∷ 8 ∷ 9 ∷ []; offset = 3; device = 1 ∷ [] }

three-IsValid : IsValid three
three-IsValid = record { backed = omega arith; bounded = omega arith }

-- A buffer that was not full before the flush is flushed by one write.
flush-three :
    flush memory_disk three
    ≡ some (State.ok, record { buf = 7 ∷ 8 ∷ 9 ∷ []; offset = 0; device = 1 ∷ 7 ∷ 8 ∷ 9 ∷ [] })
unfolding flush flush_loop
flush-three = refl

append_two :
    append memory_disk (5 ∷ 6 ∷ []) three
    ≡ some (State.ok, record { buf = 7 ∷ 8 ∷ 9 ∷ 5 ∷ 6 ∷ []; offset = 5; device = 1 ∷ [] })
unfolding append append_rest write_at
append_two = refl

-- As many bytes as the buffer holds, behind three that are there.
append_stores_example :
    (g : WritableFile (List ℕ)) × (append memory_disk (replicate buffer_size 5) three
      ≡ some (State.ok, g))
    × (written memory_disk g ≡ written memory_disk three ++ appended 3 (replicate buffer_size 5))
    × IsValid g
append_stores_example =
    append_stores memory_disk memory_disk-IsReliable (replicate buffer_size 5) three three-IsValid
      (omega (arith, length-replicate {A = ℕ} buffer_size 5))
