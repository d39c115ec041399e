-- ===== src/Tests/Blobs.antt =====
-- Blobs.
use sqnim.Blob.Grow.{IsValid}
use sqnim.Blob.Seek.{read-write}
use sqnim.Blob.Write.{Written, write-Written}
use sqnim.Blob.{Blob, read, write}
use sqnim.Prelude.{ℕ, ◌≡◌, refl, List, [], ◌∷◌, true, arith}

abbrev sample : Blob
sample = record { size = 2; allocated = 3; ptr = 1; buffer = 7 ∷ 8 ∷ 0 ∷ []; owns = true }

sample-IsValid : IsValid sample
sample-IsValid = record { position = omega arith; room = omega arith; memory = refl; owned = refl }

abbrev bytes : List ℕ
bytes = 1 ∷ 2 ∷ 3 ∷ []

write-Written_example : Written bytes sample (write bytes sample).0 × ((write bytes sample).1 ≡ 3)
write-Written_example = write-Written bytes sample sample-IsValid

read-write_example : (read 3 (record (write bytes sample).0 { ptr = 1 })).1 ≡ bytes
read-write_example = read-write bytes sample sample-IsValid
