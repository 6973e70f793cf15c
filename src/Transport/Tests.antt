-- ===== src/Transport/Tests.antt =====
-- src/connection/driver.rs: runs of the write loop.
use rp1_rust.Base.{◌≡◌, refl, List, [], ◌∷◌, length}
use rp1_rust.Base.Bytes.{Bytes}
use rp1_rust.Transport.{IoError, WriteAnswer, WriteEnd, write_all}
use rp1_rust.Transport.Write.{IsWritten, write_all-IsWritten}

abbrev five : Bytes
five = 5 ∷ 4 ∷ 3 ∷ 2 ∷ 1 ∷ []

abbrev two_parts : List WriteAnswer
two_parts = WriteAnswer.wrote 2 ∷ WriteAnswer.wrote 3 ∷ []

write_all-IsWritten_example :
    IsWritten five (length two_parts) (write_all five two_parts).end (write_all five two_parts).wire
write_all-IsWritten_example = write_all-IsWritten five two_parts

write_all-parts : write_all five two_parts ≡ record { end = WriteEnd.done; wire = five }
unfolding write_all
write_all-parts = refl

write_all-nothing :
    write_all five (WriteAnswer.wrote 2 ∷ WriteAnswer.wrote 0 ∷ [])
    ≡ record { end = WriteEnd.broken IoError.write_zero; wire = 5 ∷ 4 ∷ [] }
unfolding write_all
write_all-nothing = refl
