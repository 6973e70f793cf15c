-- ===== src/Transport.antt =====
-- src/transport/mod.rs: what a transport answers to a read and to a write, and the write loop of
-- src/connection/driver.rs. The transport itself is an operating system's stream: its answers are
-- lists, and a list that has run out is an answer that has not come yet.
pub mod Write
mod Tests
use rp1_rust.Base.{
  ℕ, zero, suc, ◌+◌, Bool, true, false, Option, some, none, List, [], ◌∷◌, ◌++◌, ltb, ◌==◌,
  if◌then◌else◌, length, drop, take,
}
use rp1_rust.Base.Bytes.{Bytes, checked_add}

-- The kinds of `std::io::Error` that the crate itself makes, and those that the stream answers.
pub data IoError : Type 0 where
  write_zero invalid_data connection_aborted broken_pipe : IoError
  stream : ℕ → IoError

-- What `write` answers: how many bytes it took.
pub data WriteAnswer : Type 0 where
  wrote : ℕ → WriteAnswer
  write_failed : IoError → WriteAnswer

-- What `read` answers: the bytes that it put into the buffer, none at the end of the stream.
pub data ReadAnswer : Type 0 where
  read : Bytes → ReadAnswer
  read_failed : IoError → ReadAnswer

-- How `write_all` ends. `pending` is no end: the next answer has not come.
pub data WriteEnd : Type 0 where
  done pending : WriteEnd
  broken : IoError → WriteEnd

-- An end, and what the stream has taken up to it.
pub record Written : Type 0 where
  pub end : WriteEnd
  pub wire : Bytes

-- What follows an answer, by the offset that it leads to.
unfoldable pub write_from : Option ℕ → Bytes → (ℕ → Written) → Written
write_from none wire go = record { end = WriteEnd.broken IoError.invalid_data; wire = wire }
write_from (some offset) wire go = go offset

-- One answer to a write of `remaining`; of a count past it the stream has taken all of it.
unfoldable pub after_write : WriteAnswer → ℕ → Bytes → Bytes → (ℕ → Bytes → Written) → Written
unfolding write_from checked_add
after_write (WriteAnswer.write_failed error) offset remaining wire go = record {
  end = WriteEnd.broken error;
  wire = wire;
}
after_write (WriteAnswer.wrote written) offset remaining wire go =
    let taken = wire ++ take written remaining in
    if written == 0
    then record { end = WriteEnd.broken IoError.write_zero; wire = wire }
    else write_from (checked_add offset written) taken (λ next. go next taken)

-- The loop, from an offset: `bytes.get(offset..).unwrap_or(&[])` is `drop offset bytes`.
unfoldable pub write_loop : Bytes → List WriteAnswer → ℕ → Bytes → Written
unfolding after_write
write_loop bytes [] offset wire = record {
  end = if ltb offset (length bytes) then WriteEnd.pending else WriteEnd.done;
  wire = wire;
}
write_loop bytes (answer ∷ answers) offset wire =
    if ltb offset (length bytes)
    then after_write answer offset (drop offset bytes) wire (write_loop bytes answers)
    else record { end = WriteEnd.done; wire = wire }

unfoldable pub write_all : Bytes → List WriteAnswer → Written
unfolding write_loop
write_all bytes answers = write_loop bytes answers 0 []
