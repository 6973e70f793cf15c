-- ===== src/Transport/Write.antt =====
-- src/connection/driver.rs: the write loop puts the whole of its input on the stream, in order.
use rp1_rust.Base.{
  ℕ, zero, suc, ◌+◌, ◌≤◌, ◌<◌, ◌≡◌, ◌≢◌, ◌⊎◌, inl, inr, refl, sym, ap, ◌∙◌, List, [], ◌∷◌, ◌++◌,
  append-nil, append_assoc, ltb, ◌==◌, arith, length, drop, take, take-drop, drop_add, length-drop,
  Bool-cases, tests,
}
use rp1_rust.Base.Bytes.{Bytes, checked_add, u64_end}
use rp1_rust.Transport.{
  IoError, WriteAnswer, WriteEnd, Written, write_from, after_write, write_loop, write_all,
}

-- What an end promises of what the stream has taken, after `answers` answers.
abbrev pub IsWritten : Bytes → ℕ → WriteEnd → Bytes → Type 0
IsWritten bytes answers WriteEnd.done wire = wire ≡ bytes
IsWritten bytes answers WriteEnd.pending wire =
    (rest : Bytes) × (wire ++ rest ≡ bytes) × (rest ≢ []) × (answers < length bytes)
IsWritten bytes answers (WriteEnd.broken error) wire =
    (rest : Bytes) × (wire ++ rest ≡ bytes) × ((rest ≢ []) ⊎ (error ≡ IoError.invalid_data))

-- The stream has taken what is in front of the offset.
abbrev IsAt : Bytes → ℕ → Bytes → Type 0
IsAt bytes offset wire = wire ++ drop offset bytes ≡ bytes

drop-nonempty : (offset : ℕ) (bytes : Bytes) → offset < length bytes → drop offset bytes ≢ []
drop-nonempty offset bytes less e = omega (arith, length-drop offset bytes, ap length e)

drop-all : (offset : ℕ) (bytes : Bytes) → length bytes ≤ offset → drop offset bytes ≡ []
drop-all zero [] h = refl
drop-all zero (x ∷ xs) h = absurd (omega arith)
drop-all (suc n) [] h = refl
drop-all (suc n) (x ∷ xs) h = drop-all n xs (omega arith)

at-end :
    (bytes : Bytes) (offset : ℕ) (wire : Bytes)
    → IsAt bytes offset wire
    → length bytes ≤ offset
    → wire ≡ bytes
at-end bytes offset wire at over =
    sym (append-nil wire) ∙ ap (λ (t : Bytes). wire ++ t) (sym (drop-all offset bytes over)) ∙ at

IsAt-next :
    (bytes : Bytes) (offset n : ℕ) (wire : Bytes)
    → IsAt bytes offset wire
    → IsAt bytes (offset + n) (wire ++ take n (drop offset bytes))
IsAt-next bytes offset n wire at =
    append_assoc wire (take n (drop offset bytes)) (drop (offset + n) bytes)
    ∙ ap (λ (t : Bytes). wire ++ t)
        (ap (λ (t : Bytes). take n (drop offset bytes) ++ t) (drop_add offset n bytes)
          ∙ take-drop n (drop offset bytes))
    ∙ at

module _ (bytes : Bytes) where
  unfinished :
      (offset : ℕ) (wire : Bytes)
      → IsAt bytes offset wire
      → offset < length bytes
      → (rest : Bytes) × (wire ++ rest ≡ bytes) × (rest ≢ [])
  unfinished offset wire at less = (drop offset bytes, at, drop-nonempty offset bytes less)

  abbrev Promises : List WriteAnswer → ℕ → Written → Type 0
  Promises answers seen written = IsWritten bytes (seen + length answers) written.end written.wire

  answer-IsWritten :
      (answer : WriteAnswer) (answers : List WriteAnswer) (offset : ℕ) (wire : Bytes) (seen : ℕ)
      (go : ℕ → Bytes → Written)
      → IsAt bytes offset wire
      → offset < length bytes
      → seen ≤ offset
      → ((next : ℕ) (taken : Bytes)
          → IsAt bytes next taken
          → suc seen ≤ next
          → Promises answers (suc seen) (go next taken))
      → Promises (answer ∷ answers) seen (after_write answer offset (drop offset bytes) wire go)
  unfolding after_write write_from checked_add
  answer-IsWritten (WriteAnswer.write_failed error) answers offset wire seen go at less early rest =
      let (left, all, some_left) = unfinished offset wire at less in (left, all, inl some_left)
  answer-IsWritten (WriteAnswer.wrote n) answers offset wire seen go at less early rest =
      elim (Bool-cases (n == 0)) [
        | inl zeroed ↦
            let (left, all, some_left) = unfinished offset wire at less in
            rw zeroed (left, all, inl some_left)
        | inr some_n ↦ elim (Bool-cases (ltb (offset + n) u64_end)) [
          | inl fits ↦
              let one_more : suc seen + length answers ≡ seen + suc (length answers) =
                omega arith in
              rw (some_n, fits, ← one_more)
                (rest (offset + n) (wire ++ take n (drop offset bytes))
                  (IsAt-next bytes offset n wire at) (omega tests))
          | inr over ↦
              rw (some_n, over)
                (drop (offset + n) bytes, IsAt-next bytes offset n wire at, inr refl)
        ]
      ]

  loop-IsWritten :
      (answers : List WriteAnswer) (offset : ℕ) (wire : Bytes) (seen : ℕ)
      → IsAt bytes offset wire
      → seen ≤ offset
      → Promises answers seen (write_loop bytes answers offset wire)
  unfolding write_loop
  loop-IsWritten [] offset wire seen at early = elim (Bool-cases (ltb offset (length bytes))) [
    | inr over ↦ rw over (at-end bytes offset wire at (omega tests))
    | inl less ↦
        let (rest, all, some_left) = unfinished offset wire at (omega tests) in
        rw less (rest, all, some_left, omega tests)
  ]
  loop-IsWritten (answer ∷ answers) offset wire seen at early =
      elim (Bool-cases (ltb offset (length bytes))) [
        | inr over ↦ rw over (at-end bytes offset wire at (omega tests))
        | inl less ↦ rw less (
            answer-IsWritten answer answers offset wire seen (write_loop bytes answers) at
              (omega tests) early
              (λ next taken at' early'. loop-IsWritten answers next taken (suc seen) at' early'))
      ]

-- However the stream cuts the writes: where `write_all` is done, the stream has taken the bytes, all
-- and in order; where it breaks, a front of them, and a proper front unless the stream reported too
-- many; and it waits for an answer only while a proper front is taken and it has had fewer answers
-- than there are bytes.
pub write_all-IsWritten :
    (bytes : Bytes) (answers : List WriteAnswer)
    → IsWritten bytes (length answers) (write_all bytes answers).end (write_all bytes answers).wire
unfolding write_all
write_all-IsWritten bytes answers =
    let from_start = loop-IsWritten bytes answers 0 [] 0 refl (omega arith) in
    let none_seen : 0 + length answers ≡ length answers = omega arith in rw none_seen at from_start
