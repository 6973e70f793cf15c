-- ===== src/Runner/Journal/Lines.antt =====
-- tools/validation-runner/src/record.rs: the lines of a journal file, and what a line more adds.
use rp1_rust.Base.{
  ℕ, ◌≡◌, ◌⊎◌, refl, sym, ap, ◌∙◌, false, List, [], ◌∷◌, ◌++◌, All, append_assoc, append-nil,
  length, ◌==◌, Bool-cases, inl, inr,
}
use rp1_rust.Base.Result.{ok, >>=-eq-ok}
use rp1_rust.Runner.Text.{Text, append-cons-not-nil, kept}
use rp1_rust.Runner.Record.{JournalEntry}
use rp1_rust.Runner.Journal.{strip_return, lines_from, parse_line, parse_lines}
use rp1_rust.Runner.Json.{trim}

-- A text without a newline.
abbrev pub IsUnbroken : Text → Type 0
IsUnbroken line = All (λ (c : ℕ). (c == 10) ≡ false) line

-- A file that is empty or ends with a newline.
abbrev pub IsComplete : Text → Type 0
IsComplete file = (file ≡ []) ⊎ ((part : Text) × (file ≡ part ++ 10 ∷ []))

lines_from-newline :
    (part line more : Text)
    → lines_from line (part ++ 10 ∷ more) ≡ lines_from line (part ++ 10 ∷ []) ++ lines_from [] more
unfolding lines_from
lines_from-newline [] line more = refl
lines_from-newline (c ∷ cs) line more = elim (Bool-cases (c == 10)) [
  | inl e ↦ rw e (ap (λ (ls : List Text). strip_return line ∷ ls) (lines_from-newline cs [] more))
  | inr e ↦ rw e (lines_from-newline cs (line ++ c ∷ []) more)
]

pub lines-append :
    (file more : Text)
    → IsComplete file
    → lines_from [] (file ++ more) ≡ lines_from [] file ++ lines_from [] more
unfolding lines_from
lines-append file more (inl e) = rw e refl
lines-append file more (inr (part, e)) =
    rw e (rw (append_assoc part (10 ∷ []) more) (lines_from-newline part [] more))

lines_from-line :
    (xs line : Text)
    → IsUnbroken xs
    → lines_from line (xs ++ 10 ∷ []) ≡ strip_return (line ++ xs) ∷ []
unfolding lines_from
lines_from-line [] line h = ap (λ (t : Text). strip_return t ∷ []) (sym (append-nil line))
lines_from-line (x ∷ xs) line h = rw h.0 (
    lines_from-line xs (line ++ x ∷ []) h.1
    ∙ ap (λ (t : Text). strip_return t ∷ []) (append_assoc line (x ∷ []) xs))

strip_return-brace : (xs : Text) → strip_return (xs ++ 125 ∷ []) ≡ xs ++ 125 ∷ []
unfolding strip_return
strip_return-brace [] = refl
strip_return-brace (x ∷ xs) =
    rw (strip_return-brace xs)
      (rw (append-cons-not-nil xs 125 []) (kept (x == 13) (x ∷ (xs ++ 125 ∷ []))))

pub append-IsUnbroken : (xs ys : Text) → IsUnbroken xs → IsUnbroken ys → IsUnbroken (xs ++ ys)
append-IsUnbroken [] ys h k = k
append-IsUnbroken (x ∷ xs) ys h k = (h.0, append-IsUnbroken xs ys h.1 k)

-- One line that ends with a brace.
pub lines_from-brace :
    (xs : Text)
    → IsUnbroken xs
    → lines_from [] ((xs ++ 125 ∷ []) ++ 10 ∷ []) ≡ (xs ++ 125 ∷ []) ∷ []
lines_from-brace xs h =
    lines_from-line (xs ++ 125 ∷ []) [] (append-IsUnbroken xs (125 ∷ []) h (refl, tt))
    ∙ ap (λ (t : Text). t ∷ []) (strip_return-brace xs)

pub parse_lines-append :
    (lines : List Text) (line : Text) {es : List JournalEntry} {e : JournalEntry}
    → parse_lines lines ≡ ok es
    → (length (trim line) == 0) ≡ false
    → parse_line line ≡ ok e
    → parse_lines (lines ++ line ∷ []) ≡ ok (es ++ e ∷ [])
unfolding parse_lines
parse_lines-append [] line {es} {e} h full read =
    let same : [] ≡ es = cc in
    rw full (rw read (ap (λ (js : List JournalEntry). ok (js ++ e ∷ [])) same))
parse_lines-append (l ∷ ls) line {es} {e} h full read = elim (Bool-cases (length (trim l) == 0)) [
  | inl blank ↦ rw blank (parse_lines-append ls line (rw blank at h) full read)
  | inr filled ↦
      let (entry, first, next) = >>=-eq-ok (parse_line l) _ (rw filled at h) in
      let (more, others, last) = >>=-eq-ok (parse_lines ls) _ next in
      let same : entry ∷ more ≡ es = cc in
      rw filled (
        rw first (
          rw (parse_lines-append ls line others full read)
            (ap (λ (js : List JournalEntry). ok (js ++ e ∷ [])) same)))
]
