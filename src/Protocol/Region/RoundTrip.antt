-- ===== src/Protocol/Region/RoundTrip.antt =====
-- The regions of src/protocol.rs: parsing against encoding.
use rp1_rust.Base.{
  ℕ, zero, suc, ◌+◌, ◌*◌, ◌≤◌, ◌<◌, ◌≡◌, refl, some, none, List, [], ◌∷◌, ◌++◌, length,
  length-append, All, arith, ap, ltb, inl, inr, Bool-cases, Option-cases, ltb→ge, ltb→lt, ◌↔◌,
  lt→ltb, ge→ltb, ◌%◌, ◌/◌, sym, ◌∙◌,
}
use rp1_rust.Base.Bytes.{Bytes, IsByte, u16_end, u64_end, saturate_u16}
use rp1_rust.Base.Maybe.{◌>>=◌, >>=-eq-some}
use rp1_rust.Protocol.Region.{
  Entry, parse_entry, parse_loop, parse_entries, encode_entry, encode_entries,
}
use rp1_rust.Base.Slices.{get_from-append, get_range-append, split_at, All-append_right}

-- What the two fields of an entry can carry.
pub record IsEntry (entry : Entry) : Type 0 where
  pub identifier_fits : entry.identifier < u16_end
  pub value_fits : length entry.value < u16_end

-- The four bytes before a value, taken as the two numbers that they spell.
parse_entry-fields :
    (a b c d identifier n : ℕ) (value rest : Bytes)
    → a + 256 * b ≡ identifier
    → c + 256 * d ≡ n
    → length value ≡ n
    → n < u16_end
    → parse_entry (a ∷ b ∷ c ∷ d ∷ (value ++ rest))
      ≡ some (record { identifier = identifier; value = value }, rest)
unfolding parse_entry
parse_entry-fields a b c d identifier n value rest p q l h =
    rw (p, q, lt→ltb (4 + n) u64_end (omega arith))
      (rw
        (ge→ltb (suc (suc (suc (suc (length (value ++ rest)))))) (4 + n)
          (omega (arith, length-append value rest)))
        (rw (get_range-append (a ∷ b ∷ c ∷ d ∷ []) value rest 4 (4 + n) refl (omega arith))
          (rw (get_from-append (a ∷ b ∷ c ∷ d ∷ value) rest (4 + n) (omega arith)))))

parse_entry-encode :
    (entry : Entry) (rest : Bytes)
    → IsEntry entry
    → parse_entry (encode_entry entry ++ rest) ≡ some (entry, rest)
unfolding encode_entry saturate_u16
parse_entry-encode entry rest h =
    let n = length entry.value in
    rw (lt→ltb n u16_end h.value_fits) (
      parse_entry-fields (entry.identifier % 256) (entry.identifier / 256 % 256) (n % 256)
        (n / 256 % 256) entry.identifier n entry.value rest (omega (arith, h.identifier_fits))
        (omega (arith, h.value_fits)) refl h.value_fits)

parse_entry-short :
    (a b c d : ℕ) (tail : Bytes)
    → length tail < c + 256 * d
    → parse_entry (a ∷ b ∷ c ∷ d ∷ tail) ≡ none
unfolding parse_entry
parse_entry-short a b c d tail h = ground (arith)

encode_entry-fields :
    (a b c d : ℕ) (value : Bytes)
    → a < 256
    → b < 256
    → c < 256
    → d < 256
    → length value ≡ c + 256 * d
    → encode_entry (record { identifier = a + 256 * b; value = value }) ≡ a ∷ b ∷ c ∷ d ∷ value
unfolding encode_entry saturate_u16
encode_entry-fields a b c d value ha hb hc hd l = ground arith

spelled_fits :
    (a b c d : ℕ) (value : Bytes) (rest : Bytes)
    → All IsByte (a ∷ b ∷ c ∷ d ∷ (value ++ rest))
    → length value ≡ c + 256 * d
    → IsEntry (record { identifier = a + 256 * b; value = value })
spelled_fits a b c d value rest bytes l = record {
  identifier_fits = omega arith;
  value_fits = omega arith;
}

parse_entry-split :
    (a b c d : ℕ) (value rest : Bytes) (entry : Entry) (next : Bytes)
    → All IsByte (a ∷ b ∷ c ∷ d ∷ (value ++ rest))
    → length value ≡ c + 256 * d
    → parse_entry (a ∷ b ∷ c ∷ d ∷ (value ++ rest)) ≡ some (entry, next)
    → ((a ∷ b ∷ c ∷ d ∷ (value ++ rest)) ≡ encode_entry entry ++ next)
      × IsEntry entry
      × All IsByte next
parse_entry-split a b c d value rest entry next bytes l h =
    let read : Entry = record { identifier = a + 256 * b; value = value } in
    let e : some (read, rest) ≡ some (entry, next) =
      sym (parse_entry-fields a b c d _ _ value rest refl refl l (omega arith)) ∙ h in
    let same : read ≡ entry = cc e in
    let same_rest : rest ≡ next = cc e in
    let fits : IsEntry read = spelled_fits a b c d value rest bytes l in
    rw (← same, ← same_rest)
      (
        ap (λ (t : Bytes). t ++ rest)
            (sym (
              encode_entry-fields a b c d value (bytes.0) (bytes.1.0) (bytes.1.1.0) (bytes.1.1.1.0)
                l)),
        fits,
        All-append_right value rest bytes.1.1.1.1,
      )

-- What a round accepts is the encoding of the entry that it returns.
pub parse_entry-inv :
    (xs : Bytes) (entry : Entry) (next : Bytes)
    → All IsByte xs
    → parse_entry xs ≡ some (entry, next)
    → (xs ≡ encode_entry entry ++ next) × IsEntry entry × All IsByte next
parse_entry-inv [] entry next bytes h = unfold parse_entry in cc
parse_entry-inv (a ∷ []) entry next bytes h = unfold parse_entry in cc
parse_entry-inv (a ∷ b ∷ []) entry next bytes h = unfold parse_entry in cc
parse_entry-inv (a ∷ b ∷ c ∷ []) entry next bytes h = unfold parse_entry in cc
parse_entry-inv (a ∷ b ∷ c ∷ d ∷ tail) entry next bytes h =
    elim (Bool-cases (ltb (length tail) (c + 256 * d))) [
      | inl short ↦ cc (parse_entry-short a b c d tail (ltb→lt _ _ short))
      | inr enough ↦
          let (value, rest, e, l) = split_at (c + 256 * d) tail (ltb→ge _ _ enough) in
          rw e (parse_entry-split a b c d value rest entry next (rw e at bytes) l (rw e at h))
    ]

parse_loop-step :
    (fuel : ℕ) (xs : Bytes) (entry : Entry) (next : Bytes)
    → parse_entry xs ≡ some (entry, next)
    → parse_loop (suc fuel) xs ≡ (parse_loop fuel next >>= λ entries. some (entry ∷ entries))
unfolding parse_loop
parse_loop-step fuel [] entry next h = unfold parse_entry in cc
parse_loop-step fuel (b ∷ bs) entry next h = rw h

length-encode_entry : (entry : Entry) → length (encode_entry entry) ≡ 4 + length entry.value
unfolding encode_entry
length-encode_entry entry = omega arith

pub parse_loop-encode :
    (fuel : ℕ) (entries : List Entry)
    → All IsEntry entries
    → length (encode_entries entries) ≤ fuel
    → parse_loop fuel (encode_entries entries) ≡ some entries
unfolding encode_entries
parse_loop-encode fuel [] h f = unfold parse_loop in refl
parse_loop-encode zero (entry ∷ entries) h f = absurd (
    omega (
      arith,
      length-append (encode_entry entry) (encode_entries entries),
      length-encode_entry entry,
    ))
parse_loop-encode (suc fuel) (entry ∷ entries) h f =
    parse_loop-step fuel (encode_entry entry ++ encode_entries entries) entry
      (encode_entries entries) (parse_entry-encode entry (encode_entries entries) h.0)
    ∙ rw (
        parse_loop-encode fuel entries h.1 (
          omega (
            arith,
            length-append (encode_entry entry) (encode_entries entries),
            length-encode_entry entry,
          )))

parse_loop-cons :
    (fuel b : ℕ) (bs : Bytes) (entries : List Entry)
    → parse_loop (suc fuel) (b ∷ bs) ≡ some entries
    → (entry : Entry) × (next : Bytes) × (es : List Entry) × (parse_entry (b ∷ bs)
        ≡ some (entry, next))
      × (parse_loop fuel next ≡ some es)
      × (entry ∷ es ≡ entries)
unfolding parse_loop
parse_loop-cons fuel b bs entries h =
    let ((entry, next), read, more) = >>=-eq-some (parse_entry (b ∷ bs)) _ h in
    let (es, looped, last) = >>=-eq-some (parse_loop fuel next) _ more in
    (entry, next, es, read, looped, cc last)

pub parse_loop-inv :
    (fuel : ℕ) (xs : Bytes) (entries : List Entry)
    → All IsByte xs
    → parse_loop fuel xs ≡ some entries
    → (xs ≡ encode_entries entries) × All IsEntry entries
unfolding encode_entries
parse_loop-inv fuel [] entries bytes h =
    let e : [] ≡ entries = unfold parse_loop in cc in rw (← e) (refl, tt)
parse_loop-inv zero (b ∷ bs) entries bytes h = unfold parse_loop in cc
parse_loop-inv (suc fuel) (b ∷ bs) entries bytes h =
    let (entry, next, es, read, looped, e) = parse_loop-cons fuel b bs entries h in
    let (head, fits, bytes') = parse_entry-inv (b ∷ bs) entry next bytes read in
    let (tail, fit) = parse_loop-inv fuel next es bytes' looped in
    rw (← e) (head ∙ ap (λ (t : Bytes). encode_entry entry ++ t) tail, (fits, fit))

pub parse_entries-encode :
    (entries : List Entry)
    → All IsEntry entries
    → parse_entries (encode_entries entries) ≡ some entries
unfolding parse_entries
parse_entries-encode entries h = parse_loop-encode _ entries h (omega arith)

-- On bytes, the parser accepts the encodings of lists of entries whose identifiers and lengths fit
-- 16 bits, and no other byte string, and returns the list that was encoded.
pub parse_entries-exact :
    (region : Bytes) (entries : List Entry)
    → All IsByte region
    → (parse_entries region ≡ some entries)
      ↔ ((region ≡ encode_entries entries) × All IsEntry entries)
unfolding parse_entries
parse_entries-exact region entries bytes = (
  λ h. parse_loop-inv (length region) region entries bytes h,
  λ h. rw h.0 (parse_loop-encode _ entries h.1 (omega arith)),
)

parse_entry-shrinks :
    (xs : Bytes) (entry : Entry) (next : Bytes)
    → All IsByte xs
    → parse_entry xs ≡ some (entry, next)
    → (length next < length xs) × All IsByte next
parse_entry-shrinks xs entry next bytes h =
    let (e, fits, more) = parse_entry-inv xs entry next bytes h in
    (
      omega
          (arith, ap length e, length-append (encode_entry entry) next, length-encode_entry entry),
      more,
    )

-- On bytes, any two amounts of fuel from the length of the region on give the same answer.
pub parse_loop-fuel :
    (fuel more : ℕ) (xs : Bytes)
    → All IsByte xs
    → length xs ≤ fuel
    → length xs ≤ more
    → parse_loop fuel xs ≡ parse_loop more xs
parse_loop-fuel fuel more [] bytes h k = unfold parse_loop in refl
parse_loop-fuel zero more (b ∷ bs) bytes h k = elim h [ ]
parse_loop-fuel (suc fuel) zero (b ∷ bs) bytes h k = elim k [ ]
parse_loop-fuel (suc fuel) (suc more) (b ∷ bs) bytes h k =
    elim (Option-cases (parse_entry (b ∷ bs))) [
      | inl stop ↦ unfold parse_loop in rw stop
      | inr ((entry, next), e) ↦
          let (less, bytes') = parse_entry-shrinks (b ∷ bs) entry next bytes e in
          parse_loop-step fuel (b ∷ bs) entry next e
          ∙ rw (parse_loop-fuel fuel more next bytes' (omega arith) (omega arith))
              (sym (parse_loop-step more (b ∷ bs) entry next e))
    ]
