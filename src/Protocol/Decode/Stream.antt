-- ===== src/Protocol/Decode/Stream.antt =====
-- `decode` of src/protocol.rs on a stream that arrives in parts.
use rp1_rust.Base.{
  ℕ, zero, suc, ◌+◌, ◌-◌, ◌≤◌, ◌<◌, ◌≡◌, inl, inr, refl, ap, ◌∙◌, some, none, [], ◌∷◌, ◌++◌, arith,
  length, length-append, leb, Bool-cases, le→leb, Option-cases,
}
use rp1_rust.Base.Bytes.{Bytes, get_from, get_to, get_range, checked_add}
use rp1_rust.Base.Maybe.{>>=-eq-some}
use rp1_rust.Base.Result.{Result, ok, err, Result-cases}
use rp1_rust.Protocol.Types.{Admission, Limits, Role, FailureScope, Failure}
use rp1_rust.Protocol.Frame.{Frame, Step, Admitted}
use rp1_rust.Protocol.Header.{parse_header, total_length}
use rp1_rust.Protocol.Header.Length.{parse_header-append}
use rp1_rust.Protocol.Decode.{decode, admit, check_admitted, conclude, usize_from}
use rp1_rust.Protocol.Decode.Admit.{Passed, admit-Passed, Passed-admit, IsStop, admit-IsStop}
use rp1_rust.Protocol.Decode.Checked.{decode-Decoded, decode-stop, decode-conclude}

get_from-more :
    (xs more : Bytes) (n : ℕ) {ys : Bytes}
    → get_from xs n ≡ some ys
    → get_from (xs ++ more) n ≡ some (ys ++ more)
unfolding get_from
get_from-more xs more zero h = ground arith
get_from-more [] more (suc n) h = cc
get_from-more (x ∷ xs) more (suc n) h = get_from-more xs more n h

pub get_to-more :
    (xs more : Bytes) (n : ℕ) {ys : Bytes} → get_to xs n ≡ some ys → get_to (xs ++ more) n ≡ some ys
unfolding get_to
get_to-more xs more zero h = h
get_to-more [] more (suc n) h = cc
get_to-more (x ∷ xs) more (suc n) {ys} h =
    let (zs, e, f) = >>=-eq-some (get_to xs n) _ h in rw (get_to-more xs more n e) f

-- A slice that is there stays there when bytes arrive behind the input.
pub get_range-more :
    (xs more : Bytes) (a b : ℕ) {ys : Bytes}
    → get_range xs a b ≡ some ys
    → get_range (xs ++ more) a b ≡ some ys
unfolding get_range
get_range-more xs more a b h = elim (Bool-cases (leb a b)) [
  | inr no_range ↦ ground arith
  | inl range ↦
      let inside = rw range at h in
      let (tail, e, f) = >>=-eq-some (get_from xs a) _ inside in
      rw (range, get_from-more xs more a e) (get_to-more tail more (b - a) f)
]

get_from-total :
    (xs : Bytes) (n : ℕ)
    → n ≤ length xs
    → (ys : Bytes) × (get_from xs n ≡ some ys) × (length ys ≡ length xs - n)
unfolding get_from
get_from-total xs zero h = (xs, refl, omega arith)
get_from-total [] (suc n) h = elim h [ ]
get_from-total (x ∷ xs) (suc n) h =
    let (ys, e, l) = get_from-total xs n (omega arith) in (ys, e, omega arith)

pub get_to-total : (xs : Bytes) (n : ℕ) → n ≤ length xs → (ys : Bytes) × (get_to xs n ≡ some ys)
unfolding get_to
get_to-total xs zero h = ([], refl)
get_to-total [] (suc n) h = elim h [ ]
get_to-total (x ∷ xs) (suc n) h = let (ys, e) = get_to-total xs n (omega arith) in (x ∷ ys, rw e)

pub get_range-total :
    (xs : Bytes) (a b : ℕ) → a ≤ b → b ≤ length xs → (ys : Bytes) × (get_range xs a b ≡ some ys)
unfolding get_range
get_range-total xs a b h k =
    let (tail, e, l) = get_from-total xs a (omega arith) in
    let (ys, f) = get_to-total tail (b - a) (omega arith) in (ys, rw (le→leb a b h, e) f)

module _ (input more : Bytes) where
  Passed-append :
      (role : Role) (limits : Limits) (admitted : Admitted)
      → Passed input role limits admitted
      → Passed (input ++ more) role limits admitted
  Passed-append role limits admitted p = record {
    parsed = parse_header-append input more p.parsed;
    version_zero = p.version_zero;
    kind_assigned = p.kind_assigned;
    flags_zero = p.flags_zero;
    total = p.total;
    representable = p.representable;
    within_frame = p.within_frame;
    within_metadata = p.within_metadata;
    complete = omega (arith, p.complete, length-append input more);
    region_end = p.region_end;
    region = p.region;
    region_bytes = get_range-more input more 20 admitted.metadata_end p.region_bytes;
    region_parsed = p.region_parsed;
    direction = p.direction;
  }

  check_admitted-append :
      (admission : Admission) (admitted : Admitted)
      → Passed input admission.role admission.limits admitted
      → check_admitted (input ++ more) admission admitted ≡ check_admitted input admission admitted
  unfolding check_admitted
  check_admitted-append admission admitted p =
      let (ys, e) =
        get_range-total input admitted.metadata_end admitted.total_len
          (omega (arith, p.region_end, p.total)) p.complete in
      rw (e, get_range-more input more admitted.metadata_end admitted.total_len e)

-- An answer about a frame that has arrived whole, which leaves the connection usable.
abbrev pub IsSettled : Step → Type 0
IsSettled (Step.need n) = ⊥
IsSettled (Step.frame frame) = Unit
IsSettled (Step.failed failure consumed) = failure.scope ≡ FailureScope.request_scoped

conclude-settled :
    (result : Result Frame Failure) (total len more : ℕ)
    → IsSettled (conclude result total len)
    → conclude result total more ≡ conclude result total len
unfolding conclude
conclude-settled (ok frame) total len more h = refl
conclude-settled (err failure) total len more h = ground arith

IsStop-not-settled :
    (input : Bytes) (limits : Limits) (step : Step) → IsStop input limits step → IsSettled step → ⊥
IsStop-not-settled input limits (Step.need n) stop h = h
IsStop-not-settled input limits (Step.failed failure consumed) stop h = cc (stop.0)
IsStop-not-settled input limits (Step.frame frame) stop h = stop

-- Where `decode` answers an input with a frame or with a failure of one request, bytes that arrive
-- behind the input do not change the answer.
pub decode-append :
    (input more : Bytes) (admission : Admission)
    → IsSettled (decode input admission)
    → decode (input ++ more) admission ≡ decode input admission
decode-append input more admission h =
    elim (Result-cases (admit input admission.role admission.limits)) [
      | inr (step, e) ↦ absurd (
          IsStop-not-settled input admission.limits step
            (admit-IsStop input admission.role admission.limits step e)
            (rw (decode-stop input admission step e) at h))
      | inl (admitted, e) ↦
          let p = admit-Passed input admission.role admission.limits admitted e in
          rw
            (
              decode-conclude input admission admitted e,
              decode-conclude (input ++ more) admission admitted (
                  Passed-admit (input ++ more) admission.role admission.limits admitted
                    (Passed-append input more admission.role admission.limits admitted p)),
              check_admitted-append input more admission admitted p,
            )
            (conclude-settled (check_admitted input admission admitted) admitted.total_len
              (length input) (length (input ++ more))
              (rw (decode-conclude input admission admitted e) at h))
    ]

-- `admit` on a part of an admitted frame.
admit-short :
    (front : Bytes) (role : Role) (limits : Limits) (input : Bytes) (admitted : Admitted)
    → Passed input role limits admitted
    → parse_header front ≡ some admitted.raw
    → length front < admitted.total_len
    → admit front role limits ≡ err (Step.need admitted.total_len)
unfolding admit total_length checked_add usize_from
admit-short front role limits input admitted p same h = ground arith

admit-headless :
    (front : Bytes) (role : Role) (limits : Limits)
    → parse_header front ≡ none
    → admit front role limits ≡ err (Step.need 20)
unfolding admit
admit-headless front role limits h = rw h

-- Where `decode` admits a frame, on each front of the input that is shorter than the frame it asks
-- for more, and for no more than the frame.
pub decode-prefix :
    (front back : Bytes) (admission : Admission) (frame : Frame)
    → decode (front ++ back) admission ≡ Step.frame frame
    → length front < 20 + frame.header.metadata_length + frame.header.payload_length
    → (n : ℕ) × (decode front admission ≡ Step.need n)
      × (n ≤ 20 + frame.header.metadata_length + frame.header.payload_length)
decode-prefix front back admission frame h short =
    let d = decode-Decoded (front ++ back) admission frame h in
    let total = d.passed.total in
    elim (Option-cases (parse_header front)) [
      | inl missing ↦ (
        20,
        decode-stop front admission (Step.need 20)
            (admit-headless front admission.role admission.limits missing),
        omega arith,
      )
      | inr (raw, e) ↦
          let same : raw ≡ d.admitted.raw =
            cc (parse_header-append front back e, d.passed.parsed) in
          (
            d.admitted.total_len,
            decode-stop front admission (Step.need d.admitted.total_len) (
                admit-short front admission.role admission.limits (front ++ back) d.admitted
                  d.passed (e ∙ ap some same) (ground (arith, total, d.checked.header))),
            ground (arith, total, d.checked.header),
          )
    ]
