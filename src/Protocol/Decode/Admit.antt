-- ===== src/Protocol/Decode/Admit.antt =====
-- What `admit` of src/protocol.rs has checked when it admits a frame, and when it does not.
use rp1_rust.Base.{◌+◌, ◌≤◌, ◌<◌, ◌≡◌, ◌⊎◌, inl, inr, false, some, arith, length, Option-cases}
use rp1_rust.Base.Bytes.{Bytes, get_range, checked_add, u64_end}
use rp1_rust.Base.Result.{ok, err}
use rp1_rust.Protocol.Types.{Limits, Role, role_eq, kind_from_wire, sender, FailureScope}
use rp1_rust.Protocol.Region.{parse_entries}
use rp1_rust.Protocol.Frame.{Step, Admitted}
use rp1_rust.Protocol.Header.{parse_header, total_length}
use rp1_rust.Protocol.Header.Length.{parse_header-none}
use rp1_rust.Protocol.Decode.{admit, usize_from}

pub record Passed (input : Bytes) (role : Role) (limits : Limits) (admitted : Admitted)
    : Type 0 where
  pub parsed : parse_header input ≡ some admitted.raw
  pub version_zero : admitted.raw.version ≡ 0
  pub kind_assigned : kind_from_wire admitted.raw.kind ≡ some admitted.kind
  pub flags_zero : admitted.raw.flags ≡ 0
  pub total : admitted.total_len ≡ 20 + admitted.raw.metadata_length + admitted.raw.payload_length
  pub representable : admitted.total_len < u64_end
  pub within_frame : admitted.total_len ≤ limits.frame_size
  pub within_metadata : admitted.raw.metadata_length ≤ limits.metadata_size
  pub complete : admitted.total_len ≤ length input
  pub region_end : admitted.metadata_end ≡ 20 + admitted.raw.metadata_length
  pub region : Bytes
  pub region_bytes : get_range input 20 admitted.metadata_end ≡ some region
  pub region_parsed : parse_entries region ≡ some admitted.metadata
  pub direction : role_eq (sender admitted.kind) role ≡ false

module _ (input : Bytes) (role : Role) (limits : Limits) (admitted : Admitted) where
  pub admit-Passed : admit input role limits ≡ ok admitted → Passed input role limits admitted
  unfolding admit total_length checked_add usize_from
  admit-Passed h = elim (Option-cases (parse_header input)) [
    | inl n ↦ ground arith
    | inr (raw, p) ↦ elim (Option-cases (kind_from_wire raw.kind)) [
      | inl n ↦ ground arith
      | inr (kind, k) ↦ elim (Option-cases (get_range input 20 (20 + raw.metadata_length))) [
        | inl n ↦ ground arith
        | inr (region, r) ↦ elim (Option-cases (parse_entries region)) [
          | inl n ↦ ground arith
          | inr (entries, e) ↦ record {
            parsed = ground arith;
            version_zero = ground arith;
            kind_assigned = ground arith;
            flags_zero = ground arith;
            total = ground arith;
            representable = ground arith;
            within_frame = ground arith;
            within_metadata = ground arith;
            complete = ground arith;
            region_end = ground arith;
            region = region;
            region_bytes = ground arith;
            region_parsed = ground arith;
            direction = ground arith;
          }
        ]
      ]
    ]
  ]

  -- Nothing but these tests stands between a frame and its admission.
  pub Passed-admit : Passed input role limits admitted → admit input role limits ≡ ok admitted
  unfolding admit total_length checked_add usize_from
  Passed-admit h = ground arith

-- What `admit` answers in place of a frame: a number of bytes that the input falls short of, at
-- least the header's and, past the header, within the frame bound; or a failure that is fatal to
-- the connection and consumes the input.
abbrev pub IsStop : Bytes → Limits → Step → Type 0
IsStop input limits (Step.need n) =
    (length input < n) × (20 ≤ n) × ((n ≡ 20) ⊎ (n ≤ limits.frame_size))
IsStop input limits (Step.failed failure consumed) =
    (failure.scope ≡ FailureScope.connection_fatal) × (consumed ≡ length input)
IsStop input limits (Step.frame frame) = ⊥

module _ (input : Bytes) (role : Role) (limits : Limits) (step : Step) where
  pub admit-IsStop : admit input role limits ≡ err step → IsStop input limits step
  unfolding admit total_length checked_add usize_from
  admit-IsStop h = elim (Option-cases (parse_header input)) [
    | inl n ↦ ground (arith, parse_header-none input n)
    | inr (raw, p) ↦ elim (Option-cases (kind_from_wire raw.kind)) [
      | inl n ↦ ground arith
      | inr (kind, k) ↦ elim (Option-cases (get_range input 20 (20 + raw.metadata_length))) [
        | inl n ↦ ground arith
        | inr (region, r) ↦ elim (Option-cases (parse_entries region)) [
          | inl n ↦ ground arith
          | inr (entries, e) ↦ ground arith
        ]
      ]
    ]
  ]
