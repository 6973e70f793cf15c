-- ===== src/Connection/Handshaken.antt =====
-- src/connection/mod.rs: what the answer to the handshake leaves in force.
use rp1_rust.Base.{
  ◌≤◌, ◌≡◌, refl, List, [], ◌∷◌, All, arith, map, Bool-cases, ◌==◌, ap, inl, inr, contains,
}
use rp1_rust.Base.Bytes.{Bytes, IsByte}
use rp1_rust.Base.Result.{ok, err, Result-cases}
use rp1_rust.Protocol.Types.{Kind, Failure}
use rp1_rust.Protocol.Region.{Entry}
use rp1_rust.Protocol.Frame.{Frame, Payload}
use rp1_rust.Protocol.Handshake.{HandshakeResponse, decode_response, offers_capability}
use rp1_rust.Protocol.Handshake.ResponseExact.{IsResponse, IsOffered, decode_response-exact}
use rp1_rust.Connection.{
  Caps, Negotiated, this_offer, negotiated_of, interpret_response, interpret_kind,
  interpret_success,
}

-- What a handshake may leave in force: version 0, bounds at the protocol's floors or above, no
-- capability, and the local caps of the configuration.
pub record IsSettledOn (caps : Caps) (negotiated : Negotiated) : Type 0 where
  pub version : negotiated.protocol_version ≡ 0
  pub frame_floor : 65536 ≤ negotiated.maximum_frame_size
  pub metadata_floor : 4096 ≤ negotiated.maximum_metadata_size
  pub no_capability : negotiated.accepted_capabilities ≡ []
  pub caps_same : negotiated.local_caps ≡ caps

none-offered : (entries : List Entry) → All (IsOffered this_offer) entries → entries ≡ []
unfolding offers_capability contains
none-offered [] h = refl
none-offered (x ∷ xs) h = absurd (ground (arith, h.0))

IsResponse-bounds :
    (caps : Caps) (response : HandshakeResponse)
    → IsResponse this_offer response
    → IsSettledOn caps (negotiated_of caps response)
IsResponse-bounds caps response h = record {
  version = omega (arith, h.version_offered_high);
  frame_floor = h.frame_size_floor;
  metadata_floor = h.metadata_size_floor;
  no_capability =
      ap (map (λ (entry : Entry). entry.identifier))
        (none-offered response.accepted_capability_entries h.offered);
  caps_same = refl;
}

success-fails :
    (payload : Bytes) (caps : Caps) (negotiated : Negotiated) (failure : Failure)
    → decode_response payload this_offer ≡ err failure
    → interpret_success (Payload.opaque payload) caps ≡ ok negotiated
    → ⊥
unfolding interpret_success
success-fails payload caps negotiated failure d h = cc (rw d at h)

success-answers :
    (payload : Bytes) (caps : Caps) (response : HandshakeResponse) (negotiated : Negotiated)
    → decode_response payload this_offer ≡ ok response
    → interpret_success (Payload.opaque payload) caps ≡ ok negotiated
    → negotiated_of caps response ≡ negotiated
unfolding interpret_success
success-answers payload caps response negotiated d h = cc (rw d at h)

success-bounds :
    (opened : Payload) (payload : Bytes) (caps : Caps) (negotiated : Negotiated)
    → opened ≡ Payload.opaque payload
    → All IsByte payload
    → interpret_success opened caps ≡ ok negotiated
    → IsSettledOn caps negotiated
success-bounds opened payload caps negotiated e bytes h =
    elim (Result-cases (decode_response payload this_offer)) [
      | inr (failure, d) ↦ absurd (success-fails payload caps negotiated failure d (rw e at h))
      | inl (response, d) ↦ rw (← success-answers payload caps response negotiated d (rw e at h)) (
          IsResponse-bounds caps response
            ((decode_response-exact payload this_offer response bytes).0 d).1)
    ]

kind-bounds :
    (kind : Kind) (frame : Frame) (payload : Bytes) (caps : Caps) (negotiated : Negotiated)
    → frame.payload ≡ Payload.opaque payload
    → All IsByte payload
    → interpret_kind kind frame caps ≡ ok negotiated
    → IsSettledOn caps negotiated × (kind ≡ Kind.response) × (frame.header.code ≡ 0)
unfolding interpret_kind
kind-bounds Kind.request frame payload caps negotiated opened bytes h = cc
kind-bounds Kind.error frame payload caps negotiated opened bytes h = cc
kind-bounds Kind.response frame payload caps negotiated opened bytes h =
    elim (Bool-cases (frame.header.code == 0)) [
      | inl e ↦ (
        success-bounds frame.payload payload caps negotiated opened bytes (rw e at h),
        refl,
        ground arith,
      )
      | inr e ↦ cc (rw e at h)
    ]

-- Where the handshake of a frame whose payload is bytes succeeds, it leaves version 0, bounds that
-- are not below the protocol's floors, no capability and the local caps of the configuration, and
-- the frame is a success response.
pub interpret_response-bounds :
    (frame : Frame) (payload : Bytes) (caps : Caps) (negotiated : Negotiated)
    → frame.payload ≡ Payload.opaque payload
    → All IsByte payload
    → interpret_response frame caps ≡ ok negotiated
    → IsSettledOn caps negotiated × (frame.header.kind ≡ Kind.response) × (frame.header.code ≡ 0)
unfolding interpret_response
interpret_response-bounds frame payload caps negotiated opened bytes h =
    kind-bounds frame.header.kind frame payload caps negotiated opened bytes h
