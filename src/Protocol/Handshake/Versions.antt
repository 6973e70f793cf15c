-- ===== src/Protocol/Handshake/Versions.antt =====
-- The version that both peers support, as src/protocol.rs chooses it.
use rp1_rust.Base.{ℕ, ◌≤◌, ◌≡◌, ◌↔◌, ◌⊎◌, inl, inr, some, none, List, [], ◌∷◌, arith, Option-cases}
use rp1_rust.Protocol.Handshake.{HandshakeRequest, max_of, in_range, highest_mutual_version}

-- `version` stands in the list.
abbrev pub IsIn : ℕ → List ℕ → Type 0
IsIn version [] = ⊥
IsIn version (x ∷ xs) = (version ≡ x) ⊎ IsIn version xs

-- The request names `version`.
abbrev pub Names : HandshakeRequest → ℕ → Type 0
Names request version =
    (request.client_minimum_protocol_version ≤ version)
    × (version ≤ request.client_maximum_protocol_version)

in_range_sound :
    (request : HandshakeRequest) (version : ℕ) (supported : List ℕ)
    → IsIn version (in_range request supported)
    → IsIn version supported × Names request version
unfolding in_range
in_range_sound request version [] h = absurd h
in_range_sound request version (x ∷ xs) h = ground (arith, in_range_sound request version xs)

in_range_complete :
    (request : HandshakeRequest) (version : ℕ) (supported : List ℕ)
    → IsIn version supported
    → Names request version
    → IsIn version (in_range request supported)
unfolding in_range
in_range_complete request version [] h n = absurd h
in_range_complete request version (x ∷ xs) h n =
    ground (arith, in_range_complete request version xs)

max_of-IsIn : (best : ℕ) (xs : List ℕ) → max_of xs ≡ some best → IsIn best xs
unfolding max_of
max_of-IsIn best [] h = cc
max_of-IsIn best (x ∷ xs) h = elim (Option-cases (max_of xs)) [
  | inl n ↦ ground arith
  | inr (b, e) ↦ ground (arith, max_of-IsIn b xs e)
]

max_of-none : (version : ℕ) (xs : List ℕ) → max_of xs ≡ none → IsIn version xs → ⊥
unfolding max_of
max_of-none version [] h m = m
max_of-none version (x ∷ xs) h m = ground arith

max_of-greatest :
    (best version : ℕ) (xs : List ℕ) → max_of xs ≡ some best → IsIn version xs → version ≤ best
unfolding max_of
max_of-greatest best version [] h m = absurd m
max_of-greatest best version (x ∷ xs) h m = elim (Option-cases (max_of xs)) [
  | inl n ↦ ground (arith, max_of-none version xs n)
  | inr (b, e) ↦ ground (arith, max_of-greatest b version xs e)
]

-- Where a version is chosen, it is supported and named by the request, and no version that is both
-- is higher.
pub highest_mutual_version-greatest :
    (request : HandshakeRequest) (supported : List ℕ) (best : ℕ)
    → highest_mutual_version request supported ≡ some best
    → IsIn best supported
      × Names request best
      × ((version : ℕ) → IsIn version supported → Names request version → version ≤ best)
unfolding highest_mutual_version
highest_mutual_version-greatest request supported best h =
    let (found, names) =
      in_range_sound request best supported (max_of-IsIn best (in_range request supported) h) in
    (
      found,
      names,
      λ version m n.
          max_of-greatest best version (in_range request supported) h
            (in_range_complete request version supported m n),
    )

-- No version is chosen exactly when no supported version is named by the request.
pub highest_mutual_version-none :
    (request : HandshakeRequest) (supported : List ℕ)
    → (highest_mutual_version request supported ≡ none)
      ↔ ((version : ℕ) → IsIn version supported → Names request version → ⊥)
unfolding highest_mutual_version
highest_mutual_version-none request supported = (
  λ h version m n.
      max_of-none version (in_range request supported) h
        (in_range_complete request version supported m n),
  λ h. elim (Option-cases (highest_mutual_version request supported)) [
    | inl n ↦ n
    | inr (best, e) ↦
        let (m, names, rest) = highest_mutual_version-greatest request supported best e in
        absurd (h best m names)
  ],
)
