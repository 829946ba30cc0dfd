-- ===== src/Packetizer/Receiver.antt =====
-- A receiver of the payload formats of RFC 6184 and RFC 7798, which the packets are checked
-- against. It is no part of the program.
use obs_rtspserver.Prelude.{
  ℕ, zero, suc, ◌+◌, ◌*◌, ◌≤◌, ◌≡◌, Bool, true, false, Option, none, some, List, [], ◌∷◌, ◌++◌,
  get_or, take, drop, length, if◌then◌else◌,
}
use obs_rtspserver.Rtp.{RtpPacket}
use obs_rtspserver.Packetizer.{Codec}
use obs_rtspserver.Packetizer.Packets.{fragment_header, first_flags, middle_flags, last_flags}

pub data Kind : Type 0 where
  single aggregation fragment : Kind

pub record Receiver : Type 0 where
  pub kind : List ℕ → Kind
  -- The two bits of a fragment's header.
  pub is_start : ℕ → Bool
  pub is_end : ℕ → Bool
  -- The unit's header, from a fragment's two.
  pub restore : List ℕ → ℕ → List ℕ

-- The units of an aggregation packet, each behind its size; the first argument is fuel.
unfoldable pub unpack : ℕ → List ℕ → List (List ℕ)
unpack zero bytes = []
unpack (suc n) [] = []
unpack (suc n) (x ∷ []) = []
unpack (suc n) (x ∷ y ∷ bytes) = take (x * 256 + y) bytes ∷ unpack n (drop (x * 256 + y) bytes)

abbrev or_empty : Option (List ℕ) → List ℕ
or_empty none = []
or_empty (some xs) = xs

-- `size` is the size of a payload's header.
module _ (size : ℕ) (r : Receiver) where
  -- What is known of the fragmented unit when this fragment has come.
  unfoldable pub assemble : Option (List ℕ) → List ℕ → List ℕ
  assemble partial payload =
      let flags = get_or payload size 0 in
      (if r.is_start flags then r.restore (take size payload) flags else or_empty partial)
      ++ drop (size + 1) payload

  -- The units that a list of packets carries, in order.
  unfoldable pub depacketize : Option (List ℕ) → List RtpPacket → List (List ℕ)
  unfolding unpack assemble
  depacketize partial [] = []
  depacketize partial (p ∷ ps) = elim (r.kind p.payload) [
    | single ↦ p.payload ∷ depacketize none ps
    | aggregation ↦ unpack (length p.payload) (drop size p.payload) ++ depacketize none ps
    | fragment ↦ elim (r.is_end (get_or p.payload size 0)) [
      | true ↦ assemble partial p.payload ∷ depacketize none ps
      | false ↦ depacketize (some (assemble partial p.payload)) ps
    ]
  ]

-- What makes a receiver fit a codec, on the units that `IsCarried` holds of.
pub record Compatible {M : Type 0} (c : Codec M) (r : Receiver) (IsCarried : List ℕ → Type 0)
    : Type 0 where
  pub header_le : (u : List ℕ) → IsCarried u → c.header_size ≤ length u
  pub kind_single : (u : List ℕ) → IsCarried u → r.kind u ≡ single
  pub kind_aggregation :
      (m : M) (bytes : List ℕ) → r.kind (c.aggregate_header m ++ bytes) ≡ aggregation
  pub kind_fragment :
      (u bytes : List ℕ) → IsCarried u → r.kind (fragment_header c u ++ bytes) ≡ fragment
  pub at_first :
      (u : List ℕ)
      → IsCarried u
      → (r.is_start (first_flags c u) ≡ true) × (r.is_end (first_flags c u) ≡ false)
  pub at_middle :
      (u : List ℕ)
      → IsCarried u
      → (r.is_start (middle_flags c u) ≡ false) × (r.is_end (middle_flags c u) ≡ false)
  pub at_last :
      (u : List ℕ)
      → IsCarried u
      → (r.is_start (last_flags c u) ≡ false) × (r.is_end (last_flags c u) ≡ true)
  pub restored :
      (u : List ℕ)
      → IsCarried u
      → r.restore (fragment_header c u) (first_flags c u) ≡ take c.header_size u

-- Each unit of a frame is one that `IsCarried` holds of.
abbrev pub AllCarried : (List ℕ → Type 0) → List (List ℕ) → Type 0
AllCarried IsCarried [] = Unit {0}
AllCarried IsCarried (u ∷ us) = IsCarried u × AllCarried IsCarried us
