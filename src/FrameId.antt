-- ===== src/FrameId.antt =====
-- include/ftl/protocol/frameid.hpp: the packed 32-bit identifier of a frame.
use beyond_protocol.Prelude.{ℕ, ◌+◌, ◌*◌, ◌/◌, ◌%◌, ◌^◌, ◌<◌, ◌≡◌, arith}

pub record FrameId : Type 0 where
  pub id : ℕ

-- id >> 8
unfoldable pub frameset : FrameId → ℕ
frameset f = f.id / 2 ^ 8

-- id & 0xff
unfoldable pub source : FrameId → ℕ
source f = f.id % 2 ^ 8

-- (fs << 8) + (s & 0xff), in uint32_t
unfoldable pub make : ℕ → ℕ → FrameId
make fs s = record { id = (fs * 2 ^ 8 + s % 2 ^ 8) % 2 ^ 32 }

-- A frameset below 2^24 comes back whole, and so does the low byte of a source.
pub fields-make :
    (fs s : ℕ) → fs < 2 ^ 24 → (frameset (make fs s) ≡ fs) × (source (make fs s) ≡ s % 2 ^ 8)
unfolding frameset source make
fields-make fs s h = omega arith

-- Every 32-bit identifier is the packing of its own two fields.
pub make-fields : (f : FrameId) → f.id < 2 ^ 32 → make (frameset f) (source f) ≡ f
unfolding frameset source make
make-fields f h = ground arith
