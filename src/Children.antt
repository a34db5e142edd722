-- ===== src/Children.antt =====
-- The calls that src/streams/muxer.cpp and src/streams/broadcaster.cpp make of the streams they hold,
-- through the virtual methods of include/ftl/protocol/streams.hpp, and the loops of those calls.
-- What a stream does is a parameter: any function of the call and of the world the streams live in.
pub mod Loops
use beyond_protocol.Prelude.{ℕ, Bool, true, false, ◌&&◌, ◌||◌, if◌then◌else◌, List, [], ◌∷◌}
use beyond_protocol.Prelude.Int.{ℤ}
use beyond_protocol.FrameId.{FrameId}
use beyond_protocol.Packet.{StreamPacket, DataPacket}
use beyond_protocol.Stream.{
  Stream, enable, enable_channel, enable_channels, disable, disable_channel, disable_channels,
}

-- Request, with the frame it asks for.
pub record Request : Type 0 where
  pub id : FrameId
  pub channel : ℕ
  pub bitrate : ℤ
  pub count : ℤ
  pub codec : ℕ

-- StreamType::kMixed and kUnknown.
abbrev pub mixed : ℕ
mixed = 0

abbrev pub unknown : ℕ
unknown = 1

-- Which overload of enable() or disable() is called, with its argument.
pub data Selector : Type 0 where
  whole : Selector
  one : ℕ → Selector
  several : List ℕ → Selector

abbrev pub enable_by : Stream → ℕ → Selector → Stream
enable_by s id whole = enable s id
enable_by s id (one c) = enable_channel s id c
enable_by s id (several cs) = enable_channels s id cs

abbrev pub disable_by : Stream → ℕ → Selector → Stream
disable_by s id whole = disable s id
disable_by s id (one c) = disable_channel s id c
disable_by s id (several cs) = disable_channels s id cs

-- The virtual methods, each with the stream it is called on. `uri` is the text of the property kURI,
-- as a number: texts are only compared.
pub record Children : Type 1 where
  pub World : Type 0
  pub Value : Type 0
  pub zero_value : Value
  pub post : StreamPacket → DataPacket → ℕ → World → World × Bool
  pub begin : ℕ → World → World × Bool
  pub end : ℕ → World → World × Bool
  pub active : ℕ → World → World × Bool
  pub active_frame : FrameId → ℕ → World → World × Bool
  pub reset : ℕ → World → World
  pub enable : FrameId → Selector → ℕ → World → World × Bool
  pub disable : FrameId → Selector → ℕ → World → World
  pub frames : ℕ → World → List FrameId
  pub set_property : ℕ → Value → ℕ → World → World
  pub get_property : ℕ → ℕ → World → Value
  pub supports_property : ℕ → ℕ → World → Bool
  pub stream_type : ℕ → World → ℕ
  pub uri : ℕ → World → ℕ

module _ {W : Type 0} (call : ℕ → W → W × Bool) where
  -- for (auto &s : streams_) r = r && call(s);
  unfoldable pub and_then_call : Bool → List ℕ → W → W × Bool
  and_then_call r [] w = (w, r)
  and_then_call false (s ∷ ss) w = and_then_call false ss w
  and_then_call true (s ∷ ss) w = let (w', r) = call s w in and_then_call r ss w'

  -- for (auto &s : streams_) r = call(s) && r;
  unfoldable pub call_and_then : Bool → List ℕ → W → W × Bool
  call_and_then r [] w = (w, r)
  call_and_then r (s ∷ ss) w = let (w', b) = call s w in call_and_then (b && r) ss w'

  -- for (auto &s : streams_) r = call(s) || r;
  unfoldable pub call_or_then : Bool → List ℕ → W → W × Bool
  call_or_then r [] w = (w, r)
  call_or_then r (s ∷ ss) w = let (w', b) = call s w in call_or_then (b || r) ss w'

  -- for (auto &s : streams_) { if (call(s)) return true; } return false;
  unfoldable pub call_until : List ℕ → W → W × Bool
  call_until [] w = (w, false)
  call_until (s ∷ ss) w =
      let (w', b) = call s w in let rest = call_until ss w' in if b then (w', true) else rest

-- for (auto &s : streams_) call(s);
unfoldable pub call_each : {W : Type 0} → (ℕ → W → W) → List ℕ → W → W
call_each call [] w = w
call_each call (s ∷ ss) w = call_each call ss (call s w)
