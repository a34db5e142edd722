-- ===== src/Broadcast/Calls.antt =====
-- src/streams/broadcaster.cpp: which streams a call reaches, and what it answers.
use beyond_protocol.Prelude.{true, false, if◌then◌else◌, ◌≡◌, arith, ◌∙◌}
use beyond_protocol.FrameId.{FrameId}
use beyond_protocol.Packet.{StreamPacket, DataPacket}
use beyond_protocol.Children.{Selector, enable_by, Children}
use beyond_protocol.Children.Loops.{
  all_true, any_true, call_all, up_to_false, up_to_true, call_and_then_lem, call_or_then_lem,
  and_then_call_lem, call_until_lem, call_until_empty,
}
use beyond_protocol.Broadcast.{Broadcast, post, begin, end, active_frame, enable}

module _ (c : Children) (b : Broadcast) where
  -- A packet is posted to every stream, in the order they were added, whatever the streams before it
  -- answered, and the answer is true exactly if each of theirs is.
  pub post_lem :
      (spkt : StreamPacket) (pkt : DataPacket) (w : c.World)
      → post c b spkt pkt w ≡ (
        (call_all (c.post spkt pkt) b.streams w).0,
        all_true (call_all (c.post spkt pkt) b.streams w).1,
      )
  unfolding post
  post_lem spkt pkt w = ground (arith, call_and_then_lem (c.post spkt pkt) true b.streams w)

  -- Frames and channels are enabled in every stream, and the answer is true exactly if one of the
  -- streams answered so; then, and only then, the broadcaster's own state is enabled too.
  pub enable_all :
      (id : FrameId) (sel : Selector) (w : c.World)
      → let (w', answers) = call_all (c.enable id sel) b.streams w in
        enable c b id sel w ≡ (
          (if any_true answers then record b { base = enable_by b.base id.id sel } else b, w'),
          any_true answers,
        )
  unfolding enable
  enable_all id sel w = ground (arith, call_or_then_lem (c.enable id sel) false b.streams w)

  -- begin() and end() ask the streams in order and stop after the first that answers false.
  pub begin-end :
      (w : c.World)
      → (begin c b w ≡ (
        (call_all c.begin (up_to_false c.begin b.streams w) w).0,
        all_true (call_all c.begin (up_to_false c.begin b.streams w) w).1,
      ))
        × (end c b w ≡ (
          (call_all c.end (up_to_false c.end b.streams w) w).0,
          all_true (call_all c.end (up_to_false c.end b.streams w) w).1,
        ))
  unfolding begin end
  begin-end w = (and_then_call_lem c.begin b.streams w, and_then_call_lem c.end b.streams w)

  -- A frame is active if it is in one of the streams, which are asked in order up to the first that
  -- answers so; a broadcaster without streams is not active.
  pub active_frame_lem :
      (id : FrameId) (w : c.World)
      → active_frame c b id w ≡ (
        (call_all (c.active_frame id) (up_to_true (c.active_frame id) b.streams w) w).0,
        any_true (call_all (c.active_frame id) (up_to_true (c.active_frame id) b.streams w) w).1,
      )
  unfolding active_frame
  active_frame_lem id w =
      call_until_empty (c.active_frame id) b.streams w
      ∙ call_until_lem (c.active_frame id) b.streams w
