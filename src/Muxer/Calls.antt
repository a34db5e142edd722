-- ===== src/Muxer/Calls.antt =====
-- src/streams/muxer.cpp: the calls that go through the muxer to a child, and the handlers that add()
-- gives to a child. The children are a parameter. What a handler triggers is what it returns.
use beyond_protocol.Prelude.{
  ℕ, ◌%◌, ◌^◌, Bool, true, false, ◌==◌, ◌&&◌, ◌||◌, not, if◌then◌else◌, List, [], ◌∷◌, ◌++◌, Option,
  none, some, map,
}
use beyond_protocol.FrameId.{FrameId, frameset, source, make}
use beyond_protocol.Packet.{StreamPacket, DataPacket, PacketPair}
use beyond_protocol.Stream.{Stream, seen, frames}
use beyond_protocol.Children.{
  Selector, enable_by, disable_by, Request, unknown, mixed, Children, and_then_call, call_each,
}
use beyond_protocol.Muxer.{
  Found, no_stream, found_or, find_from_input, StreamEntry, Muxer, map_from_input, target,
  stream_list,
}

-- The maps of the muxer, and what the base class keeps.
pub record MuxerStream : Type 0 where
  pub maps : Muxer
  pub base : Stream

-- The packet handler of add(): the packet that is triggered, with its two bytes that name the frame.
unfoldable pub on_packet : Muxer → StreamEntry → StreamPacket → DataPacket → Muxer × PacketPair
on_packet m ptr spkt pkt =
    let (m', new_id) = map_from_input m ptr (make spkt.stream_id spkt.frame_number) in
    let spkt2 = record spkt {
      stream_id = frameset new_id % 2 ^ 8;
      frame_number = source new_id % 2 ^ 8;
    } in
    (m', record { first = spkt2; second = pkt })

-- The availability handler of add().
unfoldable pub on_available : MuxerStream → StreamEntry → FrameId → ℕ → MuxerStream × Bool
on_available ms ptr id channel =
    let (m', new_id) = map_from_input ms.maps ptr id in
    let (base, told) = seen ms.base new_id.id channel in (record { maps = m'; base = base }, told)

-- id.frameset() == 255 || id.source() == 255
unfoldable pub is_wildcard : FrameId → Bool
is_wildcard id = (frameset id == 255) || (source id == 255)

-- Neither of the two lines that continue the loop holds.
unfoldable pub selects : FrameId → FrameId → Bool
selects id i =
    not (not (frameset id == 255) && not (frameset id == frameset i))
    && not (not (source id == 255) && not (source id == source i))

unfoldable pub request_one : Muxer → StreamEntry → Request → FrameId → Muxer × List Request
request_one m ptr req i =
    let (m', new_id) = map_from_input m ptr i in (m', record req { id = new_id } ∷ [])

unfoldable pub request_each : Muxer → StreamEntry → Request → List FrameId → Muxer × List Request
request_each m ptr req [] = (m, [])
request_each m ptr req (i ∷ is) =
    let (m', out) = if selects req.id i then request_one m ptr req i else (m, []) in
    let (m'', rest) = request_each m' ptr req is in (m'', out ++ rest)

-- An attribute's number, which is not negative, 0 where the URI does not have it.
abbrev number_or_zero : Option ℕ → ℕ
number_or_zero none = 0
number_or_zero (some n) = n

module _ (c : Children) where
  -- The request handler of add(): the requests that are triggered.
  unfoldable pub on_request : Muxer → StreamEntry → Request → c.World → Muxer × List Request
  on_request m ptr req w =
      if is_wildcard req.id
      then request_each m ptr req (c.frames ptr.stream w)
      else request_one m ptr req req.id

  unfoldable pub post : Muxer → StreamPacket → DataPacket → c.World → c.World × Bool
  post m spkt pkt w = elim (target m (make spkt.stream_id spkt.frame_number)) [
    | none ↦ (w, false)
    | some (remote, e) ↦
        c.post
          (record spkt {
            stream_id = frameset remote % 2 ^ 8;
            frame_number = source remote % 2 ^ 8;
          })
          pkt e.stream w
  ]

  unfoldable pub begin : Muxer → c.World → c.World × Bool
  begin m w = and_then_call c.begin true (stream_list m) w

  unfoldable pub end : Muxer → c.World → c.World × Bool
  end m w = and_then_call c.end true (stream_list m) w

  unfoldable pub active : Muxer → c.World → c.World × Bool
  active m w = and_then_call c.active true (stream_list m) w

  unfoldable pub active_frame : Muxer → FrameId → c.World → c.World × Bool
  active_frame m id w = elim (target m id) [
    | none ↦ (w, false)
    | some (remote, e) ↦ c.active_frame remote e.stream w
  ]

  unfoldable pub reset : Muxer → c.World → c.World
  reset m w = call_each c.reset (stream_list m) w

  -- One frame of enable(), for each of its overloads; none is the early return of false.
  unfoldable pub enable_one :
      MuxerStream → FrameId → Selector → c.World → Option ((MuxerStream × c.World) × Bool)
  enable_one ms i sel w = elim (target ms.maps i) [
    | none ↦ none
    | some (remote, e) ↦
        let (w', rr) = c.enable remote sel e.stream w in
        some ((if rr then record ms { base = enable_by ms.base i.id sel } else ms, w'), rr)
  ]

  -- The loop of enable() over the frames.
  unfoldable pub enable_each :
      FrameId
      → Selector
      → Bool
      → List FrameId
      → MuxerStream
      → c.World
      → (MuxerStream × c.World) × Bool
  enable_each id sel r [] ms w = ((ms, w), r)
  enable_each id sel r (i ∷ is) ms w =
      elim (if selects id i then enable_one ms i sel w else some ((ms, w), true)) [
        | none ↦ ((ms, w), false)
        | some ((ms', w'), rr) ↦ enable_each id sel (r && rr) is ms' w'
      ]

  unfoldable pub enable :
      MuxerStream → FrameId → Selector → c.World → (MuxerStream × c.World) × Bool
  enable ms id sel w =
      if is_wildcard id
      then enable_each id sel true (map (λ n. record { id = n }) (frames ms.base)) ms w
      else elim (enable_one ms id sel w) [ none ↦ ((ms, w), false) | some done ↦ done ]

  unfoldable pub disable : MuxerStream → FrameId → Selector → c.World → MuxerStream × c.World
  disable ms id sel w = elim (target ms.maps id) [
    | none ↦ (ms, w)
    | some (remote, e) ↦
        (record ms { base = disable_by ms.base id.id sel }, c.disable remote sel e.stream w)
  ]

  unfoldable pub set_property : Muxer → ℕ → c.Value → c.World → c.World
  set_property m opt value w = call_each (c.set_property opt value) (stream_list m) w

  unfoldable pub get_property_of : ℕ → List ℕ → c.World → c.Value
  get_property_of opt [] w = c.zero_value
  get_property_of opt (s ∷ ss) w =
      let rest = get_property_of opt ss w in
      if c.supports_property opt s w then c.get_property opt s w else rest

  unfoldable pub supports_property_of : ℕ → List ℕ → c.World → Bool
  supports_property_of opt [] w = false
  supports_property_of opt (s ∷ ss) w =
      let rest = supports_property_of opt ss w in if c.supports_property opt s w then true else rest

  -- The loop of type(), with what it has found so far: kUnknown is unknown and kMixed is mixed.
  unfoldable pub type_of : ℕ → List ℕ → c.World → ℕ
  type_of t [] w = t
  type_of t (s ∷ ss) w =
      let tt' = c.stream_type s w in
      type_of (if t == unknown then tt' else (if not (t == tt') then mixed else t)) ss w

  unfoldable pub get_property : Muxer → ℕ → c.World → c.Value
  get_property m opt w = get_property_of opt (stream_list m) w

  unfoldable pub supports_property : Muxer → ℕ → c.World → Bool
  supports_property m opt w = supports_property_of opt (stream_list m) w

  unfoldable pub stream_type : Muxer → c.World → ℕ
  stream_type m w = type_of unknown (stream_list m) w

  -- The entry that the loops of findStream and findLocal find.
  unfoldable pub entry_of_uri : ℕ → List StreamEntry → c.World → Option StreamEntry
  entry_of_uri uri [] w = none
  entry_of_uri uri (e ∷ es) w =
      let rest = entry_of_uri uri es w in if c.uri e.stream w == uri then some e else rest

  -- findStream(uri); none is the null pointer.
  unfoldable pub find_stream : Muxer → ℕ → c.World → Option ℕ
  find_stream m uri w = elim (entry_of_uri uri m.streams w) [ none ↦ none | some e ↦ some e.stream ]

  -- findLocal(uri, remote)
  unfoldable pub find_local_uri : Muxer → ℕ → FrameId → c.World → Found
  find_local_uri m uri remote w = elim (entry_of_uri uri m.streams w) [
    | none ↦ no_stream
    | some e ↦ found_or (find_from_input m e remote)
  ]

  -- findLocal(uri), with the attributes `set` and `frame` of the URI where it has them.
  unfoldable pub find_local_attributes : Muxer → ℕ → Option ℕ → Option ℕ → c.World → Found
  find_local_attributes m uri fsid fid w =
      find_local_uri m uri (make (number_or_zero fsid) (number_or_zero fid)) w
