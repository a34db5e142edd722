-- ===== src/Muxer/Routing.antt =====
-- src/streams/muxer.cpp: where calls on a local frame go.
use beyond_protocol.Prelude.{
  ℕ, ◌%◌, ◌^◌, ◌<◌, ◌≤◌, ◌≡◌, ◌∙◌, sym, ap, subst, none, some, lookup, arith,
}
use beyond_protocol.FrameId.{FrameId, frameset, source, make}
use beyond_protocol.Packet.{StreamPacket, DataPacket}
use beyond_protocol.Children.{Children}
use beyond_protocol.Muxer.{StreamEntry, Muxer, map_from_input, map_to_output, deref, target}
use beyond_protocol.Muxer.Invariant.{IsRemote, Inv}
use beyond_protocol.Muxer.Mapping.{map_from_input-mapped}
use beyond_protocol.Muxer.Calls.{on_packet, post}

-- A local identifier of one of the first 256 framesets fits the two bytes of a packet.
bytes_of_local :
    (m : Muxer) (inv : Inv m) (l id : FrameId) (i : ℕ)
    → m.framesets ≤ 2 ^ 8
    → lookup l.id m.omap ≡ some (id, i)
    → make (frameset l % 2 ^ 8) (source l % 2 ^ 8) ≡ l
unfolding make frameset source
bytes_of_local m inv l id i room h =
    let (fs, known, made) = inv.derived l.id id i h in
    let below = inv.bounded _ fs known in ground arith

target_of :
    (m : Muxer) (l id : FrameId) (e : StreamEntry) (i : ℕ)
    → lookup l.id m.omap ≡ some (id, i)
    → deref i m.streams ≡ some e
    → target m l ≡ some (id, e)
unfolding target map_to_output
target_of m l id e i out there = rw (out, there, target)

module _ (c : Children) (m : Muxer) (inv : Inv m) (s : StreamEntry) (small : s.id < 2 ^ 15)
    (dynamic : s.fixed_fs ≡ none) (alive : deref s.id m.streams ≡ some s)
    (room : m.framesets < 2 ^ 8) (spkt : StreamPacket)
    (bytes : (spkt.stream_id < 2 ^ 8) × (spkt.frame_number < 2 ^ 8)) (pkt : DataPacket) where
  abbrev id : FrameId
  id = make spkt.stream_id spkt.frame_number

  remote : IsRemote id
  unfolding make
  remote = omega arith

  target_of_packet :
      let (m', p) = on_packet m s spkt pkt in
      target m' (make p.first.stream_id p.first.frame_number) ≡ some (id, s)
  unfolding on_packet
  target_of_packet =
      let r = map_from_input-mapped m inv s small id remote alive (omega arith) dynamic in
      let l = (map_from_input m s id).1 in
      let m' = (map_from_input m s id).0 in
      let out = r.ok.forth s.id id l remote r.there in
      let fits = bytes_of_local m' r.ok l id s.id (omega (arith, r.count)) out in
      subst (λ n. target m' n ≡ some (id, s)) (sym fits)
        (target_of m' l id s s.id out (ap (deref s.id) r.same ∙ alive))

  fields :
      ◌≡◌ {A = ℕ × ℕ} (frameset id % 2 ^ 8, source id % 2 ^ 8) (spkt.stream_id, spkt.frame_number)
  unfolding frameset source make
  fields = ground arith

  -- A packet that a child gives names, when the muxer triggers it, a local frame: a packet posted to
  -- that frame reaches that child, and nothing else, under the numbers that the child gave, with the
  -- rest as posted. The child has no fixed frameset and a number below 2^15, and less than
  -- 256 framesets are in use.
  pub post-on_packet :
      (reply : StreamPacket) (body : DataPacket) (w : c.World)
      → let (m', p) = on_packet m s spkt pkt in
        post c m'
          (record reply { stream_id = p.first.stream_id; frame_number = p.first.frame_number })
          body
          w
        ≡ c.post
            (record reply { stream_id = spkt.stream_id; frame_number = spkt.frame_number })
            body
            s.stream
            w
  unfolding post
  post-on_packet reply body w =
      rw (target_of_packet, post)
        (ap (λ p. c.post (record reply { stream_id = p.0; frame_number = p.1 }) body s.stream w)
          fields)
