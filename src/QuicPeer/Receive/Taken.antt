-- ===== src/QuicPeer/Receive/Taken.antt =====
-- One received buffer in OnData of src/quic/src/quic_peer.cpp.
use beyond_protocol.Prelude.{
  ℕ, ◌+◌, ◌-◌, ◌≤◌, ◌≡◌, refl, sym, ap, subst, ◌∙◌, arith, Bool, true, false, not, ◌&&◌, ltb,
  if◌then◌else◌, List, length,
}
use beyond_protocol.Websocket.Read.{Reader, Outcome, abort, undefined, returned, receive}
use beyond_protocol.Websocket.Read.Fuel.{Shrinks, receive-Shrinks}
use beyond_protocol.Websocket.Read.Stays.{StaysFailed, receive-StaysFailed}
use beyond_protocol.QuicPeer.Receive.{
  Receiver, Receipt, check_failed, wrapped, undefined_span, received, make_room, copy_in, unframe,
  receive_one,
}
use beyond_protocol.QuicPeer.Receive.Room.{Follows, HasRoom, make_room-HasRoom, copy_in-Follows}

-- One buffer, as the decoder takes it or as it is.
abbrev pub unframed_one : Bool → Reader → List ℕ → Outcome (List ℕ)
unframed_one ws r b = if ws then receive r b else returned r b

abbrev pub Takes : Receiver → ℕ → Outcome (List ℕ) → Receipt → Type 0
Takes s n abort t = t ≡ check_failed
Takes s n undefined t = t ≡ undefined_span
Takes s n (returned r bytes) t = (s2 : Receiver) × (t ≡ received s2) × Follows s r bytes n s2

has_stream_after : (h a b : Bool) → h ≡ not a → (a ≡ true → b ≡ true) → h && not b ≡ not b
has_stream_after h false b is stays = rw is refl
has_stream_after h true true is stays = rw is refl
has_stream_after h true false is stays = ground (arith, stays refl)

unframe_step :
    (b : List ℕ) (s s1 : Receiver)
    → HasRoom (length b) s s1
    → (o : Outcome (List ℕ)) → Shrinks (length b) o
    → StaysFailed s.reader.error o
    → Takes s (length b) o (elim o [
      | abort ↦ check_failed
      | undefined ↦ undefined_span
      | returned r bytes ↦
          if ltb (length b) (length bytes)
          then wrapped
          else copy_in bytes (record s1 {
            reader = r;
            size_total = s1.size_total + (length b - length bytes);
            has_stream = s1.has_stream && not r.error;
          })
    ])
unframe_step b s s1 room abort fewer stays = refl
unframe_step b s s1 room undefined fewer stays = refl
unframe_step b s s1 room (returned r bytes) fewer stays =
    let whole : ltb (length b) (length bytes) ≡ false = ground arith in
    rw whole (
      copy_in-Follows (length b) (length b - length bytes) bytes r (s1.has_stream && not r.error) s
        s1 room
        (λ h. has_stream_after s1.has_stream s.reader.error r.error (room.follows.streams h) stays)
        (omega arith))

copy_in_plain :
    (b : List ℕ) (s s1 : Receiver)
    → HasRoom (length b) s s1
    → Takes s (length b) (returned s.reader b) (copy_in b s1)
copy_in_plain b s s1 room =
    let same : ◌≡◌ {A = Receiver} (record s1 { reader = s.reader; size_total = s1.size_total + 0 })
        s1 =
      ap (λ r. record s1 { reader = r; size_total = s1.size_total + 0 })
        (sym room.follows.same_reader)
      ∙ ap (λ n. record s1 { size_total = n }) (omega arith) in
    let (s2, copied, follows) =
      copy_in-Follows (length b) 0 b s.reader s1.has_stream s s1 room room.follows.streams
        (omega arith) in
    (s2, ap (copy_in b) (sym same) ∙ copied, follows)

unframe_lem :
    (b : List ℕ) (s s1 : Receiver)
    → HasRoom (length b) s s1
    → Takes s (length b) (receive s.reader b) (unframe b s1)
unfolding unframe
unframe_lem b s s1 room =
    let same = room.follows.same_reader in
    let stays =
      subst (λ r. StaysFailed r.error (receive s1.reader b)) same
        (receive-StaysFailed s1.reader b) in
    subst (λ r. Takes s (length b) (receive r b) (unframe b s1)) same
      (unframe_step b s s1 room (receive s1.reader b) (receive-Shrinks s1.reader b) stays)

by_frame :
    (ws : Bool) (b : List ℕ) (s s1 : Receiver)
    → HasRoom (length b) s s1
    → Takes s (length b) (unframed_one ws s.reader b) (if ws then unframe b s1 else copy_in b s1)
by_frame true b s s1 room = unframe_lem b s s1 room
by_frame false b s s1 room = copy_in_plain b s s1 room

pub receive_one_lem :
    (reserve : ℕ → ℕ → ℕ) (b : List ℕ) (s : Receiver) (ws : Bool)
    → ((room size : ℕ) → size ≤ reserve room size)
    → s.ws_frame ≡ ws
    → Takes s (length b) (unframed_one ws s.reader b) (receive_one reserve b s)
unfolding receive_one
receive_one_lem reserve b s ws gives framed =
    let s1 = make_room reserve (length b) s in
    let room = make_room-HasRoom reserve (length b) s gives in
    subst
      (λ w.
        Takes s (length b) (unframed_one ws s.reader b) (if w then unframe b s1 else copy_in b s1))
      (sym (room.follows.same_frame ∙ framed)) (by_frame ws b s s1 room)
