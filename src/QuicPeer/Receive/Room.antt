-- ===== src/QuicPeer/Receive/Room.antt =====
-- What OnData of src/quic/src/quic_peer.cpp does with the bytes of received buffers.
use mathlib.Core.List.{append-nil, append_assoc}
use beyond_protocol.Prelude.{
  ℕ, ◌+◌, ◌-◌, ◌*◌, ◌≤◌, ◌≡◌, inl, inr, refl, sym, ap, ◌∙◌, arith, max, Bool, false, not, ltb, List,
  [], ◌++◌, length, length-append, Bool-cases,
}
use beyond_protocol.Websocket.Read.{Reader}
use beyond_protocol.QuicPeer.Receive.{Receiver, received, buffer_consumed, make_room, copy_in}

-- What is known of a receiver and one that it becomes: all bytes written, in order, and the bytes counted.
pub record Follows (s : Receiver) (r : Reader) (bytes : List ℕ) (n : ℕ) (s1 : Receiver)
    : Type 0 where
  pub same_reader : s1.reader ≡ r
  pub same_frame : s1.ws_frame ≡ s.ws_frame
  pub same_told : s1.consumed ≡ s.consumed
  pub written : s1.parsed ++ s1.copied ≡ (s.parsed ++ s.copied) ++ bytes
  pub counted : length s1.copied + s1.size_total ≡ length s.copied + s.size_total + n
  pub streams : s.has_stream ≡ not s.reader.error → s1.has_stream ≡ not r.error

pub record HasRoom (n : ℕ) (s s1 : Receiver) : Type 0 where
  pub follows : Follows s s.reader [] 0 s1
  pub enough : n + length s1.copied ≤ s1.capacity

pub make_room-HasRoom :
    (reserve : ℕ → ℕ → ℕ) (n : ℕ) (s : Receiver)
    → ((room size : ℕ) → size ≤ reserve room size)
    → HasRoom n s (make_room reserve n s)
unfolding make_room buffer_consumed
make_room-HasRoom reserve n s gives = elim (Bool-cases (ltb s.capacity (n + length s.copied))) [
  | inl full ↦ rw full (record {
    follows = record {
      same_reader = refl;
      same_frame = refl;
      same_told = refl;
      written = refl;
      counted = omega arith;
      streams = λ h. h;
    };
    enough = let h = gives (s.capacity - length s.copied) (max (1024 * 512) n) in ground arith;
  })
  | inr fits ↦ rw fits (record {
    follows = record {
      same_reader = refl;
      same_frame = refl;
      same_told = refl;
      written = sym (append-nil (s.parsed ++ s.copied));
      counted = omega arith;
      streams = λ h. h;
    };
    enough = ground arith;
  })
]

HasRoom-fits :
    (n : ℕ) (s s1 : Receiver)
    → HasRoom n s s1
    → (m : ℕ) → m ≤ n
    → ltb s1.capacity (length s1.copied + m) ≡ false
HasRoom-fits n s s1 room m less = let h = room.enough in ground arith

pub copy_in-Follows :
    (n m : ℕ) (bytes : List ℕ) (r : Reader) (h : Bool) (s s1 : Receiver)
    → HasRoom n s s1
    → (s.has_stream ≡ not s.reader.error → h ≡ not r.error)
    → length bytes + m ≡ n
    → (s2 : Receiver) × (copy_in bytes
          (record s1 { reader = r; size_total = s1.size_total + m; has_stream = h })
        ≡ received s2)
      × Follows s r bytes n s2
unfolding copy_in
copy_in-Follows n m bytes r h s s1 room alive whole =
    let f = room.follows in
    let fits = HasRoom-fits n s s1 room (length bytes) (omega arith) in
    let longer = length-append s1.copied bytes in
    let counted = f.counted in
    rw fits (
      _,
      refl,
      record {
        same_reader = refl;
        same_frame = f.same_frame;
        same_told = f.same_told;
        written =
            sym (append_assoc s1.parsed s1.copied bytes)
            ∙ ap (λ w. w ++ bytes) (f.written ∙ append-nil (s.parsed ++ s.copied));
        counted = omega arith;
        streams = alive;
      },
    )
