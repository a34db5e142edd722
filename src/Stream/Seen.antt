-- ===== src/Stream/Seen.antt =====
-- What a stream says is available, against the whole history of what was seen.
use native.Mathlib.Nat.{one-le-pow}
use beyond_protocol.Prelude.{
  ℕ, zero, suc, ◌*◌, ◌^◌, ◌<◌, ◌≤◌, ◌≡◌, ◌∙◌, Bool, false, ◌==◌, not, ◌&&◌, ◌||◌, if◌then◌else◌,
  List, [], ◌∷◌, bit_or, lookup, put, contains, arith, lookup-put, contains-insert, bit, Bool-cases,
  inl, inr, bit-or, bit-two_pow, bit-zero, bit-lt, and_two_pow,
}
use beyond_protocol.Channels.{end_frame, is_persistent}
use beyond_protocol.Stream.{
  Stream, FsState, new_state, has_bit, state_has, available_channel, get_state, see, seen,
}

-- The channels since the last end of a frame, in a history with the newest first.
abbrev pub open_part : List ℕ → List ℕ
open_part [] = []
open_part (c ∷ h) = if c == end_frame then [] else c ∷ open_part h

-- The history before the last end of a frame.
abbrev pub before_end : List ℕ → List ℕ
before_end [] = []
before_end (c ∷ h) = if c == end_frame then h else before_end h

-- The channels of the last complete frame.
abbrev pub last_frame : List ℕ → List ℕ
last_frame h = open_part (before_end h)

-- A persistent channel is available once it has been seen, any other if it belongs to the last complete
-- frame. The end of a frame is no channel of it.
abbrev pub available_after : List ℕ → ℕ → Bool
available_after h c =
    if is_persistent c then contains c h && not (c == end_frame) else contains c (last_frame h)

-- The calls of `seen` with frame and channel, newest first, made on an empty stream.
abbrev pub see_all : List (ℕ × ℕ) → Stream
see_all [] = []
see_all ((id, c) ∷ older) = (seen (see_all older) id c).0

-- What was seen of one frame.
abbrev pub seen_of : ℕ → List (ℕ × ℕ) → List ℕ
seen_of id [] = []
seen_of id ((j, c) ∷ older) = if j == id then c ∷ seen_of id older else seen_of id older

scaled_digit : (b p : ℕ) → b < 2 → 1 ≤ p → not (b * p == 0) ≡ (b == 1)
scaled_digit zero p hb hp = ground arith
scaled_digit (suc zero) p hb hp = ground arith
scaled_digit (suc (suc b)) p hb hp = absurd (omega arith)

pub has_bit-bit : (mask c : ℕ) → has_bit mask c ≡ (bit c mask == 1)
unfolding has_bit
has_bit-bit mask c =
    rw (and_two_pow c mask)
      (scaled_digit (bit c mask) (2 ^ c) (bit-lt c mask) (one-le-pow c 2 (omega arith)))

-- The state of a frame tells its history.
record Tracks (h : List ℕ) (f : FsState) : Type 0 where
  kept :
      (c : ℕ)
      → contains c f.available_persistent
        ≡ (is_persistent c && (contains c h && not (c == end_frame)))
  last :
      (c : ℕ) → is_persistent c ≡ false → (bit c f.available_last == 1) ≡ contains c (last_frame h)
  next :
      (c : ℕ) → is_persistent c ≡ false → (bit c f.available_next == 1) ≡ contains c (open_part h)

new_state-Tracks : Tracks [] new_state
unfolding contains
new_state-Tracks = record {
  kept = λ c. ground arith;
  last = λ c h. ground (arith, bit-zero c);
  next = λ c h. ground (arith, bit-zero c);
}

bit-set : (c d mask : ℕ) → (bit d (bit_or mask (2 ^ c)) == 1) ≡ (c == d || (bit d mask == 1))
bit-set c d mask = ground (arith, bit-or d mask (2 ^ c), bit-two_pow d c, bit-lt d mask)

see-Tracks : (f : FsState) (h : List ℕ) (c : ℕ) → Tracks h f → Tracks (c ∷ h) (see f c).0
unfolding see contains is_persistent
see-Tracks f h c t = record {
  kept = λ d. ground (arith, t.kept d, contains-insert c d f.available_persistent, t.kept c);
  last = λ d p. ground (arith, t.last d, t.next d, bit-zero d);
  next = λ d p. ground (arith, t.next d, bit-set c d f.available_next, bit-zero d);
}

Tracks-available :
    (f : FsState) (h : List ℕ) (c : ℕ) → Tracks h f → state_has f c ≡ available_after h c
unfolding state_has
Tracks-available f h c t = ground (arith, t.kept c, t.last c, has_bit-bit f.available_last c)

pub get_state-put :
    (j id : ℕ) (f : FsState) (s : Stream)
    → get_state (put j f s) id ≡ (if j == id then f else get_state s id)
get_state-put j id f s = ground (arith, lookup-put j id f s)

see_all-Tracks :
    (events : List (ℕ × ℕ)) (id : ℕ) → Tracks (seen_of id events) (get_state (see_all events) id)
unfolding seen
see_all-Tracks [] id = unfold lookup in new_state-Tracks
see_all-Tracks ((j, c) ∷ older) id = elim (Bool-cases (j == id)) [
  | inl hit ↦
      let same : j ≡ id = ground arith in
      rw (get_state-put j id (see (get_state (see_all older) j) c).0 (see_all older), hit, same)
        (see-Tracks (get_state (see_all older) id) _ c (see_all-Tracks older id))
  | inr miss ↦
      rw (get_state-put j id (see (get_state (see_all older) j) c).0 (see_all older), miss)
        (see_all-Tracks older id)
]

new_state_has : (c : ℕ) → state_has new_state c ≡ false
unfolding state_has contains
new_state_has c = ground (arith, has_bit-bit 0 c, bit-zero c)

available-get_state :
    (s : Stream) (id c : ℕ) → available_channel s id c ≡ state_has (get_state s id) c
unfolding available_channel
available-get_state s id c = ground (arith, new_state_has c)

-- After any calls of `seen`, on any frames in any order, a stream says that a channel is available
-- exactly when the history says so: a persistent channel (64 and up) once it was seen, another one
-- when it was seen between the last two ends of the frame.
pub available_channel-see_all :
    (events : List (ℕ × ℕ)) (id c : ℕ)
    → available_channel (see_all events) id c ≡ available_after (seen_of id events) c
available_channel-see_all events id c =
    available-get_state (see_all events) id c
    ∙ Tracks-available (get_state (see_all events) id) _ c (see_all-Tracks events id)

-- The handlers of onAvailable are told of each end of a frame, and of a channel exactly when it was
-- not available yet.
pub seen_told :
    (events : List (ℕ × ℕ)) (id c : ℕ)
    → (seen (see_all events) id c).1
      ≡ (c == end_frame || not (available_after (seen_of id events) c))
unfolding seen see state_has
seen_told events id c =
    let f = get_state (see_all events) id in
    ground (arith, Tracks-available f (seen_of id events) c (see_all-Tracks events id))
