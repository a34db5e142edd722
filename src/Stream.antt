-- ===== src/Stream.antt =====
-- The base class of all streams: include/ftl/protocol/streams.hpp and src/streams/streams.cpp. It
-- keeps, for each frame, whether it and which of its channels are enabled, and which channels have been
-- seen. Calls are taken one at a time; a call that triggers a handler returns what it triggers.
-- Frames are named by their packed identifiers, and channels are not negative.
pub mod Selection
pub mod Seen
use beyond_protocol.Prelude.{
  ℕ, ◌^◌, Bool, true, false, ◌==◌, not, ◌&&◌, if◌then◌else◌, List, [], ◌∷◌, Option, none, some,
  bit_and, bit_or, length, lookup, put, contains, insert, insert_all, erase, zero, suc, ◌+◌, ◌-◌,
}
use beyond_protocol.Channels.{end_frame, is_persistent}
use beyond_protocol.FrameId.{frameset}

-- Stream::FSState
pub record FsState : Type 0 where
  pub enabled : Bool
  pub selected : List ℕ
  pub available_persistent : List ℕ
  pub available_last : ℕ
  pub available_next : ℕ

abbrev pub new_state : FsState
new_state = record {
  enabled = false;
  selected = [];
  available_persistent = [];
  available_last = 0;
  available_next = 0;
}

-- The state_ member.
abbrev pub Stream : Type 0
Stream = List (ℕ × FsState)

-- Whether a mask has a channel's bit: mask & (1ull << channel)
unfoldable pub has_bit : ℕ → ℕ → Bool
has_bit mask channel = not (bit_and mask (2 ^ channel) == 0)

unfoldable pub available : Stream → ℕ → Bool
available s id = elim (lookup id s) [ none ↦ false | some f ↦ true ]

unfoldable pub state_has : FsState → ℕ → Bool
state_has f channel =
    if is_persistent channel
    then contains channel f.available_persistent
    else has_bit f.available_last channel

unfoldable pub available_channel : Stream → ℕ → ℕ → Bool
available_channel s id channel = elim (lookup id s) [ none ↦ false | some f ↦ state_has f channel ]

unfoldable pub state_has_all : FsState → List ℕ → Bool
state_has_all f [] = true
state_has_all f (c ∷ cs) = if state_has f c then state_has_all f cs else false

unfoldable pub available_channels : Stream → ℕ → List ℕ → Bool
available_channels s id channels = elim (lookup id s) [
  | none ↦ false
  | some f ↦ state_has_all f channels
]

-- The loop of channels() over the bits of a mask, from bit `i`, with `left` rounds to go.
unfoldable pub insert_bits : ℕ → ℕ → ℕ → List ℕ → List ℕ
insert_bits zero i last result = result
insert_bits (suc left) i last result =
    insert_bits left (i + 1) last (if has_bit last i then insert i result else result)

unfoldable pub channels : Stream → ℕ → List ℕ
channels s id = elim (lookup id s) [
  | none ↦ []
  | some f ↦ insert_bits 64 0 f.available_last f.available_persistent
]

unfoldable pub frames : Stream → List ℕ
frames [] = []
frames ((id, f) ∷ s) = id ∷ frames s

unfoldable pub enabled_frames : Stream → List ℕ
enabled_frames [] = []
enabled_frames ((id, f) ∷ s) = let rest = enabled_frames s in if f.enabled then id ∷ rest else rest

unfoldable pub enabled_in : ℕ → Stream → List ℕ
enabled_in fs [] = []
enabled_in fs ((id, f) ∷ s) =
    let rest = enabled_in fs s in
    if f.enabled && (frameset (record { id = id }) == fs) then id ∷ rest else rest

unfoldable pub enabled : Stream → ℕ → Bool
enabled s id = elim (lookup id s) [ none ↦ false | some f ↦ f.enabled ]

unfoldable pub enabled_channel : Stream → ℕ → ℕ → Bool
enabled_channel s id channel = elim (lookup id s) [
  | none ↦ false
  | some f ↦ contains channel f.selected
]

unfoldable pub enabled_channels : Stream → ℕ → List ℕ
enabled_channels s id = elim (lookup id s) [ none ↦ [] | some f ↦ f.selected ]

-- state_[id], made if it is missing.
abbrev pub get_state : Stream → ℕ → FsState
get_state s id = elim (lookup id s) [ none ↦ new_state | some f ↦ f ]

unfoldable pub enable : Stream → ℕ → Stream
enable s id = put id (record (get_state s id) { enabled = true }) s

unfoldable pub enable_channel : Stream → ℕ → ℕ → Stream
enable_channel s id channel =
    let f = get_state s id in
    put id (record f { enabled = true; selected = insert channel f.selected }) s

unfoldable pub enable_channels : Stream → ℕ → List ℕ → Stream
enable_channels s id cs =
    let f = get_state s id in
    put id (record f { enabled = true; selected = insert_all cs f.selected }) s

unfoldable pub disable : Stream → ℕ → Stream
disable s id = put id (record (get_state s id) { enabled = false }) s

unfoldable pub erase_all : List ℕ → List ℕ → List ℕ
erase_all [] s = s
erase_all (c ∷ cs) s = erase_all cs (erase c s)

-- What both overloads do after erasing: a frame with nothing selected is disabled.
unfoldable pub with_selected : FsState → List ℕ → FsState
with_selected f rest = record f {
  selected = rest;
  enabled = if length rest == 0 then false else f.enabled;
}

unfoldable pub disable_channel : Stream → ℕ → ℕ → Stream
unfolding with_selected
disable_channel s id channel =
    let f = get_state s id in put id (with_selected f (erase channel f.selected)) s

unfoldable pub disable_channels : Stream → ℕ → List ℕ → Stream
unfolding with_selected
disable_channels s id cs =
    let f = get_state s id in put id (with_selected f (erase_all cs f.selected)) s

unfoldable pub reset : Stream → Stream
reset s = []

-- seen() on the frame's state: the new state, and whether avail_cb_ is triggered.
unfoldable pub see : FsState → ℕ → FsState × Bool
see f channel =
    if channel == end_frame
    then (record f { available_last = f.available_next; available_next = 0 }, true)
    else (if is_persistent channel
        then (if contains channel f.available_persistent
            then (f, false)
            else (record f { available_persistent = insert channel f.available_persistent }, true))
        else (
          record f { available_next = bit_or f.available_next (2 ^ channel) },
          not (has_bit f.available_last channel),
        ))

unfoldable pub seen : Stream → ℕ → ℕ → Stream × Bool
seen s id channel = let (f, told) = see (get_state s id) channel in (put id f s, told)
