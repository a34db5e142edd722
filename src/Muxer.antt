-- ===== src/Muxer.antt =====
-- include/ftl/protocol/muxer.hpp and src/streams/muxer.cpp: several child streams shown as one, under
-- local frame identifiers. This file has the maps between local and remote identifiers and the calls
-- that change them. Calls are taken one at a time (each holds the mutex while it reads or writes).
pub mod Calls
pub mod Invariant
pub mod Enable
pub mod Entries
pub mod Reached
pub mod Fixed
pub mod Mapping
pub mod Routing
use beyond_protocol.Prelude.{
  ℕ, ◌+◌, ◌*◌, ◌/◌, ◌%◌, ◌^◌, Bool, true, false, ◌==◌, if◌then◌else◌, List, [], ◌∷◌, ◌++◌, Option,
  none, some, bit_or, lookup, put, erase_if, map,
}
use beyond_protocol.FrameId.{FrameId, frameset, source, make}
use beyond_protocol.Stream.{Stream}

-- Muxer::StreamEntry. `stream` is the identity of the child, and `fixed_fs` is none where the source has
-- a negative number. `id` also stands for the entry's address: `deref` finds the entry that a pointer
-- leads to. The handles are not kept: an entry's callbacks run while it is in the list.
pub record StreamEntry : Type 0 where
  pub stream : ℕ
  pub id : ℕ
  pub fixed_fs : Option ℕ

-- The maps are keyed by numbers: `imap` by stream id and remote frame, `omap` by local frame.
pub record Muxer : Type 0 where
  pub fsmap : List (ℕ × ℕ)
  pub sourcecount : List (ℕ × ℕ)
  pub imap : List (ℕ × FrameId)
  pub omap : List (ℕ × (FrameId × ℕ))
  pub streams : List StreamEntry
  pub stream_ids : ℕ
  pub framesets : ℕ

abbrev pub empty : Muxer
empty = record {
  fsmap = [];
  sourcecount = [];
  imap = [];
  omap = [];
  streams = [];
  stream_ids = 0;
  framesets = 0;
}

-- (int64_t(s->id) << 32) | id.id
unfoldable pub input_key : StreamEntry → FrameId → ℕ
input_key s id = bit_or (s.id * 2 ^ 32) id.id

-- (s->id << 16) | id.frameset(), in 32 bits
unfoldable pub frameset_key : StreamEntry → FrameId → ℕ
frameset_key s id = bit_or (s.id * 2 ^ 16 % 2 ^ 32) (frameset id)

-- What operator[] gives for a counter.
abbrev pub count_of : Option ℕ → ℕ
count_of none = 0
count_of (some n) = n

-- imap_[iid] = newID; omap_[newID] = {id, s};
unfoldable pub register : Muxer → StreamEntry → FrameId → FrameId → Muxer
register m s id new_id = record m {
  imap = put (input_key s id) new_id m.imap;
  omap = put new_id.id (id, s.id) m.omap;
}

-- A new identifier in a fixed frameset: the next source number.
unfoldable pub allocate_fixed : Muxer → StreamEntry → FrameId → ℕ → Muxer × FrameId
allocate_fixed m s id fs =
    let src = count_of (lookup fs m.sourcecount) in
    let new_id = make fs src in
    (register (record m { sourcecount = put fs (src + 1) m.sourcecount }) s id new_id, new_id)

-- The local frameset of a remote one, made if it is missing.
unfoldable pub local_frameset : Muxer → ℕ → Muxer × ℕ
local_frameset m key = elim (lookup key m.fsmap) [
  | none ↦
      (record m { fsmap = put key m.framesets m.fsmap; framesets = m.framesets + 1 }, m.framesets)
  | some fs ↦ (m, fs)
]

unfoldable pub allocate_dynamic : Muxer → StreamEntry → FrameId → Muxer × FrameId
allocate_dynamic m s id =
    let (m', fs) = local_frameset m (frameset_key s id) in
    let new_id = make fs (source id) in (register m' s id new_id, new_id)

abbrev pub allocate : Muxer → StreamEntry → FrameId → Option ℕ → Muxer × FrameId
allocate m s id none = allocate_dynamic m s id
allocate m s id (some fs) = allocate_fixed m s id fs

-- _mapFromInput(StreamEntry *, FrameID)
unfoldable pub map_from_input : Muxer → StreamEntry → FrameId → Muxer × FrameId
map_from_input m s id = elim (lookup (input_key s id) m.imap) [
  | none ↦ allocate m s id s.fixed_fs
  | some local ↦ (m, local)
]

-- _mapFromInput(const StreamEntry *, FrameID) const; none is the exception "No mapping".
unfoldable pub find_from_input : Muxer → StreamEntry → FrameId → Option FrameId
find_from_input m s id = lookup (input_key s id) m.imap

-- _mapToOutput; none is the null entry.
unfoldable pub map_to_output : Muxer → FrameId → Option (FrameId × ℕ)
map_to_output m id = lookup id.id m.omap

-- The entry at an address; none is a dangling pointer.
unfoldable pub deref : ℕ → List StreamEntry → Option StreamEntry
deref i [] = none
deref i (e ∷ es) = if e.id == i then some e else deref i es

-- The remote frame and the entry behind a local frame, as the callers of _mapToOutput use them. A
-- pointer to an entry that is gone counts as the null entry.
unfoldable pub target : Muxer → FrameId → Option (FrameId × StreamEntry)
target m id = elim (map_to_output m id) [
  | none ↦ none
  | some (remote, i) ↦ elim (deref i m.streams) [ none ↦ none | some e ↦ some (remote, e) ]
]

-- findRemote; none is the exception "No mapping".
unfoldable pub find_remote : Muxer → FrameId → Option FrameId
find_remote m local = elim (map_to_output m local) [ none ↦ none | some (remote, s) ↦ some remote ]

-- originStream; none is the null pointer.
unfoldable pub origin_stream : Muxer → FrameId → Option ℕ
origin_stream m id = elim (target m id) [ none ↦ none | some (remote, s) ↦ some s.stream ]

unfoldable pub find_entry : ℕ → List StreamEntry → Option StreamEntry
find_entry stream [] = none
find_entry stream (e ∷ es) = if e.stream == stream then some e else find_entry stream es

-- The exceptions of the lookups below.
pub data Found : Type 0 where
  no_stream no_mapping : Found
  found : FrameId → Found

abbrev pub found_or : Option FrameId → Found
found_or none = no_mapping
found_or (some id) = found id

-- findLocal(stream, remote)
unfoldable pub find_local : Muxer → ℕ → FrameId → Found
find_local m stream remote = elim (find_entry stream m.streams) [
  | none ↦ no_stream
  | some e ↦ found_or (find_from_input m e remote)
]

-- findOrCreateLocal; none is the exception "No stream".
unfoldable pub find_or_create_local : Muxer → ℕ → FrameId → Option (Muxer × FrameId)
find_or_create_local m stream remote = elim (find_entry stream m.streams) [
  | none ↦ none
  | some e ↦ some (map_from_input m e remote)
]

-- streams()
unfoldable pub stream_list : Muxer → List ℕ
stream_list m = map (λ e. e.stream) m.streams

-- The entry that add() makes.
abbrev pub new_entry : Muxer → ℕ → Option ℕ → StreamEntry
new_entry m stream fsid = record { stream = stream; id = m.stream_ids; fixed_fs = fsid }

unfoldable pub add : Muxer → ℕ → Option ℕ → Muxer
add m stream fsid = record m {
  streams = m.streams ++ new_entry m stream fsid ∷ [];
  stream_ids = m.stream_ids + 1;
}

-- streams_.erase of the entry found
unfoldable pub erase_entry : ℕ → List StreamEntry → List StreamEntry
erase_entry stream [] = []
erase_entry stream (e ∷ es) = if e.stream == stream then es else e ∷ erase_entry stream es

unfoldable pub remove : Muxer → ℕ → Muxer
remove m stream = elim (find_entry stream m.streams) [
  | none ↦ m
  | some se ↦ record m {
    imap = erase_if (λ key local. key / 2 ^ 32 == se.id) m.imap;
    omap = erase_if (λ local p. p.1 == se.id) m.omap;
    streams = erase_entry stream m.streams;
  }
]
