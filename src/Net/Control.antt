-- ===== src/Net/Control.antt =====
-- src/streams/netstream.cpp: starting and ending a net stream, and selecting what it receives. What the
-- universe answers (whether the URI is bound, and which peer has the stream) is a parameter. The list
-- of the URIs of all hosted streams is left out.
use beyond_protocol.Prelude.{
  ℕ, Bool, true, false, not, ◌&&◌, if◌then◌else◌, List, [], ◌∷◌, ◌++◌, Option, none, some, lookup,
  replicate,
}
use beyond_protocol.Prelude.Int.{ℤ}
use beyond_protocol.FrameId.{FrameId, frameset, source}
use beyond_protocol.Stream.{enabled, enabled_frames}
use beyond_protocol.Children.{Selector, whole, one, several, enable_by}
use beyond_protocol.Net.{Net, Event, enabling, failed}
use beyond_protocol.Net.Requests.{request_channels, request_frames}

-- Error::kURIAlreadyExists and Error::kURIDoesNotExist
abbrev pub uri_already_exists : ℕ
uri_already_exists = 13

abbrev pub uri_does_not_exist : ℕ
uri_does_not_exist = 14

abbrev pub colour : ℕ
colour = 0

-- tally_ has five counters.
unfoldable pub full_tally : Net → List ℕ
full_tally n = replicate 5 n.frames_to_request

-- begin(), with whether the URI is bound already.
unfoldable pub begin : Bool → Net → Net × (Bool × List Event)
begin is_bound n =
    if n.active
    then (n, (true, []))
    else (if is_bound
        then (n, (false, failed uri_already_exists ∷ []))
        else (if n.host
            then (record n { active = true }, (true, []))
            else (record n { active = true; tally = full_tally n }, (true, []))))

unfoldable pub end : Net → Net × Bool
end n = if n.active then (record n { active = false }, true) else (n, false)

unfoldable pub active_frame : Net → ℕ → Bool
active_frame n id = n.active && elim (lookup id n.clients) [ none ↦ false | some cs ↦ true ]

unfoldable pub refresh : Net → ℤ → Net × List Event
refresh n now =
    (record n { tally = full_tally n }, request_frames n now (enabled_frames n.base) true)

-- _enable, with the peer that has the stream and the web service's, where there are such.
unfoldable pub find_peer : Option ℕ → Option ℕ → Net → FrameId → Net × (Bool × List Event)
find_peer found service n f = if n.host then (n, (false, [])) else elim n.peer [
  | some p ↦ (n, (true, []))
  | none ↦ if enabled n.base f.id then (n, (true, [])) else elim found [
    | some p ↦ ask p
    | none ↦ elim service [ some p ↦ ask p | none ↦ (n, (false, failed uri_does_not_exist ∷ [])) ]
  ]
]
  where
    ask : ℕ → Net × (Bool × List Event)
    ask p = (record n { peer = some p }, (true, enabling p (frameset f) (source f) ∷ []))

-- The channels that an overload of enable() asks for.
unfoldable pub asked_channels : Selector → List ℕ
asked_channels whole = colour ∷ []
asked_channels (one c) = c ∷ []
asked_channels (several cs) = cs

-- The three overloads of enable().
unfoldable pub enable :
    Option ℕ → Option ℕ → Net → ℤ → FrameId → Selector → Net × (Bool × List Event)
enable found service n now f sel =
    let (n1, (ok, events)) = find_peer found service n f in
    if not ok
    then (n1, (false, events))
    else (let n2 = record n1 { base = enable_by n1.base f.id sel } in
        (n2, (true, events ++ request_channels n2 now f.id (asked_channels sel) true)))
