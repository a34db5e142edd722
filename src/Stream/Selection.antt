-- ===== src/Stream/Selection.antt =====
-- Which frames and channels are enabled after each of the enabling and disabling calls.
use beyond_protocol.Prelude.{
  ℕ, ◌≡◌, refl, true, false, ◌==◌, not, ◌&&◌, ◌||◌, if◌then◌else◌, List, [], ◌∷◌, length, lookup,
  put, contains, insert, insert_all, erase, IsSetList, arith, lookup-put, contains-insert,
  contains-insert_all, contains-erase, insert-IsSetList, insert_all-IsSetList, erase-IsSetList,
}
use beyond_protocol.Stream.{
  Stream, FsState, get_state, enabled, enabled_channel, enabled_channels, enable, enable_channel,
  enable_channels, disable, erase_all, with_selected, disable_channel, disable_channels, seen, see,
  reset,
}

-- The channels selected for each frame are a set.
abbrev pub IsSelection : Stream → Type 0
IsSelection [] = Unit {0}
IsSelection ((id, f) ∷ s) = IsSetList f.selected × IsSelection s

get_state-IsSetList : (s : Stream) (id : ℕ) → IsSelection s → IsSetList (get_state s id).selected
unfolding lookup
get_state-IsSetList [] id h = tt
get_state-IsSetList ((j, f) ∷ s) id h = ground (arith, get_state-IsSetList s id h.1)

put-IsSelection :
    (id : ℕ) (f : FsState) (s : Stream)
    → IsSetList f.selected
    → IsSelection s
    → IsSelection (put id f s)
unfolding put
put-IsSelection id f [] hf h = (hf, tt)
put-IsSelection id f ((j, g) ∷ s) hf h = ground (arith, put-IsSelection id f s hf h.1)

erase_all-IsSetList : (cs s : List ℕ) → IsSetList s → IsSetList (erase_all cs s)
unfolding erase_all
erase_all-IsSetList [] s h = h
erase_all-IsSetList (c ∷ cs) s h = erase_all-IsSetList cs (erase c s) (erase-IsSetList c s h)

contains-erase_all :
    (d : ℕ) (cs s : List ℕ)
    → IsSetList s
    → contains d (erase_all cs s) ≡ (not (contains d cs) && contains d s)
unfolding erase_all contains
contains-erase_all d [] s h = refl
contains-erase_all d (c ∷ cs) s h =
    ground
      (arith, contains-erase_all d cs (erase c s) (erase-IsSetList c s h), contains-erase c d s h)

enabled-get_state : (s : Stream) (j : ℕ) → enabled s j ≡ (get_state s j).enabled
unfolding enabled
enabled-get_state s j = ground arith

selected-get_state :
    (s : Stream) (j d : ℕ) → enabled_channel s j d ≡ contains d (get_state s j).selected
unfolding enabled_channel contains
selected-get_state s j d = ground arith

enabled-put :
    (i j : ℕ) (f : FsState) (s : Stream)
    → enabled (put i f s) j ≡ (if i == j then f.enabled else enabled s j)
unfolding enabled
enabled-put i j f s = ground (arith, lookup-put i j f s)

selected-put :
    (i j d : ℕ) (f : FsState) (s : Stream)
    → enabled_channel (put i f s) j d
      ≡ (if i == j then contains d f.selected else enabled_channel s j d)
unfolding enabled_channel
selected-put i j d f s = ground (arith, lookup-put i j f s)

-- The calls that enable: the frame is enabled, with the channels given and those before, and no other
-- frame changes.
pub enable_lem :
    (s : Stream) (i j c d : ℕ) (cs : List ℕ)
    → (enabled (enable s i) j ≡ (i == j || enabled s j))
      × (enabled_channel (enable s i) j d ≡ enabled_channel s j d)
      × (enabled (enable_channel s i c) j ≡ (i == j || enabled s j))
      × (enabled_channel (enable_channel s i c) j d ≡ (i == j && c == d || enabled_channel s j d))
      × (enabled (enable_channels s i cs) j ≡ (i == j || enabled s j))
      × (enabled_channel (enable_channels s i cs) j d
          ≡ (i == j && contains d cs || enabled_channel s j d))
unfolding enable enable_channel enable_channels
enable_lem s i j c d cs =
    let f = get_state s i in
    let one : FsState = record f { enabled = true; selected = insert c f.selected } in
    let many : FsState = record f { enabled = true; selected = insert_all cs f.selected } in
    let was = selected-get_state s i d in
    (
      ground (arith, enabled-put i j (record f { enabled = true }) s),
      ground (arith, selected-put i j d (record f { enabled = true }) s, was),
      ground (arith, enabled-put i j one s),
      ground (arith, selected-put i j d one s, contains-insert c d f.selected, was),
      ground (arith, enabled-put i j many s),
      ground (arith, selected-put i j d many s, contains-insert_all d cs f.selected, was),
    )

-- The calls that disable, where each frame's selected channels are a set. Disabling a frame keeps its channels selected. Disabling channels takes
-- them out, and disables the frame exactly when none is left. No other frame changes.
pub disable_lem :
    (s : Stream) (i j c d : ℕ) (cs : List ℕ)
    → IsSelection s
    → (enabled (disable s i) j ≡ (not (i == j) && enabled s j))
      × (enabled_channel (disable s i) j d ≡ enabled_channel s j d)
      × (enabled (disable_channel s i c) j ≡ (
          enabled s j && not (i == j && length (enabled_channels (disable_channel s i c) i) == 0)))
      × (enabled_channel (disable_channel s i c) j d
          ≡ (not (i == j && c == d) && enabled_channel s j d))
      × (enabled (disable_channels s i cs) j ≡ (
          enabled s j
          && not (i == j && length (enabled_channels (disable_channels s i cs) i) == 0)))
      × (enabled_channel (disable_channels s i cs) j d
          ≡ (not (i == j && contains d cs) && enabled_channel s j d))
unfolding disable disable_channel disable_channels enabled_channels
disable_lem s i j c d cs sets =
    let f = get_state s i in
    let set = get_state-IsSetList s i sets in
    let one = with_selected f (erase c f.selected) in
    let many = with_selected f (erase_all cs f.selected) in
    let was = selected-get_state s i d in
    let on = enabled-get_state s i in
    (
      ground (arith, enabled-put i j (record f { enabled = false }) s),
      ground (arith, selected-put i j d (record f { enabled = false }) s, was),
      ground (arith, enabled-put i j one s, on, lookup-put i i one s),
      ground (arith, selected-put i j d one s, contains-erase c d f.selected set, was),
      ground (arith, enabled-put i j many s, on, lookup-put i i many s),
      ground (arith, selected-put i j d many s, contains-erase_all d cs f.selected set, was),
    )

see-selected : (f : FsState) (c : ℕ) → IsSetList f.selected → IsSetList (see f c).0.selected
unfolding see
see-selected f c h = ground arith

-- The calls that change a stream.
pub data Call : Type 0 where
  enables disables : ℕ → Call
  enables_channel disables_channel sees : ℕ → ℕ → Call
  enables_channels disables_channels : ℕ → List ℕ → Call
  resets : Call

pub step : Stream → Call → Stream
step s (enables i) = enable s i
step s (disables i) = disable s i
step s (enables_channel i c) = enable_channel s i c
step s (disables_channel i c) = disable_channel s i c
step s (sees i c) = (seen s i c).0
step s (enables_channels i cs) = enable_channels s i cs
step s (disables_channels i cs) = disable_channels s i cs
step s resets = reset s

-- Every call keeps each frame's selected channels a set.
pub step-IsSelection : (s : Stream) (call : Call) → IsSelection s → IsSelection (step s call)
unfolding step enable disable enable_channel disable_channel enable_channels disable_channels seen
    reset
step-IsSelection s (enables i) h = put-IsSelection i _ s (get_state-IsSetList s i h) h
step-IsSelection s (disables i) h = put-IsSelection i _ s (get_state-IsSetList s i h) h
step-IsSelection s (enables_channel i c) h =
    put-IsSelection i _ s (insert-IsSetList c _ (get_state-IsSetList s i h)) h
step-IsSelection s (disables_channel i c) h =
    put-IsSelection i _ s (erase-IsSetList c _ (get_state-IsSetList s i h)) h
step-IsSelection s (sees i c) h =
    put-IsSelection i _ s (see-selected (get_state s i) c (get_state-IsSetList s i h)) h
step-IsSelection s (enables_channels i cs) h =
    put-IsSelection i _ s (insert_all-IsSetList cs _ (get_state-IsSetList s i h)) h
step-IsSelection s (disables_channels i cs) h =
    put-IsSelection i _ s (erase_all-IsSetList cs _ (get_state-IsSetList s i h)) h
step-IsSelection s resets h = tt
