-- ===== src/Channels.antt =====
-- include/ftl/protocol/channelSet.hpp and src/channelSet.cpp: sets of channels, and the class of a
-- channel (include/ftl/protocol/channelUtils.hpp). A channel is its number; the meta channels below
-- zero are not modelled.
pub mod Laws
use beyond_protocol.Prelude.{
  ℕ, Bool, true, false, ◌==◌, not, ltb, leb, if◌then◌else◌, List, [], ◌∷◌, length, contains, insert,
  insert_all, erase,
}

-- Channel::kEndFrame
abbrev pub end_frame : ℕ
end_frame = 2048

-- isPersistent
unfoldable pub is_persistent : ℕ → Bool
is_persistent c = leb 64 c

-- operator& over a, with `result` so far
unfoldable pub intersect_into : List ℕ → List ℕ → List ℕ → List ℕ
intersect_into [] b result = result
intersect_into (c ∷ a) b result =
    intersect_into a b (if contains c b then insert c result else result)

-- operator&
unfoldable pub intersect : List ℕ → List ℕ → List ℕ
unfolding intersect_into
intersect a b = intersect_into a b []

-- operator|
unfoldable pub union : List ℕ → List ℕ → List ℕ
union a b = insert_all b (insert_all a [])

unfoldable pub difference_into : List ℕ → List ℕ → List ℕ → List ℕ
difference_into [] b result = result
difference_into (c ∷ a) b result =
    difference_into a b (if contains c b then result else insert c result)

-- operator-
unfoldable pub difference : List ℕ → List ℕ → List ℕ
unfolding difference_into
difference a b = difference_into a b []

-- The loop of operator!=
unfoldable pub some_missing : List ℕ → List ℕ → Bool
some_missing [] b = false
some_missing (c ∷ a) b = if contains c b then some_missing a b else true

-- operator!=
unfoldable pub differs : List ℕ → List ℕ → Bool
differs a b = if length a == length b then some_missing a b else true
