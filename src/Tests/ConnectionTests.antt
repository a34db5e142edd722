-- ===== src/Tests/ConnectionTests.antt =====
-- src/protocol/connection.cpp: writev at concrete inputs.
use beyond_protocol.Prelude.{ℕ, ◌≡◌, refl, arith, true, false, List, [], ◌∷◌}
use beyond_protocol.Connection.{
  Answer, sent, failed, returned, fatal, requested_of, skip, resend, writev,
}
use beyond_protocol.Connection.Gather.{gather}
use beyond_protocol.Connection.Sent.{writev-gather, writev_all}

abbrev two_buffers : List (List ℕ)
two_buffers = (1 ∷ 2 ∷ 3 ∷ []) ∷ (4 ∷ 5 ∷ []) ∷ []

-- One byte, a failure that is not fatal, three bytes, and the last.
abbrev in_parts : List Answer
in_parts = sent 1 ∷ failed false ∷ sent 3 ∷ sent 1 ∷ []

writev-gather_example :
    writev (sent 4 ∷ failed true ∷ []) two_buffers
    ≡ gather (sent 4 ∷ failed true ∷ []) 5 (1 ∷ 2 ∷ 3 ∷ 4 ∷ 5 ∷ []) []
writev-gather_example = writev-gather (sent 4 ∷ failed true ∷ []) two_buffers (omega arith, tt)

writev_all_example : writev in_parts two_buffers ≡ (returned 5, 1 ∷ 2 ∷ 3 ∷ 4 ∷ 5 ∷ [])
writev_all_example = writev_all in_parts two_buffers refl (omega arith) refl

-- A fatal answer after four bytes.
writev_fatal : writev (sent 4 ∷ failed true ∷ []) two_buffers ≡ (fatal, 1 ∷ 2 ∷ 3 ∷ 4 ∷ [])
unfolding writev skip resend requested_of
writev_fatal = refl
