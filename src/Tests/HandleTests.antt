-- ===== src/Tests/HandleTests.antt =====
-- include/ftl/handle.hpp at concrete inputs.
use beyond_protocol.Prelude.{ℕ, true, false, List, [], ◌∷◌, ◌++◌}
use beyond_protocol.Handle.{returns, throws, Callback, Handler}
use beyond_protocol.Handle.Kept.{Op, adds, removes}

-- Callbacks that write down their number.
abbrev stay : ℕ → Callback (List ℕ)
stay n w = (w ++ n ∷ [], returns true)

abbrev leave : ℕ → Callback (List ℕ)
leave n w = (w ++ n ∷ [], returns false)

abbrev break : ℕ → Callback (List ℕ)
break n w = (w ++ n ∷ [], throws)

-- Two callbacks, of which the first is removed, before the third is added; then a fourth.
abbrev calls_before : List (Op (List ℕ))
calls_before = adds (stay 1) ∷ adds (leave 2) ∷ removes 0 ∷ []

abbrev calls_after : List (Op (List ℕ))
calls_after = adds (break 4) ∷ removes 1 ∷ []

abbrev with_third : Handler (List ℕ)
with_third = record { callbacks = (1, leave 2) ∷ (2, stay 3) ∷ []; next_id = 3 }
