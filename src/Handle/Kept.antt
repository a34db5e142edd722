-- ===== src/Handle/Kept.antt =====
-- include/ftl/handle.hpp: what a handle stands for over any calls of on() and remove().
use beyond_protocol.Prelude.{ℕ, ◌≢◌, List, [], ◌∷◌}
use beyond_protocol.Handle.{Callback, Handler, on, remove}

-- A handler before anything is added.
abbrev pub new_handler : {W : Type 0} → Handler W
new_handler = record { callbacks = []; next_id = 0 }

-- A callback is added, or one is removed by its handle.
pub data Op (W : Type 0) : Type 0 where
  adds : Callback W → Op W
  removes : ℕ → Op W

module _ {W : Type 0} where
  abbrev pub call : Op W → Handler W → Handler W
  call (adds f) h = (on h f).0
  call (removes id) h = remove h id

  abbrev pub run : List (Op W) → Handler W → Handler W
  run [] h = h
  run (op ∷ ops) h = run ops (call op h)

  -- None of the calls removes by the handle.
  abbrev pub Leaves : ℕ → List (Op W) → Type 0
  Leaves id [] = Unit {0}
  Leaves id (adds f ∷ ops) = Leaves id ops
  Leaves id (removes j ∷ ops) = (j ≢ id) × Leaves id ops
