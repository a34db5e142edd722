-- ===== src/Handle.antt =====
-- include/ftl/handle.hpp: the lists of callbacks that handles stand for. A callback is a function of
-- the world; `W` is any world. Locks are held through each call, so calls are taken one at a time; the
-- waiting for jobs of the thread pool in remove() is left out.
pub mod Calls
pub mod Kept
use beyond_protocol.Prelude.{
  ℕ, ◌+◌, Bool, true, false, ◌==◌, ◌||◌, if◌then◌else◌, List, [], ◌∷◌, Option, none, some, put,
  erase_if,
}

-- What a callback does: it returns a Boolean or throws.
pub data Answer : Type 0 where
  returns : Bool → Answer
  throws : Answer

abbrev pub Callback : Type 0 → Type 0
Callback W = W → W × Answer

-- Handler: callbacks_ and id_.
pub record Handler (W : Type 0) : Type 0 where
  pub callbacks : List (ℕ × Callback W)
  pub next_id : ℕ

-- How a trigger ends: normally, by the exception that a false answer gives, or by the one that tells
-- of an exception of a callback.
pub data Fired : Type 0 where
  done not_implemented fault : Fired

abbrev pub fired : Bool → Fired
fired false = done
fired true = fault

module _ {W : Type 0} where
  -- on(): the handle is its number.
  unfoldable pub on : Handler W → Callback W → Handler W × ℕ
  on h f = (record { callbacks = put h.next_id f h.callbacks; next_id = h.next_id + 1 }, h.next_id)

  -- The loop of trigger(), from a fault so far.
  unfoldable pub fire : List (ℕ × Callback W) → Bool → W → W × Fired
  fire [] had_fault w = (w, fired had_fault)
  fire ((id, f) ∷ fs) had_fault w = elim ((f w).1) [
    | returns keep ↦
        let rest = fire fs had_fault (f w).0 in if keep then rest else ((f w).0, not_implemented)
    | throws ↦ fire fs true (f w).0
  ]

  unfoldable pub trigger : Handler W → W → W × Fired
  trigger h w = fire h.callbacks false w

  -- The loop of the job of triggerAsync(): the callbacks that stay, the world, and whether one threw.
  unfoldable pub fire_erasing :
      List (ℕ × Callback W) → Bool → W → (List (ℕ × Callback W) × W) × Bool
  fire_erasing [] had_fault w = (([], w), had_fault)
  fire_erasing ((id, f) ∷ fs) had_fault w = elim ((f w).1) [
    | returns keep ↦
        let ((kept, w'), fault') = fire_erasing fs had_fault (f w).0 in
        ((if keep then (id, f) ∷ kept else kept, w'), fault')
    | throws ↦
        let ((kept, w'), fault') = fire_erasing fs true (f w).0 in (((id, f) ∷ kept, w'), fault')
  ]

  -- The job of triggerAsync().
  unfoldable pub trigger_async : Handler W → W → (Handler W × W) × Fired
  trigger_async h w =
      let ((kept, w'), had_fault) = fire_erasing h.callbacks false w in
      ((record h { callbacks = kept }, w'), fired had_fault)

  -- remove() and removeUnsafe()
  unfoldable pub remove : Handler W → ℕ → Handler W
  remove h id = record h { callbacks = erase_if (λ key f. key == id) h.callbacks }

  unfoldable pub clear : Handler W → Handler W
  clear h = record h { callbacks = [] }

-- SingletonHandler: callback_ and id_.
pub record Singleton (W : Type 0) : Type 0 where
  pub callback : Option (Callback W)
  pub next_id : ℕ

-- How its trigger ends: with what it returns, or by the callback's own exception.
pub data SingleFired : Type 0 where
  returned : Bool → SingleFired
  threw : SingleFired

module _ {W : Type 0} where
  -- on(); none is the exception "Callback already bound".
  unfoldable pub bind : Singleton W → Callback W → Option (Singleton W × ℕ)
  bind h f = elim h.callback [
    | none ↦ some (record { callback = some f; next_id = h.next_id + 1 }, h.next_id)
    | some g ↦ none
  ]

  unfoldable pub trigger_single : Singleton W → W → (Singleton W × W) × SingleFired
  trigger_single h w = elim h.callback [
    | none ↦ ((h, w), returned false)
    | some f ↦ elim ((f w).1) [
      | returns keep ↦ ((if keep then h else record h { callback = none }, (f w).0), returned keep)
      | throws ↦ ((h, (f w).0), threw)
    ]
  ]

  -- remove() and removeUnsafe(), which compare with id_-1.
  unfoldable pub unbind : Singleton W → ℕ → Singleton W
  unbind h id = if id + 1 == h.next_id then record h { callback = none } else h

  unfoldable pub unbind_all : Singleton W → Singleton W
  unbind_all h = record h { callback = none }
