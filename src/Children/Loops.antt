-- ===== src/Children/Loops.antt =====
-- What the loops over the streams do, as the list of the calls that they make.
use beyond_protocol.Prelude.{
  ℕ, Bool, true, false, ◌&&◌, ◌||◌, if◌then◌else◌, List, [], ◌∷◌, ◌≡◌, refl, arith, length, ◌==◌,
  Bool-cases, inl, inr,
}
use beyond_protocol.Children.{and_then_call, call_and_then, call_or_then, call_until}

abbrev pub all_true : List Bool → Bool
all_true [] = true
all_true (b ∷ bs) = b && all_true bs

abbrev pub any_true : List Bool → Bool
any_true [] = false
any_true (b ∷ bs) = b || any_true bs

module _ {W : Type 0} (call : ℕ → W → W × Bool) where
  -- Every stream called, in order, with the results.
  abbrev pub call_all : List ℕ → W → W × List Bool
  call_all [] w = (w, [])
  call_all (s ∷ ss) w = let (w', b) = call s w in let (w'', bs) = call_all ss w' in (w'', b ∷ bs)

  -- The streams up to the first that answers false, that one included.
  abbrev pub up_to_false : List ℕ → W → List ℕ
  up_to_false [] w = []
  up_to_false (s ∷ ss) w =
      let (w', b) = call s w in let rest = up_to_false ss w' in if b then s ∷ rest else s ∷ []

  -- The streams up to the first that answers true, that one included.
  abbrev pub up_to_true : List ℕ → W → List ℕ
  up_to_true [] w = []
  up_to_true (s ∷ ss) w =
      let (w', b) = call s w in let rest = up_to_true ss w' in if b then s ∷ [] else s ∷ rest

  pub call_and_then_lem :
      (r : Bool) (ss : List ℕ) (w : W)
      → call_and_then call r ss w ≡ ((call_all ss w).0, all_true (call_all ss w).1 && r)
  unfolding call_and_then
  call_and_then_lem r [] w = refl
  call_and_then_lem r (s ∷ ss) w =
      ground (arith, call_and_then_lem ((call s w).1 && r) ss (call s w).0)

  pub call_or_then_lem :
      (r : Bool) (ss : List ℕ) (w : W)
      → call_or_then call r ss w ≡ ((call_all ss w).0, any_true (call_all ss w).1 || r)
  unfolding call_or_then
  call_or_then_lem r [] w = refl
  call_or_then_lem r (s ∷ ss) w =
      ground (arith, call_or_then_lem ((call s w).1 || r) ss (call s w).0)

  and_then_call-false : (ss : List ℕ) (w : W) → and_then_call call false ss w ≡ (w, false)
  unfolding and_then_call
  and_then_call-false [] w = refl
  and_then_call-false (s ∷ ss) w = and_then_call-false ss w

  pub and_then_call_lem :
      (ss : List ℕ) (w : W)
      → and_then_call call true ss w
        ≡ ((call_all (up_to_false ss w) w).0, all_true (call_all (up_to_false ss w) w).1)
  unfolding and_then_call
  and_then_call_lem [] w = refl
  and_then_call_lem (s ∷ ss) w = elim (Bool-cases (call s w).1) [
    | inl told ↦ ground (arith, told, and_then_call_lem ss (call s w).0)
    | inr denied ↦ ground (arith, denied, and_then_call-false ss (call s w).0)
  ]

  pub call_until_lem :
      (ss : List ℕ) (w : W)
      → call_until call ss w
        ≡ ((call_all (up_to_true ss w) w).0, any_true (call_all (up_to_true ss w) w).1)
  unfolding call_until
  call_until_lem [] w = refl
  call_until_lem (s ∷ ss) w = elim (Bool-cases (call s w).1) [
    | inl told ↦ ground (arith, told)
    | inr denied ↦ ground (arith, denied, call_until_lem ss (call s w).0)
  ]

  pub call_until_empty :
      (ss : List ℕ) (w : W)
      → (if length ss == 0 then (w, false) else call_until call ss w) ≡ call_until call ss w
  unfolding call_until
  call_until_empty [] w = refl
  call_until_empty (s ∷ ss) w = ground arith
