-- ===== src/Muxer/Enable.antt =====
-- src/streams/muxer.cpp, enable(): what holds after it answers true, wildcards included.
use beyond_protocol.Prelude.{
  ℕ, ◌/◌, ◌%◌, ◌⊎◌, ◌≡◌, refl, sym, subst, Bool, true, false, ◌==◌, ◌&&◌, if◌then◌else◌, List, [],
  ◌∷◌, Option, none, some, contains, map, arith, Bool-cases, inl, inr,
}
use beyond_protocol.FrameId.{FrameId, frameset, source}
use beyond_protocol.Stream.{Stream, enabled, enabled_channel, frames}
use beyond_protocol.Stream.Selection.{enable_lem}
use beyond_protocol.Children.{Selector, whole, one, several, enable_by, Children}
use beyond_protocol.Muxer.{StreamEntry, target}
use beyond_protocol.Muxer.Calls.{MuxerStream, selects, is_wildcard, enable_one, enable_each, enable}

-- Whether a selector has a channel.
abbrev pub asks : Selector → ℕ → Bool
asks whole d = false
asks (one c) d = c == d
asks (several cs) d = contains d cs

-- A frame is enabled, with the channels that a selector has.
abbrev pub Enabled : Stream → ℕ → Selector → Type 0
Enabled s i sel =
    (enabled s i ≡ true) × ((d : ℕ) → asks sel d ≡ true → enabled_channel s i d ≡ true)

enable_by-Enabled : (s : Stream) (i : ℕ) (sel : Selector) → Enabled (enable_by s i sel) i sel
enable_by-Enabled s i whole = (ground (arith, enable_lem s i i 0 0 []), λ d h. ground arith)
enable_by-Enabled s i (one c) =
    (ground (arith, enable_lem s i i c 0 []), λ d h. ground (arith, enable_lem s i i c d []))
enable_by-Enabled s i (several cs) =
    (ground (arith, enable_lem s i i 0 0 cs), λ d h. ground (arith, enable_lem s i i 0 d cs))

enable_by-keeps :
    (s : Stream) (i j : ℕ) (sel kept : Selector)
    → Enabled s j kept
    → Enabled (enable_by s i sel) j kept
enable_by-keeps s i j whole kept (on, all) = (
  ground (arith, on, enable_lem s i j 0 0 []),
  λ d h. ground (arith, all d h, enable_lem s i j 0 d []),
)
enable_by-keeps s i j (one c) kept (on, all) = (
  ground (arith, on, enable_lem s i j c 0 []),
  λ d h. ground (arith, all d h, enable_lem s i j c d []),
)
enable_by-keeps s i j (several cs) kept (on, all) = (
  ground (arith, on, enable_lem s i j 0 0 cs),
  λ d h. ground (arith, all d h, enable_lem s i j 0 d cs),
)

-- What a step of enable() leaves, unless it is the early return; `b` is whether the frame is selected.
abbrev Stepped :
    {W : Type 0} → MuxerStream → ℕ → Selector → Bool → Option ((MuxerStream × W) × Bool) → Type 0
Stepped ms i sel b none = Unit {0}
Stepped ms i sel b (some ((ms', w'), rr)) =
    (b ≡ true → (rr ≡ true) → Enabled ms'.base i sel)
    × ((j : ℕ) (kept : Selector) → Enabled ms.base j kept → Enabled ms'.base j kept)

-- Every frame of a list that a wildcard selects is enabled.
abbrev EachEnabled : Stream → FrameId → Selector → List FrameId → Type 0
EachEnabled s id sel [] = Unit {0}
EachEnabled s id sel (i ∷ is) = (selects id i ≡ true → Enabled s i.id sel) × EachEnabled s id sel is

answered :
    {W : Type 0} (ms : MuxerStream) (i : ℕ) (sel : Selector) (w : W) (rr : Bool)
    → Stepped ms i sel true
        (some ((if rr then record ms { base = enable_by ms.base i sel } else ms, w), rr))
answered ms i sel w true =
    (λ b h. enable_by-Enabled ms.base i sel, λ j. enable_by-keeps ms.base i j sel)
answered ms i sel w false = (λ b h. ground arith, λ j kept h. h)

module _ (c : Children) (sel : Selector) where
  enable_one-Stepped :
      (ms : MuxerStream) (i : FrameId) (w : c.World)
      → Stepped ms i.id sel true (enable_one c ms i sel w)
  unfolding enable_one
  enable_one-Stepped ms i w = go (target ms.maps i)
    where
      go :
          (o : Option (FrameId × StreamEntry))
          → Stepped ms i.id sel true (elim o [
            | none ↦ none
            | some (remote, e) ↦
                let (w', rr) = c.enable remote sel e.stream w in
                some ((if rr then record ms { base = enable_by ms.base i.id sel } else ms, w'), rr)
          ])
      go none = tt
      go (some (remote, e)) =
          answered ms i.id sel (c.enable remote sel e.stream w).0 (c.enable remote sel e.stream w).1

  step-Stepped :
      (ms : MuxerStream) (i : FrameId) (w : c.World) (b : Bool)
      → Stepped ms i.id sel b (if b then enable_one c ms i sel w else some ((ms, w), true))
  step-Stepped ms i w true = enable_one-Stepped ms i w
  step-Stepped ms i w false = (λ b. ground arith, λ j kept h. h)

  -- What the loop of enable() leaves after the frames `is`, from a muxer and an answer so far.
  abbrev Looped :
      FrameId → Bool → List FrameId → MuxerStream → (MuxerStream × c.World) × Bool → Type 0
  Looped id r is ms res =
      (res.1 ≡ true → (r ≡ true) × EachEnabled res.0.0.base id sel is)
      × ((j : ℕ) (kept : Selector) → Enabled ms.base j kept → Enabled res.0.0.base j kept)

  module _ (id : FrameId) (r : Bool) (i : FrameId) (is : List FrameId) (ms : MuxerStream)
      (w : c.World)
      (again : (rr : Bool) (ms' : MuxerStream) (w' : c.World)
        → Looped id (r && rr) is ms' (enable_each c id sel (r && rr) is ms' w')) where
    loop_step :
        (o : Option ((MuxerStream × c.World) × Bool))
        → Stepped ms i.id sel (selects id i) o
        → Looped id r (i ∷ is) ms (elim o [
          | none ↦ ((ms, w), false)
          | some ((ms', w'), rr) ↦ enable_each c id sel (r && rr) is ms' w'
        ])
    loop_step none s = (λ h. ground arith, λ j kept h. h)
    loop_step (some ((ms', w'), rr)) (done, keeps) =
        let (all, keeps') = again rr ms' w' in
        (
          λ h.
              let (both, rest) = all h in
              (ground arith, (λ b. keeps' i.id sel (done b (ground arith)), rest)),
          λ j kept h. keeps' j kept (keeps j kept h),
        )

  enable_each_lem :
      (id : FrameId) (r : Bool) (is : List FrameId) (ms : MuxerStream) (w : c.World)
      → Looped id r is ms (enable_each c id sel r is ms w)
  unfolding enable_each
  enable_each_lem id r [] ms w = (λ h. (h, tt), λ j kept h. h)
  enable_each_lem id r (i ∷ is) ms w =
      loop_step id r i is ms w (λ rr ms' w'. enable_each_lem id (r && rr) is ms' w')
        (if selects id i then enable_one c ms i sel w else some ((ms, w), true))
        (step-Stepped ms i w (selects id i))

EachEnabled-contains :
    (s : Stream) (id : FrameId) (sel : Selector) (ns : List ℕ) (n : ℕ)
    → EachEnabled s id sel (map (λ k. record { id = k }) ns)
    → contains n ns ≡ true
    → selects id (record { id = n }) ≡ true
    → Enabled s n sel
unfolding contains
EachEnabled-contains s id sel [] n each h chosen = ground arith
EachEnabled-contains s id sel (m ∷ ns) n (first, rest) h chosen = elim (Bool-cases (m == n)) [
  | inl same ↦
      let equal : m ≡ n = ground arith in
      subst (λ k. Enabled s k sel) equal
        (first (subst (λ k. selects id (record { id = k }) ≡ true) (sym equal) chosen))
  | inr other ↦ EachEnabled-contains s id sel ns n rest (ground arith) chosen
]

-- The frames that enable() is asked for: with 255 as frameset or source, those seen that agree with
-- the other number.
abbrev pub chosen : MuxerStream → FrameId → ℕ → Bool
chosen ms id n =
    if is_wildcard id
    then contains n (frames ms.base) && selects id (record { id = n })
    else id.id == n

module _ (c : Children) (sel : Selector) (ms : MuxerStream) (id : FrameId) (w : c.World) where
  -- The result of enable(), by whether there is a wildcard.
  abbrev outcome : Bool → (MuxerStream × c.World) × Bool
  outcome true = enable_each c id sel true (map (λ n. record { id = n }) (frames ms.base)) ms w
  outcome false = elim (enable_one c ms id sel w) [ none ↦ ((ms, w), false) | some done ↦ done ]

  abbrev chosen_by : Bool → ℕ → Bool
  chosen_by true n = contains n (frames ms.base) && selects id (record { id = n })
  chosen_by false n = id.id == n

  abbrev Asked : (ℕ → Bool) → (MuxerStream × c.World) × Bool → Type 0
  Asked picks res =
      (res.1 ≡ true → (n : ℕ) → picks n ≡ true → Enabled res.0.0.base n sel)
      × ((j : ℕ) (kept : Selector) → Enabled ms.base j kept → Enabled res.0.0.base j kept)

  single :
      (o : Option ((MuxerStream × c.World) × Bool))
      → Stepped ms id.id sel true o
      → Asked (chosen_by false) (elim o [ none ↦ ((ms, w), false) | some done ↦ done ])
  single none s = (λ h. ground arith, λ j kept h. h)
  single (some ((ms', w'), rr)) (done, keeps) =
      (λ h n e. subst (λ k. Enabled ms'.base k sel) (ground arith) (done refl h), keeps)

  outcome_lem : (b : Bool) → Asked (chosen_by b) (outcome b)
  outcome_lem true =
      let (all, keeps) =
        enable_each_lem c sel id true (map (λ n. record { id = n }) (frames ms.base)) ms w in
      (
        λ h n e.
            EachEnabled-contains (outcome true).0.0.base id sel (frames ms.base) n ((all h).1)
              (ground arith) (ground arith),
        keeps,
      )
  outcome_lem false = single (enable_one c ms id sel w) (enable_one-Stepped c sel ms id w)

  Asked-enable : Asked (chosen ms id) (enable c ms id sel w)
  unfolding enable
  Asked-enable = go (is_wildcard id) (outcome_lem (is_wildcard id))
    where
      go :
          (b : Bool)
          → Asked (chosen_by b) (outcome b)
          → Asked
              (λ n. if b then chosen_by true n else chosen_by false n)
              (if b then outcome true else outcome false)
      go true h = h
      go false h = h

-- An identifier stands for a frame: in the frameset, the bits from 8 on, and in the source, the low 8, the two agree
-- or it has 255.
abbrev pub StandsFor : FrameId → ℕ → Type 0
StandsFor id n =
    ((id.id / 256 ≡ 255) ⊎ (id.id / 256 ≡ n / 256))
    × ((id.id % 256 ≡ 255) ⊎ (id.id % 256 ≡ n % 256))

chosen_lem :
    (ms : MuxerStream) (id : FrameId) (n : ℕ)
    → StandsFor id n
    → (id.id / 256 ≡ 255 ⊎ id.id % 256 ≡ 255 → contains n (frames ms.base) ≡ true)
    → chosen ms id n ≡ true
unfolding is_wildcard selects frameset source
chosen_lem ms id n (fs, src) seen = ground arith

-- When enable() answers true, each frame that its identifier stands for is enabled in the muxer, with the channels
-- asked for; 255 in the identifier stands for any frameset or source, and then the frame must have been seen before.
pub enable-Enabled :
    (c : Children) (sel : Selector) (ms : MuxerStream) (id : FrameId) (w : c.World) (n : ℕ)
    → (enable c ms id sel w).1 ≡ true
    → StandsFor id n
    → (id.id / 256 ≡ 255 ⊎ id.id % 256 ≡ 255 → contains n (frames ms.base) ≡ true)
    → Enabled (enable c ms id sel w).0.0.base n sel
enable-Enabled c sel ms id w n h stands seen =
    (Asked-enable c sel ms id w).0 h n (chosen_lem ms id n stands seen)

-- Whatever it answers, what was enabled in the muxer before enable() still is.
pub enable-keeps :
    (c : Children) (sel : Selector) (ms : MuxerStream) (id : FrameId) (w : c.World) (j : ℕ)
    (kept : Selector)
    → Enabled ms.base j kept
    → Enabled (enable c ms id sel w).0.0.base j kept
enable-keeps c sel ms id w j kept h = (Asked-enable c sel ms id w).1 j kept h
