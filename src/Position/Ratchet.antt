-- ===== src/Position/Ratchet.antt =====
-- Stops only move in favour of a position: backend/position_manager/break_even.py and trailing.py.
use k.Base.{
  ℤ, ◌≡◌, refl, sym, ◌∙◌, ◌↔◌, ◌⊎◌, inl, inr, ◌≤ℤ◌, ◌<ℤ◌, ◌+ℤ◌, ◌-ℤ◌, +ℤ_parts, -ℤ_parts, true,
  Option, none, some, List, [], ◌∷◌, All, Member, arith, All-map,
}
use mathlib.Core.Path.{subst}
use k.Position.Stops.{
  OrderSide, buy, sell, maybe_move_to_break_even, trailing_stop_from_delta, compute_trailing_stop,
  is_trailing_stop_hit,
}

-- `a` is at least as good a price for the position as `b`: higher for a long one, lower for a
-- short one.
abbrev pub NoWorse : OrderSide → ℤ → ℤ → Type 0
NoWorse buy a b = b ≤ℤ a
NoWorse sell a b = a ≤ℤ b

abbrev pub Better : OrderSide → ℤ → ℤ → Type 0
Better buy a b = b <ℤ a
Better sell a b = a <ℤ b

-- A price so far beyond another, in favour of the position.
abbrev pub beyond : OrderSide → ℤ → ℤ → ℤ
beyond buy price distance = price +ℤ distance
beyond sell price distance = price -ℤ distance

-- A move to break-even is made only once the price has gone `be_trigger_delta` in favour of the
-- position; it puts the stop `be_sl_offset` beyond the entry, is a strict improvement on the stop
-- that was there, and is not made a second time.
pub break_even_improves :
    (side : OrderSide) (entry_price mark_price delta : ℤ) (current_sl : Option ℤ) (offset : ℤ)
    {new_sl : ℤ}
    → maybe_move_to_break_even side entry_price mark_price delta current_sl offset ≡ some new_sl
    → NoWorse side mark_price (beyond side entry_price delta)
      × (new_sl ≡ beyond side entry_price offset)
      × ((sl : ℤ) → current_sl ≡ some sl → Better side new_sl sl)
      × (maybe_move_to_break_even side entry_price mark_price delta (some new_sl) offset ≡ none)
unfolding maybe_move_to_break_even
break_even_improves buy entry_price mark_price delta current_sl offset e =
    (ground arith, ground arith, λ sl h. ground arith, ground arith)
break_even_improves sell entry_price mark_price delta current_sl offset e =
    (ground arith, ground arith, λ sl h. ground arith, ground arith)

-- The state of a trailing stop after ticks, the last one first: the high-water mark and the stop.
abbrev pub ticks : OrderSide → ℤ → ℤ → List ℤ → ℤ × ℤ
ticks side delta first [] = compute_trailing_stop side first delta none
ticks side delta first (mark_price ∷ before) =
    compute_trailing_stop side mark_price delta (some (ticks side delta first before).0)

-- One tick: the high-water mark is the better of the price and the mark before.
tick_lem :
    (side : OrderSide) (mark_price delta high_water : ℤ)
    → let (hw, stop) = compute_trailing_stop side mark_price delta (some high_water) in
      NoWorse side hw mark_price
      × NoWorse side hw high_water
      × ((hw ≡ mark_price) ⊎ (hw ≡ high_water))
      × (stop ≡ trailing_stop_from_delta side hw delta)
unfolding compute_trailing_stop
tick_lem buy mark_price delta high_water = ground arith
tick_lem sell mark_price delta high_water = ground arith

stop_monotone :
    (side : OrderSide) (a b delta : ℤ)
    → NoWorse side a b
    → NoWorse side (trailing_stop_from_delta side a delta) (trailing_stop_from_delta side b delta)
unfolding trailing_stop_from_delta
stop_monotone buy a b delta h = omega (arith, h, -ℤ_parts a delta, -ℤ_parts b delta)
stop_monotone sell a b delta h = omega (arith, h, +ℤ_parts a delta, +ℤ_parts b delta)

self_lem : (side : OrderSide) (a : ℤ) → NoWorse side a a
self_lem buy a = omega arith
self_lem sell a = omega arith

-- Stops at the same distance keep the order of the high-water marks.
stops_ordered :
    (side : OrderSide) (stop_a stop_b a b delta : ℤ)
    → stop_a ≡ trailing_stop_from_delta side a delta
    → stop_b ≡ trailing_stop_from_delta side b delta
    → NoWorse side a b
    → NoWorse side stop_a stop_b
stops_ordered side stop_a stop_b a b delta e f h = rw (e, f) (stop_monotone side a b delta h)

better_trans :
    (side : OrderSide) (a b c : ℤ) → NoWorse side a b → NoWorse side b c → NoWorse side a c
better_trans buy a b c h k = omega (arith, h, k)
better_trans sell a b c h k = omega (arith, h, k)

first_tick :
    (side : OrderSide) (delta first : ℤ)
    → ticks side delta first [] ≡ (first, trailing_stop_from_delta side first delta)
unfolding compute_trailing_stop
first_tick side delta first = refl

ticks_stop :
    (side : OrderSide) (delta first : ℤ) (marks : List ℤ)
    → (ticks side delta first marks).1
      ≡ trailing_stop_from_delta side (ticks side delta first marks).0 delta
unfolding compute_trailing_stop
ticks_stop side delta first [] = refl
ticks_stop side delta first (mark ∷ marks) = refl

ticks_best :
    (side : OrderSide) (delta first : ℤ) (marks : List ℤ)
    → All (NoWorse side (ticks side delta first marks).0) (first ∷ marks)
      × Member (ticks side delta first marks).0 (first ∷ marks)
ticks_best side delta first [] =
    rw (first_tick side delta first) ((self_lem side first, tt), inl refl)
ticks_best side delta first (mark ∷ marks) =
    let hw = (ticks side delta first marks).0 in
    let (best, one) = ticks_best side delta first marks in
    let (at_mark, at_hw, either, _) = tick_lem side mark delta hw in
    let new = (ticks side delta first (mark ∷ marks)).0 in
    let earlier = All-map (first ∷ marks) (λ p h. better_trans side new hw p at_hw h) best in
    (
      (earlier.0, (at_mark, earlier.1)),
      elim either [
        | inl e ↦ inr (inl e)
        | inr e ↦ elim one [
          | inl is_first ↦ inl (e ∙ is_first)
          | inr later ↦ inr (inr (subst (λ p. Member p marks) (sym e) later))
        ]
      ],
    )

hit_lem :
    (side : OrderSide) (mark_price high_water delta : ℤ)
    → is_trailing_stop_hit side mark_price (trailing_stop_from_delta side high_water delta) ≡ true
      ↔ NoWorse side high_water (beyond side mark_price delta)
unfolding is_trailing_stop_hit trailing_stop_from_delta
hit_lem buy mark_price high_water delta =
    ground (arith, -ℤ_parts high_water delta, +ℤ_parts mark_price delta)
hit_lem sell mark_price high_water delta =
    ground (arith, +ℤ_parts high_water delta, -ℤ_parts mark_price delta)

-- Over any ticks at a fixed distance the trailing stop never moves against the position; the
-- high-water mark is the best of all the prices seen and one of them; and the stop is hit by a
-- price exactly when the best price seen is at least the distance beyond it.
pub trailing_ratchets :
    (side : OrderSide) (delta first mark_price : ℤ) (marks : List ℤ)
    → let before = ticks side delta first marks in
      let after = ticks side delta first (mark_price ∷ marks) in
      NoWorse side after.1 before.1
      × All (NoWorse side after.0) (first ∷ mark_price ∷ marks)
      × Member after.0 (first ∷ mark_price ∷ marks)
      × (is_trailing_stop_hit side mark_price after.1 ≡ true
          ↔ NoWorse side after.0 (beyond side mark_price delta))
trailing_ratchets side delta first mark_price marks =
    let before = ticks side delta first marks in
    let after = ticks side delta first (mark_price ∷ marks) in
    let (_, at_hw, _, stop) = tick_lem side mark_price delta before.0 in
    let (best, one) = ticks_best side delta first (mark_price ∷ marks) in
    (
      stops_ordered side after.1 before.1 after.0 before.0 delta stop
          (ticks_stop side delta first marks) at_hw,
      best,
      one,
      rw stop (hit_lem side mark_price after.0 delta),
    )
