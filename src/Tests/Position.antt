-- ===== src/Tests/Position.antt =====
-- A long position entered at 100 and a short one.
use k.Base.{pos, ◌≡◌, refl, ◌↔◌, ◌+ℤ◌, true, some, [], ◌∷◌, All, Member}
use k.Position.Stops.{
  buy, sell, maybe_move_to_break_even, update_high_water, trailing_stop_from_delta,
  compute_trailing_stop, is_trailing_stop_hit,
}
use k.Position.Ratchet.{NoWorse, beyond, ticks, trailing_ratchets}

moves :
    maybe_move_to_break_even buy (pos 100) (pos 110) (pos 10) (some (pos 95)) (pos 1)
    ≡ some (pos 101)
unfolding maybe_move_to_break_even ◌+ℤ◌
moves = refl

follows : ticks sell (pos 5) (pos 100) (pos 98 ∷ pos 90 ∷ []) ≡ (pos 90, pos 95)
unfolding compute_trailing_stop update_high_water trailing_stop_from_delta ◌+ℤ◌
follows = refl

trailing_ratchets_example :
    NoWorse sell
      (ticks sell (pos 5) (pos 100) (pos 98 ∷ pos 90 ∷ [])).1
      (ticks sell (pos 5) (pos 100) (pos 90 ∷ [])).1
    × All
        (NoWorse sell (ticks sell (pos 5) (pos 100) (pos 98 ∷ pos 90 ∷ [])).0)
        (pos 100 ∷ pos 98 ∷ pos 90 ∷ [])
    × Member
        (ticks sell (pos 5) (pos 100) (pos 98 ∷ pos 90 ∷ [])).0
        (pos 100 ∷ pos 98 ∷ pos 90 ∷ [])
    × (is_trailing_stop_hit sell (pos 98) (ticks sell (pos 5) (pos 100) (pos 98 ∷ pos 90 ∷ [])).1
          ≡ true
        ↔ NoWorse sell
            (ticks sell (pos 5) (pos 100) (pos 98 ∷ pos 90 ∷ [])).0
            (beyond sell (pos 98) (pos 5)))
trailing_ratchets_example = trailing_ratchets sell (pos 5) (pos 100) (pos 98) (pos 90 ∷ [])
