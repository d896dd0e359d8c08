-- ===== src/RosterPolicy/Allowance.antt =====
-- How many heroes an entry may exchange, and how many a submission exchanges.
use um_fantasy_league.Common.{
  ℕ, suc, ◌+◌, ◌-◌, ◌*◌, ◌≤◌, ◌<◌, min, pos, I32, I64, ◌≤ℤ◌, ◌*ℤ◌, ◌-ℤ◌, max_ℤ, wrap_id, -ℤ_parts,
  sub_i32, saturating_mul, len_i32, int_eq, not, List, [], ◌∷◌, keep, contains, length, Distinct,
  ◌≡◌, refl, ap, ◌∙◌, arith, length-map,
}
use um_fantasy_league.Common.Overlap.{missing, missing_comm}
use um_fantasy_league.RosterPolicy.{RosterPick, pick_ids, swap_allowance, heroes_changed}

-- The allowance is never negative, whatever the three numbers are.
pub swap_allowance_nonneg : (per round used : I32) → pos 0 ≤ℤ swap_allowance per round used
unfolding swap_allowance
swap_allowance_nonneg per round used = ground arith

sub_i32-pos :
    (a b : ℕ) → a ≤ 2_147_483_647 → b ≤ 2_147_483_647 → sub_i32 (pos a) (pos b) ≡ pos a -ℤ pos b
unfolding sub_i32
sub_i32-pos a b h k = wrap_id (pos a -ℤ pos b) (omega (arith, -ℤ_parts (pos a) (pos b)))

max-sub : (a b : ℕ) → max_ℤ (pos a -ℤ pos b) (pos 0) ≡ pos (a - b)
unfolding ◌-ℤ◌
max-sub a b = ground arith

saturating_mul-pos : (a b : ℕ) → saturating_mul (pos a) (pos b) ≡ pos (min (a * b) 2_147_483_647)
unfolding saturating_mul ◌*ℤ◌
saturating_mul-pos a b = ground arith

-- For a round, a number of swaps per round and a number of swaps used that are not negative `i32`
-- values: one window per round after the first has been offered, the product saturates at the largest
-- `i32`, and the allowance is what is left of it after the swaps used, and zero if it is overspent.
pub swap_allowance_lem :
    (per round used : ℕ)
    → round ≤ 2_147_483_647
    → used ≤ 2_147_483_647
    → swap_allowance (pos per) (pos round) (pos used)
      ≡ pos (min (per * (round - 1)) 2_147_483_647 - used)
unfolding swap_allowance
swap_allowance_lem per round used h k = rw (
  sub_i32-pos round 1 h (omega arith),
  max-sub round 1,
  saturating_mul-pos per (round - 1),
  sub_i32-pos (min (per * (round - 1)) 2_147_483_647) used (omega arith) k,
  max-sub (min (per * (round - 1)) 2_147_483_647) used,
)

-- An allowance that is not spent carries over: if `spent` swaps are made out of what round `round`
-- allows, the next round allows the rest and one more window's worth. The rounds are counted from
-- one, and the window's product stays within an `i32`.
pub swap_allowance_carries_over :
    (per n used spent : ℕ)
    → per * suc n ≤ 2_147_483_647
    → n < 2_147_483_646
    → used + spent ≤ per * n
    → (swap_allowance (pos per) (pos (suc n)) (pos used) ≡ pos (per * n - used))
      × (swap_allowance (pos per) (pos (suc (suc n))) (pos (used + spent))
          ≡ pos ((per * n - used - spent) + per))
swap_allowance_carries_over per n used spent h k l =
    let windows : suc n - 1 ≡ n = omega arith in
    let more : suc (suc n) - 1 ≡ suc n = omega arith in
    (
      swap_allowance_lem per (suc n) used (omega arith) (omega arith)
          ∙ ap pos (omega (arith, ap (λ (w : ℕ). per * w) windows)),
      swap_allowance_lem per (suc (suc n)) (used + spent) (omega arith) (omega arith)
          ∙ ap pos (omega (arith, ap (λ (w : ℕ). per * w) more)),
    )

keep-map :
    (current : List I64) (picks : List RosterPick)
    → length (keep (λ (p : RosterPick). not (contains current p.hero_id)) picks)
      ≡ missing (pick_ids picks) current
keep-map current [] = refl
keep-map current (p ∷ picks) = ground (arith, keep-map current picks)

-- If neither roster holds a hero twice and both are of one size, the heroes that a submission brings
-- in are as many as those that it drops.
pub heroes_changed-eq-leaving :
    (current : List I64) (proposed : List RosterPick)
    → Distinct current
    → Distinct (pick_ids proposed)
    → length proposed ≡ length current
    → heroes_changed current proposed
      ≡ len_i32 (length (keep (λ h. not (contains (pick_ids proposed) h)) current))
unfolding heroes_changed
heroes_changed-eq-leaving current proposed d f h = ap len_i32 (
    keep-map current proposed
    ∙ missing_comm (pick_ids proposed) current f d
        (omega (arith, length-map (λ (p : RosterPick). p.hero_id) proposed)))
