-- ===== src/MatchMetrics/Laws.antt =====
-- How the metrics of one game relate.
use um_fantasy_league.Common.{
  ℤ, pos, InI32, int_eq, ◌-ℤ◌, -ℤ_parts, eq_of_parts, wrap_id, sub_i32, ==_refl, ==-false_iff, not,
  some, [], ◌∷◌, ◌≡◌, ◌≢◌, ap, sym, ◌∙◌, arith, if◌then◌else◌,
}
use um_fantasy_league.Numbers.{Numbers, zero_f}
use um_fantasy_league.MatchResult.{
  MatchResult, MetricContext, played, GameResult, GameParticipantResult, context, participant,
  opponents,
}
use um_fantasy_league.MatchMetrics.{
  win, loss, health_gap, health_differential, health_differential_two_way, max_health,
}

-- The context of one row of a game.
abbrev pub row : MatchResult → GameResult → GameParticipantResult → MetricContext
row m g p = context m p.hero_id (played g p)

opponents-duel :
    (m : MatchResult) (g : GameResult) (p q : GameParticipantResult)
    → g.participants ≡ p ∷ q ∷ []
    → p.hero_id ≢ q.hero_id
    → (opponents (row m g p) ≡ q ∷ []) × (opponents (row m g q) ≡ p ∷ [])
unfolding opponents
opponents-duel m g p q e ne = rw e (
    ground (
      arith,
      ==_refl p.hero_id,
      ==_refl q.hero_id,
      (==-false_iff p.hero_id q.hero_id).1 ne,
      (==-false_iff q.hero_id p.hero_id).1 (λ s. ne (sym s)),
    ))

sub_i32_exact : (a b : ℤ) → InI32 (a -ℤ b) → sub_i32 a b ≡ a -ℤ b
unfolding sub_i32
sub_i32_exact a b h = wrap_id (a -ℤ b) h

-- What a game between two heroes is worth, if the two are different and one of them won.
pub record IsDuel (g : GameResult) (p q : GameParticipantResult) : Type 0 where
  pub rows : g.participants ≡ p ∷ q ∷ []
  pub differ : p.hero_id ≢ q.hero_id
  pub decided : q.is_winner ≡ not p.is_winner
  pub gap : InI32 (p.health_remaining -ℤ q.health_remaining)
  pub gap_back : InI32 (q.health_remaining -ℤ p.health_remaining)

-- The gap of the first hero, and that of the second.
gap_first :
    (n : Numbers) (m : MatchResult) {g : GameResult} {p q : GameParticipantResult}
    → IsDuel g p q
    → health_gap n (row m g p) ≡ some (n.of_i32 (p.health_remaining -ℤ q.health_remaining))
unfolding health_gap max_health participant
gap_first n m {g} {p} {q} d = rw (
  (opponents-duel m g p q d.rows d.differ).0,
  sub_i32_exact p.health_remaining q.health_remaining d.gap,
)

gap_second :
    (n : Numbers) (m : MatchResult) {g : GameResult} {p q : GameParticipantResult}
    → IsDuel g p q
    → health_gap n (row m g q) ≡ some (n.of_i32 (q.health_remaining -ℤ p.health_remaining))
unfolding health_gap max_health participant
gap_second n m {g} {p} {q} d = rw (
  (opponents-duel m g p q d.rows d.differ).1,
  sub_i32_exact q.health_remaining p.health_remaining d.gap_back,
)

neg_gap : (a b : ℤ) → b -ℤ a ≡ pos 0 -ℤ (a -ℤ b)
neg_gap a b = omega (arith, -ℤ_parts, eq_of_parts)

-- In a decided game between two different heroes, whose healths differ by no more than an `i32` holds:
-- one hero's win is the other's loss; the two-way differentials are the difference of the healths and
-- its exact negative; and the one-way differential is the two-way one for the winner and zero for the
-- loser.
pub duel_metrics :
    (n : Numbers) (m : MatchResult) (g : GameResult) (p q : GameParticipantResult)
    → IsDuel g p q
    → let a = row m g p in
      let b = row m g q in
      let gap = p.health_remaining -ℤ q.health_remaining in
      (win n a ≡ loss n b)
      × (loss n a ≡ win n b)
      × (health_differential_two_way n a ≡ n.of_i32 gap)
      × (health_differential_two_way n b ≡ n.of_i32 (pos 0 -ℤ gap))
      × (health_differential n a ≡ (if p.is_winner then n.of_i32 gap else zero_f n))
      × (health_differential n b ≡ (if p.is_winner then zero_f n else n.of_i32 (pos 0 -ℤ gap)))
unfolding win loss health_differential_two_way health_differential participant
duel_metrics n m g p q d =
    let first = gap_first n m d in
    let second =
      gap_second n m d
      ∙ ap (λ x. some (n.of_i32 x)) (neg_gap p.health_remaining q.health_remaining) in
    rw d.decided (ground (arith, first, second))
