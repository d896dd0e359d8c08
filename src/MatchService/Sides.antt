-- ===== src/MatchService/Sides.antt =====
-- The rows of the sides of a submission, as they are read back.
use um_fantasy_league.Common.{
  ◌+◌, ◌<◌, ℕ, pos, I32, I64, int_eq, ◌==◌, ==_refl, leb_ℤ, Bool, true, false, Option, none, some,
  List, [], ◌∷◌, ◌++◌, map, keep, find, gather, All, All-map, ◌≡◌, refl, arith, ap, ◌∙◌, eqb_ℤ_iff,
}
use um_fantasy_league.Common.Text.{Text}
use um_fantasy_league.Common.Sorting.{sort, insert_sorted, IsSorted}
use um_fantasy_league.Common.Pages.{keep-append, keep_none, keep_all, All-of_map}
use um_fantasy_league.MatchResult.{push_fresh}
use mathlib.Core.List.{append-nil}
use um_fantasy_league.MatchPolicy.Input.{MatchParticipantInput}
use um_fantasy_league.MatchService.{
  NamedRow, HeroPickWrite, MatchParticipantWrite, ParticipantRow, enumerate, joined, by,
}
use um_fantasy_league.MatchService.Children.{new_participant}

module _ {ℓ κ} {A : Type ℓ} {B : Type κ} (f : A → B) where
  map-insert_sorted :
      (le : B → B → Bool) (x : A) (xs : List A)
      → insert_sorted le (f x) (map f xs) ≡ map f (insert_sorted (λ a b. le (f a) (f b)) x xs)
  unfolding insert_sorted
  map-insert_sorted le x [] = refl
  map-insert_sorted le x (y ∷ ys) = ground (arith, map-insert_sorted le x ys)

  pub sort-map :
      (le : B → B → Bool) (xs : List A)
      → sort le (map f xs) ≡ map f (sort (λ a b. le (f a) (f b)) xs)
  unfolding sort
  sort-map le [] = refl
  sort-map le (x ∷ xs) =
      ap (insert_sorted le (f x)) (sort-map le xs)
      ∙ map-insert_sorted le x (sort (λ a b. le (f a) (f b)) xs)

  pub joined-map :
      (names : List NamedRow) (of : B → I64) (xs : List A)
      → joined names of (map f xs)
        ≡ map (λ (r : A × Text). (f r.0, r.1)) (joined names (λ a. of (f a)) xs)
  joined-map names of [] = refl
  joined-map names of (x ∷ xs) =
      go (find (λ (n : NamedRow). n.id == of (f x)) names) (joined-map names of xs)
    where
      go :
          (found : Option NamedRow)
          → joined names of (map f xs)
            ≡ map (λ (r : A × Text). (f r.0, r.1)) (joined names (λ a. of (f a)) xs)
          → elim found [
            | none ↦ joined names of (map f xs)
            | some n ↦ (f x, n.name) ∷ joined names of (map f xs)
          ]
            ≡ map
                (λ (r : A × Text). (f r.0, r.1))
                (elim found [
                  | none ↦ joined names (λ a. of (f a)) xs
                  | some n ↦ (x, n.name) ∷ joined names (λ a. of (f a)) xs
                ])
      go none e = e
      go (some n) e = ap (λ rest. (f x, n.name) ∷ rest) e

  pub keep-map : (p : B → Bool) (xs : List A) → keep p (map f xs) ≡ map f (keep (λ a. p (f a)) xs)
  keep-map p [] = refl
  keep-map p (x ∷ xs) = ground (arith, keep-map p xs)

module _ {ℓ} {A : Type ℓ} where
  pub enumerate-from :
      (i : ℕ) (xs : List A) → All (λ (p : I32 × A). leb_ℤ (pos i) p.0 ≡ true) (enumerate i xs)
  enumerate-from i [] = tt
  enumerate-from i (x ∷ xs) = (
    ground arith,
    All-map (λ (p : I32 × A) h. ground (arith, h)) (enumerate (i + 1) xs)
        (enumerate-from (i + 1) xs),
  )

  pub enumerate-map {κ} :
      {B : Type κ} (f : A → B) (i : ℕ) (xs : List A)
      → enumerate i (map f xs) ≡ map (λ (p : I32 × A). (p.0, f p.1)) (enumerate i xs)
  enumerate-map f i [] = refl
  enumerate-map f i (x ∷ xs) = ap (λ rest. (pos i, f x) ∷ rest) (enumerate-map f (i + 1) xs)

-- The new rows of participants stand in the order of their sides.
pub new_participants-IsSorted :
    (id : I64) (i : ℕ) (ps : List MatchParticipantWrite)
    → IsSorted (by (λ (p : ParticipantRow). p.side)) (map (new_participant id) (enumerate i ps))
new_participants-IsSorted id i [] = tt
new_participants-IsSorted id i (p ∷ ps) = (
  over (enumerate (i + 1) ps) (enumerate-from (i + 1) ps),
  new_participants-IsSorted id (i + 1) ps,
)
  where
    over :
        (rows : List (I32 × MatchParticipantWrite))
        → All (λ (p : I32 × MatchParticipantWrite). leb_ℤ (pos (i + 1)) p.0 ≡ true) rows
        → All (λ (y : ParticipantRow). leb_ℤ (pos i) y.side ≡ true) (map (new_participant id) rows)
    over [] h = tt
    over (r ∷ rs) h = (ground (arith, h.0), over rs h.1)

abbrev pub picks_of_side : I32 × MatchParticipantInput → List HeroPickWrite
picks_of_side p =
    map (λ (hero : I64). record { side = p.0; hero_id = hero }) (push_fresh [] p.1.drafted_hero_ids)

abbrev pub on_side : I32 → HeroPickWrite → Bool
on_side k p = p.side == k

same_side :
    (p : I32 × MatchParticipantInput) → keep (on_side p.0) (picks_of_side p) ≡ picks_of_side p
same_side p = keep_all (on_side p.0) (picks_of_side p) (
    All-of_map _ (λ (hero : I64). record { side = p.0; hero_id = hero })
      (push_fresh [] p.1.drafted_hero_ids) (λ _. ==_refl p.0))

other_side :
    (k : I32) (p : I32 × MatchParticipantInput)
    → (p.0 == k) ≡ false
    → keep (on_side k) (picks_of_side p) ≡ []
other_side k p h = keep_none (on_side k) (picks_of_side p) (
    All-of_map _ (λ (hero : I64). record { side = p.0; hero_id = hero })
      (push_fresh [] p.1.drafted_hero_ids) (λ _. h))

later_sides :
    (k i : ℕ) (ps : List MatchParticipantInput)
    → k < i
    → keep (on_side (pos k)) (gather picks_of_side (enumerate i ps)) ≡ []
later_sides k i [] h = refl
later_sides k i (p ∷ ps) h =
    keep-append (on_side (pos k)) (picks_of_side (pos i, p))
      (gather picks_of_side (enumerate (i + 1) ps))
    ∙ rw
        (
          other_side (pos k) (pos i, p) (ground (arith, h)),
          later_sides k (i + 1) ps (omega (arith, h)),
        )
        refl

-- The picks of a side are those of the participant in its place.
pub side-picks :
    (i : ℕ) (ps : List MatchParticipantInput)
    → All
        (λ (p : I32 × MatchParticipantInput).
          keep (on_side p.0) (gather picks_of_side (enumerate i ps)) ≡ picks_of_side p)
        (enumerate i ps)
side-picks i [] = tt
side-picks i (p ∷ ps) =
    let rest = gather picks_of_side (enumerate (i + 1) ps) in
    (
      keep-append (on_side (pos i)) (picks_of_side (pos i, p)) rest
          ∙ rw (same_side (pos i, p), later_sides i (i + 1) ps (omega arith)) (append-nil _),
      later (enumerate (i + 1) ps) (enumerate-from (i + 1) ps) (side-picks (i + 1) ps),
    )
  where
    later :
        (qs : List (I32 × MatchParticipantInput))
        → All (λ (q : I32 × MatchParticipantInput). leb_ℤ (pos (i + 1)) q.0 ≡ true) qs
        → All
            (λ (q : I32 × MatchParticipantInput).
              keep (on_side q.0) (gather picks_of_side (enumerate (i + 1) ps)) ≡ picks_of_side q)
            qs
        → All
            (λ (q : I32 × MatchParticipantInput).
              keep
                (on_side q.0)
                (picks_of_side (pos i, p) ++ gather picks_of_side (enumerate (i + 1) ps))
              ≡ picks_of_side q)
            qs
    later [] h k = tt
    later (q ∷ qs) h k = (
      keep-append (on_side q.0) (picks_of_side (pos i, p))
            (gather picks_of_side (enumerate (i + 1) ps))
          ∙ rw (other_side q.0 (pos i, p) (ground (arith, h.0, eqb_ℤ_iff (pos i) q.0))) k.0,
      later qs h.1 k.1,
    )
