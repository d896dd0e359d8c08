-- ===== src/MatchPolicy/Checks.antt =====
-- What each check of `validate_expecting` means.
use um_fantasy_league.Common.{
  ℕ, zero, suc, ◌+◌, ◌≤◌, ℤ, pos, I32, wrap, wrap_id, int_eq, nat_eq, list_eq, ltb_ℤ, leb_ℤ,
  eqb_ℤ_iff, Bool, true, false, not, ◌&&◌, ◌||◌, Option, none, some, List, [], ◌∷◌, ◌++◌, map, keep,
  any, gather, is_empty, count, All, Distinct, length, list_beq, if◌then◌else◌, ◌≡◌, refl, sym, ◌∙◌,
  ◌↔◌, arith,
}
use um_fantasy_league.Common.IndexMap.{repeated, repeated-nil_iff}
use um_fantasy_league.Common.Sorting.{sort, is_empty-sort, IsSorted}
use um_fantasy_league.Common.SortedLists.{sort-eq_iff}
use um_fantasy_league.MatchResult.{BanType, pre_ban, self_ban, opponent_ban, ban_type_beq}
use um_fantasy_league.MatchPolicy.Input.{
  MatchParticipantInput, MatchGameParticipantInput, MatchGameInput, MatchBanInput,
}
use um_fantasy_league.MatchPolicy.{range_from, up_to, game_numbers, is_bad_side, undrafted_rows}
use um_fantasy_league.MatchPolicy.Spec.{numbers, IsSideOk, IsDrafted}

is_empty-map {ℓ κ} :
    {A : Type ℓ} {B : Type κ} (f : A → B) (xs : List A) → is_empty (map f xs) ≡ is_empty xs
is_empty-map f [] = refl
is_empty-map f (x ∷ xs) = refl

pub is_empty-keep {ℓ} :
    {A : Type ℓ} (p : A → Bool) (xs : List A) → is_empty (keep p xs) ≡ not (any p xs)
is_empty-keep p [] = refl
is_empty-keep p (x ∷ xs) = ground (arith, is_empty-keep p xs)

pub is_empty-game_numbers :
    (p : MatchGameInput → Bool) (games : List MatchGameInput)
    → is_empty (game_numbers p games) ≡ not (any p games)
unfolding game_numbers
is_empty-game_numbers p games =
    let kept = keep p games in
    is_empty-sort leb_ℤ (numbers kept)
    ∙ is_empty-map (λ (g : MatchGameInput). g.game_number) kept
    ∙ is_empty-keep p games

pub is_empty-append {ℓ} :
    {A : Type ℓ} (xs ys : List A) → is_empty (xs ++ ys) ≡ (is_empty xs && is_empty ys)
is_empty-append [] ys = refl
is_empty-append (x ∷ xs) ys = refl

pub duplicate_picks-nil_iff :
    (ps : List MatchParticipantInput)
    → (is_empty (gather (λ (p : MatchParticipantInput). repeated p.drafted_hero_ids) ps) ≡ true)
      ↔ All (λ (p : MatchParticipantInput). Distinct p.drafted_hero_ids) ps
duplicate_picks-nil_iff [] = (λ _. tt, λ _. refl)
duplicate_picks-nil_iff (p ∷ ps) =
    let rest = gather (λ (p : MatchParticipantInput). repeated p.drafted_hero_ids) ps in
    ground (
      arith,
      duplicate_picks-nil_iff ps,
      is_empty-append (repeated p.drafted_hero_ids) rest,
      repeated-nil_iff p.drafted_hero_ids,
    )

undrafted_rows-nil_iff :
    (number : I32) (sides : List MatchParticipantInput) (rows : List MatchGameParticipantInput)
    → (is_empty (undrafted_rows number sides rows) ≡ true) ↔ IsDrafted sides rows
unfolding undrafted_rows
undrafted_rows-nil_iff number [] rows = (λ _. tt, λ _. refl)
undrafted_rows-nil_iff number (side ∷ sides) [] = (λ _. tt, λ _. refl)
undrafted_rows-nil_iff number (side ∷ sides) (row ∷ rows) =
    ground (arith, undrafted_rows-nil_iff number sides rows)

pub undrafted-nil_iff :
    (sides : List MatchParticipantInput) (games : List MatchGameInput)
    → (is_empty
          (gather (λ (g : MatchGameInput). undrafted_rows g.game_number sides g.participants) games)
        ≡ true)
      ↔ All (λ (g : MatchGameInput). IsDrafted sides g.participants) games
undrafted-nil_iff sides [] = (λ _. tt, λ _. refl)
undrafted-nil_iff sides (g ∷ gs) =
    let rest =
      gather (λ (g : MatchGameInput). undrafted_rows g.game_number sides g.participants) gs in
    ground (
      arith,
      undrafted-nil_iff sides gs,
      is_empty-append (undrafted_rows g.game_number sides g.participants) rest,
      undrafted_rows-nil_iff g.game_number sides g.participants,
    )

pub bad_side_iff : (b : MatchBanInput) → (is_bad_side b ≡ false) ↔ IsSideOk b.ban_type b.side
unfolding is_bad_side
bad_side_iff b = by_parts b.side b.ban_type
  where
    by_parts :
        (o : Option I32) (t : BanType)
        → (elim o [
          | none ↦ false
          | some side ↦ not (leb_ℤ (pos 0) side && leb_ℤ side (pos 1)) || ban_type_beq t pre_ban
        ]
            ≡ false)
          ↔ IsSideOk t o
    by_parts none t = (λ _. tt, λ _. refl)
    by_parts (some side) pre_ban = ground arith
    by_parts (some side) self_ban = ground arith
    by_parts (some side) opponent_ban = ground arith

-- The numbers from one to `n`.
range_from-IsSorted :
    (start k : ℕ)
    → IsSorted leb_ℤ (range_from start k)
      × ((b : ℕ) → b ≤ start → All (λ y. leb_ℤ (pos b) y ≡ true) (range_from start k))
range_from-IsSorted start zero = (tt, λ b h. tt)
range_from-IsSorted start (suc k) =
    let rest = range_from-IsSorted (suc start) k in
    ((rest.1 start (omega arith), rest.0), λ b h. (ground arith, rest.1 b (omega arith)))

count-range_from :
    (a : ℤ) (start k : ℕ)
    → count a (range_from start k)
      ≡ (if leb_ℤ (pos start) a && ltb_ℤ a (pos (start + k)) then 1 else 0)
count-range_from a start zero = ground arith
count-range_from a start (suc k) =
    ground (arith, count-range_from a (suc start) k, eqb_ℤ_iff (pos start) a)

-- The sorted numbers are `1..=N` exactly if each number from 1 to N occurs once, and no other does.
pub numbers_iff :
    (games : List MatchGameInput)
    → length games ≤ 2_147_483_647
    → (list_beq (sort leb_ℤ (numbers games)) (up_to (wrap (pos (length games)))) ≡ true) ↔ (
        (a : I32)
        → count a (numbers games)
          ≡ (if leb_ℤ (pos 1) a && leb_ℤ a (pos (length games)) then 1 else 0))
numbers_iff games h =
    let n = length games in
    let whole : wrap (pos n) ≡ pos n = wrap_id (pos n) (omega arith) in
    let same = sort-eq_iff (numbers games) (range_from 1 n) (range_from-IsSorted 1 n).0 in
    rw whole (
      λ e a. same.0 e a ∙ count-range_from a 1 n ∙ in_bounds a n,
      λ c. same.1 (λ a. c a ∙ sym (count-range_from a 1 n ∙ in_bounds a n)),
    )
  where
    in_bounds :
        (a : ℤ) (n : ℕ)
        → ◌≡◌ {A = ℕ}
            (if leb_ℤ (pos 1) a && ltb_ℤ a (pos (1 + n)) then 1 else 0)
            (if leb_ℤ (pos 1) a && leb_ℤ a (pos n) then 1 else 0)
    in_bounds a n = ground arith
