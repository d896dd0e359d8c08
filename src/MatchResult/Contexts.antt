-- ===== src/MatchResult/Contexts.antt =====
-- How often a hero stands in a match, and in which roles.
use um_fantasy_league.Common.{
  ℕ, ◌+◌, ◌≤◌, I64, int_eq, ◌==◌, Bool, true, false, not, ◌&&◌, ◌||◌, List, [], ◌∷◌, ◌++◌, map,
  keep, gather, contains, count, Distinct, if◌then◌else◌, ◌≡◌, refl, ap, arith, eqb_ℤ_iff,
  Bool-cases, leb, inl, inr, ==_comm,
}
use um_fantasy_league.MatchResult.{
  MatchResult, MetricContext, HeroRole, played, drafted, banned, GameResult, GameParticipantResult,
  BanResult, push_fresh, all_drafted, drafted_hero_ids, played_contexts, context, context_ids,
  first_bans, standing_bans, hero_contexts,
}

-- Lists of ids.
contains-append :
    (xs ys : List I64) (h : I64) → contains (xs ++ ys) h ≡ (contains xs h || contains ys h)
contains-append [] ys h = refl
contains-append (x ∷ xs) ys h = ground (arith, contains-append xs ys h)

Distinct-snoc :
    (xs : List I64) (x : I64) → Distinct xs → contains xs x ≡ false → Distinct (xs ++ x ∷ [])
Distinct-snoc [] x d f = (refl, tt)
Distinct-snoc (y ∷ ys) x d f =
    ground (arith, Distinct-snoc ys x d.1, contains-append ys (x ∷ []) y, ==_comm y x)

push_fresh-Distinct : (seen xs : List I64) → Distinct seen → Distinct (push_fresh seen xs)
unfolding push_fresh
push_fresh-Distinct seen [] d = d
push_fresh-Distinct seen (x ∷ xs) d = elim (Bool-cases (contains seen x)) [
  | inl old ↦ rw old (push_fresh-Distinct seen xs d)
  | inr new ↦ rw new (push_fresh-Distinct (seen ++ x ∷ []) xs (Distinct-snoc seen x d new))
]

contains_congr : (xs : List I64) (x h : I64) → (x == h) ≡ true → contains xs x ≡ contains xs h
contains_congr xs x h e = ap (contains xs) ((eqb_ℤ_iff x h).0 e)

contains-push_fresh :
    (seen xs : List I64) (h : I64)
    → contains (push_fresh seen xs) h ≡ (contains seen h || contains xs h)
unfolding push_fresh
contains-push_fresh seen [] h = ground arith
contains-push_fresh seen (x ∷ xs) h = elim (Bool-cases (contains seen x)) [
  | inl old ↦ rw old (ground (arith, contains-push_fresh seen xs h, contains_congr seen x h))
  | inr new ↦
      rw new
        (ground (arith, contains-push_fresh (seen ++ x ∷ []) xs h, contains-append seen (x ∷ []) h))
]

-- `drafted_hero_ids` names no hero twice, and names a hero exactly if one of the sides drafted it.
pub drafted_hero_ids_lem :
    (m : MatchResult)
    → Distinct (drafted_hero_ids m)
      × ((h : I64) → contains (drafted_hero_ids m) h ≡ contains (all_drafted m.participants) h)
unfolding drafted_hero_ids
drafted_hero_ids_lem m =
    let ids = all_drafted m.participants in
    (push_fresh-Distinct [] ids tt, λ h. contains-push_fresh [] ids h)

abbrev pub is_played : HeroRole → Bool
is_played (played g p) = true
is_played _ = false

abbrev pub is_drafted : HeroRole → Bool
is_drafted drafted = true
is_drafted _ = false

abbrev pub is_banned : HeroRole → Bool
is_banned banned = true
is_banned _ = false

-- In how many of the contexts a hero stands in a role of a kind.
abbrev pub stands : (HeroRole → Bool) → I64 → List MetricContext → ℕ
stands kind h [] = 0
stands kind h (c ∷ cs) = (if kind c.role && c.hero_id == h then 1 else 0) + stands kind h cs

stands-append :
    (kind : HeroRole → Bool) (h : I64) (xs ys : List MetricContext)
    → stands kind h (xs ++ ys) ≡ stands kind h xs + stands kind h ys
stands-append kind h [] ys = omega arith
stands-append kind h (x ∷ xs) ys = omega (arith, stands-append kind h xs ys)

-- The heroes of the games' rows, and of the bans.
abbrev pub fielded_ids : List GameResult → List I64
fielded_ids = gather λ g. map (λ (p : GameParticipantResult). p.hero_id) g.participants

abbrev pub ban_ids : List BanResult → List I64
ban_ids bans = map (λ (b : BanResult). b.hero_id) bans

abbrev rows_of : MatchResult → GameResult → List GameParticipantResult → List MetricContext
rows_of m g ps = map (λ (p : GameParticipantResult). context m p.hero_id (played g p)) ps

module _ (m : MatchResult) (h : I64) where
  stands-rows :
      (kind : HeroRole → Bool) (k : Bool)
      → ((g : GameResult) (p : GameParticipantResult) → kind (played g p) ≡ k)
      → (g : GameResult) (ps : List GameParticipantResult)
      → stands kind h (rows_of m g ps)
        ≡ (if k then count h (map (λ (p : GameParticipantResult). p.hero_id) ps) else 0)
  stands-rows kind k e g [] = ground arith
  stands-rows kind k e g (p ∷ ps) = ground (arith, e g p, stands-rows kind k e g ps)

  count-append : (xs ys : List I64) → count h (xs ++ ys) ≡ count h xs + count h ys
  count-append [] ys = omega arith
  count-append (x ∷ xs) ys = omega (arith, count-append xs ys)

  stands-played :
      (kind : HeroRole → Bool) (k : Bool)
      → ((g : GameResult) (p : GameParticipantResult) → kind (played g p) ≡ k)
      → (gs : List GameResult)
      → stands kind h (played_contexts m gs) ≡ (if k then count h (fielded_ids gs) else 0)
  unfolding played_contexts
  stands-played kind k e [] = ground arith
  stands-played kind k e (g ∷ gs) =
      let ids = map (λ (p : GameParticipantResult). p.hero_id) g.participants in
      ground (
        arith,
        stands-append kind h (rows_of m g g.participants) (played_contexts m gs),
        stands-rows kind k e g g.participants,
        stands-played kind k e gs,
        count-append ids (fielded_ids gs),
      )

  -- The contexts of one series role.
  stands-series :
      (kind : HeroRole → Bool) (r : HeroRole) (ids : List I64)
      → stands kind h (map (λ i. context m i r) ids) ≡ (if kind r then count h ids else 0)
  stands-series kind r [] = ground arith
  stands-series kind r (i ∷ ids) = ground (arith, stands-series kind r ids)

map-append-ids :
    (xs ys : List MetricContext) → context_ids (xs ++ ys) ≡ context_ids xs ++ context_ids ys
map-append-ids [] ys = refl
map-append-ids (x ∷ xs) ys = ap (◌∷◌ x.hero_id) (map-append-ids xs ys)

context_ids-rows :
    (m : MatchResult) (g : GameResult) (ps : List GameParticipantResult)
    → context_ids (rows_of m g ps) ≡ map (λ (p : GameParticipantResult). p.hero_id) ps
context_ids-rows m g [] = refl
context_ids-rows m g (p ∷ ps) = ap (◌∷◌ p.hero_id) (context_ids-rows m g ps)

context_ids-played :
    (m : MatchResult) (gs : List GameResult) → context_ids (played_contexts m gs) ≡ fielded_ids gs
unfolding played_contexts
context_ids-played m [] = refl
context_ids-played m (g ∷ gs) = simp (map-append-ids, context_ids-rows, context_ids-played m gs)

contains-count :
    (h : I64) (xs : List I64) → contains xs h ≡ (if leb 1 (count h xs) then true else false)
contains-count h [] = refl
contains-count h (x ∷ xs) = ground (arith, contains-count h xs)

-- Each hero keeps one ban, unless it was seen before.
count-first_bans :
    (h : I64) (seen : List I64) (bs : List BanResult)
    → count h (ban_ids (first_bans seen bs))
      ≡ (if contains (ban_ids bs) h && not (contains seen h) then 1 else 0)
unfolding first_bans
count-first_bans h seen [] = refl
count-first_bans h seen (b ∷ bs) = elim (Bool-cases (contains seen b.hero_id)) [
  | inl old ↦ rw old (ground (arith, count-first_bans h seen bs, contains_congr seen b.hero_id h))
  | inr new ↦ rw new (
      ground (
        arith,
        count-first_bans h (seen ++ b.hero_id ∷ []) bs,
        contains-append seen (b.hero_id ∷ []) h,
        contains_congr seen b.hero_id h,
      ))
]

contains-keep_bans :
    (h : I64) (ids : List I64) (bs : List BanResult)
    → contains (ban_ids (keep (λ (b : BanResult). not (contains ids b.hero_id)) bs)) h
      ≡ (contains (ban_ids bs) h && not (contains ids h))
contains-keep_bans h ids [] = refl
contains-keep_bans h ids (b ∷ bs) =
    ground (arith, contains-keep_bans h ids bs, contains_congr ids b.hero_id h)

count-standing_bans :
    (h : I64) (ids : List I64) (bs : List BanResult)
    → count h (ban_ids (standing_bans ids bs))
      ≡ (if contains (ban_ids bs) h && not (contains ids h) then 1 else 0)
unfolding standing_bans
count-standing_bans h ids bs =
    let kept = keep (λ (b : BanResult). not (contains ids b.hero_id)) bs in
    ground (arith, count-first_bans h [] kept, contains-keep_bans h ids bs)

count-keep_ids :
    (h : I64) (out xs : List I64)
    → Distinct xs
    → count h (keep (λ i. not (contains out i)) xs)
      ≡ (if contains xs h && not (contains out h) then 1 else 0)
count-keep_ids h out [] d = refl
count-keep_ids h out (x ∷ xs) d =
    ground (arith, count-keep_ids h out xs d.1, contains_congr out x h, contains_congr xs x h)

stands-bans :
    (m : MatchResult) (kind : HeroRole → Bool) (h : I64) (bs : List BanResult)
    → stands kind h (map (λ (b : BanResult). context m b.hero_id banned) bs)
      ≡ (if kind banned then count h (ban_ids bs) else 0)
stands-bans m kind h [] = ground arith
stands-bans m kind h (b ∷ bs) = ground (arith, stands-bans m kind h bs)

-- The parts of `hero_contexts`, for a kind of role that is the same for every row.
stands-hero_contexts :
    (m : MatchResult) (kind : HeroRole → Bool) (k : Bool) (h : I64)
    → ((g : GameResult) (p : GameParticipantResult) → kind (played g p) ≡ k)
    → let fielded = contains (fielded_ids m.games) h in
      let struck = contains (ban_ids m.bans) h in
      stands kind h (hero_contexts m)
      ≡ (if k then count h (fielded_ids m.games) else 0)
        + ((if kind drafted
                && (contains (all_drafted m.participants) h && not (struck && not fielded))
              then 1
              else 0)
            + (if kind banned && (struck && not fielded) then 1 else 0))
unfolding hero_contexts
stands-hero_contexts m kind k h e =
    let rows = played_contexts m m.games in
    let ids = context_ids rows in
    let bans = standing_bans ids m.bans in
    let drafts = keep (λ i. not (contains (ban_ids bans) i)) (drafted_hero_ids m) in
    let drafted_here = map (λ i. context m i drafted) drafts in
    let banned_here = map (λ (b : BanResult). context m b.hero_id banned) bans in
    let taken = drafted_hero_ids_lem m in
    ground (
      arith,
      stands-append kind h rows (drafted_here ++ banned_here),
      stands-append kind h drafted_here banned_here,
      stands-played m h kind k e m.games,
      stands-series m h kind drafted drafts,
      stands-bans m kind h bans,
      count-standing_bans h ids m.bans,
      contains-count h (ban_ids bans),
      count-keep_ids h (ban_ids bans) (drafted_hero_ids m) taken.0,
      taken.1 h,
      ap (λ xs. contains xs h) (context_ids-played m m.games),
    )

-- A hero has a played context for every row of a game that names it; one banned context if a ban names
-- it and it did not play, however many bans do; and one drafted context if a side drafted it and it has
-- no banned context, however many sides did and however many games it played. No hero has both a
-- drafted and a banned context.
pub hero_contexts_lem :
    (m : MatchResult) (h : I64)
    → let fielded = contains (fielded_ids m.games) h in
      let struck = contains (ban_ids m.bans) h in
      let taken = contains (all_drafted m.participants) h in
      (stands is_played h (hero_contexts m) ≡ count h (fielded_ids m.games))
      × (stands is_drafted h (hero_contexts m)
          ≡ (if taken && (fielded || not struck) then 1 else 0))
      × (stands is_banned h (hero_contexts m) ≡ (if struck && not fielded then 1 else 0))
      × (stands is_drafted h (hero_contexts m) + stands is_banned h (hero_contexts m) ≤ 1)
hero_contexts_lem m h =
    let p = stands-hero_contexts m is_played true h (λ g r. refl) in
    let d = stands-hero_contexts m is_drafted false h (λ g r. refl) in
    let b = stands-hero_contexts m is_banned false h (λ g r. refl) in
    (omega (arith, p), ground (arith, d), ground (arith, b), ground (arith, d, b))
