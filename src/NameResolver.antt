-- ===== src/NameResolver.antt =====
-- backend-rs/crates/umfl-domain/src/name_resolver.rs: a source site's names, matched onto catalogue rows.
pub mod Laws
use um_fantasy_league.Common.{
  ℕ, I64, nat_eq, list_eq, ◌==◌, Bool, true, false, not, Option, none, some, List, [], ◌∷◌, ◌++◌,
  gather, eqb, is_empty, if◌then◌else◌,
}
use um_fantasy_league.Common.Text.{Text, codes}
use um_fantasy_league.Common.IndexMap
use um_fantasy_league.Common.IndexMap.{IndexMap}
use um_fantasy_league.Unicode.{Unicode, trim, join}

abbrev pub aliases : IndexMap Text Text
aliases =
    (codes "dr sattler", codes "dr ellie sattler")
    ∷ (codes "triss", codes "yennefer and triss")
    ∷ (codes "yennefer", codes "yennefer and triss")
    ∷ (codes "buffy giles", codes "buffy")
    ∷ (codes "buffy xander", codes "buffy")
    ∷ []

pub record NameResolver : Type 0 where
  pub by_normalised_name : IndexMap Text I64

-- `replace(c, with)`
unfoldable pub replace : ℕ → Text → Text → Text
replace c with' = gather λ d. if eqb d c then with' else d ∷ []

abbrev pub flush : Text → List Text → List Text
flush [] words = words
flush (c ∷ word) words = (c ∷ word) ∷ words

module _ (u : Unicode) where
  open u use {is_whitespace, to_lowercase}

  -- `split_whitespace()`: the runs of other characters, the last of them read so far in `word`.
  unfoldable pub words_from : Text → Text → List Text
  words_from word [] = flush word []
  words_from word (c ∷ cs) = elim (is_whitespace c) [
    | true ↦ flush word (words_from [] cs)
    | false ↦ words_from (word ++ c ∷ []) cs
  ]

  unfoldable pub normalise : Text → Text
  unfolding trim replace words_from join
  normalise raw =
      let lowered =
        replace 46 (codes " ") (replace 38 (codes " and ") (to_lowercase (trim u raw))) in
      join (codes " ") (words_from [] lowered)

  unfoldable pub new_from : IndexMap Text I64 → List (Text × I64) → IndexMap Text I64
  unfolding normalise IndexMap.or_insert
  new_from names [] = names
  new_from names ((name, id) ∷ entries) =
      new_from (IndexMap.or_insert names (normalise name) id) entries

  -- `NameResolver::new`
  unfoldable pub new_resolver : List (Text × I64) → NameResolver
  unfolding new_from
  new_resolver entries = record { by_normalised_name = new_from [] entries }

  unfoldable pub by_alias : NameResolver → Option Text → Option I64
  unfolding IndexMap.get
  by_alias r none = none
  by_alias r (some name) = IndexMap.get r.by_normalised_name name

  -- The lookup of `resolve`, of a name that is normalised.
  unfoldable pub lookup : NameResolver → Text → Option I64
  unfolding IndexMap.get by_alias
  lookup r name = elim (IndexMap.get r.by_normalised_name name) [
    | some id ↦ some id
    | none ↦ by_alias r (IndexMap.get aliases name)
  ]

  unfoldable pub resolve : NameResolver → Option Text → Option I64
  unfolding normalise lookup
  resolve r none = none
  resolve r (some source_name) = lookup r (normalise source_name)
