-- ===== src/NameResolver/Laws.antt =====
-- What the resolver finds.
use um_fantasy_league.Common.{
  I64, nat_eq, list_eq, ◌==◌, Bool, true, false, Option, none, some, List, [], ◌∷◌, if◌then◌else◌,
  ◌≡◌, refl, ◌∙◌, ap,
}
use um_fantasy_league.Common.Text.{Text}
use um_fantasy_league.Common.IndexMap
use um_fantasy_league.Common.IndexMap.{IndexMap, get-or_insert}
use um_fantasy_league.Unicode.{Unicode}
use um_fantasy_league.NameResolver.{
  NameResolver, aliases, normalise, new_from, new_resolver, lookup, by_alias, resolve,
}

module _ (u : Unicode) where
  -- The id of the first catalogue row with a normalised name.
  abbrev pub first_id : List (Text × I64) → Text → Option I64
  first_id [] key = none
  first_id ((name, id) ∷ entries) key =
      let rest = first_id entries key in if normalise u name == key then some id else rest

  abbrev pub or_else : Option I64 → Option I64 → Option I64
  or_else none o = o
  or_else (some id) o = some id

  abbrev pub at_alias : List (Text × I64) → Option Text → Option I64
  at_alias entries none = none
  at_alias entries (some name) = first_id entries name

  get-new_from :
      (names : IndexMap Text I64) (entries : List (Text × I64)) (key : Text)
      → IndexMap.get (new_from u names entries) key
        ≡ or_else (IndexMap.get names key) (first_id entries key)
  unfolding new_from
  get-new_from names [] key = end (IndexMap.get names key)
    where
      end : (o : Option I64) → o ≡ or_else o none
      end none = refl
      end (some id) = refl
  get-new_from names ((name, id) ∷ entries) key =
      get-new_from (IndexMap.or_insert names (normalise u name) id) entries key
      ∙ ap (λ o. or_else o (first_id entries key)) (get-or_insert names (normalise u name) key id)
      ∙ first (IndexMap.get names key) (normalise u name == key)
    where
      first :
          (o : Option I64) (b : Bool)
          → or_else
              (elim o [ none ↦ if b then some id else none | some w ↦ some w ])
              (first_id entries key)
            ≡ or_else o (let rest = first_id entries key in if b then some id else rest)
      first (some w) b = refl
      first none true = refl
      first none false = refl

  get-new_names :
      (entries : List (Text × I64)) (key : Text)
      → IndexMap.get (new_from u [] entries) key ≡ first_id entries key
  unfolding IndexMap.get
  get-new_names entries key = get-new_from [] entries key

  by_alias_lem :
      (entries : List (Text × I64)) (a : Option Text)
      → by_alias u (new_resolver u entries) a ≡ at_alias entries a
  unfolding by_alias new_resolver
  by_alias_lem entries none = refl
  by_alias_lem entries (some name) = get-new_names entries name

  lookup-or_else :
      (r : NameResolver) (key : Text)
      → lookup u r key
        ≡ or_else (IndexMap.get r.by_normalised_name key) (by_alias u r (IndexMap.get aliases key))
  unfolding lookup
  lookup-or_else r key = pick (IndexMap.get r.by_normalised_name key)
    where
      pick :
          (o : Option I64)
          → elim o as (λ _. Option I64) [
            | some id ↦ some id
            | none ↦ by_alias u r (IndexMap.get aliases key)
          ]
            ≡ or_else o (by_alias u r (IndexMap.get aliases key))
      pick none = refl
      pick (some id) = refl

  -- A source name resolves to the first catalogue row whose name is the same after normalisation; where
  -- there is none, to the first row whose normalised name is the alias's target, if the name is an alias;
  -- and otherwise to nothing.
  pub resolve_lem :
      (entries : List (Text × I64)) (source : Text)
      → let key = normalise u source in
        resolve u (new_resolver u entries) (some source)
        ≡ or_else (first_id entries key) (at_alias entries (IndexMap.get aliases key))
  unfolding resolve new_resolver
  resolve_lem entries source =
      let key = normalise u source in
      let r = new_resolver u entries in
      lookup-or_else r key
      ∙ ap (λ o. or_else o (by_alias u r (IndexMap.get aliases key))) (get-new_names entries key)
      ∙ ap (or_else (first_id entries key)) (by_alias_lem entries (IndexMap.get aliases key))
