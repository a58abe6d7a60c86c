-- ===== src/Firefly/Tests.antt =====
-- Runs of the edit distance and of the search for a suggestion.
use sage_tree.Env.Scope.{EnvNode}
use sage_tree.Env.Walk.{Store}
use sage_tree.Firefly.Suggest.{consider, search_scope, search_from, suggest}
use sage_tree.Firefly.Nearest.{From, visible, visible_from, suggest-Near, suggest-From}
use sage_tree.Base.{
  ℕ, ◌≤◌, ◌≡◌, refl, true, false, [], ◌∷◌, none, some, Bytes, bytes, length, get_elem?, arith,
}
use sage_tree.Firefly.Distance.{
  edist, all_rows, next_row, fill_row, first_row, last_entry, cost, tolower, least,
}
use sage_tree.Firefly.Rows.{distance, backwards, edist-distance}

run : Unit {0}
unfolding edist all_rows next_row fill_row first_row last_entry cost tolower least consider
    search_scope search_from suggest visible_from
run = tt

kitten : edist (bytes "kitten") (bytes "sitting") ≡ 3
unfolding run
kitten = refl

-- Letters are compared without their case.
no_case : edist (bytes "Count") (bytes "cuont") ≡ 2
unfolding run
no_case = refl

edist-distance_example :
    edist (bytes "lenght") (bytes "length")
    ≡ distance (backwards (bytes "lenght")) (backwards (bytes "length"))
edist-distance_example = edist-distance (bytes "lenght") (bytes "length")

abbrev node : Bytes → EnvNode ℕ
node name = record {
  name = name;
  name_length = length name;
  owns_name = true;
  is_const = false;
  value = 0;
}

-- An inner scope with `total` and a global one with `count`.
abbrev two_scopes : Store ℕ ℕ
two_scopes = record {
  cells =
      some (record {
        head = node (bytes "count") ∷ [];
        parent = none;
        id = 1;
        marked = false;
        count = 1;
        map = none;
      })
      ∷ some (record {
        head = node (bytes "total") ∷ [];
        parent = some 0;
        id = 2;
        marked = false;
        count = 1;
        map = none;
      })
      ∷ [];
  allocated = 1 ∷ 0 ∷ [];
  next_env_id = 3;
}

suggests_count :
    suggest two_scopes (some 1) (bytes "cuont")
    ≡ record { best = some (bytes "count"); distance = 2 }
unfolding run
suggests_count = refl

count_visible : get_elem? (visible two_scopes (some 1)) 1 ≡ some (bytes "count")
unfolding run
count_visible = refl

count_distance : edist (bytes "cuont") (bytes "count") ≡ 2
unfolding run
count_distance = refl

suggest-Near_example :
    From (bytes "cuont") (visible two_scopes (some 1)) (suggest two_scopes (some 1) (bytes "cuont"))
    × ((suggest two_scopes (some 1) (bytes "cuont")).distance
        ≤ edist (bytes "cuont") (bytes "count"))
suggest-Near_example =
    suggest-Near two_scopes (some 1) (bytes "cuont") (bytes "count") 1 count_visible
      (omega (arith, count_distance), omega (arith, count_distance))

is_count : (suggest two_scopes (some 1) (bytes "cuont")).best ≡ some (bytes "count")
unfolding run
is_count = refl

suggest-From_example :
    From (bytes "cuont") (visible two_scopes (some 1)) (suggest two_scopes (some 1) (bytes "cuont"))
suggest-From_example = suggest-From two_scopes (some 1) (bytes "cuont") (bytes "count") is_count
