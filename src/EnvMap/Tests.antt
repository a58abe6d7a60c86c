-- ===== src/EnvMap/Tests.antt =====
-- The hash map run on small inputs, and its theorems at them.
use sage_tree.Base.{
  ℕ, ◌≡◌, refl, ◌≤◌, ◌<◌, ◌⊎◌, arith, [], Bool, none, some, bytes, bytes_eq, if◌then◌else◌,
}
use sage_tree.EnvMap.Table.{
  EnvMap, envmap_init, envmap_get, envmap_set, envmap_hash, next_pow2, put, set_within, probe_set,
  probe_get, reinsert,
}
use sage_tree.EnvMap.Put.{Finds, envmap_get-Finds, IsValid}
use sage_tree.EnvMap.Grow.{Updates, envmap_set-Updates}
use sage_tree.EnvMap.Size.{Rounds, next_pow2_lem}
use sage_tree.EnvMap.AsIndex.{
  map_init, map_init-IsValid, map_get, map_set, map_get-map_set, map_set-Updates,
}

abbrev start : EnvMap ℕ
start = map_init 1

-- Nine names, which make the map grow at the seventh.
abbrev full : EnvMap ℕ
full =
    map_set
      (map_set
        (map_set
          (map_set
            (map_set
              (map_set (map_set (map_set (map_set start (bytes "a") 1) (bytes "b") 2) (bytes "c") 3)
                (bytes "d") 4)
              (bytes "e") 5)
            (bytes "f") 6)
          (bytes "g") 7)
        (bytes "h") 8)
      (bytes "i") 9

run : Unit {0}
unfolding envmap_init envmap_get envmap_set envmap_hash put set_within probe_set probe_get reinsert
run = tt

full-grows : full.cap ≡ 16
unfolding run
full-grows = refl

full_get : envmap_get full (bytes "g") ≡ some (some 7)
unfolding run
full_get = refl

full_miss : envmap_get full (bytes "z") ≡ some none
unfolding run
full_miss = refl

hash_offset : envmap_hash [] ≡ 2166136261
unfolding run
hash_offset = refl

start-IsValid : IsValid start
start-IsValid = map_init-IsValid 1 (omega arith)

one-Updates : Updates start (bytes "a") 1 (map_set start (bytes "a") 1)
one-Updates = map_set-Updates start (bytes "a") 1 start-IsValid

envmap_get-Finds_example : Finds (map_set start (bytes "a") 1) (bytes "a")
envmap_get-Finds_example =
    envmap_get-Finds (map_set start (bytes "a") 1) (bytes "a") one-Updates.valid

envmap_set-Updates_example :
    (r : EnvMap ℕ × Bool) × (envmap_set (map_set start (bytes "a") 1) (bytes "b") 2 ≡ some r)
    × Updates (map_set start (bytes "a") 1) (bytes "b") 2 r.0
envmap_set-Updates_example =
    envmap_set-Updates (map_set start (bytes "a") 1) (bytes "b") 2 one-Updates.valid

map_get-map_set_example :
    map_get (map_set (map_set start (bytes "a") 1) (bytes "b") 2) (bytes "a") ≡ (
      if bytes_eq (bytes "b") (bytes "a")
      then some 2
      else map_get (map_set start (bytes "a") 1) (bytes "a"))
map_get-map_set_example =
    map_get-map_set (map_set start (bytes "a") 1) (bytes "b") 2 (bytes "a") one-Updates.valid

next_pow2_lem_example :
    ((18 ≤ 1073741824) × Rounds 18 (next_pow2 18)) ⊎ ((1073741824 < 18) × (next_pow2 18 ≡ none))
next_pow2_lem_example = next_pow2_lem 18

rounds_up : next_pow2 18 ≡ some 32
unfolding next_pow2
rounds_up = refl
