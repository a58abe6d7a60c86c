-- ===== src/Dce/Names.antt =====
-- `NameSet` of src/dce.c: a list of names, the newest first.
use sage_tree.Base.{
  ◌≡◌, refl, inl, inr, Bool, true, false, ◌||◌, List, [], ◌∷◌, Bytes, bytes_eq, bytes_eq_iff,
  Bool-cases, if◌then◌else◌,
}

unfoldable pub nameset_has : List Bytes → Bytes → Bool
nameset_has [] name = false
nameset_has (n ∷ set) name = if bytes_eq n name then true else nameset_has set name

unfoldable pub nameset_add : List Bytes → Bytes → List Bytes
nameset_add set name = if nameset_has set name then set else (name ∷ set)

pub or_assoc : (a b c : Bool) → ((a || b) || c) ≡ (a || (b || c))
or_assoc true b c = refl
or_assoc false b c = refl

pub or_false : (a : Bool) → (a || false) ≡ a
or_false true = refl
or_false false = refl

or_absorbs : (a b : Bool) → (b ≡ true → a ≡ true) → a ≡ (a || b)
or_absorbs true b h = refl
or_absorbs false true h = h refl
or_absorbs false false h = refl

or_comm : (a b : Bool) → (if a then true else b) ≡ (b || a)
or_comm true true = refl
or_comm true false = refl
or_comm false true = refl
or_comm false false = refl

pub nameset_has-nameset_add :
    (set : List Bytes) (name n : Bytes)
    → nameset_has (nameset_add set name) n ≡ (nameset_has set n || bytes_eq name n)
unfolding nameset_has nameset_add
nameset_has-nameset_add set name n = elim (Bool-cases (nameset_has set name)) [
  | inl e ↦
      let known : nameset_add set name ≡ set = rw (nameset_add, e) refl in
      let same : bytes_eq name n ≡ true → nameset_has set n ≡ true =
        λ h. rw (← (bytes_eq_iff name n).0 h) e in
      rw known (or_absorbs (nameset_has set n) (bytes_eq name n) same)
  | inr e ↦
      let added : nameset_add set name ≡ (name ∷ set) = rw (nameset_add, e) refl in
      rw added (or_comm (bytes_eq name n) (nameset_has set n))
]
