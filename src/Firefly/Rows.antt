-- ===== src/Firefly/Rows.antt =====
-- The row of `edist` holds distances of prefixes.
use sage_tree.Base.{ℕ, suc, ◌+◌, ◌≡◌, refl, sym, ap, ◌∙◌, min, List, [], ◌∷◌, Bytes, length, arith}
use sage_tree.Firefly.Distance.{
  cost, least, fill_row, next_row, all_rows, first_row, last_entry, edist,
}

-- The edit distance of two strings, by the recursion on their first bytes.
pub distance : Bytes → Bytes → ℕ
distance [] b = length b
distance (x ∷ a) [] = suc (length a)
distance (x ∷ a) (y ∷ b) =
    min (min (distance a (y ∷ b) + 1) (distance (x ∷ a) b + 1)) (distance a b + cost x y)

least-min : (v d s : ℕ) → least v d s ≡ min (min v d) s
unfolding least
least-min v d s = ground arith

-- The bytes of the second list, one after another, in front of the first.
abbrev pub onto : Bytes → Bytes → Bytes
onto acc [] = acc
onto acc (y ∷ b) = onto (y ∷ acc) b

abbrev pub backwards : Bytes → Bytes
backwards b = onto [] b

-- The distances of `a` to `acc` and to what comes of it by the bytes of `b`.
abbrev later : Bytes → Bytes → Bytes → List ℕ
later a acc [] = []
later a acc (y ∷ b) = distance a (y ∷ acc) ∷ later a (y ∷ acc) b

abbrev row_of : Bytes → Bytes → Bytes → List ℕ
row_of a acc b = distance a acc ∷ later a acc b

fill_row-later :
    (x : ℕ) (a acc b : Bytes)
    → fill_row x (distance a acc) (distance (x ∷ a) acc) b (later a acc b) ≡ later (x ∷ a) acc b
unfolding fill_row distance
fill_row-later x a acc [] = refl
fill_row-later x a acc (y ∷ b) =
    rw (least-min (distance a (y ∷ acc) + 1) (distance (x ∷ a) acc + 1) (distance a acc + cost x y))
      (ap (λ l. distance (x ∷ a) (y ∷ acc) ∷ l) (fill_row-later x a (y ∷ acc) b))

all_rows-row_of :
    (a done b : Bytes)
    → all_rows (suc (length done)) a b (row_of done [] b) ≡ row_of (onto done a) [] b
unfolding all_rows next_row distance
all_rows-row_of [] done b = refl
all_rows-row_of (x ∷ a) done b =
    ap (λ row. all_rows (suc (suc (length done))) a b (suc (length done) ∷ row))
      (fill_row-later x done [] b)
    ∙ all_rows-row_of a (x ∷ done) b

first_row-row_of : (b acc : Bytes) → first_row (length acc) b ≡ row_of [] acc b
unfolding first_row distance
first_row-row_of [] acc = refl
first_row-row_of (y ∷ b) acc = ap (λ l. length acc ∷ l) (first_row-row_of b (y ∷ acc))

last_entry-row_of : (a acc b : Bytes) → last_entry (row_of a acc b) ≡ distance a (onto acc b)
unfolding last_entry
last_entry-row_of a acc [] = refl
last_entry-row_of a acc (y ∷ b) = last_entry-row_of a (y ∷ acc) b

length-onto : (acc b : Bytes) → length (onto acc b) ≡ length acc + length b
length-onto acc [] = omega arith
length-onto acc (y ∷ b) = omega (arith, length-onto (y ∷ acc) b)

length-backwards : (b : Bytes) → length (backwards b) ≡ length b
length-backwards b = omega (arith, length-onto [] b)

distance-nil : (a : Bytes) → distance a [] ≡ length a
unfolding distance
distance-nil [] = refl
distance-nil (x ∷ a) = refl

-- `edist`, which keeps one row of the table, returns the edit distance of the two names, read from
-- their ends, where letters are compared without their case.
pub edist-distance : (a b : Bytes) → edist a b ≡ distance (backwards a) (backwards b)
unfolding edist distance
edist-distance [] b = sym (length-backwards b)
edist-distance (x ∷ a) [] = sym (distance-nil (backwards (x ∷ a)) ∙ length-backwards (x ∷ a))
edist-distance (x ∷ a) (y ∷ b) =
    ap (λ row. last_entry (all_rows 1 (x ∷ a) (y ∷ b) row)) (first_row-row_of (y ∷ b) [])
    ∙ ap last_entry (all_rows-row_of (x ∷ a) [] (y ∷ b))
    ∙ last_entry-row_of (backwards (x ∷ a)) [] (y ∷ b)
