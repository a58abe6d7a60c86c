-- ===== src/Firefly/Distance.antt =====
-- `edist` of src/firefly.c: the array `r` is a list, and its loops are recursions.
use sage_tree.Base.{ℕ, suc, ◌+◌, ◌&&◌, List, [], ◌∷◌, Bytes, length, ltb, leb, ◌==◌, if◌then◌else◌}

-- `tolower` of libc on ASCII.
unfoldable pub tolower : ℕ → ℕ
tolower c = if leb 65 c && leb c 90 then c + 32 else c

unfoldable pub cost : ℕ → ℕ → ℕ
cost x y = if tolower x == tolower y then 0 else 1

-- The least of the three neighbours.
unfoldable pub least : ℕ → ℕ → ℕ → ℕ
least v d s = if ltb v d then (if ltb v s then v else s) else (if ltb d s then d else s)

-- The inner loop from column `j` on: `p`, `r[j - 1]`, the bytes of `b` from `j - 1` on, and `r`
-- from `j` on.
unfoldable pub fill_row : ℕ → ℕ → ℕ → Bytes → List ℕ → List ℕ
fill_row x p left [] row = []
fill_row x p left (y ∷ b) [] = []
fill_row x p left (y ∷ b) (above ∷ row) =
    let v = least (above + 1) (left + 1) (p + cost x y) in v ∷ fill_row x above v b row

-- One round of the outer loop, of number `i`.
unfoldable pub next_row : ℕ → ℕ → Bytes → List ℕ → List ℕ
next_row i x b [] = []
next_row i x b (p ∷ row) = i ∷ fill_row x p i b row

unfoldable pub all_rows : ℕ → Bytes → Bytes → List ℕ → List ℕ
all_rows i [] b row = row
all_rows i (x ∷ a) b row = all_rows (suc i) a b (next_row i x b row)

-- `r[j] = j`
unfoldable pub first_row : ℕ → Bytes → List ℕ
first_row j [] = j ∷ []
first_row j (y ∷ b) = j ∷ first_row (suc j) b

-- `r[bl]`
unfoldable pub last_entry : List ℕ → ℕ
last_entry [] = 0
last_entry (v ∷ []) = v
last_entry (v ∷ w ∷ row) = last_entry (w ∷ row)

unfoldable pub edist : Bytes → Bytes → ℕ
edist [] b = length b
edist (x ∷ a) [] = length (x ∷ a)
edist (x ∷ a) (y ∷ b) = last_entry (all_rows 1 (x ∷ a) (y ∷ b) (first_row 0 (y ∷ b)))
