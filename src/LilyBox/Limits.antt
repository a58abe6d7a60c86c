-- ===== src/LilyBox/Limits.antt =====
-- The accounting of memory and of the bytes sent.
use sage_tree.Base.{
  ℕ, ◌+◌, ◌%◌, ◌^◌, ◌<◌, ◌≤◌, Option, some, List, [], ◌∷◌, ◌≡◌, refl, ◌↔◌, inl, inr, ◌==◌,
  Bool-cases, arith,
}
use sage_tree.LilyBox.Capability.{LilyBox, ok}
use sage_tree.LilyBox.Checks.{check_alloc}

abbrev pub sum : List ℕ → ℕ
sum [] = 0
sum (n ∷ ns) = n + sum ns

-- The sandbox after one check of an allocation for each request.
pub after_allocs : Option LilyBox → List ℕ → Option LilyBox
after_allocs box [] = box
after_allocs box (n ∷ ns) = after_allocs (check_alloc box n).1 ns

abbrev charged : LilyBox → ℕ → LilyBox
charged box m = record box { bytes_allocated = box.bytes_allocated + m }

check_alloc-charged :
    (box : LilyBox) (m : ℕ)
    → 0 < box.capability.limits.max_memory_bytes
    → box.bytes_allocated + m < 2 ^ 64
    → (check_alloc (some box) m).1 ≡ some (charged box m)
unfolding check_alloc
check_alloc-charged box m limited fits =
    let small : (box.bytes_allocated + m) % 2 ^ 64 ≡ box.bytes_allocated + m = omega arith in
    elim (Bool-cases (box.capability.limits.max_memory_bytes == 0)) [
      | inl e ↦ absurd (ground (arith, e, limited))
      | inr e ↦ rw (e, small) refl
    ]

-- Under a memory limit, and while the total fits a word, the check of an allocation after any
-- sequence of them passes exactly when everything asked for so far, refused requests with it, and
-- this one fit the limit.
pub check_alloc-after_allocs :
    (ns : List ℕ) (box : LilyBox) (n : ℕ)
    → 0 < box.capability.limits.max_memory_bytes
    → box.bytes_allocated + sum ns + n < 2 ^ 64
    → ((check_alloc (after_allocs (some box) ns) n).0 ≡ ok)
      ↔ (box.bytes_allocated + sum ns + n ≤ box.capability.limits.max_memory_bytes)
unfolding check_alloc after_allocs
check_alloc-after_allocs [] box n limited fits = ground arith
check_alloc-after_allocs (m ∷ ns) box n limited fits =
    let shifted : box.bytes_allocated + (m + sum ns) ≡ box.bytes_allocated + m + sum ns =
      omega arith in
    let later = check_alloc-after_allocs ns (charged box m) n limited (omega arith) in
    rw (check_alloc-charged box m limited (omega arith))
      ((λ h. omega (arith, later.0 h)), (λ h. later.1 (omega (arith, h, shifted))))
