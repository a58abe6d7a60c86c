-- ===== src/LilyBox/Filter.antt =====
-- The lists of strings of a manifest and the filters they fill.
use sage_tree.Base.{
  Bool, true, false, none, some, List, [], ◌∷◌, ◌++◌, Bytes, bytes, All, has_prefix, ◌≡◌, refl, ap,
  sym, ◌∙◌, ◌==◌, arith, ◌≢◌, ◌⊎◌,
}
use mathlib.Core.List.{append_assoc, append-nil, Memᴰ}
use sage_tree.LilyBox.Capability.{LilyBox}
use sage_tree.LilyBox.Manifest.{string_items, parse_string_list, apply_entry}

-- No byte is a quote.
abbrev pub Unquoted : Bytes → Type 0
Unquoted = All (λ c. c ≢ 34)

-- A text with strings in quotes: what stands before each string, the string, and what follows the
-- last one.
unfoldable pub quoted : List (Bytes × Bytes) → Bytes → Bytes
quoted [] end = end
quoted ((gap, item) ∷ rest) end = gap ++ (34 ∷ (item ++ (34 ∷ quoted rest end)))

-- The strings of the text, in order.
abbrev pub items_of : List (Bytes × Bytes) → List Bytes
items_of [] = []
items_of ((gap, item) ∷ rest) = item ∷ items_of rest

abbrev pub BothUnquoted : Bytes × Bytes → Type 0
BothUnquoted (gap, item) = Unquoted gap × Unquoted item

string_items-closed :
    (item acc s : Bytes)
    → Unquoted item
    → string_items (some acc) (item ++ (34 ∷ s)) ≡ (acc ++ item) ∷ string_items none s
unfolding string_items
string_items-closed [] acc s h = ap (λ l. l ∷ string_items none s) (sym (append-nil acc))
string_items-closed (c ∷ item) acc s h =
    let other : (c == 34) ≡ false = ground (arith, h.0) in
    rw other (
      string_items-closed item (acc ++ (c ∷ [])) s h.1
      ∙ ap (λ l. l ∷ string_items none s) (append_assoc acc (c ∷ []) item))

-- What stands outside of quotes is skipped.
string_items-gap :
    (gap s : Bytes) → Unquoted gap → string_items none (gap ++ s) ≡ string_items none s
unfolding string_items
string_items-gap [] s h = refl
string_items-gap (c ∷ gap) s h =
    let other : (c == 34) ≡ false = ground (arith, h.0) in rw other (string_items-gap gap s h.1)

-- From a text of strings in quotes, with any bytes but quotes before, between and after them,
-- `parse_string_list` reads these strings in their order.
pub parse_string_list-quoted :
    (l : List (Bytes × Bytes)) (end : Bytes)
    → All BothUnquoted l
    → Unquoted end
    → parse_string_list (quoted l end) ≡ items_of l
unfolding quoted string_items
parse_string_list-quoted [] end h t =
    ap (string_items none) (sym (append-nil end)) ∙ string_items-gap end [] t
parse_string_list-quoted ((gap, item) ∷ rest) end ((g, i), h) t =
    string_items-gap gap _ g
    ∙ (string_items-closed item [] (quoted rest end) i
        ∙ ap (λ l. item ∷ l) (parse_string_list-quoted rest end h t))

module _ (fnmatch : Bytes → Bytes → Bool → Bool) where
  -- Some entry is a prefix of the path, or matches it.
  abbrev pub Admits : List Bytes → Bytes → Type 0
  Admits entries path =
      (entry : Bytes) × Memᴰ entry entries
      × ((has_prefix path entry ≡ true) ⊎ (fnmatch entry path true ≡ true))

  -- The sandbox after an entry `fs.read` of its manifest.
  abbrev pub with_fs_read : LilyBox → Bytes → LilyBox
  with_fs_read box val = record box {
    capability = apply_entry (bytes "fs.read") val box.capability;
  }
