-- ===== src/Base/Strings.antt =====
-- Strings of bytes: what the sources use of Zig's `std.mem` and of Python's `str`.
pub mod Laws
use Prim.Native.Nat.{ℕ}
use mathlib.Core.Bool.{Bool, true, false, ◌&&◌, ◌||◌}
use mathlib.Core.Option.{Option, none, some}
use mathlib.Core.List.{List, [], ◌∷◌}
use netz.Base.Tests.{leb, ◌==◌, if◌then◌else◌}
use netz.Base.Lists.{Bytes}

-- `indexOfScalar(u8, value, x) != null`
unfoldable pub contains : ℕ → Bytes → Bool
contains x [] = false
contains x (b ∷ bs) = b == x || contains x bs

-- `startsWith`, and Python's method of that name
unfoldable pub starts_with : Bytes → Bytes → Bool
starts_with value [] = true
starts_with [] (p ∷ ps) = false
starts_with (b ∷ bs) (p ∷ ps) = b == p && starts_with bs ps

abbrev pub push : ℕ → List Bytes → List Bytes
push x [] = (x ∷ []) ∷ []
push x (level ∷ levels) = (x ∷ level) ∷ levels

-- `splitScalar` run to its end, and `str.split`
unfoldable pub split_scalar : ℕ → Bytes → List Bytes
split_scalar d [] = [] ∷ []
split_scalar d (b ∷ bs) = let rest = split_scalar d bs in if b == d then [] ∷ rest else push b rest

-- `indexOfScalar(u8, rest, '/')`, with `rest[0..slash]` and `rest[slash + 1 ..]`
unfoldable pub split_first : ℕ → Bytes → Option (Bytes × Bytes)
split_first d [] = none
split_first d (b ∷ bs) =
    let rest = split_first d bs in
    if b == d then some ([], bs) else elim rest [ some (x, y) ↦ some (b ∷ x, y) | none ↦ none ]

-- `needle in value` of Python
unfoldable pub occurs : Bytes → Bytes → Bool
unfolding starts_with
occurs needle [] = starts_with [] needle
occurs needle (b ∷ bs) = starts_with (b ∷ bs) needle || occurs needle bs

abbrev between : ℕ → ℕ → ℕ → Bool
between lo hi c = leb lo c && leb c hi

-- `str.isspace` of one character
unfoldable pub is_space : ℕ → Bool
is_space c =
    between 9 13 c
    || between 28 32 c
    || c == 133
    || c == 160
    || c == 5760
    || between 8192 8202 c
    || between 8232 8233 c
    || c == 8239
    || c == 8287
    || c == 12288

unfoldable pub strip_left : Bytes → Bytes
unfolding is_space
strip_left [] = []
strip_left (c ∷ cs) = let rest = strip_left cs in if is_space c then rest else c ∷ cs

unfoldable pub strip_right : Bytes → Bytes
unfolding is_space
strip_right [] = []
strip_right (c ∷ cs) = add c (strip_right cs)
  where
    add : ℕ → Bytes → Bytes
    add c [] = if is_space c then [] else c ∷ []
    add c (r ∷ rest) = c ∷ r ∷ rest

-- `str.strip`
unfoldable pub strip : Bytes → Bytes
unfolding strip_left strip_right
strip value = strip_right (strip_left value)
