-- ===== src/Text.antt =====
-- JavaScript strings: a string is the list of its UTF-16 code units. The methods are those that
-- email-worker/src calls; each is written for the arguments that it is called with.
pub mod Laws
pub mod Trim
pub mod Split
pub mod Print
use Prim.Native.Char.{code}
use Prim.Native.String.{String}
use agregado.Base.{
  ℕ, zero, suc, ◌+◌, ◌-◌, ◌<◌, Bool, true, false, ◌&&◌, List, [], ◌∷◌, ◌++◌, flat_map, Option, none,
  some, ◌==◌, if◌then◌else◌, length, take, drop, replicate, get_elem?, All,
}

abbrev pub Str : Type 0
Str = List ℕ

-- The code units of a literal; every literal of the program is ASCII.
abbrev pub codes : String → Str
codes String.[] = []
codes (String.◌∷◌ c s) = code c ∷ codes s

-- Every element is a 16-bit code unit.
abbrev pub IsUtf16 : Str → Type 0
IsUtf16 = All (λ c. c < 65536)

-- `s === t`
unfoldable pub str_eq : Str → Str → Bool
str_eq [] [] = true
str_eq [] (_ ∷ _) = false
str_eq (_ ∷ _) [] = false
str_eq (c ∷ s) (d ∷ t) = c == d && str_eq s t

-- What follows the prefix `p` of `s`, if `s` begins with `p`.
unfoldable pub after_prefix : Str → Str → Option Str
after_prefix [] s = some s
after_prefix (_ ∷ _) [] = none
after_prefix (c ∷ p) (d ∷ s) = if c == d then after_prefix p s else none

-- `s.startsWith(p)`
unfoldable pub starts_with : Str → Str → Bool
starts_with s [] = true
starts_with [] (_ ∷ _) = false
starts_with (d ∷ s) (c ∷ p) = d == c && starts_with s p

-- `s.indexOf(c)` for one code unit; `none` is -1.
unfoldable pub index_of : Str → ℕ → Option ℕ
index_of [] c = none
index_of (d ∷ s) c =
    if d == c then some 0 else elim (index_of s c) [ none ↦ none | some i ↦ some (i + 1) ]

-- `s.replace(/c/g, t)` for one code unit `c` and a replacement with no `$`.
unfoldable pub replace_all : ℕ → Str → Str → Str
replace_all c t [] = []
replace_all c t (d ∷ s) = (if d == c then t else d ∷ []) ++ replace_all c t s

-- `parts.join(sep)`
unfoldable pub join : List Str → Str → Str
join [] sep = []
join (p ∷ []) sep = p
join (p ∷ q ∷ ps) sep = p ++ (sep ++ join (q ∷ ps) sep)

-- `s.padStart(n, fill)` for a filler of one code unit.
unfoldable pub pad_start : Str → ℕ → ℕ → Str
pad_start s n fill = replicate (n - length s) fill ++ s
