-- ===== src/Base/Text.antt =====
-- Texts as code points, with Go's `strings` functions that the program calls.
use Prim.Native.Nat.{ℕ, suc}
use Prim.Native.Char.{Char, code}
use Prim.Native.String.{String, [], ◌∷◌}
use mathlib.Core.Bool.{Bool, true, false, ◌&&◌, ◌||◌}
use package.mt_mcp_proxy.Base.Tests.{leb, nat_eq, if◌then◌else◌}

-- `unicode.IsSpace`
unfoldable pub is_space : ℕ → Bool
is_space c =
    (leb 9 c && leb c 13)
    || nat_eq c 32
    || nat_eq c 0x85
    || nat_eq c 0xa0
    || nat_eq c 0x1680
    || (leb 0x2000 c && leb c 0x200a)
    || nat_eq c 0x2028
    || nat_eq c 0x2029
    || nat_eq c 0x202f
    || nat_eq c 0x205f
    || nat_eq c 0x3000

-- `strings.HasPrefix(s, p)`
unfoldable pub has_prefix : String → String → Bool
has_prefix s [] = true
has_prefix [] (d ∷ p) = false
has_prefix (c ∷ s) (d ∷ p) = nat_eq (code c) (code d) && has_prefix s p

-- `strings.Contains(s, p)`
unfoldable pub contains_text : String → String → Bool
unfolding has_prefix
contains_text [] p = has_prefix [] p
contains_text (c ∷ s) p = has_prefix (c ∷ s) p || contains_text s p

-- `s + t`, by clauses, so that it computes under a variable.
unfoldable pub concat : String → String → String
concat [] t = t
concat (c ∷ s) t = c ∷ concat s t

-- `len(s)`, in code points
unfoldable pub text_length : String → ℕ
text_length [] = 0
text_length (c ∷ s) = suc (text_length s)

-- `strings.HasSuffix(s, p)`: `p` is one of the tails of `s`.
unfoldable pub same_text : String → String → Bool
same_text [] [] = true
same_text [] (d ∷ t) = false
same_text (c ∷ s) [] = false
same_text (c ∷ s) (d ∷ t) = nat_eq (code c) (code d) && same_text s t

unfoldable pub has_suffix : String → String → Bool
unfolding same_text
has_suffix [] p = same_text [] p
has_suffix (c ∷ s) p = same_text (c ∷ s) p || has_suffix s p

-- `strings.TrimLeft(s, space)` and `strings.TrimRight`, as `strings.TrimSpace` makes them.
unfoldable pub trim_left : String → String
unfolding is_space
trim_left [] = []
trim_left (c ∷ s) = let rest = trim_left s in if is_space (code c) then rest else c ∷ s

abbrev pub end_with : Char → String → Bool → String
end_with c [] true = []
end_with c [] false = c ∷ []
end_with c (d ∷ s) b = c ∷ d ∷ s

unfoldable pub trim_right : String → String
unfolding is_space
trim_right [] = []
trim_right (c ∷ s) = end_with c (trim_right s) (is_space (code c))

unfoldable pub trim_space : String → String
unfolding trim_left trim_right
trim_space s = trim_right (trim_left s)

-- ASCII lower case, which decides `strings.EqualFold` where one side is ASCII without k or s.
unfoldable pub to_lower : ℕ → ℕ
to_lower c = if leb b'A' c && leb c b'Z' then Prim.Native.Nat.◌+◌ c 32 else c

-- `strings.TrimSuffix(s, p)`
unfoldable pub trim_suffix : String → String → String
unfolding same_text
trim_suffix [] p = []
trim_suffix (c ∷ s) p = if same_text (c ∷ s) p then [] else c ∷ trim_suffix s p
