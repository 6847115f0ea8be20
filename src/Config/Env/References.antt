-- ===== src/Config/Env/References.antt =====
-- The references of a text, `${NAME}`, against what `envRef` finds.
use Prim.Native.Char.{Char, code}
use Prim.Native.String.{[] as empty_text, ◌∷◌ as cons_char}
use mt_mcp_proxy.Base.{
  ℕ, String, ◌≡◌, refl, sym, ap, subst, inl, inr, true, false, ◌&&◌, Option, none, some, arith,
  nat_eq, Bool-cases,
}
use mt_mcp_proxy.Base.Text.{concat}
use mt_mcp_proxy.Config.Env.{is_name_start, is_name_char, longer, scan_name, first_name, match_ref}
use text.Mathlib.TextEquality.{Char-path}

abbrev AllNameChars : String → Type 0
AllNameChars empty_text = Unit
AllNameChars (cons_char c s) = (is_name_char (code c) ≡ true) × AllNameChars s

-- A letter or an underscore, then letters, digits and underscores.
abbrev pub IsName : String → Type 0
IsName empty_text = ⊥
IsName (cons_char c s) = (is_name_start (code c) ≡ true) × AllNameChars s

-- `${name}`, and what follows it.
abbrev pub reference : String → String → String
reference name rest = cons_char "$" (cons_char "{" (concat name (cons_char "}" rest)))

name_char_not_brace : (c : ℕ) → is_name_char c ≡ true → nat_eq c b'}' ≡ false
unfolding is_name_char is_name_start
name_char_not_brace c h = ground arith

scan_name-concat :
    (name rest : String)
    → AllNameChars name
    → scan_name (concat name (cons_char "}" rest)) ≡ some name
unfolding scan_name concat
scan_name-concat empty_text rest h = refl
scan_name-concat (cons_char c name) rest (good, h) =
    rw (name_char_not_brace (code c) good, good, scan_name-concat name rest h)

longer-eq-some :
    (c : Char) (o : Option String) (name : String)
    → longer c o ≡ some name
    → (tail : String) × (o ≡ some tail) × (name ≡ cons_char c tail)
longer-eq-some c none name h = cc
longer-eq-some c (some tail) name h = (tail, refl, cc)

same_char : (c d : Char) → nat_eq (code c) (code d) ≡ true → c ≡ d
same_char c d h = Char-path c d (ground arith)

scan_name-eq-some :
    (s name : String)
    → scan_name s ≡ some name
    → AllNameChars name × ((rest : String) × (s ≡ concat name (cons_char "}" rest)))
unfolding scan_name concat
scan_name-eq-some empty_text name h = cc
scan_name-eq-some (cons_char c s) name h = elim (Bool-cases (nat_eq (code c) b'}')) [
  | inl e ↦
      let empty : empty_text ≡ name = ground arith in
      subst Closed empty (tt, (s, ap (λ d. cons_char d s) (same_char c "}" e)))
  | inr e ↦ elim (Bool-cases (is_name_char (code c))) [
    | inl good ↦
        let (tail, found, split) = longer-eq-some c (scan_name s) name (ground arith) in
        let (chars, (rest, same)) = scan_name-eq-some s tail found in
        subst Closed (sym split) ((good, chars), (rest, ap (cons_char c) same))
    | inr bad ↦ absurd (ground arith)
  ]
]
  where
    Closed : String → Type 0
    Closed w = AllNameChars w × ((rest : String) × (cons_char c s ≡ concat w (cons_char "}" rest)))

pub match_ref-reference :
    (name rest : String) → IsName name → match_ref (reference name rest) ≡ some name
unfolding match_ref first_name
match_ref-reference empty_text rest h = elim h [ ]
match_ref-reference (cons_char c name) rest (good, h) =
    unfold concat in rw (good, scan_name-concat name rest h) refl

-- `IsName` is what the pattern asks of a name.
first_name-eq-some :
    (s name : String)
    → first_name s ≡ some name
    → IsName name × ((rest : String) × (s ≡ concat name (cons_char "}" rest)))
unfolding first_name concat
first_name-eq-some empty_text name h = cc
first_name-eq-some (cons_char c s) name h = elim (Bool-cases (is_name_start (code c))) [
  | inl good ↦
      let (tail, found, split) = longer-eq-some c (scan_name s) name (ground arith) in
      let (chars, (rest, same)) = scan_name-eq-some s tail found in
      subst Opened (sym split) ((good, chars), (rest, ap (cons_char c) same))
  | inr bad ↦ absurd (ground arith)
]
  where
    Opened : String → Type 0
    Opened w = IsName w × ((rest : String) × (cons_char c s ≡ concat w (cons_char "}" rest)))

pub match_ref-eq-some :
    (s name : String)
    → match_ref s ≡ some name
    → IsName name × ((rest : String) × (s ≡ reference name rest))
unfolding match_ref
match_ref-eq-some empty_text name h = cc
match_ref-eq-some (cons_char c empty_text) name h = cc
match_ref-eq-some (cons_char c (cons_char d s)) name h =
    elim (Bool-cases (nat_eq (code c) b'$' && nat_eq (code d) b'{')) [
      | inl e ↦
          let (good, (rest, same)) = first_name-eq-some s name (ground arith) in
          let p = same_char c "$" (ground arith) in
          let q = same_char d "{" (ground arith) in (good, (rest, cc (p, q, same)))
      | inr e ↦ absurd (ground arith)
    ]
