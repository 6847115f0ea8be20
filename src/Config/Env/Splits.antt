-- ===== src/Config/Env/Splits.antt =====
-- A text cut into its references and the characters between them: what the scan of `envRef` finds.
use Prim.Native.Char.{Char}
use Prim.Native.String.{[] as empty_text, ◌∷◌ as cons_char}
use mt_mcp_proxy.Base.{
  ℕ, zero, suc, ◌≤◌, String, ◌≡◌, refl, sym, ap, ◌∙◌, subst, ◌≢◌, ◌↔◌, inl, inr, none, some, List,
  [], ◌∷◌, arith, Option-cases,
}
use mt_mcp_proxy.Base.Text.{concat, text_length}
use mt_mcp_proxy.Config.Env.{match_ref, Piece, char, ref, pieces}
use mt_mcp_proxy.Config.Env.References.{IsName, reference, match_ref-reference, match_ref-eq-some}

-- No reference starts here.
abbrev pub IsPlain : String → Type 0
IsPlain s = (name rest : String) → IsName name → s ≢ reference name rest

-- A text cut at its references, from the left.
pub data Splits : String → List Piece → Type 0 where
  cut_end : Splits empty_text []
  cut_char :
      {c : Char} {s : String} {ps : List Piece}
      → IsPlain (cons_char c s)
      → Splits s ps
      → Splits (cons_char c s) (char c ∷ ps)
  cut_ref :
      {name s : String} {ps : List Piece}
      → IsName name
      → Splits s ps
      → Splits (reference name s) (ref name ∷ ps)

match_ref-IsPlain : (s : String) → (match_ref s ≡ none) ↔ IsPlain s
match_ref-IsPlain s = (
  (λ h name rest good same.
      cc (subst (λ w. match_ref w ≡ none) same h, match_ref-reference name rest good)),
  (λ plainly. elim (Option-cases (match_ref s)) [
    | inl h ↦ h
    | inr found ↦
        let (name, h) = found in
        let (good, (rest, same)) = match_ref-eq-some s name h in
        absurd (plainly name rest good same)
  ]),
)

pieces_skip :
    (name s : String) → pieces (suc (text_length name)) (concat name (cons_char "}" s)) ≡ pieces 0 s
unfolding pieces concat text_length
pieces_skip empty_text s = refl
pieces_skip (cons_char c name) s = pieces_skip name s

pieces-some :
    (c : Char) (s name : String)
    → match_ref (cons_char c s) ≡ some name
    → pieces 0 (cons_char c s) ≡ ref name ∷ pieces (suc (suc (text_length name))) s
unfolding pieces
pieces-some c s name h = rw (h, pieces) refl

pub pieces-reference :
    (name s : String) → IsName name → pieces 0 (reference name s) ≡ ref name ∷ pieces 0 s
unfolding pieces
pieces-reference name s good =
    pieces-some "$" (cons_char "{" (concat name (cons_char "}" s))) name
      (match_ref-reference name s good)
    ∙ ap (λ ps. ref name ∷ ps) (pieces_skip name s)

pub pieces-plain :
    (c : Char) (s : String)
    → IsPlain (cons_char c s)
    → pieces 0 (cons_char c s) ≡ char c ∷ pieces 0 s
unfolding pieces
pieces-plain c s h = rw ((match_ref-IsPlain (cons_char c s)).1 h, pieces) refl

text_length-concat : (name s : String) → text_length s ≤ text_length (concat name (cons_char "}" s))
unfolding text_length concat
text_length-concat empty_text s = omega arith
text_length-concat (cons_char c name) s = omega (arith, text_length-concat name s)

text_length-reference : (name s : String) → suc (text_length s) ≤ text_length (reference name s)
unfolding text_length
text_length-reference name s = omega (arith, text_length-concat name s)

text_length-cons : (c : Char) (s : String) → suc (text_length s) ≤ text_length (cons_char c s)
unfolding text_length
text_length-cons c s = omega arith

pieces-Splits_within : (n : ℕ) (s : String) → text_length s ≤ n → Splits s (pieces 0 s)
pieces-Splits_within n empty_text h = unfold pieces in cut_end
pieces-Splits_within zero (cons_char c s) h = absurd (unfold text_length in omega arith)
pieces-Splits_within (suc n) (cons_char c s) h = elim (Option-cases (match_ref (cons_char c s))) [
  | inl none_here ↦
      let plainly = (match_ref-IsPlain (cons_char c s)).0 none_here in
      subst (Splits (cons_char c s)) (sym (pieces-plain c s plainly))
        (cut_char plainly (pieces-Splits_within n s (shorter s (text_length-cons c s))))
  | inr found ↦
      let (name, here) = found in
      let (good, (rest, same)) = match_ref-eq-some (cons_char c s) name here in
      subst (λ w. Splits w (pieces 0 w)) (sym same)
        (subst (Splits (reference name rest)) (sym (pieces-reference name rest good))
          (cut_ref good (pieces-Splits_within n rest (shorter rest (rest_shorter name rest same)))))
]
  where
    shorter : (t : String) → suc (text_length t) ≤ text_length (cons_char c s) → text_length t ≤ n
    shorter t le = omega arith

    rest_shorter :
        (name rest : String)
        → cons_char c s ≡ reference name rest
        → suc (text_length rest) ≤ text_length (cons_char c s)
    rest_shorter name rest same = rw same (text_length-reference name rest)

pub pieces-Splits : (s : String) → Splits s (pieces 0 s)
pieces-Splits s = pieces-Splits_within (text_length s) s (omega arith)
