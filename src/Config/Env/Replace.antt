-- ===== src/Config/Env/Replace.antt =====
-- The loop of `expandRefs`: the text that it makes, and the variable that it hands on.
use Prim.Native.Char.{Char}
use Prim.Native.String.{[] as empty_text, ◌∷◌ as cons_char}
use mt_mcp_proxy.Base.{
  String, ◌≡◌, refl, sym, ap, ◌∙◌, subst, ◌⊎◌, inl, inr, true, false, none, some, List, ◌∷◌, arith,
  Option-cases,
}
use mt_mcp_proxy.Base.Text.{has_prefix, contains_text, concat}
use mt_mcp_proxy.Config.Env.{Piece, char, ref, pieces, LookupEnv, replace_pieces}
use mt_mcp_proxy.Config.Env.References.{IsName, reference}
use mt_mcp_proxy.Config.Env.Splits.{
  IsPlain, Splits, cut_end, cut_char, cut_ref, pieces-reference, pieces-plain,
}

module _ (lookup_env : LookupEnv) where
  -- The text with each reference replaced by the value of its variable, and nothing else changed.
  pub data Expands : String → String → Type 0 where
    done : Expands empty_text empty_text
    plain :
        {c : Char} {s out : String}
        → IsPlain (cons_char c s)
        → Expands s out
        → Expands (cons_char c s) (cons_char c out)
    named :
        {name value s out : String}
        → IsName name
        → lookup_env name ≡ some value
        → Expands s out
        → Expands (reference name s) (concat value out)

-- The text refers to the variable.
pub data Mentions (wanted : String) : String → Type 0 where
  at_start : (s : String) → IsName wanted → Mentions wanted (reference wanted s)
  after_char :
      {c : Char} {s : String}
      → IsPlain (cons_char c s)
      → Mentions wanted s
      → Mentions wanted (cons_char c s)
  after_ref :
      (name : String) {s : String}
      → IsName name
      → Mentions wanted s
      → Mentions wanted (reference name s)

contains_text-tail :
    (c : Char) (s : String)
    → contains_text (cons_char c s) "${" ≡ false
    → contains_text s "${" ≡ false
unfolding contains_text
contains_text-tail c s h = ground arith

contains_text-reference : (name s : String) → contains_text (reference name s) "${" ≡ true
unfolding contains_text has_prefix
contains_text-reference name s = refl

module _ (lookup_env : LookupEnv) where
  replace-set :
      (missing name value : String) (ps : List Piece)
      → lookup_env name ≡ some value
      → replace_pieces lookup_env missing (ref name ∷ ps)
        ≡ (let (out, last) = replace_pieces lookup_env missing ps in (concat value out, last))
  unfolding replace_pieces concat
  replace-set missing name value ps h = rw (h, replace_pieces) refl

  replace-unset :
      (missing name : String) (ps : List Piece)
      → lookup_env name ≡ none
      → replace_pieces lookup_env missing (ref name ∷ ps) ≡ replace_pieces lookup_env name ps
  unfolding replace_pieces
  replace-unset missing name ps h = rw (h, replace_pieces) refl

  -- A name that is not set, of a reference in the text.
  pub record IsUnset (s name : String) : Type 0 where
    pub good : IsName name
    pub unset : lookup_env name ≡ none
    pub mentioned : Mentions name s

  -- Either all are set, or the last that is not is handed on.
  pub record Outcome (s missing : String) (r : String × String) : Type 0 where
    pub outcome : (Expands lookup_env s r.0 × (r.1 ≡ missing)) ⊎ IsUnset s r.1

  plain-Outcome :
      {c : Char} {s missing : String} {r : String × String}
      → IsPlain (cons_char c s)
      → Outcome s missing r
      → Outcome (cons_char c s) missing (cons_char c r.0, r.1)
  plain-Outcome h o = elim o.outcome [
    | inl e ↦ record { outcome = inl (plain h e.0, e.1) }
    | inr u ↦ record {
      outcome =
          inr (record { good = u.good; unset = u.unset; mentioned = after_char h u.mentioned });
    }
  ]

  set-Outcome :
      {name value s missing : String} {r : String × String}
      → IsName name
      → lookup_env name ≡ some value
      → Outcome s missing r
      → Outcome (reference name s) missing (concat value r.0, r.1)
  set-Outcome {name} good set o = elim o.outcome [
    | inl e ↦ record { outcome = inl (named good set e.0, e.1) }
    | inr u ↦ record {
      outcome =
          inr (record {
            good = u.good;
            unset = u.unset;
            mentioned = after_ref name good u.mentioned;
          });
    }
  ]

  unset-Outcome :
      {name s missing : String} {r : String × String}
      → IsName name
      → lookup_env name ≡ none
      → Outcome s name r
      → Outcome (reference name s) missing r
  unset-Outcome {name} {s} good unset o = elim o.outcome [
    | inl e ↦ record {
      outcome = inr (
          subst (IsUnset (reference name s)) (sym e.1)
            (record { good = good; unset = unset; mentioned = at_start s good }));
    }
    | inr u ↦ record {
      outcome =
          inr (record {
            good = u.good;
            unset = u.unset;
            mentioned = after_ref name good u.mentioned;
          });
    }
  ]

  pub replace-Outcome :
      (missing : String) {s : String} {ps : List Piece}
      → Splits s ps
      → Outcome s missing (replace_pieces lookup_env missing ps)
  unfolding replace_pieces
  replace-Outcome missing cut_end = record { outcome = inl (done, refl) }
  replace-Outcome missing (cut_char h cut) = plain-Outcome h (replace-Outcome missing cut)
  replace-Outcome missing (cut_ref {name} {s} {ps} good cut) =
      elim (Option-cases (lookup_env name)) [
        | inl unset ↦
            subst (Outcome (reference name s) missing) (sym (replace-unset missing name ps unset))
              (unset-Outcome good unset (replace-Outcome name cut))
        | inr set ↦
            subst (Outcome (reference name s) missing)
              (sym (replace-set missing name set.0 ps set.1))
              (set-Outcome good set.1 (replace-Outcome missing cut))
      ]

  replace-char :
      (missing : String) (c : Char) (ps : List Piece) {out last : String}
      → replace_pieces lookup_env missing ps ≡ (out, last)
      → replace_pieces lookup_env missing (char c ∷ ps) ≡ (cons_char c out, last)
  unfolding replace_pieces
  replace-char missing c ps h = rw h refl

  -- What expands is what the loop makes.
  pub Expands-replace :
      {s out : String} (missing : String)
      → Expands lookup_env s out
      → replace_pieces lookup_env missing (pieces 0 s) ≡ (out, missing)
  Expands-replace missing done = unfold replace_pieces pieces in refl
  Expands-replace missing (plain {c} {s} h e) =
      ap (replace_pieces lookup_env missing) (pieces-plain c s h)
      ∙ replace-char missing c (pieces 0 s) (Expands-replace missing e)
  Expands-replace missing (named {name} {value} {s} {out} good set e) =
      rw
        (
          pieces-reference name s good,
          replace-set missing name value (pieces 0 s) set,
          Expands-replace missing e,
        )
        refl

  -- Without `${` there is nothing to replace.
  pub quiet-replace :
      {s : String} {ps : List Piece}
      → Splits s ps
      → contains_text s "${" ≡ false
      → replace_pieces lookup_env "" ps ≡ (s, "")
  quiet-replace cut_end h = unfold replace_pieces in refl
  quiet-replace (cut_char {c} {s} {ps} h cut) quiet =
      replace-char "" c ps (quiet-replace cut (contains_text-tail c s quiet))
  quiet-replace (cut_ref {name} {s} good cut) quiet =
      absurd (cc (quiet, contains_text-reference name s))
