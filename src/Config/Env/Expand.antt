-- ===== src/Config/Env/Expand.antt =====
-- `expandRefs`: the text that it returns, and the error.
use Prim.Native.String.{[] as empty_text, ◌∷◌ as cons_char}
use mt_mcp_proxy.Base.{
  String, ◌≡◌, refl, ◌∙◌, subst, ◌≢◌, ◌↔◌, inl, inr, none, ◌==◌, arith, eq_iff, Bool-cases, Result,
  ok, err, not, if◌then◌else◌,
}
use mt_mcp_proxy.Base.Text.{contains_text}
use mt_mcp_proxy.Config.Env.{pieces, LookupEnv, replace_pieces, expand_refs}
use mt_mcp_proxy.Config.Env.References.{IsName}
use mt_mcp_proxy.Config.Env.Splits.{pieces-Splits}
use mt_mcp_proxy.Config.Env.Replace.{
  Expands, Mentions, replace-Outcome, Expands-replace, quiet-replace,
}

module _ (lookup_env : LookupEnv) where
  abbrev result_of : String × String → Result String String
  result_of (out, missing) = if not (missing == "") then err missing else ok out

  result_of-set : (r : String × String) → r.1 ≡ "" → result_of r ≡ ok r.0
  result_of-set r h = ground (arith, eq_iff r.1 "")

  result_of-unset : (r : String × String) → r.1 ≢ "" → result_of r ≡ err r.1
  result_of-unset r h = ground (arith, eq_iff r.1 "")

  expand_refs_eq :
      (s : String)
      → expand_refs lookup_env s ≡ result_of (replace_pieces lookup_env "" (pieces 0 s))
  unfolding expand_refs
  expand_refs_eq s = elim (Bool-cases (contains_text s "${")) [
    | inl has ↦ rw has refl
    | inr quiet ↦ rw (quiet, quiet-replace lookup_env (pieces-Splits s) quiet) refl
  ]

  IsName-ne-nil : (name : String) → IsName name → name ≢ ""
  IsName-ne-nil empty_text h e = elim h [ ]
  IsName-ne-nil (cons_char c name) h e = cc

  -- `expandRefs` returns a text exactly when every variable that the argument refers to, with
  -- `${NAME}`, is set, and then the text is the argument with each reference replaced by its
  -- variable's value, from the left, and every other character kept.
  pub expand_refs_iff :
      (s out : String) → (expand_refs lookup_env s ≡ ok out) ↔ Expands lookup_env s out
  expand_refs_iff s out = (
    (λ h.
        let r = replace_pieces lookup_env "" (pieces 0 s) in
        elim (replace-Outcome lookup_env "" (pieces-Splits s)).outcome [
          | inl e ↦
              let same : r.0 ≡ out = cc (expand_refs_eq s, result_of-set r e.1) in
              subst (Expands lookup_env s) same e.0
          | inr u ↦ absurd (cc (expand_refs_eq s, result_of-unset r (IsName-ne-nil r.1 u.good)))
        ]),
    (λ e. expand_refs_eq s ∙ rw (Expands-replace lookup_env "" e) refl),
  )

  -- If `expandRefs` fails, the variable that its error names is not set, and the argument refers
  -- to it.
  pub expand_refs-eq-err :
      (s name : String)
      → expand_refs lookup_env s ≡ err name
      → (lookup_env name ≡ none) × Mentions name s
  expand_refs-eq-err s name h =
      let r = replace_pieces lookup_env "" (pieces 0 s) in
      elim (replace-Outcome lookup_env "" (pieces-Splits s)).outcome [
        | inl e ↦ absurd (cc (expand_refs_eq s, result_of-set r e.1))
        | inr u ↦
            let same : r.1 ≡ name =
              cc (expand_refs_eq s, result_of-unset r (IsName-ne-nil r.1 u.good)) in
            subst (λ w. (lookup_env w ≡ none) × Mentions w s) same (u.unset, u.mentioned)
      ]
