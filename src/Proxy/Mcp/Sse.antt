-- ===== src/Proxy/Mcp/Sse.antt =====
-- internal/proxy/mcp.go: what `decodeSSE` reads out of an event stream.
use mathlib.Core.List.{append_assoc, append-nil}
use mt_mcp_proxy.Base.{
  String, ◌≡◌, refl, ◌∙◌, sym, ap, false, Option, none, some, List, [], ◌∷◌, ◌++◌, ◌==◌, is_empty,
  if◌then◌else◌, All,
}
use mt_mcp_proxy.Proxy.Mcp.{data_line, join, decode_lines, add_line}

-- The payloads of the data lines of a block.
unfoldable pub payloads : List String → List String
unfolding data_line
payloads [] = []
payloads (l ∷ ls) = add_line [] (data_line l) ++ payloads ls

abbrev pub IsNonblank : String → Type 0
IsNonblank line = (line == "") ≡ false

add_line-eq : (seen : List String) (o : Option String) → add_line seen o ≡ seen ++ add_line [] o
add_line-eq seen none = sym (append-nil seen)
add_line-eq seen (some s) = refl

-- The lines of a block move their payloads to the accumulator.
decode_lines-append :
    (seen block rest : List String)
    → All IsNonblank block
    → decode_lines seen (block ++ rest) ≡ decode_lines (seen ++ payloads block) rest
unfolding decode_lines payloads
decode_lines-append seen [] rest h = ap (λ l. decode_lines l rest) (sym (append-nil seen))
decode_lines-append seen (l ∷ block) rest (n, h) = rw n (
    decode_lines-append (add_line seen (data_line l)) block rest h
    ∙ ap (λ a. decode_lines (a ++ payloads block) rest) (add_line-eq seen (data_line l))
    ∙ ap (λ a. decode_lines a rest)
        (append_assoc seen (add_line [] (data_line l)) (payloads block)))

-- `decodeSSE` reads a block of lines up to a blank line: if it has data lines, it returns their
-- payloads, joined by "\n", and reads no further; if it has none, it goes on after the blank line
-- as from the start. A last block without a blank line counts as well, and a stream without any
-- data line is an error.
pub decode_lines_lem :
    (block rest : List String)
    → All IsNonblank block
    → (decode_lines [] (block ++ "" ∷ rest) ≡ (
        if is_empty (payloads block)
        then decode_lines [] rest
        else some (join "\n" (payloads block))))
      × (decode_lines [] block
          ≡ (if is_empty (payloads block) then none else some (join "\n" (payloads block))))
unfolding decode_lines
decode_lines_lem block rest h = (
  decode_lines-append [] block ("" ∷ rest) h ∙ blank (payloads block),
  ap (decode_lines []) (sym (append-nil block)) ∙ decode_lines-append [] block [] h,
)
  where
    blank :
        (l : List String)
        → decode_lines l ("" ∷ rest)
          ≡ (if is_empty l then decode_lines [] rest else some (join "\n" l))
    blank [] = refl
    blank (x ∷ l) = refl
