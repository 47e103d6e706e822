-- ===== src/Examples/Graffiti/Tags.antt =====
-- How the text of the tags is taken apart.
use Prim.Native.Char.{Char, code}
use text.Mathlib.TextLemmas.{append-nil, append_assoc, cons-append, nil-append}
use snap_plugin_lib_cpp.Base.{
  ◌≡◌, refl, ap, sym, ◌∙◌, inl, inr, Bool, true, false, List, [], ◌∷◌, All, String, ◌<>◌, ◌==◌,
  text_empty, intersperse, Bool-cases, arith, if◌then◌else◌,
}
use snap_plugin_lib_cpp.Examples.Graffiti.{push_elem, split_loop, split_tags}

abbrev pub has_comma : String → Bool
has_comma String.[] = false
has_comma (String.◌∷◌ c s) = if code c == b',' then true else has_comma s

-- A text that can stand as a tag.
abbrev pub IsTag : String → Type 0
IsTag t = (text_empty t ≡ false) × (has_comma t ≡ false)

append-one :
    (elem : String) (c : Char) (t : String)
    → (elem <> String.◌∷◌ c String.[]) <> t ≡ elem <> String.◌∷◌ c t
append-one elem c t =
    append_assoc elem (String.◌∷◌ c String.[]) t
    ∙ ap (λ u. elem <> u) (cons-append c String.[] t ∙ ap (String.◌∷◌ c) (nil-append t))

-- The loop reads a text without a comma as it stands.
split_loop-append :
    (t elem rest : String)
    → has_comma t ≡ false
    → split_loop elem (t <> rest) ≡ split_loop (elem <> t) rest
unfolding split_loop
split_loop-append String.[] elem rest h =
    ap (split_loop elem) (nil-append rest) ∙ ap (λ e. split_loop e rest) (sym (append-nil elem))
split_loop-append (String.◌∷◌ c t) elem rest h = elim (Bool-cases (code c == b',')) [
  | inl comma ↦ absurd (ground arith)
  | inr other ↦
      ap (split_loop elem) (cons-append c t rest)
      ∙ (rw (other, split_loop)
          (split_loop-append t (elem <> String.◌∷◌ c String.[]) rest (ground arith)
            ∙ ap (λ e. split_loop e rest) (append-one elem c t)))
]

-- The last tag.
split_loop-last : (t : String) → IsTag t → split_loop "" t ≡ t ∷ []
unfolding split_loop
split_loop-last t h =
    ap (split_loop "") (sym (append-nil t))
    ∙ split_loop-append t "" "" h.1
    ∙ ap (λ e. push_elem e []) (nil-append t)
    ∙ (rw h.0 refl)

-- A tag before a comma.
split_loop-comma :
    (t rest : String) → IsTag t → split_loop "" (t <> ("," <> rest)) ≡ t ∷ split_loop "" rest
unfolding split_loop
split_loop-comma t rest h =
    split_loop-append t "" ("," <> rest) h.1
    ∙ ap (λ e. split_loop e ("," <> rest)) (nil-append t)
    ∙ ap (split_loop t) (cons-append "," String.[] rest ∙ ap (String.◌∷◌ ",") (nil-append rest))
    ∙ (rw h.0 refl)

-- Tags that are not empty and have no comma, joined by commas, are split into themselves.
pub split_tags-intersperse :
    (tags : List String) → All IsTag tags → split_tags (intersperse "," tags) ≡ tags
unfolding split_tags
split_tags-intersperse [] h = refl
split_tags-intersperse (t ∷ []) (h, _) = split_loop-last t h
split_tags-intersperse (t ∷ u ∷ tags) (h, hs) =
    split_loop-comma t (intersperse "," (u ∷ tags)) h
    ∙ ap (λ ts. t ∷ ts) (split_tags-intersperse (u ∷ tags) hs)
