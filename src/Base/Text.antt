-- ===== src/Base/Text.antt =====
-- `==` on `std::string` as a decision. It stays shut in proofs, where a split on it yields the
-- equation or its negation; tests unfold it.
use Prim.Native.Nat.{ℕ, suc, ◌+◌}
use Prim.Native.String.{String, ◌++◌}
use mathlib.Core.Logic.{dite}
use mathlib.Core.Bool.{Bool, true, false, Bool-discrete, ◌&&◌}
use mathlib.Core.Logic.{ite}
use mathlib.Core.Path.{◌≡◌, sym, ap, ◌∙◌}
use mathlib.Core.List.{List, [], ◌∷◌}
use native.Mathlib.Omega.{arith}
use snap_plugin_lib_cpp.Base.Tests.{ltb, ◌==◌, if◌then◌else◌}
use snap_plugin_lib_cpp.Base.Lists.{length}
use text.Mathlib.Text
use text.Mathlib.TextLemmas.{append-nil, append_assoc, nil-append, cons-append}
use text.Mathlib.TextEquality.{eq_iff}

unfoldable pub str_dec : Discrete String
str_dec s t =
    dite (Bool-discrete (Text.◌==◌ s t) true) (λ same. yes ((eq_iff s t).0 same))
      (λ differ. no (λ p. differ ((eq_iff s t).1 p)))

abbrev pub str_eq : String → String → Bool
str_eq s t = ite (str_dec s t) true false

-- The loop that `get_string` and `build_key` share: `i` counts the nodes from 1, a node before the
-- last is written with the separator after it, and the last one without.
unfoldable pub join_loop : String → ℕ → ℕ → List String → String → String
join_loop sep i n [] ss = ss
join_loop sep i n (node ∷ nodes) ss =
    let before = if ltb i n then ss ++ (node ++ sep) else ss in
    let after = if i == n then before ++ node else before in join_loop sep (i + 1) n nodes after

-- The nodes with the separator between each two.
abbrev pub intersperse : String → List String → String
intersperse sep [] = ""
intersperse sep (node ∷ []) = node
intersperse sep (node ∷ next ∷ nodes) = node ++ (sep ++ intersperse sep (next ∷ nodes))

pub join_loop-intersperse :
    (sep : String) (i : ℕ) (nodes : List String) (n : ℕ) (ss : String)
    → suc n ≡ i + length nodes
    → join_loop sep i n nodes ss ≡ ss ++ intersperse sep nodes
unfolding join_loop
join_loop-intersperse sep i [] n ss h = sym (append-nil ss)
join_loop-intersperse sep i (node ∷ []) n ss h = ground arith
join_loop-intersperse sep i (node ∷ next ∷ nodes) n ss h = ground (
  arith,
  join_loop-intersperse sep (i + 1) (next ∷ nodes) n (ss ++ (node ++ sep)),
  append_assoc ss (node ++ sep) (intersperse sep (next ∷ nodes)),
  append_assoc node sep (intersperse sep (next ∷ nodes)),
)

-- The whole loop, from the first node and the empty text.
pub join_loop_all :
    (sep : String) (nodes : List String) (n : ℕ)
    → n ≡ length nodes
    → join_loop sep 1 n nodes "" ≡ intersperse sep nodes
join_loop_all sep nodes n h =
    join_loop-intersperse sep 1 nodes n "" (omega arith) ∙ nil-append (intersperse sep nodes)

-- `empty()` of a text.
abbrev pub text_empty : String → Bool
text_empty String.[] = true
text_empty (String.◌∷◌ c s) = false

pub text_empty-append : (a b : String) → text_empty (a ++ b) ≡ text_empty a && text_empty b
text_empty-append String.[] b = ap text_empty (nil-append b)
text_empty-append (String.◌∷◌ c s) b = ap text_empty (cons-append c s b)
