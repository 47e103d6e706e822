-- ===== src/Namespace/Element.antt =====
-- NamespaceElement (src/snap/metric.h and metric.cc).
use snap_plugin_lib_cpp.Base.{Bool, not, String, str_eq}

pub record NamespaceElement : Type 0 where
  pub value : String
  pub name : String
  pub description : String

-- The constructor; a missing `nam` or `desc` is the empty text.
unfoldable pub create : String → String → String → NamespaceElement
create val nam desc = record { value = val; name = nam; description = desc }

unfoldable pub set_value : String → NamespaceElement → NamespaceElement
set_value v e = record e { value = v }

unfoldable pub set_name : String → NamespaceElement → NamespaceElement
set_name n e = record e { name = n }

unfoldable pub set_description : String → NamespaceElement → NamespaceElement
set_description d e = record e { description = d }

-- `this->name != ""`
unfoldable pub is_dynamic : NamespaceElement → Bool
is_dynamic e = not (str_eq e.name "")
