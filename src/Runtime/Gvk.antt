-- ===== src/Runtime/Gvk.antt =====
-- Groups, versions and kinds of pkg/pgruntime/convert.go as the texts that name them in the table.
use postgres_controller_back.Base.{◌≡◌, ◌≢◌, Option, none, some, ◌∷◌, ◌++◌, All, ap, ◌∙◌}
use postgres_controller_back.Base.Text.{Text, codes}
use postgres_controller_back.Strings.{cut, cut-append, trim_suffix, trim_suffix-append}

pub record Gvk : Type 0 where
  pub group : Text
  pub version : Text
  pub kind : Text

unfoldable pub gvk_to_string : Gvk → Text
gvk_to_string g = g.group ++ (b'/' ∷ g.version ++ b'/' ∷ g.kind)

abbrev pub with_version : Text → Option (Text × Text) → Option Gvk
with_version group none = none
with_version group (some (v, k)) = some (record { group = group; version = v; kind = k })

abbrev pub with_group : Option (Text × Text) → Option Gvk
with_group none = none
with_group (some (g, rest)) = with_version g (cut b'/' rest)

-- SplitN(s, "/", 3)
unfoldable pub string_to_gvk : Text → Option Gvk
string_to_gvk s = with_group (cut b'/' s)

unfoldable pub item_gvk_from_list_gvk : Gvk → Gvk
item_gvk_from_list_gvk g = record g { kind = trim_suffix (codes "List") g.kind }

-- The kind of a list, as pkg/pgruntime/pgcache.go makes it.
unfoldable pub list_gvk : Gvk → Gvk
list_gvk g = record g { kind = g.kind ++ codes "List" }

-- The API server's names have no slash.
pub record IsPlain (g : Gvk) : Type 0 where
  pub group : All (λ c. c ≢ b'/') g.group
  pub version : All (λ c. c ≢ b'/') g.version

-- The text of a GVK names it: it is read back, if group and version have no slash.
pub string_to_gvk-gvk_to_string : (g : Gvk) → IsPlain g → string_to_gvk (gvk_to_string g) ≡ some g
unfolding string_to_gvk gvk_to_string
string_to_gvk-gvk_to_string g h =
    ap with_group (cut-append b'/' g.group (g.version ++ b'/' ∷ g.kind) h.group)
    ∙ ap (with_version g.group) (cut-append b'/' g.version g.kind h.version)

-- The kind of a list's items is the kind that the list was made for.
pub item-list_gvk : (g : Gvk) → item_gvk_from_list_gvk (list_gvk g) ≡ g
unfolding item_gvk_from_list_gvk list_gvk
item-list_gvk g =
    ap (λ k. record g { kind = k }) (trim_suffix-append (codes "List") g.kind (λ e. cc))
