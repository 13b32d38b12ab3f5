-- ===== src/Api/Keys.antt =====
-- The etcd keys of the flows: the functions of api/internal/store/etcd.go, which go through path.Join.
pub mod Formatted
pub mod Layout
pub mod Distinct
use flow_pipe.Prelude.{ℕ, [], ◌∷◌}
use flow_pipe.Text.{Text, codes}
use flow_pipe.Text.Decimal.{format_uint}
use flow_pipe.Text.FilePath.{path_join}

-- rootPrefix
abbrev pub root_prefix : Text
root_prefix = codes "/flowpipe/flows"

unfoldable pub flow_prefix : Text → Text
flow_prefix name = path_join (root_prefix ∷ name ∷ [])

unfoldable pub active_key : Text → Text
unfolding flow_prefix
active_key name = path_join (flow_prefix name ∷ codes "active" ∷ [])

unfoldable pub version_spec_key : Text → ℕ → Text
unfolding flow_prefix
version_spec_key name version =
    path_join (flow_prefix name ∷ codes "versions" ∷ format_uint version ∷ codes "spec" ∷ [])

unfoldable pub status_key : Text → Text
unfolding flow_prefix
status_key name = path_join (flow_prefix name ∷ codes "status" ∷ [])
