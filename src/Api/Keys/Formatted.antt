-- ===== src/Api/Keys/Formatted.antt =====
-- The keys as api/internal/store/keys.go spells them, by fmt.Sprintf in place of path.Join.
use flow_pipe.Prelude.{ℕ, ◌++◌}
use flow_pipe.Text.{Text, codes}
use flow_pipe.Text.Decimal.{format_uint}

unfoldable pub flow_root : Text → Text
flow_root name = codes "/flowpipe/flows/" ++ name

unfoldable pub flow_meta_key : Text → Text
unfolding flow_root
flow_meta_key name = flow_root name ++ codes "/meta"

unfoldable pub flow_active_key : Text → Text
unfolding flow_root
flow_active_key name = flow_root name ++ codes "/active"

unfoldable pub flow_status_key : Text → Text
unfolding flow_root
flow_status_key name = flow_root name ++ codes "/status"

unfoldable pub flow_version_spec_key : Text → ℕ → Text
unfolding flow_root
flow_version_spec_key name version =
    flow_root name ++ (codes "/versions/" ++ (format_uint version ++ codes "/spec"))

unfoldable pub flow_versions_prefix : Text → Text
unfolding flow_root
flow_versions_prefix name = flow_root name ++ codes "/versions/"
