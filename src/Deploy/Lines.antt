-- ===== src/Deploy/Lines.antt =====
-- The structured lines of internal/deploy/deploy.go: progress events on the log channel.
use autodeploy_web.Base.{
  [], ◌∷◌, ◌++◌, Option, none, some, Text, text, has_prefix, length, drop, ℤ, if◌then◌else◌,
}
use autodeploy_web.Base.Decimal.{format_int}

-- "\x00progress\x00".
unfoldable pub progress_prefix : Text
progress_prefix = 0 ∷ (text "progress" ++ 0 ∷ [])

-- "\x00node\x00".
unfoldable pub node_status_prefix : Text
node_status_prefix = 0 ∷ (text "node" ++ 0 ∷ [])

unfoldable pub progress_line : ℤ → ℤ → Text
unfolding progress_prefix
progress_line node pct = progress_prefix ++ (format_int node ++ (text " " ++ format_int pct))

-- The JSON of the status is an argument.
unfoldable pub node_status_line : Text → Text
unfolding node_status_prefix
node_status_line json = node_status_prefix ++ json

unfoldable pub parse_node_status_line : Text → Option Text
unfolding node_status_prefix
parse_node_status_line line =
    if◌then◌else◌ (has_prefix node_status_prefix line)
      (some (drop (length node_status_prefix) line)) none
