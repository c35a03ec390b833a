-- ===== src/Mcp/Allowlist.antt =====
-- proxy.rs: `ToolAllowlist`.
use syntropy.Prelude.{
  Bool, true, false, not, none, some, List, [], ◌∷◌, ◌++◌, Text, lit, text_eq, if◌then◌else◌,
  length, ◌==◌,
}
pub mod Patterns
use syntropy.Prelude.{strip_prefix?, strip_suffix?, starts_with, ends_with}

-- `patterns`
abbrev pub ToolAllowlist : Type 0
ToolAllowlist = List Text

-- `if let Some(prefix) = pattern.strip_suffix('*')`
abbrev pub prefix_fits : Text → Text → Bool
prefix_fits pattern tool_name = elim (strip_suffix? (lit "*") pattern) [
  | none ↦ false
  | some prefix ↦ starts_with prefix tool_name
]

-- `if let Some(suffix) = pattern.strip_prefix('*')`
abbrev pub suffix_fits : Text → Text → Bool
suffix_fits pattern tool_name = elim (strip_prefix? (lit "*") pattern) [
  | none ↦ false
  | some suffix ↦ ends_with suffix tool_name
]

unfoldable pub is_allowed : ToolAllowlist → Text → Bool
is_allowed [] tool_name = false
is_allowed (pattern ∷ patterns) tool_name =
    let rest = is_allowed patterns tool_name in
    if text_eq pattern (lit "*")
    then true
    else if text_eq pattern tool_name
    then true
    else if prefix_fits pattern tool_name
    then true
    else if suffix_fits pattern tool_name
    then true
    else rest

unfoldable pub add_pattern : Text → ToolAllowlist → ToolAllowlist
add_pattern pattern patterns = patterns ++ pattern ∷ []

-- `retain(|p| p != pattern)`
unfoldable pub without : Text → ToolAllowlist → ToolAllowlist
without pattern [] = []
without pattern (p ∷ ps) =
    let rest = without pattern ps in if text_eq p pattern then rest else p ∷ rest

-- The list afterwards, and whether it became shorter.
unfoldable pub remove_pattern : Text → ToolAllowlist → Bool × ToolAllowlist
unfolding without
remove_pattern pattern patterns =
    let kept = without pattern patterns in (not (length kept == length patterns), kept)
