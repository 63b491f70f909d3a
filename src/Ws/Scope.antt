-- ===== src/Ws/Scope.antt =====
-- What `handle_action` of ws_client.rs checks before any operation runs: the scope that a capability
-- needs, and the backstop list of shell commands.
use synth_hires_bridge.Prelude.{
  ℕ, String, Bool, false, Option, none, some, List, [], ◌∷◌, any, str_eq, if◌then◌else◌,
}
use synth_hires_bridge.Prelude.Text.{codes, to_ascii_lowercase, contains, replace}
use synth_hires_bridge.Protocol.{Json, ActionRequestFrame, get, as_str}

-- An or-pattern of text literals.
unfoldable pub one_of : String → List String → Bool
one_of s patterns = any (λ p. str_eq s p) patterns

-- `match params.get("op").and_then(|v| v.as_str())`
unfoldable pub op_is : List String → Option String → Bool
op_is ops none = false
op_is ops (some op) = one_of op ops

abbrev op_of : Json → Option String
op_of params = as_str (get params "op")

unfoldable pub proc_scope : Option String → String
proc_scope op =
    if op_is ("signal" ∷ []) op
    then "desktop.process.kill"
    else if op_is ("probe" ∷ []) op
    then "desktop.network.fetch"
    else if op_is ("start" ∷ []) op
    then "desktop.shell.execute"
    else "desktop.fs.read"

unfoldable pub mcp_scope : Option String → String
mcp_scope op =
    if op_is ("status" ∷ []) op
    then "desktop.fs.read"
    else if op_is ("stop" ∷ []) op
    then "desktop.process.kill"
    else "desktop.shell.execute"

unfoldable pub debug_scope : Option String → String
debug_scope op =
    if op_is ("start" ∷ "eval" ∷ "continue" ∷ "step" ∷ "pause" ∷ []) op
    then "desktop.shell.execute"
    else "desktop.fs.read"

unfoldable pub required_scope : ActionRequestFrame → String
required_scope request =
    let c = request.capability in
    if one_of c ("desktop.fs.patch" ∷ "desktop.code.ast_edit" ∷ [])
    then "desktop.fs.write"
    else if one_of c ("desktop.code.ast_grep" ∷ [])
    then "desktop.fs.read"
    else if one_of c ("desktop.code.eval" ∷ "desktop.lsp.rename" ∷ [])
    then "desktop.shell.execute"
    else if one_of c
        ("desktop.lsp.diagnostics" ∷ "desktop.lsp.hover" ∷ "desktop.lsp.definition" ∷ [])
    then "desktop.fs.read"
    else if one_of c ("desktop.memory.recall" ∷ "desktop.memory.stats" ∷ [])
    then "desktop.fs.read"
    else if one_of c ("desktop.git.overview" ∷ "desktop.git.diff" ∷ [])
    then "desktop.fs.read"
    else if one_of c ("desktop.tools.manifest" ∷ [])
    then "desktop.fs.read"
    else if one_of c
        ("desktop.memory.remember" ∷ "desktop.memory.forget" ∷ "desktop.memory.reflect" ∷ [])
    then "desktop.fs.write"
    else if one_of c ("desktop.proc.op" ∷ [])
    then proc_scope (op_of request.params)
    else if one_of c ("desktop.pty.op" ∷ [])
    then "desktop.shell.execute"
    else if one_of c ("desktop.browser.launch" ∷ "desktop.browser.nav" ∷ [])
    then "desktop.network.fetch"
    else if one_of c ("desktop.browser.act" ∷ [])
    then "desktop.shell.execute"
    else if one_of c (
        "desktop.browser.snapshot" ∷ "desktop.browser.shot" ∷ "desktop.browser.wait"
        ∷ "desktop.browser.close" ∷ "desktop.browser.eval" ∷ [])
    then "desktop.fs.read"
    else if one_of c (
        "desktop.browser.tab_open" ∷ "desktop.browser.tab_select" ∷ "desktop.browser.tab_close"
        ∷ "desktop.browser.mock_set" ∷ [])
    then "desktop.network.fetch"
    else if one_of c ("desktop.browser.tab_list" ∷ [])
    then "desktop.fs.read"
    else if one_of c ("desktop.os.snapshot" ∷ "desktop.os.apps" ∷ "desktop.os.available" ∷ [])
    then "desktop.fs.read"
    else if one_of c ("desktop.os.act" ∷ [])
    then "desktop.shell.execute"
    else if one_of c ("desktop.mcp.op" ∷ [])
    then mcp_scope (op_of request.params)
    else if one_of c ("desktop.debug.op" ∷ [])
    then debug_scope (op_of request.params)
    else if one_of c ("desktop.checkpoint.list" ∷ [])
    then "desktop.fs.read"
    else if one_of c ("desktop.fs.restore" ∷ [])
    then "self"
    else c

abbrev pub dangerous_patterns : List String
dangerous_patterns =
    "sudo " ∷ "sudo\t" ∷ "rm -rf" ∷ "rm -fr" ∷ "rm --no-preserve-root" ∷ "del /f" ∷ "del /s"
    ∷ "remove-item" ∷ "mkfs" ∷ "mkfs." ∷ "dd " ∷ "of=/dev/" ∷ ":(){" ∷ "chmod -r" ∷ "chmod 777"
    ∷ "chown -r" ∷ "format c:" ∷ "diskpart" ∷ "shutdown " ∷ "powershell -enc"
    ∷ "powershell -encodedcommand" ∷ []

-- `${ifs}` and `$ifs` become spaces, then so do tabs.
unfoldable pub normalised : List ℕ → List ℕ
normalised command = replace (codes "\t") (codes " ") (
    replace (codes "$ifs") (codes " ")
      (replace (codes "${ifs}") (codes " ") (to_ascii_lowercase command)))

unfoldable pub contains_dangerous_shell : List ℕ → Bool
contains_dangerous_shell command =
    let text = normalised command in any (λ p. contains (codes p) text) dangerous_patterns
