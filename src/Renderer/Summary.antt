-- ===== src/Renderer/Summary.antt =====
-- bot/tool_summary.go: the one-line summary of a tool event.
use Prim.Native.String
use Prim.Native.String.{count}
use rocketbot.Message.{RenderEventType, tool_error, RenderEvent}
use rocketbot.Text.{trim_space, to_lower}
use rocketbot.Prelude.{
  leb, nat_eq, if◌then◌else◌, ℕ, zero, suc, ◌-◌, code, String, ◌&◌, Bool, true, false, ◌&&◌, ◌||◌,
  ◌==◌,
}

abbrev max_tool_command_display : ℕ
max_tool_command_display = 20

-- An ASCII letter in front is made a capital.
unfoldable pub capitalize_ascii : String → String
capitalize_ascii String.[] = ""
capitalize_ascii (String.◌∷◌ c s) =
    let n = code c in
    String.◌∷◌
      (if leb b'a' n && leb n b'z'
        then String.char_at "ABCDEFGHIJKLMNOPQRSTUVWXYZ" (n - b'a')
        else c)
      s

-- string(r[:n]) on the runes of a text
take_runes : ℕ → String → String
take_runes zero s = ""
take_runes (suc n) String.[] = ""
take_runes (suc n) (String.◌∷◌ c s) = String.◌∷◌ c (take_runes n s)

-- A limit of 0 stands for every max <= 0.
unfoldable pub truncate_display_text : String → ℕ → String
unfolding take_runes
truncate_display_text s limit =
    let t = trim_space s in
    if nat_eq limit 0 then "" else if leb (count t) limit then t else take_runes limit t & "..."

-- `if v != "" { return v }; ...`
abbrev or_else : String → String → String
or_else v w = if v == "" then w else v

-- `if v != "" { return prefix + v }; ...`
abbrev prefixed : String → String → String → String
prefixed prefix v w = if v == "" then w else prefix & v

abbrev pub is_tool_error : RenderEventType → Bool
is_tool_error tool_error = true
is_tool_error _ = false

summarize_failed : String → RenderEvent → String
unfolding capitalize_ascii truncate_display_text
summarize_failed tool ev =
    if tool == "read"
    then prefixed "Read failed: " ev.path "Read failed"
    else if tool == "bash"
    then (if ev.command == ""
        then "Bash failed"
        else "Bash failed: " & truncate_display_text ev.command max_tool_command_display)
    else if tool == ""
    then "Tool failed"
    else capitalize_ascii tool & " failed"

summarize_progress : String → RenderEvent → String
unfolding truncate_display_text
summarize_progress tool ev =
    if tool == "read"
    then prefixed "Reading " ev.path (or_else ev.title "Reading file")
    else if tool == "bash"
    then (if ev.command == ""
        then or_else ev.title "Running bash"
        else "Running bash: " & truncate_display_text ev.command max_tool_command_display)
    else if tool == "grep"
    then prefixed "Searching for " ev.query (prefixed "Searching for " ev.pattern "Searching")
    else if tool == "glob"
    then prefixed "Matching files: " ev.pattern "Looking for matching files"
    else if tool == "apply_patch"
    then "Editing files"
    else or_else ev.title (prefixed "Using " tool "Using tool")

unfoldable pub summarize_tool_event : RenderEvent → String
unfolding summarize_failed summarize_progress
summarize_tool_event ev =
    let tool = trim_space ev.tool_name in
    let status = to_lower (trim_space ev.status) in
    if is_tool_error ev.type || status == "error"
    then summarize_failed tool ev
    else summarize_progress tool ev
