-- ===== src/Orch/Prompt.antt =====
-- The brief that an agent reads: kernel/crates/gctrl-orch/src/prompt.rs.
use gctrl.Prelude.{
  Bool, ◌||◌, List, [], ◌∷◌, Option, none, some, String, ◌==◌, String_eq, leb, retain,
  if◌then◌else◌,
}
use gctrl.Prelude.Decimal.{decimal, ◌⁀◌}
use gctrl.Prelude.Text.{contains, ends_with, trim_end_matches}
use gctrl.Board.Acceptance.{AcceptanceCheck, kind_as_str}
use gctrl.Board.Model.{BoardIssue, BoardComment}

unfoldable pub is_dispatch_comment : BoardComment → Bool
is_dispatch_comment c = contains c.body "## Agent:" || c.author_type == "agent"

-- `max_by_key` keeps the later one of two equal keys.
unfoldable pub newest : Option BoardComment → List BoardComment → Option BoardComment
newest best [] = best
newest none (c ∷ cs) = newest (some c) cs
newest (some b) (c ∷ cs) = newest (if leb b.created_at c.created_at then some c else some b) cs

unfoldable pub latest_dispatch_comment : List BoardComment → Option BoardComment
unfolding is_dispatch_comment newest
latest_dispatch_comment comments = newest none (retain is_dispatch_comment comments)

abbrev pub text_or_empty : Option String → String
text_or_empty none = ""
text_or_empty (some t) = t

unfoldable pub fallback_prompt : BoardIssue → String
fallback_prompt issue =
    "# "
    ⁀ issue.id
    ⁀ ": "
    ⁀ issue.title
    ⁀ "\n\n"
    ⁀ text_or_empty issue.description
    ⁀ "\n\n(No dispatch comment on this issue — run the board UI's drag-to-in_progress flow to get a full persona brief, or edit this fallback prompt.)"

unfoldable pub render_checks : List AcceptanceCheck → String
unfolding kind_as_str
render_checks [] = ""
render_checks (check ∷ checks) =
    "- ["
    ⁀ decimal check.idx
    ⁀ "] "
    ⁀ kind_as_str check.kind
    ⁀ ": "
    ⁀ check.command
    ⁀ "\n"
    ⁀ render_checks checks

unfoldable pub render_acceptance_section : BoardIssue → List AcceptanceCheck → String → String
unfolding render_checks
render_acceptance_section issue checks kernel_base_url =
    "## Acceptance Tests\n\nRun each check below and report the result by POSTing to:\n`"
    ⁀ trim_end_matches b'/' kernel_base_url
    ⁀ "/api/board/issues/"
    ⁀ issue.id
    ⁀ "/acceptance/checks/<IDX>`\n\nBody: `{\"status\":\"pass\"|\"fail\",\"output\":\"<trimmed stdout/stderr>\"}`\n\n"
    ⁀ render_checks checks

unfoldable pub base_prompt : BoardIssue → Option BoardComment → String
unfolding fallback_prompt
base_prompt issue none = fallback_prompt issue
base_prompt issue (some c) = c.body

-- The text ends with an empty line.
unfoldable pub close_paragraph : String → String
close_paragraph out =
    if ends_with out "\n\n" then out else if ends_with out "\n" then out ⁀ "\n" else out ⁀ "\n\n"

unfoldable pub build_prompt :
    BoardIssue → List BoardComment → List AcceptanceCheck → String → String
unfolding latest_dispatch_comment base_prompt close_paragraph render_acceptance_section
build_prompt issue comments [] kernel_base_url =
    base_prompt issue (latest_dispatch_comment comments)
build_prompt issue comments (check ∷ checks) kernel_base_url =
    close_paragraph (base_prompt issue (latest_dispatch_comment comments))
    ⁀ render_acceptance_section issue (check ∷ checks) kernel_base_url
