-- ===== src/Orch/Comment.antt =====
-- The completion comment of kernel/crates/gctrl-orch/src/worker.rs. Lengths are in bytes of UTF-8.
use Prim.Native.String.{[], ◌∷◌}
use gctrl.Prelude.{ℕ, zero, suc, ◌-◌, Bool, true, false, none, String, leb, if◌then◌else◌}
use gctrl.Prelude.Decimal.{decimal, ◌⁀◌}
use gctrl.Prelude.Text.{trim_start, starts_with, utf8_len, byte_len}
use gctrl.Board.Model.{BoardComment, Tick}

abbrev pub completion_comment_max_bytes : ℕ
completion_comment_max_bytes = 50000

-- What stands from the first boundary of a character at or after byte `cut`.
unfoldable pub from_boundary : ℕ → String → String
unfolding utf8_len
from_boundary zero s = s
from_boundary (suc cut) [] = []
from_boundary (suc cut) (c ∷ s) = from_boundary (suc cut - utf8_len c) s

unfoldable pub truncate_tail : String → ℕ → String
unfolding byte_len from_boundary
truncate_tail body max_bytes =
    if leb (byte_len body) max_bytes
    then body
    else "_[truncated "
      ⁀ decimal (byte_len body - max_bytes)
      ⁀ " bytes from the head]_\n\n"
      ⁀ from_boundary (byte_len body - max_bytes) body

abbrev pub heading : Bool → String
heading true = "## Agent run completed"
heading false = "## Agent run failed"

-- The text that is posted.
unfoldable pub comment_body : String → Bool → String
unfolding truncate_tail trim_start
comment_body body succeeded =
    let kept = truncate_tail body completion_comment_max_bytes in
    if starts_with (trim_start kept) "## " then kept else heading succeeded ⁀ "\n\n" ⁀ kept

unfoldable pub completion_comment : Tick → String → String → Bool → BoardComment
unfolding comment_body
completion_comment t issue_id body succeeded = record {
  id = "cmt-" ⁀ t.uuid;
  issue_id = issue_id;
  author_id = "orch";
  author_name = "gctrld-orch";
  author_type = "agent";
  body = comment_body body succeeded;
  created_at = t.now;
  session_id = none;
}
