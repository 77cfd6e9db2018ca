-- ===== src/Board/Claim.antt =====
-- The claim constants of `OrchTask` in kernel/crates/gctrl-core/src/types.rs.
use gctrl.Prelude.{String}

abbrev pub unclaimed : String
unclaimed = "Unclaimed"

abbrev pub claimed : String
claimed = "Claimed"

abbrev pub running : String
running = "Running"

abbrev pub retry_queued : String
retry_queued = "RetryQueued"

abbrev pub released : String
released = "Released"
