-- ===== src/Proc.antt =====
-- The log ring of a managed process: `LogRing` in
-- apps/desktop-daemon/crates/daemon-core/src/proc_ops.rs.
pub mod Logs
pub mod Engine
pub mod Watching
mod Tests
use synth_hires_bridge.Prelude.{
  ℕ, ◌+◌, ◌-◌, min, max, String, Bool, true, false, Option, none, some, List, [], ◌∷◌, ◌++◌,
  if◌then◌else◌, leb, length, take, drop, unwrap_or,
}

abbrev pub ring_capacity : ℕ
ring_capacity = 500

pub record LogRing : Type 0 where
  pub lines : List String
  pub total : ℕ

abbrev pub default : LogRing
default = record { lines = []; total = 0 }

unfoldable pub push : LogRing → String → LogRing
push ring line =
    let kept = if leb ring_capacity (length ring.lines) then drop 1 ring.lines else ring.lines in
    record { lines = kept ++ line ∷ []; total = ring.total + 1 }

-- `max.unwrap_or(200).clamp(1, 1000)`
unfoldable pub limit : Option ℕ → ℕ
limit max_lines = min (max (unwrap_or max_lines 200) 1) 1000

unfoldable pub read : LogRing → Option ℕ → Option ℕ → List String × ℕ
unfolding limit
read ring start max_lines =
    let skip = min (unwrap_or start 0) ring.total in
    (
      take (limit max_lines) (drop skip (drop (ring.total - length ring.lines) ring.lines)),
      ring.total,
    )
