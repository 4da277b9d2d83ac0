-- ===== src/Alerting/Suppress/Windows.antt =====
-- Maintenance windows are half-open.
use logingestor.Prelude.{◌≡◌, ◌≤◌, ◌||◌, ◌&&◌, false, arith}
use logingestor.Prelude.Clock.{Time}
use logingestor.Alerting.Model.{Uuid, MaintenanceWindow}
use logingestor.Alerting.Suppress.{covers}

-- Two windows for the same projects, the second starting where the first ends, cover together the
-- instants that one window over both spans covers, and no instant twice.
covers_adjacent :
    (v w : MaintenanceWindow) (project : Uuid) (at : Time)
    → v.project_id ≡ w.project_id
    → v.ends_at ≡ w.starts_at
    → v.starts_at ≤ v.ends_at
    → w.starts_at ≤ w.ends_at
    → ((covers v project at || covers w project at)
        ≡ covers (record v { ends_at = w.ends_at }) project at)
      × ((covers v project at && covers w project at) ≡ false)
unfolding covers
covers_adjacent v w project at p e h k = ground arith
