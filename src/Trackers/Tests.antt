-- ===== src/Trackers/Tests.antt =====
-- The theorems on position_tracker.cpp and exposure_tracker.cpp at a few values.
use hftalgorithms.Base.{refl}
use hftalgorithms.Base.Int.{pos}
use hftalgorithms.Base.Dict.{lookup}
use hftalgorithms.Messages.{buy}
use hftalgorithms.Trackers.Position.{PositionTracker}
use hftalgorithms.Trackers.Exposure.{ExposureTracker, init, on_order_sent}
use hftalgorithms.Trackers.Exposure.Accounting.{
  IsAccounted, init-IsAccounted, on_order_sent-IsAccounted,
}

abbrev held : PositionTracker
held = record { position = pos 8; max_position = pos 10 }

abbrev one_sent : ExposureTracker
one_sent = on_order_sent 1 buy 4 (pos 100) (init 20)

one_sent-IsAccounted : IsAccounted one_sent
unfolding lookup
one_sent-IsAccounted =
    on_order_sent-IsAccounted 1 buy 4 (pos 100) (init 20) refl (init-IsAccounted 20)
