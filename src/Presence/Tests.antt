-- ===== src/Presence/Tests.antt =====
-- The presence monitor at concrete samples.
use studio_worker.Base.{none}
use studio_worker.Presence.{failed, Sample, probe_failed, Monitor}

abbrev at_first : Monitor
at_first = record { slot = none; last_error = none }

abbrev broken_probe : Sample
broken_probe = probe_failed (failed "ioreg" "no output")
