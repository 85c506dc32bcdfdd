-- ===== src/Location/Pipeline/Forced.antt =====
-- A run that is forced to fail while its worker still works.
use lojinextv.Location.Tables.{ProcessingRun, LocationDb}
use lojinextv.Location.Runs.{write_run, force_failed}

abbrev forced : ProcessingRun → LocationDb → LocationDb
forced r d = record d { runs = write_run (force_failed r) d.runs }
