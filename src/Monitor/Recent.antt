-- ===== src/Monitor/Recent.antt =====
-- The rows of the monitor show its most recent connections.
use closed_bsd.Monitor.{Monitor}
use closed_bsd.Text.{Text}
