-- ===== src/Logging/Examples.antt =====
-- Runs of the model of src/logging.c.
use wire_command_c.Common.{◌≡◌, refl, true, some, codes, eio}
use wire_command_c.Logging.{Call, log_info, level_name, timestamp, context, written, log}

abbrev call : Call
call = record {
  level = 1;
  component = some (codes "server");
  event = some (codes "start");
  format = some (codes "fd=%d");
  text = some (codes "fd=3");
  clock = record { now = true; local_time = true; formatted = some (codes "T") };
}

log_test : log log_info eio call ≡ (some (codes "[T] WARN  server:start fd=3\n"), eio)
unfolding log written timestamp context level_name
log_test = refl
