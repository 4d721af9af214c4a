-- ===== src/Examples/Threads.antt =====
-- The sample thread object: its mounts, its pool, and two interleavings of Run and Stop.
use ff_http_lws.Base.{◌≡◌, refl, true, false, some, [], strlen, replicate, ◌==◌, arith}
use ff_http_lws.Thread.{HttpThread, ServerSettings}
use ff_http_lws.Thread.Mounts.{started, dynamic_mount_lem}
use ff_http_lws.Thread.Race.{Sys, in_service, guarding}
use ff_http_lws.Examples.Sample.Engine.{sample_engine, sample_engine-docs}
use ff_http_lws.Examples.Sample.Calls.{settings, memory, new_protocol, create}

abbrev pub running : HttpThread
running = started sample_engine settings memory 5 (some 6) (new_protocol, new_protocol) create

-- a URI of 256 characters
abbrev long_settings : ServerSettings
long_settings = record settings { api_uri = replicate 256 97 }

abbrev long_running : HttpThread
long_running =
    started sample_engine long_settings memory 5 (some 6) (new_protocol, new_protocol) create

dynamic_mount_example :
    (long_running.mount_dynamic.mountpoint ≡ some long_settings.api_uri)
    × ((long_running.mount_dynamic.mountpoint_len == strlen long_settings.api_uri) ≡ false)
dynamic_mount_example =
    dynamic_mount_lem sample_engine-docs long_settings memory 5 (some 6)
      (new_protocol, new_protocol) create refl (ground arith) (ground arith)

abbrev pub serving : Sys
serving = record {
  thread = record running { start_thread = true };
  worker = in_service (some 9);
  stopper = guarding;
  destroyed = [];
}
