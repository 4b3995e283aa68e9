-- ===== src/Archive/HostTests.antt =====
-- A host that is in order, one server that answers, and an instance of the theorem on what `main` has
-- found when it shows a text.
use hello_old.Base.{refl, true, false, [], ◌∷◌, replicate, none, some, ◌++◌}
use hello_old.Archive.Tests.{pin, opens}
use hello_old.Archive.Toy.{toy}
use hello_old.Archive.Memory
use hello_old.Archive.Observe.{Readings, observe}
use hello_old.Archive.Checked.{InOrder, unlock-InOrder}
use hello_old.Clock.Toy.{naturals, naturals-Orders}
use hello_old.Clock.Ntp.{Exchange, Answer, to_be_bytes, query, queried, server_time, answer_of}
use hello_old.Clock.Servers.{
  Sync, returned, finished, pushes, ends, asked, called, done, tested, advances, starts, polls,
  tests, returns, Turns, here, next,
}
use hello_old.Clock.Consensus.{good, insert, sort, consensus}
use hello_old.Clock.Anchor.{sane}
use hello_old.Host.Status.{tracer_pid, anti_debug_checks}
use hello_old.Host.Harden.{maps_has_loader, maps_rwx_clean, check_injection}
use hello_old.Seccomp.Filter.{install}

-- The query of a server, a second ahead of the local clock.
abbrev exchange : Exchange naturals
exchange = record {
  ready = true;
  found = true;
  sent = true;
  reply = some (48, replicate 40 0 ++ to_be_bytes 4 3964075200 ++ replicate 4 0);
  t1 = 1755086399;
  t2 = 1755086399;
}

abbrev from_server : Answer naturals
from_server = record { now = 1755086400; drift = 1 }

-- What a host shows that is in order, with one server.
abbrev readings : Readings naturals
readings = record {
  status = none;
  check_nanos = 50;
  ld_preload = none;
  ld_library_path = none;
  maps = none;
  key_mapping = (some 65536, true);
  content_mapping = (some 131072, true);
  is_terminal = true;
  passwords = some pin ∷ [];
  clocks_at_start = ((100, 0), (1755086400, 0));
  clocks_before = ((100, 0), (1755086400, 0));
  clocks_after = ((105, 0), (1755086405, 0));
  prctl = λ call. true;
  local_now = 1755086400;
  servers = exchange ∷ [];
  results = from_server ∷ [];
  custom_host = record { ready = false; found = false; sent = false; reply = none; t1 = 0; t2 = 0 };
}

abbrev synced : Sync naturals
synced = record {
  now = 0;
  deadline = 4000;
  servers = finished ∷ [];
  results = from_server ∷ [];
  shown = 1 ∷ [];
  stage = returned (from_server ∷ []);
}

answered : Turns naturals (called naturals (queried naturals readings.servers) 0) synced
unfolding queried query answer_of server_time asked done tested
answered =
    next
      (next
        (next
          (next (next (next here (starts _ refl)) (advances _ _ _ (pushes from_server [])))
            (advances _ _ _ (ends [])))
          (polls _ refl))
        (tests _ 1 refl))
      (returns _ refl)

unlock-InOrder_example : InOrder naturals readings
unfolding observe anti_debug_checks tracer_pid check_injection maps_has_loader maps_rwx_clean
    Memory.new sane install consensus good sort insert query
unlock-InOrder_example =
    unlock-InOrder naturals naturals-Orders toy opens.0 readings 0 synced (123 ∷ 125 ∷ [])
      (104 ∷ 105 ∷ []) answered refl opens.2
