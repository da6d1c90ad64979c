-- ===== src/Tests/Systems.antt =====
-- Start-up, the build context, the health check, and a bot's session at concrete inputs.
use distributed_benchmark_pl.Base.{
  ℕ, ◌+◌, ◌-◌, ◌*◌, ◌/◌, ◌≤◌, ◌≡◌, Bool, true, false, not, ◌||◌, ◌&&◌, none, some, List, [], ◌∷◌,
  arith, length, ◌==◌, if◌then◌else◌, refl,
}
use distributed_benchmark_pl.Base.Text.{codes, to_lower}
use distributed_benchmark_pl.Archive.Context.{
  file, link, dir, Entries, end, entry, TarItem, create_tar_context, unpack,
}
use distributed_benchmark_pl.Archive.Context.Written.{ReadableEntries, unlinked_entries}
use distributed_benchmark_pl.Archive.Context.Unpacking.{unpack-create_tar_context}
use distributed_benchmark_pl.Settings.{Env}
use distributed_benchmark_pl.Settings.Loading.{Weights, load}
use distributed_benchmark_pl.Startup.{main}
use distributed_benchmark_pl.Startup.Actions.{Machine}
use distributed_benchmark_pl.Startup.Ordered.{Orderly, Served, main-Orderly}
use distributed_benchmark_pl.Store.{World}
use distributed_benchmark_pl.Sandbox.{HealthEvent, wait_rounds}
use distributed_benchmark_pl.Sandbox.Health.{period, client_timeout, HealthProbe, rounds}
use distributed_benchmark_pl.Sandbox.Health.Returning.{any_healthy, Waited, wait_returns}
use distributed_benchmark_pl.Botfleet.Protocol.{web_socket, new_adapter}
use distributed_benchmark_pl.Botfleet.Fleet.{Fleet, new, spawn_worker}
use distributed_benchmark_pl.Botfleet.Session.{
  Answer, WorkerEvent, done, tick, Worker, fresh_adapter, worker_goroutine,
}
use distributed_benchmark_pl.Botfleet.Session.Balance.{
  ticks, stops, is_rest, Counted, worker_balances,
}
use distributed_benchmark_pl.Tests.Data.{three_to_five, bid}
use distributed_benchmark_pl.Tests.Instances.{whole}

-- main.go, an empty directory, a directory with a file, and a link.
abbrev sources : Entries
sources = entry (codes "empty") (dir end) (
    entry (codes "main.go") (file 7 (some (codes "package"))) (
      entry (codes "pkg") (dir (entry (codes "a.go") (file 2 (some (codes "go"))) end))
        (entry (codes "tmp") (link (codes "empty") (some [])) end)))

sources-Readable : ReadableEntries sources
sources-Readable = ground arith

unpack-create_tar_context_example :
    (items : List TarItem) × (create_tar_context (dir sources) ≡ some items)
    × (unpack items ≡ dir (unlinked_entries sources))
unpack-create_tar_context_example = unpack-create_tar_context sources sources-Readable

abbrev machine : Machine
machine = record {
  fault = λ site. false;
  hostname = some "backend";
  inspect = λ host. some ("bench_net" ∷ []);
}

abbrev environment : Env
environment key = "1"

abbrev tenths : Weights ℕ
tenths = record { three_tenths = 3; one_tenth = 1 }

main-Orderly_example :
    let config = load (λ t. some 3) (λ t. some 60) tenths environment in
    Orderly (main (λ l. none) machine config)
    × Served config machine (main (λ l. none) machine config)
main-Orderly_example =
    main-Orderly (λ l. none) machine (load (λ t. some 3) (λ t. some 60) tenths environment)

-- The engine cannot be reached at first, and answers the third probe.
abbrev waking : ℕ → HealthProbe
waking n =
    if n == 2
    then record { took = 5; status = some 200 }
    else record { took = 900000000; status = none }

abbrev still : World ℕ
still = record {
  db = record {
    submissions = [];
    benchmark_runs = [];
    metric_snapshots = [];
    metric_aggregates = [];
    leaderboard = [];
  };
  docker = [];
  published = [];
}

wait_returns_example :
    (es : List HealthEvent) × (end : ℕ) × (rounds 30000000000 waking 62 0 0 0 1 ≡ some (es, end))
    × (length es ≤ 30000000000 / period + 1 + 1)
    × (end ≤ 30000000000 + client_timeout + 1 * client_timeout)
    × Waited (any_healthy es) (wait_rounds es still).0
wait_returns_example = wait_returns 30000000000 waking 1 62 still (omega arith)

-- Two orders, of which the second one's read fails, before the context is done.
abbrev fills : Bool → Answer ℕ
fills read_ok = record {
  http = record { request_ok = false; status_code = 0; decoded = none };
  ws = record {
    write_ok = true;
    read_ok = read_ok;
    decoded = some (record { order_id = "o"; status = "filled"; fill_price = 1; fill_qty = 1 });
  };
}

abbrev session : List (WorkerEvent ℕ)
session = tick bid (fills true) 5 10 ∷ tick bid (fills false) 5 20 ∷ done ∷ []

worker_balances_example :
    let w : Worker = record { id = 0; target = "host:8080"; adapter = fresh_adapter web_socket } in
    let f : Fleet ℕ = spawn_worker 0 (new three_to_five) in
    let left = worker_goroutine w false session f in
    let on = left.adapter.connected in
    (on ≡ (is_rest web_socket || not false))
    × (left.returned ≡ (not on || stops session))
    × (left.adapter.closed ≡ (on && left.returned))
    × (left.fleet.active ≡ (if left.returned then f.active - 1 else f.active))
    × Counted (if on then ticks session else 0) f left.fleet
unfolding spawn_worker new new_adapter to_lower
worker_balances_example =
    worker_balances web_socket 0 "host:8080" false session (spawn_worker 0 (new three_to_five))
      (refl, refl)
