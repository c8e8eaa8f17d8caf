-- ===== src/Lib.antt =====
-- The locai-link agent: commands from the control plane, the pipelines that they start and stop,
-- the configuration that can be swapped while the agent runs, and the session file from which a
-- restarted agent recovers.
--
-- The program's parts. The command line (src/link/main.py) finds the identity of the device in a
-- saved session, or makes one by onboarding (src/link/app/onboarding.py), and runs the agent; a
-- configuration that is read has its placeholders resolved (src/link/config/templating.py). A
-- transport (HTTP polling or Zenoh) hands commands to the `command` sink
-- (src/link/components/command.py), which drops duplicates and calls `AgentRuntime.handle_command`
-- (src/link/app/runtime.py). The runtime keeps the pipelines that run and their configurations,
-- starts and stops them, downloads and removes models, and tells Control about it. A new agent
-- configuration goes through `apply_agent_config` (src/link/app/reconfigure.py), which calls back
-- into `AgentRuntime.apply_config`. What must survive a restart is in `StateManager`
-- (src/link/app/state.py). UPDATE_AGENT ends the runtime, and the bundle is then updated by
-- `swap_bundle` (src/link/app/updater.py), which downloads a release, unpacks it
-- (src/link/utils/archive.py), checks it and flips the `current` pointer of the install root. A
-- pipeline is a thread that hands what its source gives to its sink
-- (src/link/components/pipeline.py). A pipeline that serves a language model registers it with the
-- swap manager (plugins/language_model/swap_manager.py), which runs llama-swap on an engine that
-- the artifact store installed (src/link/infra/artifact_store.py), behind a proxy that records the
-- telemetry of each answer (src/link/infra/serving_proxy.py). A local page reads the agent's state
-- and sends commands to the runtime through the health server (src/link/infra/health_server.py).
-- Logs and reports go to Control through handlers with a queue and a thread each
-- (src/link/utils/logger.py), which a new configuration rebuilds.
--
-- Which file models which part:
--   Json, Config          the configuration types of src/link/config/models.py
--   CommandSink           `AgentCommand`: `_dispatch` is dispatch, `__call__` is call
--   State                 `StateManager`, each method under its own name
--   Runtime               `AgentRuntime`, its commands (src/link/config/commands.py), its environment
--   Runtime/Pipelines     `_start_pipeline` (start_pipeline, with its phases unchanged, halt, build
--                         and commit_start), `_stop_pipeline`, `_create_component`
--   Runtime/Reconfigure   `apply_config`, `_diff_and_swap_pipelines`, and reconfigure.py
--   Runtime/Models        `_deploy_model`, `_cancel_deploy`, `_update_pipeline`, `_uninstall_model`
--                         and the queue of removals that Control has not heard of
--   Runtime/Handle        `handle_command` and `_snapshot_models`
--   Runtime/Deploys       `_deploy_worker` with `_download_and_publish` and `_commit_deploy`: Phase is
--                         where the worker waits, advance what it does with the next event
--   Updater               src/link/app/updater.py: the pointers (`_write_pointer`, `flip_current`),
--                         `gc_old_versions` and `swap_bundle`
--   Updater/Download      `download`, with its retries and its partial file
--   Archive               src/link/utils/archive.py: the pattern of unsafe names and `_extract_tar`
--   Artifacts             src/link/infra/artifact_store.py: the manifest and `Manifest.variant`
--   Artifacts/Fetch       its `_http_get`, `fetch_manifest`, `_download_to` and `fetch_variant`
--   Artifacts/Engine      its `_extract`, `_atomic_swap` and `ensure_engine`
--   SwapManager           plugins/language_model/swap_manager.py: the state, the sinks, `_write_config`
--   SwapManager/Processes its processes: `_start`, `_stop`, `_reload`, `_reclaim_previous_instance`
--   SwapManager/Models    `add_model`, `remove_model`, `shutdown`, and any of the calls (perform)
--   Proxy                 src/link/infra/serving_proxy.py: `_ChatTelemetry`
--   Proxy/Routes          its `_ProxyHandler`
--   Health                src/link/infra/health_server.py: `HealthState`
--   Health/Requests       its `HealthHandler`
--   Runtime/Main          `run`, with the recovery of the saved pipelines, and `_shutdown`
--   PipelineThread        src/link/components/pipeline.py: the loop of a `Pipeline` and its teardown
--   Updater/Verify        src/link/app/updater.py: `verify`, the digests of a release
--   Updater/Releases      its `latest_release_for` and `_pick_assets`
--   Cli/Reset             src/link/main.py: `reset` and `_find_link_repo_root`
--   Cli/Start             its `run` up to the runtime, `register`, `self_check`, `update`
--   Onboarding            src/link/app/onboarding.py: `_request_with_retry`
--   Onboarding/Enrolling  its `enroll_device` and `register_with_key`
--   Templating            src/link/config/templating.py and loader.py
--   Logger                src/link/utils/logger.py: `AsyncHandler`, `CategoryFilter`
--   Logger/Threads        its threads, as sequences of acts
--   Logger/Reports        its `LinkReporter`
--   Logger/Sending        its `_transport_emit` over HTTP and Zenoh
--   Logger/Handlers       its `setup_logging` and `rebuild_handlers`
--   Registry              src/link/components/registry.py: `ComponentRegistry`
--   Tests                 concrete data, and the theorems applied to it
-- The other files below State, CommandSink, Runtime, Updater, Archive, Artifacts, SwapManager, Proxy,
-- Health, PipelineThread, Cli, Onboarding, Templating, Logger and Registry hold the proofs about these
-- definitions, and are named for what they prove.
--
-- How the code is read. An operation takes the state and gives the new one; a failure that the code
-- catches is a Boolean or a result beside it. Python's `with self.lock` sections run whole. A dict
-- is an association list in insertion order, a deque or a list of reports has the newest entry
-- first. A `set` of removed pipeline ids has no order in Python; the model goes by the list that it
-- was made from. Loops are structural recursion. Only the cutting of a buffer into events (drain in
-- Proxy) runs on fuel, the length of the buffer: that is enough, since each event that is cut takes
-- a byte. The loops of `run` and of a pipeline take a list of what each turn meets.
--
-- Parameters. `Env` is what the runtime does not decide: whether a component can be created, a
-- thread stops within its time, the disk takes a write (a write may also fail half way), a handler
-- rebuild succeeds, a file can be removed, how a request to Control ends, the queue of unreported
-- removals is saved (its file is read as it was saved), what `pathlib` makes of a text, and which
-- file a path leads to (`file_of`: a relative and an absolute path may lead to the same). Each
-- outcome is indexed by `now`, which counts the calls made, so that a second call may end another
-- way than the first. The parsing of commands and configurations by pydantic enters as its result;
-- of the types of a configuration only the identity is modelled field by field (validate_identity
-- in Onboarding/Enrolling). In the runtime, the resolution of placeholders enters as its result
-- too. The callback of the command sink may raise at any run. `aliased` records which stored
-- configurations are the same objects as those in the agent's configuration, since START_SERVING
-- changes such an object in place. `World` holds the outcomes of one bundle update in the same
-- way; the release that is found and the check of its digest are among them, and Updater/Releases
-- and Updater/Verify model these apart. The replies of a download are a list, one for each
-- attempt.
--
-- The deploy worker is a thread. Its steps are the stretches between two waits, and a run is any
-- interleaving of them with commands, each handled whole, on the other thread. The commit, with its
-- look at the cancel event, is a step of its own, and what follows it is another: there the last
-- answer and the removal from the table are one step. The set of locks is not modelled beyond that.
--
-- Each later part has a record of that kind: `Store` and `Installer` the replies to requests, the
-- files and the lock of the artifact store, and which of the last steps of an installation, the
-- renames among them, succeed (removals that ignore errors succeed); `Machine` what the operating
-- system answers to the swap manager, and whether its file can be written (the removal of that
-- file and of the file of the process number succeed); `Reader` and `Proxy` the parsing of JSON
-- and the characters of texts for the proxy; `LocalAgent` what the runtime and the session tell
-- the health server; `Control` and `Host` the replies and the files of onboarding; `Boot` and the
-- `Disk` of Cli/Reset what the command line meets; `Formats` and `Setup` the formatting of records
-- and what the handlers of logging are made from. Their fields say what each stands for.
--
-- The threads of a log handler run by a sequence of acts: a call of `emit` (its look at the stop
-- event, and the rest, are two acts), a step of the worker, or `close`. The sequence is any list.
--
-- Not modelled: message texts and telemetry; permissions of the session file; session files that
-- this program did not write; the lifecycle reports and the construction of the runtime; the
-- threads and sockets of the servers, and clocks other than as numbers; TLS and the lock file of
-- the artifact store; the payload that onboarding sends; the parser of the command line and its
-- `status`, which prints; the formatters of logging; the other plugins, the operating system's
-- services and the build tools, which are wrappers of services and libraries.
pub mod Archive
pub mod Artifacts
pub mod Base
pub mod Cli
pub mod CommandSink
pub mod Config
pub mod Dict
pub mod Health
pub mod Json
pub mod Logger
pub mod Onboarding
pub mod PipelineThread
pub mod Proxy
pub mod Registry
pub mod Runtime
pub mod State
pub mod SwapManager
pub mod Templating
pub mod Tests
pub mod Updater
