-- ===== src/Lib.antt =====
-- Formal models of parts of k8labs, a lab that studies Kubernetes CPU limits and keeps a pinned
-- supply chain for its nodes. The Python code is translated by hand: each function has one
-- function here, exceptions are values of Result, and every theorem is about those functions.
--
-- - Base holds what the models share: numbers, texts, lists, dicts in insertion order
--   (Base/Dict), exceptions as values (Base/Errors), and the floats as a parameter
--   (Base/FloatOps).
-- - Pilot is the safety pilot of research/cpu-limits/phase8/campaign. Pilot/Bracket is bracket.py
--   (Trial, Bracket, evaluate_trials), Pilot/Limits its plan_limits, Pilot/Slo is slo.py (Slo,
--   Observation, verdict), Pilot/Measure the measurement of pilot.py (CgroupSample,
--   derive_cpu_metrics, observation_from), and Pilot/Run the main function of pilot.py: prepare
--   is what it checks, run its loop, conclude its report. main plans limits with plan_limits,
--   measures a cell for each, judges it by verdict, and brackets the trials by evaluate_trials.
-- - Cache is scripts/cache.py: Cache/Inventory has _artifact_inventory and the inventories built
--   on it, Cache/Layout validate_oci_layout over the files of one image, Cache/Store _download,
--   the loops that populate and check the upgrade artifacts, and prune, Cache/Images
--   oci_inventory, populate_oci_image and the loop of populate over the images. Cache/Paths has
--   the files that these change, by the parts of their paths. Contents, the SHA-256, the JSON
--   reader, what a URL serves and what skopeo copies are parameters. The inventories read the
--   lock that Lock has checked. The metadata files of the cache and validate_cache are not
--   modelled.
-- - Campaign is plan_campaign of research/cpu-limits/phase8/campaign/campaign.py, over any type
--   of levels, with the shuffle of the random module as a parameter.
-- - Bundle is validate_bundle of research/cpu-limits/phase8/model/bundle.py: Bundle has its
--   helpers, Bundle/Sections and Bundle/Rows the checks of each part, Bundle/Validate the whole.
--   The hash of the canonical JSON is a parameter.
-- - Lock is scripts/lock.py: Lock/References has its regular expressions and walk_mutable,
--   Lock/References/Matches what a mutable reference is, Lock/Artifacts validate_artifacts,
--   Lock/Matrix validate_upgrade_matrix, and Lock/Load load_lock, which calls them in turn on the
--   value that YAML reading returns (Base/Values). urlparse is a parameter.
-- - Trace is research/cpu-limits/capture/parse_trace.py, the loop of summarize_trace over parsed
--   scheduler events: related and the three functions that name a process, and one function for
--   each kind of event.
-- - Addons is scripts/generate_capi_addons.py: Addons/Discover has discover_manifests over what
--   the file system holds, Addons/Split split_by_size, and Addons/Generate generate_all, check
--   and main over an output directory and the tracked files; a step that raises leaves the files
--   that it has written. Base64 and the YAML writer are parameters.
-- - Statistics is the Holm correction: Statistics has holm_decisions and holm_step_down of
--   research/cpu-limits/analysis/stats.py, Statistics/Sched _holm_step_down and _t_ppf of
--   research/linux-sched/analysis/sched_analysis.py, Statistics/Sched/Verdicts its
--   holm_decisions, and Statistics/StepDown the abstract rule that both step-downs refine. The
--   normal quantile is a parameter.
-- - Regression is research/cpu-limits/phase8/model/monotonic.py: _pav, fit_monotonic and predict,
--   with the blocks of _pav in Regression/Pooling, and fit_response_table in Regression/Table.
--   Sums, standard deviations and rounding are parameters.
-- - Pruning is plan_pruning of research/linux-sched/analysis/prune_data.py, over what the file
--   system holds of the data root, with the order of the blocks in Pruning/Newest.
-- - Firmware is scripts/edk2_esl.py: guid_bytes and build_signature_list, with the calls of
--   struct, int and bytes.fromhex in Firmware/Bytes, and in Firmware/Reader a reader of the
--   format that stands for the firmware.
-- - Kernel is the names of kernel packages of scripts/kernel_build_harness.py: derive_nvr and
--   parse_nvr, with config_fragment_hash over a given SHA-256.
-- - Tests has a run of each theorem on concrete data, over the floats of Tests/Numbers, which
--   count thousandths.
--
-- Integers that the code keeps at or above 0 are natural numbers, without a bound, as in Python.
-- Floats are a record of operations: no law of IEEE arithmetic is assumed but those that a
-- theorem names as a hypothesis. Messages are constructors with the values that they show. Loops
-- are structural recursion over the lists that the code walks, so no fuel is needed. Not
-- modelled: reading and writing files, subprocesses, clocks, argparse, statistics and plots; the
-- results of such calls are arguments.
pub mod Addons
pub mod Base
pub mod Firmware
pub mod Kernel
pub mod Pilot
pub mod Pruning
pub mod Regression
pub mod Statistics
pub mod Bundle
pub mod Cache
pub mod Campaign
pub mod Lock
pub mod Trace
mod Tests
