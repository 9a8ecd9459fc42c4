-- ===== src/Lib.antt =====
-- bpfima, an integrity monitor: a kernel module takes measurements of containers from BPF programs,
-- hashes them into one Merkle root that extends a TPM register, and decides by a policy, which is
-- itself measured, what is measured at all.
--
-- The parts and their files:
-- - Base: lists by native numbers, byte buffers and C strings, the kernel's error numbers, results,
--   the bit operations on flag words.
-- - Hash: src/hash_utils.c, SHA-256 and the table of committed digests (`extend_hash`,
--   `hash_exists`, `publish_hash_entry`).
-- - Tpm: src/tpm_ops.c, the one TPM command (`extend_tpm_pcr`).
-- - Node: the measurement and container structures of include/bpfima_common.h and
--   src/measurements.c.
-- - Kfunc: include/bpfima_kfunc_buffer.h, the validation of what a BPF program passes in
--   (`prepare_measurement`, `copy_kfunc_string`, `validate_namespace`).
-- - Merkle: src/merkle.c. `Merkle` has the globals and the error latch, `Merkle.Trim` the retention
--   of the history, `Merkle.Commit` the transaction `commit_event_locked`, cut where the code
--   branches: `commit_checked`, `commit_deduplicated`, `commit_measured`, `commit_leaf`,
--   `commit_value`, `commit_tpm`, `publish_event`. The other children have its theorems.
-- - Policy: include/bpfima_kfunc_types.h (`Policy.Types`), include/bpfima_policy_defaults.h
--   (`Policy.Config`, `Policy.Pattern`), src/policy_namespace.c (`Policy.Namespace`) and
--   src/policy_manager.c (`Policy.Snapshot`: validation; `Policy.Resolve`: the decision on an
--   event; `Policy.Wire`: the hashed bytes; `Policy.Manager`: the map with its two states and its
--   children for the publication, the requests and the first bind).
-- - Containers: src/container.c, the list of the containers with their references; src/kfuncs_container.c
--   (`Containers.Kfuncs`).
-- - Measure: `add_container_measurement` of src/merkle.c and `bpfima_measurement_extend` of
--   src/kfuncs_measure.c, the whole path of a measurement; `Measure.Pcr` has the PCR value.
-- - Policy.Endian, Policy.Securityfs: the writes to the policy files of src/policy_securityfs.c
--   (`policy_map_write`, `policy_update_write`, `global_policy_write`, `policy_apply_write`) and the
--   little-endian encoding of a request, which include/bpfima_policy_user.h has for userspace.
-- - Policy.Kfuncs: src/kfuncs_policy.c and what src/policy_namespace.c passes on for it.
-- - Main: src/bpfima_main.c (`Main.Load` with `bpfima_init` and `bpfima_exit`), as acquisitions and
--   releases, and the creation and removal of the global files that it calls.
-- - Hooks: the text builders of utils/utils.h (`Hooks.Text`) and `bpfima_submit_measurement` of
--   hooks/hook_utils.h (`Hooks.Submit`).
-- - Tool: tools/yaml_parser.c, the parser of a policy file on the events of libyaml (`Tool.Yaml`, with
--   their nesting in `Tool.Yaml.Nesting`) and `build_policy_from_yaml` (`Tool.Build`).
-- - Tests: runs at concrete inputs.
--
-- How they interact: a request for the policy is validated against the root's configuration, put
-- into the state that is not active, and its digest goes through the same transaction as a
-- measurement; only then does the generation, which selects the active state, change. The
-- transaction reads the limit on the history from the active state. The tool's snapshot and a BPF
-- program's request come to the module through the validation that these parts share with it.
--
-- Conventions. A function that changes state takes the state and returns the new one with its
-- result; the pointers that may be NULL are options. Under a mutex a call is one step, so the
-- locks are not modelled. What the kernel answers is a parameter: SHA-256 and the bucket hash
-- (`Kernel`), the crypto API's results (`ShashRun`), allocations and the TPM (`TpmEnv`,
-- `CommitEnv`, `TrimEnv`, `PublishEnv`, `ApplyEnv`, `BindEnv`, `CreateEnv`, `MeasureEnv`).
-- Fixed-width counters keep their wrap-around. A read of a NULL state is `none` outside of the
-- result. Of libc, `strtoul` is a parameter, of the kernel `kstrtou32`, of the BPF helpers the reads.
--
-- Fuel: `decimal` has 20 steps, for the at most 20 digits of a 64-bit number. The policy parser has
-- one step more than there are events, and each round takes at least one event while there are any;
-- that this is enough for a document that libyaml accepts is a theorem (`parse_yaml_policy-some`).
--
-- Not modelled: the text of the securityfs files that are read and the files of a namespace, the BPF
-- programs around the submission of a measurement, the commands of tools/bpfima_tool.c, the Go
-- operator and the Go verifier, and what runs in parallel outside the mutexes.
-- include/bpfima_event.h and include/bpfima_securityfs.h declare only.
pub mod Base
pub mod Hash
pub mod Kfunc
pub mod Tpm
pub mod Node
pub mod Policy
pub mod Hooks
pub mod Main
pub mod Tool
pub mod Tests
pub mod Merkle
pub mod Containers
pub mod Measure
