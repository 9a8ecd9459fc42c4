-- ===== src/Main/Load.antt =====
-- `bpfima_init` and `bpfima_exit` of src/bpfima_main.c. The kernel drops the kfunc registrations with
-- the module, so they are not held.
pub mod States
pub mod Files
pub mod Released
use bpfima.Base.{
  ℕ, Bool, true, false, Option, none, some, arith, if◌then◌else◌, enomem, einval, ℤ, pos,
}
use bpfima.Main.{
  Resource, hash_tfm, cleanup_wq, root_tfm, main_dir, status, history, namespaces, Pointer, null,
  error_ptr, live, Module, Answers, Loaded, failed_with, acquire, release, remove,
  remove_global_policy, remove_global_policy_changes, or_undo, behind, securityfs_init,
}
use bpfima.Tpm.{bad_pcr_index}

-- `bpfima_hash_cleanup`, for the transform
unfoldable pub hash_cleanup : Pointer → Module → Module
hash_cleanup null s = s
hash_cleanup (error_ptr n) s = release hash_tfm s
hash_cleanup live s = let a = release hash_tfm s in record a { sha256_tfm = null }

-- `bpfima_container_cleanup`
unfoldable pub container_cleanup : Module → Module
container_cleanup s = release cleanup_wq s

-- The labels `err_policy` and `err_hash`, and `err_containers`, whose cleanup of the metadata and the
-- map holds no resource here.
unfoldable pub err_hash : Module → Module
err_hash s = hash_cleanup s.sha256_tfm s

unfoldable pub err_containers : Module → Module
err_containers s = err_hash (container_cleanup s)

-- `if (system_merkle_root.tfm) crypto_free_shash(system_merkle_root.tfm)`
abbrev free_root_tfm : Pointer → Module → Module
free_root_tfm null s = s
free_root_tfm (error_ptr n) s = release root_tfm s
free_root_tfm live s = release root_tfm s

unfoldable pub err_merkle_tfm : Module → Module
err_merkle_tfm s =
    let a = free_root_tfm s.merkle_tfm s in err_containers (record a { merkle_tfm = null })

-- `bpfima_hash_init`
unfoldable pub hash_init : Option ℕ → Bool → Module → Loaded
hash_init (some n) too_large s = failed_with n (record s { sha256_tfm = error_ptr n })
hash_init none too_large s =
    let a = acquire hash_tfm s in
    let b = record a { sha256_tfm = live } in
    if too_large
    then record { ret = einval; state = release hash_tfm b }
    else record { ret = pos 0; state = b }

-- The steps of `bpfima_init`, from the last to the first.
unfoldable pub load_files : Answers → Module → Loaded
load_files env s = or_undo err_merkle_tfm (securityfs_init env.main_dir env s)

unfoldable pub load_tracing : Option ℕ → Answers → Module → Loaded
load_tracing (some n) env s = failed_with n (err_merkle_tfm s)
load_tracing none env s = load_files env s

unfoldable pub load_kprobe : Option ℕ → Answers → Module → Loaded
load_kprobe (some n) env s = failed_with n (err_merkle_tfm s)
load_kprobe none env s = load_tracing env.tracing env s

unfoldable pub load_root : Option ℕ → Answers → Module → Loaded
load_root (some n) env s = failed_with n (err_containers (record s { merkle_tfm = null }))
load_root none env s =
    let a = acquire root_tfm s in load_kprobe env.kprobe env (record a { merkle_tfm = live })

-- `bpfima_container_init`
unfoldable pub load_containers : Bool → Answers → Module → Loaded
load_containers false env s = record { ret = enomem; state = err_hash s }
load_containers true env s = load_root env.root_tfm env (acquire cleanup_wq s)

-- `bpfima_init`
unfoldable pub bpfima_init : ℤ → Answers → Module → Loaded
bpfima_init pcr_index env s =
    let o = hash_init env.hash_tfm env.desc_too_large s in
    if bad_pcr_index pcr_index
    then record { ret = einval; state = s }
    else behind o (load_containers env.workqueue env)

-- A file that is removed where its pointer is not NULL, and a directory where it is no error
-- pointer either.
abbrev keep_error : Pointer → Pointer
keep_error null = null
keep_error (error_ptr n) = error_ptr n
keep_error live = null

-- `bpfima_securityfs_cleanup`
unfoldable pub securityfs_cleanup : Module → Module
securityfs_cleanup s =
    let a = remove_global_policy (remove_global_policy_changes s) in
    let b = remove history a.history_file a in
    let c = remove status b.status_file (record b { history_file = null }) in
    let d = remove namespaces c.containers_dir (record c { status_file = null }) in
    let e =
      remove main_dir d.bpfima_dir (record d { containers_dir = keep_error d.containers_dir }) in
    record e { bpfima_dir = keep_error e.bpfima_dir }

-- `bpfima_exit`
unfoldable pub bpfima_exit : Module → Module
bpfima_exit s =
    let a = container_cleanup s in
    let b = securityfs_cleanup (free_root_tfm a.merkle_tfm a) in hash_cleanup b.sha256_tfm b
