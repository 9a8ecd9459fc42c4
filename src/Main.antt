-- ===== src/Main.antt =====
-- Loading and unloading of the module: src/bpfima_main.c, with the files' creation and removal of
-- src/policy_securityfs.c and src/securityfs_utils.c and the other parts' own init and cleanup. A
-- resource is held from the call that creates it to the one that releases it.
pub mod Load
use bpfima.Base.{
  ℕ, ◌+◌, Bool, Option, none, some, List, [], ◌∷◌, arith, ◌==◌, if◌then◌else◌, is_zero, ℤ, pos,
  negsuc,
}

-- What the module acquires: the transforms, the workqueue, the directories and files.
pub data Resource : Type 0 where
  hash_tfm cleanup_wq root_tfm main_dir status history namespaces policy policy_map
        policy_apply_file policy_changes :
      Resource

-- A number for each, by which they are compared.
abbrev number_of : Resource → ℕ
number_of hash_tfm = 0
number_of cleanup_wq = 1
number_of root_tfm = 2
number_of main_dir = 3
number_of status = 4
number_of history = 5
number_of namespaces = 6
number_of policy = 7
number_of policy_map = 8
number_of policy_apply_file = 9
number_of policy_changes = 10

-- A global pointer: NULL, an error pointer, or one to what it is for.
pub data Pointer : Type 0 where
  null : Pointer
  error_ptr : ℕ → Pointer
  live : Pointer

-- The resources that are held, the releases of one that is not, and the global pointers.
pub record Module : Type 0 where
  pub held : List Resource
  pub faults : ℕ
  pub sha256_tfm : Pointer
  pub merkle_tfm : Pointer
  pub bpfima_dir : Pointer
  pub status_file : Pointer
  pub history_file : Pointer
  pub containers_dir : Pointer
  pub policy_file : Pointer
  pub map_file : Pointer
  pub apply_file : Pointer
  pub changes_file : Pointer

-- Whether each creation fails, and with which error: `n` is -(n + 1).
pub record Answers : Type 0 where
  pub hash_tfm : Option ℕ
  pub desc_too_large : Bool
  pub workqueue : Bool
  pub root_tfm : Option ℕ
  pub kprobe : Option ℕ
  pub tracing : Option ℕ
  pub main_dir : Option ℕ
  pub unique_dir : Option ℕ
  pub status : Option ℕ
  pub history : Option ℕ
  pub namespaces : Option ℕ
  pub policy : Option ℕ
  pub policy_map : Option ℕ
  pub policy_apply_file : Option ℕ
  pub policy_changes : Option ℕ

-- A result and the module's state.
pub record Loaded : Type 0 where
  pub ret : ℤ
  pub state : Module

abbrev pub failed_with : ℕ → Module → Loaded
failed_with n s = record { ret = negsuc n; state = s }

abbrev pub acquire : Resource → Module → Module
acquire r s = record s { held = r ∷ s.held }

-- The resources without one of them, if it is there.
abbrev without : Resource → List Resource → Option (List Resource)
without r [] = none
without r (x ∷ xs) =
    if number_of r == number_of x
    then some xs
    else elim (without r xs) [ none ↦ none | some rest ↦ some (x ∷ rest) ]

abbrev pub release : Resource → Module → Module
release r s = elim (without r s.held) [
  | none ↦ record s { faults = s.faults + 1 }
  | some rest ↦ record s { held = rest }
]

-- `securityfs_remove`, which ignores NULL and error pointers
abbrev pub remove : Resource → Pointer → Module → Module
remove r null s = s
remove r (error_ptr n) s = s
remove r live s = release r s

-- The last of them, which an error pointer keeps.
abbrev remove_policy : Pointer → Module → Module
remove_policy null s = s
remove_policy (error_ptr n) s = s
remove_policy live s = let a = release policy s in record a { policy_file = null }

abbrev remove_changes : Pointer → Module → Module
remove_changes null s = s
remove_changes (error_ptr n) s = s
remove_changes live s = let a = release policy_changes s in record a { changes_file = null }

-- `remove_global_policy_securityfs`
unfoldable pub remove_global_policy : Module → Module
remove_global_policy s =
    let a = remove policy_apply_file s.apply_file s in
    let b = remove policy_map s.map_file (record a { apply_file = null }) in
    remove_policy s.policy_file (record b { map_file = null })

-- `remove_global_policy_changes_securityfs`
unfoldable pub remove_global_policy_changes : Module → Module
remove_global_policy_changes s = remove_changes s.changes_file s

-- `create_global_policy_securityfs`, from its last file to its first; the answer to each creation is
-- the first argument.
unfoldable pub create_policy_apply : Option ℕ → Module → Loaded
create_policy_apply (some n) s =
    failed_with n (remove_global_policy (record s { apply_file = null }))
create_policy_apply none s = record {
  ret = pos 0;
  state = let a = acquire policy_apply_file s in record a { apply_file = live };
}

unfoldable pub create_policy_map : Option ℕ → Answers → Module → Loaded
create_policy_map (some n) env s =
    failed_with n (remove_global_policy (record s { map_file = null }))
create_policy_map none env s =
    let a = acquire policy_map s in
    create_policy_apply env.policy_apply_file (record a { map_file = live })

unfoldable pub create_global_policy : Option ℕ → Answers → Module → Loaded
create_global_policy (some n) env s = failed_with n (record s { policy_file = error_ptr n })
create_global_policy none env s =
    let a = acquire policy s in
    create_policy_map env.policy_map env (record a { policy_file = live })

-- The removals on the ways out of `bpfima_securityfs_init`, each with what is behind it.
unfoldable pub undo_dir : Module → Module
undo_dir s = let a = remove main_dir s.bpfima_dir s in record a { bpfima_dir = null }

unfoldable pub undo_status : Module → Module
undo_status s = let a = remove status s.status_file s in undo_dir (record a { status_file = null })

unfoldable pub undo_history : Module → Module
undo_history s =
    let a = remove history s.history_file s in undo_status (record a { history_file = null })

unfoldable pub undo_namespaces : Module → Module
undo_namespaces s =
    let a = remove namespaces s.containers_dir s in
    undo_history (record a { containers_dir = null })

-- What a failure leaves, once it is undone.
abbrev pub or_undo : (Module → Module) → Loaded → Loaded
or_undo undo o = if is_zero o.ret then o else record o { state = undo o.state }

abbrev pub behind : Loaded → (Module → Loaded) → Loaded
behind o next = if is_zero o.ret then next o.state else o

-- The steps of `bpfima_securityfs_init`, from the last to the first. `init_changes` is
-- `create_global_policy_changes_securityfs` with what follows it.
unfoldable pub init_changes : Option ℕ → Module → Loaded
init_changes (some n) s =
    failed_with n (undo_namespaces (remove_global_policy (record s { changes_file = error_ptr n })))
init_changes none s = record {
  ret = pos 0;
  state = let a = acquire policy_changes s in record a { changes_file = live };
}

-- What follows the creation of the policy files.
unfoldable pub after_policy : Answers → Loaded → Loaded
after_policy env o =
    if is_zero o.ret
    then init_changes env.policy_changes o.state
    else record o { state = undo_namespaces o.state }

unfoldable pub init_policy : Answers → Module → Loaded
init_policy env s = after_policy env (create_global_policy env.policy env s)

unfoldable pub init_namespaces : Option ℕ → Answers → Module → Loaded
init_namespaces (some n) env s =
    failed_with n (undo_history (record s { containers_dir = error_ptr n }))
init_namespaces none env s =
    let a = acquire namespaces s in init_policy env (record a { containers_dir = live })

unfoldable pub init_history : Option ℕ → Answers → Module → Loaded
init_history (some n) env s = failed_with n (undo_status (record s { history_file = error_ptr n }))
init_history none env s =
    let a = acquire history s in
    init_namespaces env.namespaces env (record a { history_file = live })

unfoldable pub init_status : Option ℕ → Answers → Module → Loaded
init_status (some n) env s = failed_with n (undo_dir (record s { status_file = error_ptr n }))
init_status none env s =
    let a = acquire status s in init_history env.history env (record a { status_file = live })

unfoldable pub init_dir : Option ℕ → Answers → Module → Loaded
init_dir (some n) env s = failed_with n (record s { bpfima_dir = error_ptr n })
init_dir none env s =
    let a = acquire main_dir s in init_status env.status env (record a { bpfima_dir = live })

-- `bpfima_securityfs_init`: where the directory exists (-17), another name is tried.
unfoldable pub securityfs_init : Option ℕ → Answers → Module → Loaded
securityfs_init none env s = init_dir none env s
securityfs_init (some n) env s =
    if n == 16 then init_dir env.unique_dir env s else init_dir (some n) env s
