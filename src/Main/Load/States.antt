-- ===== src/Main/Load/States.antt =====
-- The states that a load goes through, and the removals from each.
use bpfima.Base.{ℕ, ◌≡◌, refl, sym, ◌≢◌, List, [], ◌∷◌, pos}
use mathlib.Core.Path.{subst}
use bpfima.Main.{
  Resource, hash_tfm, cleanup_wq, root_tfm, main_dir, status, history, namespaces, policy,
  policy_map, policy_apply_file, policy_changes, Pointer, null, live, Module, Loaded, failed_with,
  remove_global_policy, undo_dir, undo_status, undo_history, undo_namespaces,
}

-- The state before the module is loaded.
abbrev pub unloaded : Module
unloaded = record {
  held = [];
  faults = 0;
  sha256_tfm = null;
  merkle_tfm = null;
  bpfima_dir = null;
  status_file = null;
  history_file = null;
  containers_dir = null;
  policy_file = null;
  map_file = null;
  apply_file = null;
  changes_file = null;
}

-- The state that a load leaves.
abbrev pub loaded : Module
loaded = record {
  held =
      policy_changes ∷ policy_apply_file ∷ policy_map ∷ policy ∷ namespaces ∷ history ∷ status
      ∷ main_dir ∷ root_tfm ∷ cleanup_wq ∷ hash_tfm ∷ [];
  faults = 0;
  sha256_tfm = live;
  merkle_tfm = live;
  bpfima_dir = live;
  status_file = live;
  history_file = live;
  containers_dir = live;
  policy_file = live;
  map_file = live;
  apply_file = live;
  changes_file = live;
}

-- What the files' part starts from, with the three resources before it.
abbrev pub before_files : Module
before_files = record unloaded {
  held = root_tfm ∷ cleanup_wq ∷ hash_tfm ∷ [];
  sha256_tfm = live;
  merkle_tfm = live;
}

abbrev pub three : List Resource
three = root_tfm ∷ cleanup_wq ∷ hash_tfm ∷ []

abbrev pub in_dir : Module
in_dir = record before_files { held = main_dir ∷ three; bpfima_dir = live }

abbrev pub with_status : Module
with_status = record in_dir { held = status ∷ main_dir ∷ three; status_file = live }

abbrev pub with_history : Module
with_history = record with_status {
  held = history ∷ status ∷ main_dir ∷ three;
  history_file = live;
}

abbrev pub with_namespaces : Module
with_namespaces = record with_history {
  held = namespaces ∷ history ∷ status ∷ main_dir ∷ three;
  containers_dir = live;
}

abbrev pub with_policy : Module
with_policy = record with_namespaces {
  held = policy_apply_file ∷ policy_map ∷ policy ∷ namespaces ∷ history ∷ status ∷ main_dir ∷ three;
  policy_file = live;
  map_file = live;
  apply_file = live;
}

-- The directory and its files are removed from the top of what is held.
pub undo_dir-top :
    (s : Module) (h : List Resource)
    → undo_dir (record s { held = main_dir ∷ h; bpfima_dir = live })
      ≡ record s { held = h; bpfima_dir = null }
unfolding undo_dir
undo_dir-top s h = refl

pub undo_status-top :
    (s : Module) (h : List Resource)
    → undo_status (record s { held = status ∷ main_dir ∷ h; bpfima_dir = live; status_file = live })
      ≡ record s { held = h; bpfima_dir = null; status_file = null }
unfolding undo_status
undo_status-top s h = undo_dir-top (record s { status_file = null }) h

pub undo_history-top :
    (s : Module) (h : List Resource)
    → undo_history (record s {
      held = history ∷ status ∷ main_dir ∷ h;
      bpfima_dir = live;
      status_file = live;
      history_file = live;
    })
      ≡ record s { held = h; bpfima_dir = null; status_file = null; history_file = null }
unfolding undo_history
undo_history-top s h = undo_status-top (record s { history_file = null }) h

pub undo_namespaces-top :
    (s : Module) (h : List Resource)
    → undo_namespaces (record s {
      held = namespaces ∷ history ∷ status ∷ main_dir ∷ h;
      bpfima_dir = live;
      status_file = live;
      history_file = live;
      containers_dir = live;
    })
      ≡ record s {
        held = h;
        bpfima_dir = null;
        status_file = null;
        history_file = null;
        containers_dir = null;
      }
unfolding undo_namespaces
undo_namespaces-top s h = undo_history-top (record s { containers_dir = null }) h

-- What is left where the files' part fails: the three resources before it.
pub record IsBefore (s : Module) : Type 0 where
  pub held : s.held ≡ three
  pub faults : s.faults ≡ 0
  pub merkle_tfm : s.merkle_tfm ≡ live
  pub sha256_tfm : s.sha256_tfm ≡ live

pub IsBefore-of_eq : (s t : Module) → s ≡ t → IsBefore t → IsBefore s
IsBefore-of_eq s t e b = subst IsBefore (sym e) b

-- What an outcome of the files' part leaves: the loaded module, or what was before.
pub record IsUndone (o : Loaded) : Type 0 where
  pub succeeded : o.ret ≡ pos 0 → o.state ≡ loaded
  pub failed : o.ret ≢ pos 0 → IsBefore o.state

pub failed_with-IsUndone : (n : ℕ) (s t : Module) → s ≡ t → IsBefore t → IsUndone (failed_with n s)
failed_with-IsUndone n s t e b = record {
  succeeded = λ h. absurd cc;
  failed = λ h. IsBefore-of_eq s t e b;
}

pub remove_global_policy-with_policy :
    (q : Pointer)
    → remove_global_policy (record with_policy { changes_file = q })
      ≡ record with_namespaces { changes_file = q }
unfolding remove_global_policy
remove_global_policy-with_policy q = refl
