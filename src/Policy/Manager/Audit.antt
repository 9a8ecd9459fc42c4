-- ===== src/Policy/Manager/Audit.antt =====
-- What `publish_policy_locked` of src/policy_manager.c puts into the audit lists.
use bpfima.Base.{
  ℕ, ◌≡◌, refl, true, false, Option, none, some, List, [], ◌∷◌, ◌++◌, arith, is_some, take, Bytes,
  bytes_eq, bytes_eq-eq,
}
use bpfima.Hash.{Kernel, calculate_sha256_hash}
use bpfima.Base.Result.{ok}
use bpfima.Policy.Types.{PolicyState}
use bpfima.Policy.Namespace.{PolicyChange, PolicyNamespace, find_policy_namespace, update_namespace}
use bpfima.Policy.Manager.{Manager}
use bpfima.Policy.Manager.Publish.{
  PublishEnv, PreparedChange, prepare_change, snapshot_digest, chain, record_change,
}

-- The entry of a namespace behind a change, with the hash that its chain leads to.
abbrev pub changed : PolicyChange → Bytes → PolicyNamespace → PolicyNamespace
changed change next e = record e {
  changes_str = take 1023 change.policy_string;
  changes_hash = next;
  change_history = e.change_history ++ change ∷ [];
}

-- What a change leaves in the audit lists: behind the other changes of the root, or of the
-- namespace that it is for, whose chain is hashed with it. The other lists are as they were.
pub record IsAudited (k : Kernel) (metadata : Option PolicyNamespace) (change : PolicyChange)
    (s t : Manager) : Type 0 where
  pub digest : change.change_hash ≡ k.sha256 change.policy_string
  pub root :
      metadata ≡ none
      → (t.global_history ≡ s.global_history ++ change ∷ []) × (t.namespaces ≡ s.namespaces)
  pub global : is_some metadata ≡ true → t.global_history ≡ s.global_history
  pub namespace :
      (m e : PolicyNamespace)
      → metadata ≡ some m
      → find_policy_namespace s.namespaces m.namespace_id ≡ some e
      → find_policy_namespace t.namespaces m.namespace_id
        ≡ some (changed change (k.sha256 (m.changes_hash ++ change.change_hash)) e)
  pub others :
      (m : PolicyNamespace) (id : Bytes)
      → metadata ≡ some m
      → bytes_eq m.namespace_id id ≡ false
      → find_policy_namespace t.namespaces id ≡ find_policy_namespace s.namespaces id

update_namespace-same :
    (id next : Bytes) (change : PolicyChange) (list : List PolicyNamespace) (e : PolicyNamespace)
    → find_policy_namespace list id ≡ some e
    → find_policy_namespace (update_namespace id (changed change next) list) id
      ≡ some (changed change next e)
unfolding find_policy_namespace update_namespace
update_namespace-same id next change [] e h = absurd cc
update_namespace-same id next change (x ∷ xs) e h =
    ground (arith, update_namespace-same id next change xs e)

update_namespace-other :
    (id other next : Bytes) (change : PolicyChange) (list : List PolicyNamespace)
    → bytes_eq id other ≡ false
    → find_policy_namespace (update_namespace id (changed change next) list) other
      ≡ find_policy_namespace list other
unfolding find_policy_namespace update_namespace
update_namespace-other id other next change [] h = refl
update_namespace-other id other next change (x ∷ xs) h =
    ground (arith, bytes_eq-eq x.namespace_id id, update_namespace-other id other next change xs h)

module _ (k : Kernel) (env : PublishEnv) where
  -- What a preparation that does not fail has computed.
  pub record IsPrepared (metadata : Option PolicyNamespace) (c : PreparedChange) : Type 0 where
    pub digest : c.change.change_hash ≡ k.sha256 c.change.policy_string
    pub unchained : metadata ≡ none → c.chained ≡ none
    pub chained :
        (m : PolicyNamespace)
        → metadata ≡ some m
        → c.chained ≡ some (m, k.sha256 (m.changes_hash ++ c.change.change_hash))

  prepare_change-IsPrepared :
      (candidate : PolicyState) (index : ℕ) (metadata : Option PolicyNamespace) (c : PreparedChange)
      → prepare_change k env candidate index metadata ≡ ok c
      → IsPrepared metadata c
  unfolding prepare_change snapshot_digest chain calculate_sha256_hash
  prepare_change-IsPrepared candidate index none c h = record {
    digest = ground arith;
    unchained = λ e. ground arith;
    chained = λ m e. absurd cc;
  }
  prepare_change-IsPrepared candidate index (some x) c h = record {
    digest = ground arith;
    unchained = λ e. absurd cc;
    chained = λ m e. ground arith;
  }

  record_change-IsAudited :
      (metadata : Option PolicyNamespace) (c : PreparedChange) (s : Manager)
      → IsPrepared metadata c
      → IsAudited k metadata c.change s (record_change c s)
  unfolding record_change
  record_change-IsAudited none c s p = rw (p.unchained refl) (record {
    digest = p.digest;
    root = λ e. (refl, refl);
    global = λ e. absurd cc;
    namespace = λ m e q h. absurd cc;
    others = λ m id q h. absurd cc;
  })
  record_change-IsAudited (some x) c s p = record {
    digest = p.digest;
    root = λ e. absurd cc;
    global = λ e. rw (p.chained x refl) refl;
    namespace = λ m e q h. ground (
      arith,
      p.chained m q,
      update_namespace-same m.namespace_id (k.sha256 (m.changes_hash ++ c.change.change_hash))
          c.change s.namespaces e h,
    );
    others = λ m id q h. ground (
      arith,
      p.chained m q,
      update_namespace-other m.namespace_id id (k.sha256 (m.changes_hash ++ c.change.change_hash))
          c.change s.namespaces h,
    );
  }

  -- The change of a preparation on its way into the lists.
  pub prepare_change-IsAudited :
      (candidate : PolicyState) (index : ℕ) (metadata : Option PolicyNamespace) (c : PreparedChange)
      (s : Manager)
      → prepare_change k env candidate index metadata ≡ ok c
      → IsAudited k metadata c.change s (record_change c s)
  prepare_change-IsAudited candidate index metadata c s h =
      record_change-IsAudited metadata c s (prepare_change-IsPrepared candidate index metadata c h)
