-- ===== src/Policy/Manager/Staging.antt =====
-- Publication: the active state is not touched before the switch, and the switch makes the staged
-- one active.
use bpfima.Base.{
  ℕ, ◌+◌, ◌≡◌, refl, sym, ap, ◌≢◌, false, Option, none, some, map, arith, is_zero_iff_eq, Bytes,
  c_str, pos,
}
use bpfima.Base.Result.{Result, ok, err}
use bpfima.Hash.{Kernel}
use bpfima.Merkle.Atomic.{Kept, commit_event-RollsBack}
use bpfima.Merkle.Landed.{Landed}
use bpfima.Merkle.Effect.{commit_root-Landed, prepared_root}
use bpfima.Merkle.Commit.{commit_root}
use bpfima.Policy.Manager.Audit.{IsAudited, prepare_change-IsAudited}
use mathlib.Core.Path.{subst}
use bpfima.Policy.Types.{PolicyState}
use bpfima.Policy.Namespace.{PolicyNamespace}
use bpfima.Policy.Manager.{BpfMap, Manager, slot, stage, active_state, record_at}
use bpfima.Policy.Manager.Publish.{
  PublishEnv, PreparedChange, Published, snapshot_digest, chain, prepare_change, publish_change,
  publish_prepared, publish_policy, record_change, commit_env, commit_source,
}

-- What readers see of a map: its control entry and the slot that it selects.
pub record SameActive (a b : BpfMap) : Type 0 where
  pub control : b.control ≡ a.control
  pub active : active_state b ≡ active_state a

-- What a publication of `s` to `map` leaves if it fails.
pub record Unpublished (map : BpfMap) (s : Manager) (p : Published) : Type 0 where
  pub same_active : SameActive map p.map
  pub policy_map : p.manager.policy_map ≡ s.policy_map
  pub namespaces : p.manager.namespaces ≡ s.namespaces
  pub global_history : p.manager.global_history ≡ s.global_history
  pub merkle : Kept s.merkle p.manager.merkle

stage-SameActive :
    (map : BpfMap) (candidate : PolicyState)
    → candidate.generation ≡ map.control.generation + 1
    → SameActive map (stage map candidate)
unfolding stage active_state slot
stage-SameActive map candidate h = ground arith

active_state-stage :
    (map : BpfMap) (candidate : PolicyState)
    → candidate.generation ≡ map.control.generation + 1
    → active_state (record (stage map candidate) {
      control = record ((stage map candidate).control) { generation = candidate.generation };
    })
      ≡ some candidate
unfolding stage active_state slot
active_state-stage map candidate h = ground arith

module _ (k : Kernel) (env : PublishEnv) (map : BpfMap) where
  publish_change-Unpublished :
      (candidate : PolicyState) (id : Bytes) (p : PreparedChange) (s : Manager)
      → candidate.generation ≡ map.control.generation + 1
      → (publish_change k env map candidate id p s).ret ≢ pos 0
      → Unpublished map s (publish_change k env map candidate id p s)
  unfolding publish_change commit_root
  publish_change-Unpublished candidate id p s g h = ground (
    arith,
    stage-SameActive map candidate g,
    commit_event-RollsBack k (commit_env k env s) none none (some p.change.change_hash)
        (some (commit_source id)) false s.merkle,
  )

  publish_prepared-Unpublished :
      (candidate : PolicyState) (id : Bytes) (r : Result PreparedChange) (s : Manager)
      → candidate.generation ≡ map.control.generation + 1
      → (publish_prepared k env map candidate id r s).ret ≢ pos 0
      → Unpublished map s (publish_prepared k env map candidate id r s)
  unfolding publish_prepared
  publish_prepared-Unpublished candidate id (err e) s g h = ground arith
  publish_prepared-Unpublished candidate id (ok p) s g h =
      publish_change-Unpublished candidate id p s g h

  -- A publication that fails leaves the map's control entry and its active state as they were, and
  -- with them the audit lists and all that a commit keeps.
  pub publish_policy-Unpublished :
      (candidate : PolicyState) (index : ℕ) (metadata : Option PolicyNamespace) (s : Manager)
      → (publish_policy k env map candidate index metadata s).ret ≢ pos 0
      → Unpublished map s (publish_policy k env map candidate index metadata s)
  unfolding publish_policy
  publish_policy-Unpublished candidate index metadata s h =
      let next = record candidate { generation = map.control.generation + 1 } in
      ground (
        arith,
        publish_prepared-Unpublished next (c_str (record_at next index).namespace_id)
            (prepare_change k env next index metadata) s,
      )

  -- What a publication of `candidate` to `map` leaves if it returns 0: the next generation, in
  -- which the candidate is active, its change in the Merkle root and in the audit list.
  pub record IsPublished (candidate : PolicyState) (id : Bytes) (c : PreparedChange) (s : Manager)
      (p : Published) : Type 0 where
    pub generation : p.map.control.generation ≡ candidate.generation
    pub active : active_state p.map ≡ some candidate
    pub landed :
        Landed k
          (commit_env k env s)
          s.merkle
          (prepared_root c.change.change_hash (some (commit_source id)))
          (commit_root k
            (commit_env k env s)
            (some c.change.change_hash)
            (some (commit_source id))
            s.merkle)
    pub manager :
        p.manager
        ≡ record_change c (record s {
          merkle =
              (commit_root k
                (commit_env k env s)
                (some c.change.change_hash)
                (some (commit_source id))
                s.merkle).merkle;
        })

  publish_change-IsPublished :
      (candidate : PolicyState) (id : Bytes) (c : PreparedChange) (s : Manager)
      → candidate.generation ≡ map.control.generation + 1
      → (publish_change k env map candidate id c s).ret ≡ pos 0
      → IsPublished candidate id c s (publish_change k env map candidate id c s)
  unfolding publish_change
  publish_change-IsPublished candidate id c s g h =
      let o =
        commit_root k (commit_env k env s) (some c.change.change_hash) (some (commit_source id))
          s.merkle in
      let z : o.ret ≡ pos 0 = ground (arith, is_zero_iff_eq o.ret) in
      let landed =
        commit_root-Landed k (commit_env k env s) c.change.change_hash (some (commit_source id))
          s.merkle z in
      let active = active_state-stage map candidate g in
      record {
        generation = ground arith;
        active = ground (arith, active);
        landed = landed;
        manager = ground arith;
      }

  publish_prepared-IsPublished :
      (candidate : PolicyState) (id : Bytes) (r : Result PreparedChange) (s : Manager)
      → candidate.generation ≡ map.control.generation + 1
      → r ≢ err (pos 0)
      → (publish_prepared k env map candidate id r s).ret ≡ pos 0
      → (c : PreparedChange) × (r ≡ ok c)
        × IsPublished candidate id c s (publish_prepared k env map candidate id r s)
  unfolding publish_prepared
  publish_prepared-IsPublished candidate id (err e) s g n h = absurd (n (ap err h))
  publish_prepared-IsPublished candidate id (ok c) s g n h =
      (c, refl, publish_change-IsPublished candidate id c s g h)

  prepare_change-fails :
      (candidate : PolicyState) (index : ℕ) (metadata : Option PolicyNamespace)
      → prepare_change k env candidate index metadata ≢ err (pos 0)
  unfolding prepare_change snapshot_digest chain
  prepare_change-fails candidate index none h = ground arith
  prepare_change-fails candidate index (some m) h = ground arith

  -- the manager of a publication that returns 0
  published-IsAudited :
      (candidate : PolicyState) (index : ℕ) (metadata : Option PolicyNamespace) (id : Bytes)
      (c : PreparedChange) (s : Manager) (p : Published)
      → prepare_change k env candidate index metadata ≡ ok c
      → IsPublished candidate id c s p
      → IsAudited k metadata c.change s p.manager
  published-IsAudited candidate index metadata id c s p e q =
      let committed = record s {
        merkle =
            (commit_root k (commit_env k env s) (some c.change.change_hash)
              (some (commit_source id)) s.merkle).merkle;
      } in
      let a = prepare_change-IsAudited k env candidate index metadata c committed e in
      subst (IsAudited k metadata c.change s) (sym q.manager) (record {
        digest = a.digest;
        root = a.root;
        global = a.global;
        namespace = a.namespace;
        others = a.others;
      })

  published :
      (candidate : PolicyState) (index : ℕ) (metadata : Option PolicyNamespace) (s : Manager)
      → (publish_policy k env map candidate index metadata s).ret ≡ pos 0
      → let next = record candidate { generation = map.control.generation + 1 } in
        (c : PreparedChange) × (prepare_change k env next index metadata ≡ ok c)
        × IsPublished next
            (c_str (record_at next index).namespace_id)
            c
            s
            (publish_policy k env map candidate index metadata s)
  unfolding publish_policy
  published candidate index metadata s h =
      let next = record candidate { generation = map.control.generation + 1 } in
      ground (
        arith,
        publish_prepared-IsPublished next (c_str (record_at next index).namespace_id)
            (prepare_change k env next index metadata) s,
        prepare_change-fails next index metadata,
      )

  -- A publication that returns 0 has prepared a change, moved the map to the next generation, in
  -- which the candidate is the active state, and hashed the change's digest, the SHA-256 of its
  -- text, into the Merkle root. Without a namespace the change stands behind the root's others, and
  -- the namespaces are as they were. With one, the root's are as they were; the namespace's entry,
  -- if it has one, has the change behind its others, the text of the change, and the hash of its
  -- chain over the change's digest; and the entries of other ids are as they were.
  pub publish_policy-IsPublished :
      (candidate : PolicyState) (index : ℕ) (metadata : Option PolicyNamespace) (s : Manager)
      → (publish_policy k env map candidate index metadata s).ret ≡ pos 0
      → let next = record candidate { generation = map.control.generation + 1 } in
        (c : PreparedChange) × (prepare_change k env next index metadata ≡ ok c)
        × IsPublished next
            (c_str (record_at next index).namespace_id)
            c
            s
            (publish_policy k env map candidate index metadata s)
        × IsAudited k metadata c.change s
            (publish_policy k env map candidate index metadata s).manager
  publish_policy-IsPublished candidate index metadata s h =
      let next = record candidate { generation = map.control.generation + 1 } in
      let (c, e, q) = published candidate index metadata s h in
      let id = c_str (record_at next index).namespace_id in
      let p = publish_policy k env map candidate index metadata s in
      (c, e, q, published-IsAudited next index metadata id c s p e q)
