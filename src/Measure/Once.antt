-- ===== src/Measure/Once.antt =====
-- What adding a measurement does, and that a digest is committed at most once for a container.
use bpfima.Base.{
  ◌<◌, ◌≡◌, refl, sym, ap, ◌∙◌, ◌≢◌, true, false, Option, some, ◌++◌, arith, length, take, take_all,
  Bytes, bytes_eq_refl, strscpy, pos,
}
use bpfima.Hash.{Kernel, HashEntry, hash_exists, matches}
use bpfima.Hash.Lookup.{hash_exists-publish_hash_entry}
use bpfima.Node.{Container, Measurement, create_measurement_entry, optional_text}
use bpfima.Merkle.{Merkle, commit_check, checked_error}
use bpfima.Merkle.Atomic.{Kept, commit_event-RollsBack}
use bpfima.Merkle.Commit.{Outcome, commit_measurement, publish_hash}
use bpfima.Merkle.Effect.{commit_measurement-Landed, hash_of, IsExtended, publish_leaf-IsExtended}
use bpfima.Measure.{AddEnv, add_checked, add_container_measurement}

-- The entry that is made of the arguments.
abbrev pub entry_of : Bytes → Option Bytes → Option Bytes → Bytes → Measurement
entry_of name event_data dependencies digest = record {
  event_name = strscpy 256 name;
  event_data = optional_text event_data;
  dependencies = optional_text dependencies;
  digest = digest;
}

-- What a call that adds the entry to `c` leaves: a digest that was new for the container, the
-- container extended by the entry, its new leaf hashed into the root, and the digest known.
pub record Adds (k : Kernel) (c : Container) (entry : Measurement) (m : Merkle) (o : Outcome)
    : Type 0 where
  pub new : hash_exists k m.hashes entry.digest (some c.id) ≡ false
  pub container :
      (after : Container) × (o.container ≡ some after)
      × IsExtended c entry (k.sha256 (c.leaf_hash ++ entry.digest)) after
  pub root_hash :
      o.merkle.root_hash ≡ k.sha256 (m.root_hash ++ k.sha256 (c.leaf_hash ++ entry.digest))
  pub known : hash_exists k o.merkle.hashes entry.digest (some c.id) ≡ true

module _ (k : Kernel) (env : AddEnv) (c : Container) where
  commit_measurement-Kept :
      (entry : Measurement) (m : Merkle)
      → (commit_measurement k env.commit (some c) (some entry) true m).ret ≢ pos 0
      → Kept m (commit_measurement k env.commit (some c) (some entry) true m).merkle
        × ((commit_measurement k env.commit (some c) (some entry) true m).container ≡ some c)
  unfolding commit_measurement
  commit_measurement-Kept entry m h =
      commit_event-RollsBack k env.commit (some c) (some entry) (some entry.digest) (some c.id) true
        m h

  add_checked-Kept :
      (name : Bytes) (event_data dependencies : Option Bytes) (digest : Bytes) (m : Merkle)
      → (add_checked k env c name event_data dependencies digest m).ret ≢ pos 0
      → Kept m (add_checked k env c name event_data dependencies digest m).merkle
        × ((add_checked k env c name event_data dependencies digest m).container ≡ some c)
  unfolding add_checked create_measurement_entry
  add_checked-Kept name event_data dependencies digest m h =
      ground (arith, commit_measurement-Kept (entry_of name event_data dependencies digest) m)

  add_checked-commit_measurement :
      (name : Bytes) (event_data dependencies : Option Bytes) (digest : Bytes) (m : Merkle)
      → (add_checked k env c name event_data dependencies digest m).ret ≡ pos 0
      → (hash_exists k m.hashes digest (some c.id) ≡ false)
        × (add_checked k env c name event_data dependencies digest m
            ≡ commit_measurement k env.commit
                (some c)
                (some (entry_of name event_data dependencies digest))
                true
                m)
  unfolding add_checked create_measurement_entry
  add_checked-commit_measurement name event_data dependencies digest m h = ground arith

  -- A call that does not return 0 leaves the container as it was, and of the globals only the
  -- error latch may differ; so does a call that returns 1 for a known digest.
  pub add_container_measurement-Kept :
      (name : Bytes) (event_data dependencies : Option Bytes) (digest : Bytes) (m : Merkle)
      → (add_container_measurement k env
          (some c)
          (some name)
          event_data
          dependencies
          (some digest)
          m).ret
        ≢ pos 0
      → Kept m
          (add_container_measurement k env
            (some c)
            (some name)
            event_data
            dependencies
            (some digest)
            m).merkle
        × ((add_container_measurement k env
              (some c)
              (some name)
              event_data
              dependencies
              (some digest)
              m).container
            ≡ some c)
  unfolding add_container_measurement commit_check
  add_container_measurement-Kept name event_data dependencies digest m h = ground (
    arith,
    add_checked-Kept name event_data dependencies digest
        (record m { commit_error = checked_error m env.available }),
  )

  add_container_measurement-add_checked :
      (name : Bytes) (event_data dependencies : Option Bytes) (digest : Bytes) (m : Merkle)
      → (add_container_measurement k env
          (some c)
          (some name)
          event_data
          dependencies
          (some digest)
          m).ret
        ≡ pos 0
      → add_container_measurement k env (some c) (some name) event_data dependencies (some digest) m
        ≡ add_checked k env c name event_data dependencies digest
            (record m { commit_error = checked_error m env.available })
  unfolding add_container_measurement commit_check
  add_container_measurement-add_checked name event_data dependencies digest m h = ground arith

  known_digest :
      (name : Bytes) (event_data dependencies : Option Bytes) (digest : Bytes) (m : Merkle)
      → hash_exists k m.hashes digest (some c.id) ≡ true
      → (add_container_measurement k env
          (some c)
          (some name)
          event_data
          dependencies
          (some digest)
          m).ret
        ≢ pos 0
  unfolding add_container_measurement commit_check add_checked
  known_digest name event_data dependencies digest m e = ground arith

  published_known :
      (entry : Measurement) (m : Merkle)
      → length c.id < 128
      → hash_exists k (publish_hash k (hash_of true c entry) m).hashes entry.digest (some c.id)
        ≡ true
  unfolding publish_hash
  published_known entry m h =
      let published : HashEntry = record {
        sha256_hash = entry.digest;
        namespace_id = strscpy 128 c.id;
      } in
      let fits : take 127 c.id ≡ c.id = take_all 127 c.id (omega (arith, h)) in
      let found : matches published entry.digest c.id ≡ true =
        unfold matches in rw (fits, bytes_eq_refl entry.digest, bytes_eq_refl c.id) refl in
      ground (arith, hash_exists-publish_hash_entry k m.hashes published entry.digest (some c.id))

  -- A call that returns 0, for a container whose id fits its array, has added the entry made of its
  -- arguments: the digest was new for the container; the entry stands behind those of the container,
  -- whose count is one more, in 32 bits, and whose leaf is hashed with the digest; its id, transform
  -- and references are as they were; the new leaf is hashed into the root; and the digest is known
  -- from then on.
  pub add_container_measurement-Adds :
      (name : Bytes) (event_data dependencies : Option Bytes) (digest : Bytes) (m : Merkle)
      → length c.id < 128
      → (add_container_measurement k env
          (some c)
          (some name)
          event_data
          dependencies
          (some digest)
          m).ret
        ≡ pos 0
      → Adds k c (entry_of name event_data dependencies digest) m (
          add_container_measurement k env
            (some c)
            (some name)
            event_data
            dependencies
            (some digest)
            m)
  add_container_measurement-Adds name event_data dependencies digest m fits h =
      let entry = entry_of name event_data dependencies digest in
      let checked = record m { commit_error = checked_error m env.available } in
      let e = add_container_measurement-add_checked name event_data dependencies digest m h in
      let (new, f) =
        add_checked-commit_measurement name event_data dependencies digest checked
          (ap (λ (o : Outcome). o.ret) (sym e) ∙ h) in
      let landed =
        commit_measurement-Landed k env.commit c entry true checked
          (ap (λ (o : Outcome). o.ret) (sym (e ∙ f)) ∙ h) in
      let here = e ∙ f in
      let (after, q, x) =
        publish_leaf-IsExtended c entry (k.sha256 (c.leaf_hash ++ entry.digest)) in
      record {
        new = new;
        container = (after, ap (λ (o : Outcome). o.container) here ∙ landed.container ∙ q, x);
        root_hash = ap (λ (o : Outcome). o.merkle.root_hash) here ∙ landed.root_hash;
        known =
            ap (λ (o : Outcome). hash_exists k o.merkle.hashes digest (some c.id)) here
            ∙ ap (λ t. hash_exists k t digest (some c.id)) landed.hashes
            ∙ published_known entry checked fits;
      }

-- Right behind a call that returned 0 for a container whose id fits its array, a call with the same
-- digest for a container of the same id does not return 0, whatever its other arguments are and
-- whatever the kernel answers to it.
pub add_container_measurement_once :
    (k : Kernel) (env next : AddEnv) (c d : Container) (name again : Bytes)
    (event_data dependencies more others : Option Bytes) (digest : Bytes) (m : Merkle)
    → length c.id < 128
    → d.id ≡ c.id
    → (add_container_measurement k env
        (some c)
        (some name)
        event_data
        dependencies
        (some digest)
        m).ret
      ≡ pos 0
    → (add_container_measurement k next
        (some d)
        (some again)
        more
        others
        (some digest)
        (add_container_measurement k env
          (some c)
          (some name)
          event_data
          dependencies
          (some digest)
          m).merkle).ret
      ≢ pos 0
add_container_measurement_once k env next c d name again event_data dependencies more others digest
      m fits same h =
    let adds =
      add_container_measurement-Adds k env c name event_data dependencies digest m fits h in
    let after =
      (add_container_measurement k env (some c) (some name) event_data dependencies (some digest)
        m).merkle in
    known_digest k next d again more others digest after
      (ap (λ i. hash_exists k after.hashes digest (some i)) same ∙ adds.known)
