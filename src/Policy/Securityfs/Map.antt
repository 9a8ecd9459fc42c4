-- ===== src/Policy/Securityfs/Map.antt =====
-- The write to `policy_map` of src/policy_securityfs.c, as the other writes to the policy files: what
-- it can do to the policy that readers see.
use bpfima.Base.{
  ℕ, ◌≡◌, refl, ap, ◌≢◌, inl, inr, Bool, true, false, not, ◌&&◌, ◌||◌, Option, none, some, map,
  arith, leb, ◌==◌, if◌then◌else◌, Bool-cases, length, is_zero, eperm, enomem, efault, ebusy,
  einval, estale, ℤ, Bytes, has_nul, pos,
}
use bpfima.Hash.{Kernel}
use bpfima.Base.Result.{Result, ok, err}
use bpfima.Merkle.{Merkle, commit_check}
use bpfima.Merkle.Atomic.{Kept}
use bpfima.Policy.Types.{PolicyState}
use bpfima.Policy.Manager.{BpfMap, Manager, active_state, policy_generation}
use bpfima.Policy.Manager.Apply.{Applied}
use bpfima.Policy.Manager.Publish.{Published, publish_policy}
use bpfima.Policy.Manager.Bind.{
  BindEnv, Bound, bind_map, bind_existing, bind_published, initial_state, bind_blank, is_blank,
  unbound, bad_map,
}
use bpfima.Policy.Manager.Staging.{Unpublished, publish_policy-Unpublished}
use bpfima.Policy.Manager.Active.{
  IsBound, IsStep, effective, refused-IsStep, Kept-refl, commit_check-Kept,
}
use bpfima.Policy.Manager.First.{Binds, bind_blank-Binds, blank-generation}
use bpfima.Policy.Securityfs.{MapWritten, bind_fd, policy_map_write, map_text_size, if_zero_count}
use bpfima.Policy.Securityfs.Write.{Returns, IsWrite, refused-IsWrite, returning-IsWrite}

-- What a bind leaves of the module.
abbrev applied_of : Bound → Applied
applied_of b = record { ret = b.ret; manager = b.manager; sent = b.sent }

-- What a write to `policy_map` leaves of the module.
abbrev pub written_of : MapWritten → Applied
written_of w = record { ret = w.ret; manager = w.manager; sent = w.sent }

-- A failed first publication leaves the module's policy as it was.
bind_published-failed :
    (map : BpfMap) (s : Manager) (p : Published)
    → (p.ret ≢ pos 0 → Unpublished map s p)
    → (bind_published map p).ret ≢ pos 0
    → ((bind_published map p).manager.policy_map ≡ s.policy_map)
      × ((bind_published map p).manager.global_history ≡ s.global_history)
      × Kept s.merkle (bind_published map p).manager.merkle
unfolding bind_published
bind_published-failed map s p u h = elim (Bool-cases (is_zero p.ret)) [
  | inl z ↦ absurd (h (rw z refl))
  | inr nz ↦
      let f = u (λ q. ground (arith, q, nz)) in rw nz (f.policy_map, f.global_history, f.merkle)
]

module _ (k : Kernel) (env : BindEnv) where
  bind_blank-IsStep :
      (map : BpfMap) (s : Manager)
      → map.control.generation ≡ 0
      → s.policy_map ≡ none
      → IsStep s (applied_of (bind_blank k env map s))
  unfolding effective policy_generation bind_blank
  bind_blank-IsStep map s g e =
      let b : Binds s (bind_blank k env map s) = bind_blank-Binds k env map s g e in
      record {
        failed = λ h.
            let (m, history, kept) =
              bind_published-failed map s (publish_policy k env.publish map initial_state 0 none s)
                (publish_policy-Unpublished k env.publish map initial_state 0 none s) h in
            (
              ap
                  (λ o. elim o as (λ _. Option PolicyState) [
                    | none ↦ none
                    | some m ↦ active_state m
                  ])
                  m,
              history,
              kept,
            );
        succeeded = λ h.
            let (state, active, generation, _) = b.first e h in
            inr (state, active, rw e generation);
        bound = b.bound;
      }

  unbound-IsStep :
      (e : ℤ) (map : BpfMap) (s : Manager) (m : Merkle)
      → Kept s.merkle m
      → IsBound s.policy_map
      → IsStep s (applied_of (unbound e map (record s { merkle = m })))
  unbound-IsStep e map s m kept b = refused-IsStep e s m kept b

  if-applied :
      (s : Manager) (t : Bool) (x y : Bound)
      → IsStep s (applied_of x)
      → IsStep s (applied_of y)
      → IsStep s (applied_of (if t then x else y))
  if-applied s true x y p q = p
  if-applied s false x y p q = q

  bind_existing-IsStep :
      (o : Option BpfMap) (map : BpfMap) (s : Manager)
      → s.policy_map ≡ o
      → IsBound s.policy_map
      → IsStep s (applied_of (bind_existing k env o map s))
  unfolding bind_existing
  bind_existing-IsStep (some existing) map s e b =
      if-applied s (existing.id == map.id) _ _
        (unbound-IsStep (commit_check s.merkle env.available).0 map s
          (commit_check s.merkle env.available).1 (commit_check-Kept s.merkle env.available) b)
        (unbound-IsStep ebusy map s s.merkle (Kept-refl s.merkle) b)
  bind_existing-IsStep none map s e b =
      elim (is_blank map.control)
          as (λ t.
            is_blank map.control ≡ t
            → IsStep s (
                applied_of (
                  if t && is_blank map.even_state && is_blank map.odd_state
                  then bind_blank k env map s
                  else unbound estale map s))) [
                    | true ↦ λ h.
                        if-applied s (is_blank map.even_state && is_blank map.odd_state) _ _
                          (bind_blank-IsStep map s (blank-generation map.control h) e)
                          (unbound-IsStep estale map s s.merkle (Kept-refl s.merkle) b)
                    | false ↦ λ h. unbound-IsStep estale map s s.merkle (Kept-refl s.merkle) b
                  ]
        refl

  bind_map-IsStep :
      (map : BpfMap) (s : Manager)
      → IsBound s.policy_map
      → IsStep s (applied_of (bind_map k env map s))
  unfolding bind_map
  bind_map-IsStep map s b =
      let no = λ (e : ℤ). unbound-IsStep e map s s.merkle (Kept-refl s.merkle) b in
      if-applied s (bad_map map) _ _ (no einval) (
        if-applied s (not map.frozen) _ _ (no eperm) (
          if-applied s (not (map.writecnt == 0)) _ _ (no ebusy) (
            if-applied s (not env.initial_allocated) _ _ (no enomem)
              (bind_existing-IsStep s.policy_map map s refl b))))

module _ (kstrtou32 : ℕ → Bytes → Result ℕ) (k : Kernel) (map_get : ℕ → Result BpfMap) where
  bind_fd-IsStep :
      (env : BindEnv) (fd : ℕ) (s : Manager)
      → IsBound s.policy_map
      → IsStep s (written_of (bind_fd kstrtou32 k map_get env fd s))
  unfolding bind_fd
  bind_fd-IsStep env fd s b =
      elim (map_get fd)
        as (λ r. IsStep s (
          written_of (elim r as (λ _. MapWritten) [
            | err e ↦ record { ret = e; manager = s; map = none; sent = none }
            | ok map ↦
                let b = bind_map k env map s in
                record { ret = b.ret; manager = b.manager; map = some b.map; sent = b.sent }
          ]))) [
            | err e ↦ refused-IsStep e s s.merkle (Kept-refl s.merkle) b
            | ok map ↦ bind_map-IsStep k env map s b
          ]

  if-written :
      (P : Option Applied → Type 0) (t : Bool) (x y : MapWritten)
      → P (some (written_of x))
      → P (some (written_of y))
      → P (some (written_of (if t then x else y)))
  if-written P true x y p q = p
  if-written P false x y p q = q

  pub policy_map_write-IsWrite :
      (capable copied : Bool) (env : BindEnv) (text : Bytes) (s : Manager)
      → IsBound s.policy_map
      → Returns
          (IsWrite s (length text))
          (some (written_of (policy_map_write kstrtou32 k map_get capable copied env text s)))
  unfolding policy_map_write
  policy_map_write-IsWrite capable copied env text s b =
      let no = λ (e : ℤ). refused-IsWrite e s (length text) b in
      let P = Returns (IsWrite s (length text)) in
      if-written P (not capable) _ _ (no eperm) (
        if-written P ((length text == 0) || leb map_text_size (length text)) _ _ (no einval) (
          if-written P (not copied) _ _ (no efault) (
            if-written P (has_nul text) _ _ (no einval)
              (elim (kstrtou32 0 text)
                as (λ r. P (
                  some (
                    written_of (elim r as (λ _. MapWritten) [
                      | err e ↦ record { ret = e; manager = s; map = none; sent = none }
                      | ok fd ↦
                          let b = bind_fd kstrtou32 k map_get env fd s in
                          record b { ret = if_zero_count (length text) b.ret }
                    ])))) [
                      | err e ↦ no e
                      | ok fd ↦
                          returning-IsWrite (if_zero_count (length text)) s (length text)
                            (some (written_of (bind_fd kstrtou32 k map_get env fd s))) refl
                            (
                              written_of (bind_fd kstrtou32 k map_get env fd s),
                              refl,
                              bind_fd-IsStep env fd s b,
                            )
                    ]))))
