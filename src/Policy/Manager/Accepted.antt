-- ===== src/Policy/Manager/Accepted.antt =====
-- Which requests are accepted.
use bpfima.Base.{
  ℕ, zero, suc, ◌≡◌, refl, ap, ◌≢◌, Bool, true, false, List, [], ◌∷◌, map, arith, if◌then◌else◌,
  eagain, enomem, is_zero_iff_eq, ℤ, Bytes, c_str, pos, negsuc,
}
use bpfima.Base.Result.{Result, ok, err}
use bpfima.Hash.{Kernel}
use bpfima.Policy.Types.{PatternEntry, HookConfig, Snapshot, PolicyState, PolicyRequest}
use bpfima.Policy.Snapshot.{
  normalize_snapshot, normalize_patterns, normalize_hooks, validate_extension,
}
use bpfima.Policy.Manager.{BpfMap, Manager, record_at}
use bpfima.Policy.Manager.Apply.{
  ApplyEnv, Applied, refused, select_record, apply_snapshot, apply_active,
}

normalize_patterns-fails : (es : List PatternEntry) → normalize_patterns es ≢ err (pos 0)
unfolding normalize_patterns
normalize_patterns-fails [] h = cc
normalize_patterns-fails (e ∷ es) h = ground (arith, normalize_patterns-fails es)

normalize_hooks-fails : (hs : List HookConfig) → normalize_hooks hs ≢ err (pos 0)
unfolding normalize_hooks
normalize_hooks-fails [] h = cc
normalize_hooks-fails (e ∷ es) h = ground (arith, normalize_hooks-fails es)

normalize_snapshot-fails : (s : Snapshot) → normalize_snapshot s ≢ err (pos 0)
unfolding normalize_snapshot
normalize_snapshot-fails s h = ground (
  arith,
  normalize_patterns-fails s.cgroups,
  normalize_patterns-fails s.paths,
  normalize_hooks-fails s.hooks,
)

-- What an accepted request is: one that names a record, a snapshot that can be normalised, and for
-- a namespace one that the root's configuration allows.
pub record IsAccepted (active : PolicyState) (request : PolicyRequest) : Type 0 where
  pub index : ℕ
  pub candidate : PolicyState
  pub snapshot : Snapshot
  pub selected : select_record active (c_str request.body.namespace_id) ≡ ok (index, candidate)
  pub normal : normalize_snapshot request.body.snapshot ≡ ok snapshot
  pub allowed : index ≢ 0 → validate_extension (record_at candidate 0).snapshot snapshot ≡ pos 0

select_record-fails : (active : PolicyState) (id : Bytes) → select_record active id ≢ err (pos 0)
unfolding select_record
select_record-fails active id h = ground arith

negsuc-ne_zero : (n : ℕ) → negsuc n ≢ pos 0
negsuc-ne_zero n h = cc

result-ret {ℓ} :
    {A : Type ℓ} (r : Result A) (f : A → Applied) (s : Manager)
    → r ≢ err (pos 0)
    → (elim r as (λ _. Applied) [ ok a ↦ f a | err e ↦ refused e s ]).ret ≡ pos 0
    → (a : A) × (r ≡ ok a) × ((f a).ret ≡ pos 0)
result-ret (ok a) f s n h = (a, refl, h)
result-ret (err e) f s n h = absurd (n (ap err h))

if-ret :
    (b : Bool) (e : ℤ) (s : Manager) (y : Applied)
    → e ≢ pos 0
    → (if b then refused e s else y).ret ≡ pos 0
    → y.ret ≡ pos 0
if-ret true e s y n h = absurd (n h)
if-ret false e s y n h = h

module _ (k : Kernel) (env : ApplyEnv) where
  apply_snapshot-allowed :
      (map : BpfMap) (active candidate : PolicyState) (index : ℕ) (id : Bytes) (snapshot : Snapshot)
      (s : Manager)
      → (apply_snapshot k env map active candidate index id snapshot s).ret ≡ pos 0
      → index ≢ 0
      → validate_extension (record_at candidate 0).snapshot snapshot ≡ pos 0
  unfolding apply_snapshot
  apply_snapshot-allowed map active candidate zero id snapshot s h n = absurd (n refl)
  apply_snapshot-allowed map active candidate (suc i) id snapshot s h n =
      let verdict = validate_extension (record_at candidate 0).snapshot snapshot in
      ground (arith, is_zero_iff_eq verdict)

  -- A request that returns 0 against an active state selects a record of it, or a new one, has a
  -- snapshot that can be normalised, and, for a namespace, one that the root's configuration allows.
  pub apply_active-IsAccepted :
      (request : PolicyRequest) (map : BpfMap) (active : PolicyState) (s : Manager)
      → (apply_active k env request map active s).ret ≡ pos 0
      → IsAccepted active request
  unfolding apply_active
  apply_active-IsAccepted request map active s h =
      let id = c_str request.body.namespace_id in
      let h1 = if-ret _ eagain s _ (negsuc-ne_zero 10) h in
      let h2 = if-ret _ enomem s _ (negsuc-ne_zero 11) h1 in
      let (chosen, e, h3) =
        result-ret (select_record active id) _ s (select_record-fails active id) h2 in
      let (snapshot, n, h4) =
        result-ret (normalize_snapshot request.body.snapshot) _ s
          (normalize_snapshot-fails request.body.snapshot) h3 in
      record {
        index = chosen.0;
        candidate = chosen.1;
        snapshot = snapshot;
        selected = e;
        normal = n;
        allowed = apply_snapshot-allowed map active chosen.1 chosen.0 id snapshot s h4;
      }
