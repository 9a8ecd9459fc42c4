-- ===== src/Policy/Manager/Active.antt =====
-- The policy that readers see, the well-formed map, and the steps that a request may take.
use bpfima.Base.{
  ◌+◌, ◌≤◌, ◌≡◌, refl, sym, ap, ◌∙◌, ◌≢◌, ◌⊎◌, inl, inr, Bool, true, false, Option, none, some,
  List, map, arith, if◌then◌else◌, length, is_zero, is_zero_iff_eq, ℤ, pos,
}
use bpfima.Base.Result.{Result, ok, err}
use bpfima.Merkle.{Merkle, commit_check}
use bpfima.Merkle.Atomic.{Kept}
use bpfima.Policy.Types.{PolicyState, policy_namespaces}
use bpfima.Policy.Namespace.{PolicyNamespace}
use bpfima.Policy.Manager.{BpfMap, Manager, active_state, policy_generation}
use bpfima.Policy.Manager.Publish.{Published, PreparedChange, record_change}
use bpfima.Policy.Manager.Apply.{Applied, refused, released}
use bpfima.Policy.Manager.Staging.{Unpublished}

-- The state that readers see.
unfoldable pub effective : Manager → Option PolicyState
effective s = elim s.policy_map [ none ↦ none | some map ↦ active_state map ]

-- The shape of a state: the root's record and 32 for namespaces, of which `namespace_count` are
-- taken.
pub record IsSized (state : PolicyState) : Type 0 where
  pub namespace_count : state.namespace_count ≤ policy_namespaces
  pub records : length state.records ≡ policy_namespaces + 1

-- A bound map has a published state, which carries the control entry's generation.
pub record IsActive (map : BpfMap) (state : PolicyState) : Type 0 where
  pub active : active_state map ≡ some state
  pub generation : state.generation ≡ map.control.generation
  pub published : map.control.generation ≢ 0
  pub sized : IsSized state

abbrev pub IsBound : Option BpfMap → Type 0
IsBound none = Unit
IsBound (some map) = (state : PolicyState) × IsActive map state

-- What a request on `s` leaves: if it fails, the policy that it found and, but for the error
-- latch, the globals that it found; if it returns 0, either the policy that it found, or the one
-- of the next generation.
pub record IsStep (s : Manager) (o : Applied) : Type 0 where
  pub failed :
      o.ret ≢ pos 0
      → (effective o.manager ≡ effective s)
        × (o.manager.global_history ≡ s.global_history)
        × Kept s.merkle o.manager.merkle
  pub succeeded :
      o.ret ≡ pos 0
      → (effective o.manager ≡ effective s)
        ⊎ ((next : PolicyState) × (effective o.manager ≡ some next)
            × (next.generation ≡ policy_generation s.policy_map + 1))
  pub bound : IsBound o.manager.policy_map

pub record_change-policy_map :
    (c : PreparedChange) (s : Manager) → (record_change c s).policy_map ≡ s.policy_map
unfolding record_change
record_change-policy_map c s = ground arith

pub commit_check-Kept : (m : Merkle) (available : Bool) → Kept m (commit_check m available).1
unfolding commit_check
commit_check-Kept m available = ground arith

pub refused-IsStep :
    (e : ℤ) (s : Manager) (m : Merkle)
    → Kept s.merkle m
    → IsBound s.policy_map
    → IsStep s (refused e (record s { merkle = m }))
unfolding effective
refused-IsStep e s m kept b = record {
  failed = λ h. (refl, refl, kept);
  succeeded = λ h. inl refl;
  bound = b;
}

pub Kept-refl : (m : Merkle) → Kept m m
Kept-refl m = ground arith

-- What a publication that returns 0 leaves for the readers.
pub record Releases (map : BpfMap) (next : PolicyState) (p : Published) : Type 0 where
  pub generation : p.map.control.generation ≡ map.control.generation + 1
  pub next_generation : next.generation ≡ map.control.generation + 1
  pub active : active_state p.map ≡ some next
  pub sized : IsSized next

pub released-IsStep :
    (map : BpfMap) (active next : PolicyState) (s : Manager) (p : Published)
    → s.policy_map ≡ some map
    → IsActive map active
    → (p.ret ≢ pos 0 → Unpublished map s p)
    → (p.ret ≡ pos 0 → Releases map next p)
    → IsStep s (released p)
unfolding effective policy_generation
released-IsStep map active next s p m a f r = record {
  failed = λ h. let u = f h in (u.same_active.active ∙ sym (seen m), u.global_history, u.merkle);
  succeeded = λ h. inr (next, (r h).active, (r h).next_generation ∙ sym (ap (λ g. g + 1) (gen m)));
  bound =
      elim (is_zero p.ret) as (λ b. is_zero p.ret ≡ b → IsBound (some p.map)) [
        | true ↦ λ z.
            let q = r (is_zero_iff_eq p.ret z) in
            (
              next,
              record {
                active = q.active;
                generation = q.next_generation ∙ sym q.generation;
                published = ground (arith, q.generation);
                sized = q.sized;
              },
            )
        | false ↦ λ z.
            let u = f (λ e. ground (arith, e)) in
            (
              active,
              record {
                active = u.same_active.active ∙ a.active;
                generation =
                    a.generation
                    ∙ sym (ap (λ (c : PolicyState). c.generation) u.same_active.control);
                published = ground (arith, u.same_active.control, a.published);
                sized = a.sized;
              },
            )
      ]
        refl;
}
  where
    seen : s.policy_map ≡ some map → effective s ≡ active_state map
    seen e = rw e refl

    gen : s.policy_map ≡ some map → policy_generation s.policy_map ≡ map.control.generation
    gen e = rw e refl

module _ {ℓ} {A : Type ℓ} (s : Manager) where
  pub result-IsStep :
      (r : Result A) (f : A → Applied) (g : ℤ → Applied)
      → ((a : A) → r ≡ ok a → IsStep s (f a))
      → ((e : ℤ) → IsStep s (g e))
      → IsStep s (elim r as (λ _. Applied) [ ok a ↦ f a | err e ↦ g e ])
  result-IsStep (ok a) f g p q = p a refl
  result-IsStep (err e) f g p q = q e

pub if-IsStep :
    (s : Manager) (b : Bool) (x y : Applied)
    → IsStep s x
    → IsStep s y
    → IsStep s (if b then x else y)
if-IsStep s true x y p q = p
if-IsStep s false x y p q = q

pub if-returns :
    (s : Manager) (b : Bool) (x : Applied) (y : Option Applied)
    → IsStep s x
    → (o : Applied) × (y ≡ some o) × IsStep s o
    → (o : Applied) × ((if b then some x else y) ≡ some o) × IsStep s o
if-returns s true x y p q = (x, refl, p)
if-returns s false x y p q = q

pub Kept-IsStep :
    (s : Manager) (m : Merkle) (o : Applied)
    → Kept s.merkle m
    → IsStep (record s { merkle = m }) o
    → IsStep s o
unfolding effective
Kept-IsStep s m o kept t = record {
  failed = λ h.
      let (active, history, after) = t.failed h in (active, history, ground (arith, kept, after));
  succeeded = t.succeeded;
  bound = t.bound;
}

pub namespaces-IsStep :
    (s : Manager) (list : List PolicyNamespace) (o : Applied)
    → IsStep (record s { namespaces = list }) o
    → IsStep s o
unfolding effective
namespaces-IsStep s list o t = record {
  failed = t.failed;
  succeeded = t.succeeded;
  bound = t.bound;
}
