-- ===== src/Policy/Manager/First.antt =====
-- What a bind leaves: the default policy in generation 1, or the module as it was.
use bpfima.Base.{
  ◌+◌, ◌≡◌, refl, sym, ◌∙◌, ◌≢◌, Bool, true, false, not, ◌&&◌, Option, none, some, map, arith, ◌==◌,
  if◌then◌else◌, is_zero, eperm, enomem, ebusy, einval, estale, is_zero_iff_eq, ℤ, pos,
}
use bpfima.Hash.{Kernel}
use bpfima.Merkle.{Merkle, commit_check}
use bpfima.Policy.Types.{PolicyState}
use bpfima.Policy.Config.{default_snapshot}
use bpfima.Policy.Manager.{BpfMap, Manager, active_state, record_at}
use bpfima.Policy.Manager.Publish.{Published, publish_policy}
use bpfima.Policy.Manager.Bind.{
  BindEnv, Bound, bind_map, bind_existing, bind_published, initial_state, bind_blank, zero_state,
  is_blank, unbound, bad_map,
}
use bpfima.Policy.Manager.Staging.{publish_policy-IsPublished, publish_policy-Unpublished}
use bpfima.Policy.Manager.Active.{IsBound, IsSized, effective}

-- What a bind of a module `s` leaves.
pub record Binds (s : Manager) (b : Bound) : Type 0 where
  pub bound : IsBound b.manager.policy_map
  pub failed : b.ret ≢ pos 0 → b.manager.policy_map ≡ s.policy_map
  pub first :
      s.policy_map ≡ none
      → b.ret ≡ pos 0
      → (state : PolicyState) × (effective b.manager ≡ some state)
        × (state.generation ≡ 1)
        × ((record_at state 0).snapshot ≡ default_snapshot)

pub blank-generation : (state : PolicyState) → is_blank state ≡ true → state.generation ≡ 0
unfolding is_blank
blank-generation state h = ground arith

unbound-Binds :
    (e : ℤ) (map : BpfMap) (s : Manager) (m : Merkle)
    → e ≢ pos 0
    → IsBound s.policy_map
    → Binds s (unbound e map (record s { merkle = m }))
unbound-Binds e map s m n b = record { bound = b; failed = λ h. refl; first = λ h z. absurd (n z) }

if-Binds :
    (s : Manager) (b : Bool) (x y : Bound) → Binds s x → Binds s y → Binds s (if b then x else y)
if-Binds s true x y p q = p
if-Binds s false x y p q = q

none-ne_some : {m : BpfMap} → ◌≢◌ {A = Option BpfMap} none (some m)
none-ne_some h = cc

bind_published-Binds :
    (map : BpfMap) (s : Manager) (p : Published) (state : PolicyState)
    → s.policy_map ≡ none
    → (p.ret ≢ pos 0 → p.manager.policy_map ≡ s.policy_map)
    → (p.ret ≡ pos 0
        → (active_state p.map ≡ some state) × (p.map.control.generation ≡ state.generation))
    → state.generation ≡ 1
    → IsSized state
    → (record_at state 0).snapshot ≡ default_snapshot
    → Binds s (bind_published map p)
unfolding bind_published effective
bind_published-Binds map s p state e f r g z d =
    elim (is_zero p.ret)
        as (λ b.
          is_zero p.ret ≡ b
          → Binds s (
              if b
              then record {
                ret = pos 0;
                manager = record (p.manager) { policy_map = some p.map };
                map = p.map;
                sent = p.sent;
              }
              else record {
                ret = p.ret;
                manager = p.manager;
                map = record map {
                  control = zero_state;
                  even_state = zero_state;
                  odd_state = zero_state;
                };
                sent = p.sent;
              })) [
                | true ↦ λ h.
                    let (active, generation) = r (is_zero_iff_eq p.ret h) in
                    record {
                      bound = (
                        state,
                        record {
                          active = active;
                          generation = sym generation;
                          published = ground (arith, generation, g);
                          sized = z;
                        },
                      );
                      failed = λ n. absurd (n refl);
                      first = λ _ _. (state, active, g, d);
                    }
                | false ↦ λ h.
                    let no : p.ret ≢ pos 0 = λ q. ground (arith, q) in
                    record {
                      bound = rw (f no ∙ e) tt;
                      failed = λ _. f no;
                      first = λ _ q. absurd (no q);
                    }
              ]
      refl

module _ (k : Kernel) (env : BindEnv) where
  pub bind_blank-Binds :
      (map : BpfMap) (s : Manager)
      → map.control.generation ≡ 0
      → s.policy_map ≡ none
      → Binds s (bind_blank k env map s)
  unfolding bind_blank
  bind_blank-Binds map s g e =
      bind_published-Binds map s (publish_policy k env.publish map initial_state 0 none s)
        (record initial_state { generation = map.control.generation + 1 }) e
        (λ n. (publish_policy-Unpublished k env.publish map initial_state 0 none s n).policy_map)
        (λ h.
          let (c, _, q, _) =
            publish_policy-IsPublished k env.publish map initial_state 0 none s h in
          (q.active, q.generation))
        (omega (arith, g)) (record { namespace_count = omega arith; records = refl }) refl

  bind_existing-Binds :
      (m : Option BpfMap) (map : BpfMap) (s : Manager)
      → s.policy_map ≡ m
      → IsBound s.policy_map
      → Binds s (bind_existing k env m map s)
  unfolding bind_existing
  bind_existing-Binds (some existing) map s e b =
      let checked = (commit_check s.merkle env.available).1 in
      if-Binds s (existing.id == map.id) _ _
        (record { bound = b; failed = λ h. refl; first = λ n _. absurd (none-ne_some (sym n ∙ e)) })
        (unbound-Binds ebusy map s s.merkle (λ h. cc) b)
  bind_existing-Binds none map s e b =
      elim (is_blank map.control)
          as (λ t.
            is_blank map.control ≡ t
            → Binds s (
                if t && is_blank map.even_state && is_blank map.odd_state
                then bind_blank k env map s
                else unbound estale map s)) [
                  | true ↦ λ h.
                      if-Binds s (is_blank map.even_state && is_blank map.odd_state) _ _
                        (bind_blank-Binds map s (blank-generation map.control h) e)
                        (unbound-Binds estale map s s.merkle (λ h. cc) b)
                  | false ↦ λ h. unbound-Binds estale map s s.merkle (λ h. cc) b
                ]
        refl

  -- A bind keeps the bound map well-formed. If it fails, the map that was bound is still bound, and
  -- none if none was; the first bind that returns 0 makes the default policy the active one, in
  -- generation 1.
  pub bind_map-Binds :
      (map : BpfMap) (s : Manager) → IsBound s.policy_map → Binds s (bind_map k env map s)
  unfolding bind_map
  bind_map-Binds map s b =
      if-Binds s (bad_map map) _ _ (unbound-Binds einval map s s.merkle (λ h. cc) b) (
        if-Binds s (not map.frozen) _ _ (unbound-Binds eperm map s s.merkle (λ h. cc) b) (
          if-Binds s (not (map.writecnt == 0)) _ _ (unbound-Binds ebusy map s s.merkle (λ h. cc) b)
            (if-Binds s (not env.initial_allocated) _ _
              (unbound-Binds enomem map s s.merkle (λ h. cc) b)
              (bind_existing-Binds s.policy_map map s refl b))))
