-- ===== src/Containers/Balanced.antt =====
-- The references that the container kfuncs take and put back.
use bpfima.Base.{
  ℕ, ◌+◌, ◌-◌, ◌≡◌, refl, ap, Bool, true, false, not, ◌||◌, Option, none, some, List, [], ◌∷◌,
  arith, ◌==◌, if◌then◌else◌, enoent, einval, ℤ, Bytes, pos,
}
use bpfima.Base.Result.{ok, err}
use bpfima.Kfunc.{kfunc_id}
use bpfima.Hash.{merkle_hash_size}
use bpfima.Node.{Container}
use bpfima.Containers.{
  is_live, first_live, update_container, acquired, put_back, find_container, put_container,
}
use bpfima.Containers.Kfuncs.{
  Looked, looked, with_container, container_exists, container_get_measurement_count,
  container_get_leaf_hash,
}

acquired-is_live :
    (id : Bytes) (c : Container) → is_live id c ≡ true → is_live id (acquired c) ≡ true
unfolding is_live
acquired-is_live id c h = ground arith

put_back-acquired : (c : Container) → put_back (acquired c) ≡ c
put_back-acquired c = ap (λ n. record c { refcnt = n }) {x = c.refcnt + 1 - 1} (omega arith)

-- A reference that is taken and put back leaves the list as it was.
pub put_container-acquired :
    (cs : List Container) (id : Bytes) → put_container (update_container id acquired cs) id ≡ cs
unfolding put_container update_container
put_container-acquired [] id = refl
put_container-acquired (c ∷ cs) id =
    elim (is_live id c)
        as (λ b.
          is_live id c ≡ b
          → update_container id put_back
              (if b then acquired c ∷ cs else c ∷ update_container id acquired cs)
            ≡ c ∷ cs) [
              | true ↦ λ e. rw (acquired-is_live id c e) (ap (λ d. d ∷ cs) (put_back-acquired c))
              | false ↦ λ e. rw e (ap (◌∷◌ c) (put_container-acquired cs id))
            ]
      refl

-- A kfunc that reads a container leaves the list as it was, references included.
with_container-containers :
    (f : Container → Looked) (missing : ℤ) (src : Option Bytes) (size : ℕ) (cs : List Container)
    → (with_container f missing src size cs).containers ≡ cs
unfolding with_container find_container
with_container-containers f missing src size cs =
    elim (kfunc_id src size)
      as (λ r.
        (elim r as (λ _. Looked) [
          | err e ↦ looked e cs
          | ok id ↦ elim (find_container cs (some id)) as (λ _. Looked) [
            | none ↦ looked missing cs
            | some (c, found) ↦
                let read = f c in record read { containers = put_container found id }
          ]
        ]).containers
        ≡ cs) [
          | err e ↦ refl
          | ok id ↦
              elim (first_live cs id)
                as (λ r.
                  (elim (elim r as (λ _. Option (Container × List Container)) [
                    | none ↦ none
                    | some c ↦ some (acquired c, update_container id acquired cs)
                  ])
                    as (λ _. Looked) [
                      | none ↦ looked missing cs
                      | some (c, found) ↦
                          let read = f c in record read { containers = put_container found id }
                    ]).containers
                  ≡ cs) [ none ↦ refl | some c ↦ put_container-acquired cs id ]
        ]

-- The kfuncs that read a container give back every reference that they take: they leave the list of
-- the containers as it was, whatever the id, its size and the buffer.
pub container_kfuncs-containers :
    (src : Option Bytes) (size hash_size : ℕ) (has_buffer : Bool) (cs : List Container)
    → ((container_exists src size cs).containers ≡ cs)
      × ((container_get_measurement_count src size cs).containers ≡ cs)
      × ((container_get_leaf_hash src size has_buffer hash_size cs).containers ≡ cs)
unfolding container_exists container_get_measurement_count container_get_leaf_hash
container_kfuncs-containers src size hash_size has_buffer cs = (
  with_container-containers _ (pos 0) src size cs,
  with_container-containers _ enoent src size cs,
  if-containers (not has_buffer || not (hash_size == merkle_hash_size)) (looked einval cs) _ refl
      (with_container-containers _ enoent src size cs),
)
  where
    if-containers :
        (b : Bool) (x y : Looked)
        → x.containers ≡ cs
        → y.containers ≡ cs
        → (if b then x else y).containers ≡ cs
    if-containers true x y p q = p
    if-containers false x y p q = q
