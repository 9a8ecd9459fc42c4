-- ===== src/Containers/Tracked.antt =====
-- What `bpfima_container_get_or_create` leaves on the list of the containers.
use bpfima.Base.{
  ℕ, zero, suc, ◌≤◌, ◌<◌, ◌≡◌, refl, sym, ap, ◌∙◌, Bool, true, false, not, ◌&&◌, ◌||◌, Option, none,
  some, List, [], ◌∷◌, ◌++◌, arith, ltb, ◌==◌, if◌then◌else◌, length, take, length-take, take_all,
  is_zero, is_neg, enomem, einval, Bytes, bytes_eq_refl, has_nul, c_str, is_empty_str, pos,
}
use mathlib.Core.Path.{subst}
use bpfima.Base.Result.{Result, ok, err, Yields, guard-Yields, if-Yields}
use bpfima.Kfunc.{kfunc_id, copy_kfunc_string, validate_namespace, namespace_size}
use bpfima.Hash.{container_id_max_len}
use bpfima.Node.{Container}
use bpfima.Containers.{
  Registry, CreateEnv, is_live, first_live, update_container, acquired, put_back, find_container,
  put_container, create_container, create_missing, fresh_container,
}
use bpfima.Containers.Kfuncs.{
  Created, after_create, find_or_create, container_get_or_create, with_container, container_exists,
}
use bpfima.Containers.Balanced.{put_container-acquired}
use bpfima.Policy.Namespace.{PolicyNamespace}

-- A live container after it is put on the list, looked up by its id.
module _ (id : Bytes) where
  -- A container at the end of a list without a live one of the id is the one that is put back.
  put_container-append :
      (cs : List Container) (c : Container)
      → first_live cs id ≡ none
      → is_live id c ≡ true
      → put_container (cs ++ c ∷ []) id ≡ cs ++ put_back c ∷ []
  unfolding first_live put_container update_container
  put_container-append [] c n l = rw l refl
  put_container-append (x ∷ cs) c n l =
      elim (is_live id x)
          as (λ b.
            (if b then some x else first_live cs id) ≡ none
            → (if b
                then put_back x ∷ (cs ++ c ∷ [])
                else x ∷ update_container id put_back (cs ++ c ∷ []))
              ≡ x ∷ (cs ++ put_back c ∷ [])) [
                | true ↦ λ m. absurd cc
                | false ↦ λ m. ap (◌∷◌ x) (put_container-append cs c m l)
              ]
        n

  first_live-append :
      (cs : List Container) (c : Container)
      → first_live cs id ≡ none
      → is_live id c ≡ true
      → first_live (cs ++ c ∷ []) id ≡ some c
  unfolding first_live
  first_live-append [] c n l = rw l refl
  first_live-append (x ∷ cs) c n l = ground (arith, first_live-append cs c, n, l)

c_str-lt : (b : Bytes) → has_nul b ≡ true → length (c_str b) < length b
c_str-lt [] h = cc
c_str-lt (zero ∷ b) h = omega arith
c_str-lt (suc x ∷ b) h =
    let tail : has_nul b ≡ true = ground (arith, h) in omega (arith, c_str-lt b tail)

record IsText (b : Bytes) : Type 0 where
  ended : has_nul b ≡ true
  fits : length b ≤ namespace_size

copy_kfunc_string-IsText :
    (src : Option Bytes) (size : ℕ)
    → Yields IsText (copy_kfunc_string namespace_size src size false)
unfolding copy_kfunc_string
copy_kfunc_string-IsText none size = tt
copy_kfunc_string-IsText (some src) size =
    guard-Yields IsText ((size == 0) || ltb namespace_size size) einval _ (λ small.
      guard-Yields IsText (not (has_nul (take size src))) einval _ (λ ended.
        guard-Yields IsText (not false && is_empty_str (take size src)) einval _ (λ full. record {
          ended = ground (arith, ended);
          fits = ground (arith, small, length-take size src);
        })))

-- An id that passes fits its array.
pub kfunc_id-Yields :
    (src : Option Bytes) (size : ℕ)
    → Yields (λ id. length id < container_id_max_len) (kfunc_id src size)
unfolding kfunc_id
kfunc_id-Yields src size =
    elim (copy_kfunc_string namespace_size src size false)
        as (λ r.
          Yields IsText r
          → Yields (λ id. length id < container_id_max_len)
              (elim r as (λ _. Result Bytes) [
                | err e ↦ err einval
                | ok id ↦
                    if is_zero (validate_namespace (c_str id)) then ok (c_str id) else err einval
              ])) [
                | err e ↦ λ t. tt
                | ok id ↦ λ t.
                    if-Yields (λ id. length id < container_id_max_len)
                      (is_zero (validate_namespace (c_str id))) (ok (c_str id)) (err einval)
                      (omega (arith, t.fits, c_str-lt id t.ended)) tt
              ]
      (copy_kfunc_string-IsText src size)

fresh_container-is_live :
    (id : Bytes) → length id < container_id_max_len → is_live id (fresh_container id) ≡ true
unfolding is_live
fresh_container-is_live id h = rw (take_all 127 id (omega (arith, h))) (rw (bytes_eq_refl id) refl)

fresh_container-put_back :
    (id : Bytes)
    → length id < container_id_max_len
    → is_live id (put_back (fresh_container id)) ≡ true
unfolding is_live
fresh_container-put_back id h = rw (take_all 127 id (omega (arith, h))) (rw (bytes_eq_refl id) refl)

-- The id is that of a live container.
abbrev pub Tracked : Bytes → List Container → Type 0
Tracked id cs = (c : Container) × (first_live cs id ≡ some c)

-- A call that returns 0 leaves a container of the id.
abbrev pub Tracks : Bytes → Created → Type 0
Tracks id o = o.ret ≡ pos 0 → Tracked id o.registry.containers

find_container-some :
    (cs : List Container) (id : Bytes) (c : Container)
    → first_live cs id ≡ some c
    → find_container cs (some id) ≡ some (acquired c, update_container id acquired cs)
unfolding find_container
find_container-some cs id c h = rw (h, find_container) refl

find_container-none :
    (cs : List Container) (id : Bytes)
    → first_live cs id ≡ none
    → find_container cs (some id) ≡ none
unfolding find_container
find_container-none cs id h = rw (h, find_container) refl

create_container-missing :
    (env : CreateEnv) (id : Bytes) (r : Registry) (ns : List PolicyNamespace)
    → first_live r.containers id ≡ none
    → create_container env id r ns ≡ create_missing env id r ns
unfolding create_container
create_container-missing env id r ns h =
    rw (find_container-none r.containers id h, create_container) refl

find_or_create-found :
    (env : CreateEnv) (id : Bytes) (r : Registry) (ns : List PolicyNamespace) (c : Container)
    → first_live r.containers id ≡ some c
    → find_or_create env id r ns ≡ record { ret = pos 0; registry = r; namespaces = ns }
unfolding find_or_create
find_or_create-found env id r ns c h =
    rw (find_container-some r.containers id c h, find_or_create)
      (ap (λ cs. record { ret = pos 0; registry = record r { containers = cs }; namespaces = ns })
        (put_container-acquired r.containers id))

find_or_create-missing :
    (env : CreateEnv) (id : Bytes) (r : Registry) (ns : List PolicyNamespace)
    → first_live r.containers id ≡ none
    → find_or_create env id r ns ≡ after_create id (create_missing env id r ns)
unfolding find_or_create
find_or_create-missing env id r ns h =
    rw (find_container-none r.containers id h, find_or_create)
      (ap (after_create id) (create_container-missing env id r ns h))

module _ (env : CreateEnv) (id : Bytes) (short : length id < container_id_max_len) (r : Registry)
    (ns : List PolicyNamespace) (missing : first_live r.containers id ≡ none) where
  created-Tracked : Tracked id (put_container (r.containers ++ fresh_container id ∷ []) id)
  created-Tracked = (
    put_back (fresh_container id),
    ap (λ cs. first_live cs id)
          (put_container-append id r.containers (fresh_container id) missing
            (fresh_container-is_live id short))
        ∙ first_live-append id r.containers (put_back (fresh_container id)) missing
            (fresh_container-put_back id short),
  )

  if-Tracks :
      (b : Bool) (x y : Result Container × Registry × List PolicyNamespace)
      → (b ≡ true → Tracks id (after_create id x))
      → Tracks id (after_create id y)
      → Tracks id (after_create id (if b then x else y))
  if-Tracks true x y p q = p refl
  if-Tracks false x y p q = q

  create_missing-Tracks : Tracks id (after_create id (create_missing env id r ns))
  unfolding create_missing after_create
  create_missing-Tracks =
      if-Tracks (not env.node_allocated) (err enomem, r, ns) _ (λ e h. absurd cc)
        (if-Tracks (not env.tfm_allocated) (err enomem, r, ns) _ (λ e h. absurd cc)
          (if-Tracks (is_neg env.securityfs_ret) (err env.securityfs_ret, r, ns) _
            (λ e h. absurd (ground (arith, e, h))) (λ h. created-Tracked)))

pub find_or_create-Tracks :
    (env : CreateEnv) (id : Bytes) (r : Registry) (ns : List PolicyNamespace)
    → length id < container_id_max_len
    → Tracks id (find_or_create env id r ns)
find_or_create-Tracks env id r ns short =
    elim (first_live r.containers id)
        as (λ o. first_live r.containers id ≡ o → Tracks id (find_or_create env id r ns)) [
          | none ↦ λ e.
              subst (Tracks id) (sym (find_or_create-missing env id r ns e))
                (create_missing-Tracks env id short r ns e)
          | some c ↦
              λ e. subst (Tracks id) (sym (find_or_create-found env id r ns c e)) (λ h. (c, e))
        ]
      refl

-- The two calls on a tracked id.
pub exists-found :
    (cs : List Container) (src : Option Bytes) (size : ℕ) (id : Bytes) (c : Container)
    → kfunc_id src size ≡ ok id
    → first_live cs id ≡ some c
    → (container_exists src size cs).ret ≡ pos 1
unfolding container_exists with_container
exists-found cs src size id c e h =
    rw (e, container_exists, with_container) (rw (find_container-some cs id c h) refl)

pub again-found :
    (env : CreateEnv) (src : Option Bytes) (size : ℕ) (r : Registry) (ns : List PolicyNamespace)
    (id : Bytes) (c : Container)
    → kfunc_id src size ≡ ok id
    → first_live r.containers id ≡ some c
    → container_get_or_create env src size r ns
      ≡ record { ret = pos 0; registry = r; namespaces = ns }
unfolding container_get_or_create
again-found env src size r ns id c e h =
    rw (e, container_get_or_create) (find_or_create-found env id r ns c h)
