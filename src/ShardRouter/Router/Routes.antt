-- ===== src/ShardRouter/Router/Routes.antt =====
-- shard_router.py, ShardRouter: keys are routed to registered shards.
use kos_db.Base.{
  ℕ, zero, suc, ◌≡◌, refl, sym, subst, ◌∙◌, false, Option, some, List, [], ◌∷◌, ◌++◌, Result, ok,
  err, ◌==◌, arith, nat_key, All-append, All-mono, Bool-cases, Option-cases, inl, inr,
}
use kos_db.Dict.{Dict, get, put, get-put}
use kos_db.Dict.Removal.{get-remove_all, remove_all-IsDistinct}
use kos_db.Text.{Text, text_key, codes, str_nat}
use kos_db.ShardRouter.{Shard, RingError, ConsistentHashRing, add_virtual, to_remove}
use kos_db.ShardRouter as Ring
use kos_db.ShardRouter.Ranges as Ranges
use kos_db.ShardRouter.Remapping.{among-other, get_shard-entry}
use kos_db.ShardRouter.Histories.{add_virtual-IsDistinct}
use kos_db.ShardRouter.Router.{
  ShardRouter, Strategy, strategy_of, new_router, add_shard, remove_shard, get_shard_for_key,
}
use kos_db.ShardRouter.Router.Registered.{
  IsRegularRing, IsRegistered, AreRegistered, IsRegisteredAny, IsRegisteredEntry, IsRegularAs,
  IsRegular, IsRegularAny, put-IsRegistered, put-IsRegistered_self, remove-IsRegistered, sorted-All,
  remove_shard-AreRegistered, last_shard-IsRegisteredAny, find_range-IsRegisteredAny,
}

module _ (hash : Text → ℕ) where
  add_virtual-IsRegistered :
      (n i : ℕ) (shard : Shard) (shards : Dict Text Shard) (d : Dict ℕ Shard)
      → IsRegistered shards shard
      → ((h : ℕ) (s : Shard) → get h d ≡ some s → IsRegistered shards s)
      → (h : ℕ) (s : Shard) → get h (add_virtual hash n i shard d) ≡ some s
      → IsRegistered shards s
  unfolding add_virtual
  add_virtual-IsRegistered zero i shard shards d self old = old
  add_virtual-IsRegistered (suc n) i shard shards d self old =
      let j = hash (shard.shard_id ++ codes ":" ++ str_nat i) in
      add_virtual-IsRegistered n (suc i) shard shards (put j shard d) self (λ h s e.
        elim (Bool-cases (j == h)) [
          | inl q ↦
              let here : get h (put j shard d) ≡ some shard = get-put j h shard d ∙ rw q refl in
              subst (IsRegisteredEntry shards) (sym here ∙ e) self
          | inr q ↦ old h s (sym (get-put j h shard d ∙ rw q refl) ∙ e)
        ])

  add_shard-IsRegular :
      (shard : Shard) (start end : Option Text) (r : ShardRouter)
      → IsRegular r
      → IsRegular (add_shard hash shard start end r)
  unfolding add_shard Ring.add_shard Ring.rebuild_sorted_keys Ranges.add_range
  add_shard-IsRegular shard start end r = go r.strategy refl
    where
      shards : Dict Text Shard
      shards = put shard.shard_id shard r.shards

      self : IsRegistered shards shard
      self = put-IsRegistered_self shard r.shards

      go :
          (strategy : Strategy)
          → r.strategy ≡ strategy
          → IsRegularAs r.strategy r
          → IsRegular (add_shard hash shard start end r)
      go Strategy.hashed e h =
          let g : IsRegularRing r.shards r.hash_ring = subst (λ t. IsRegularAs t r) e h in
          rw (add_shard, e) rw e
            record {
              distinct =
                  add_virtual-IsDistinct hash r.hash_ring.replicas 0 shard r.hash_ring.ring
                    g.distinct;
              on_ring =
                  add_virtual-IsRegistered r.hash_ring.replicas 0 shard shards r.hash_ring.ring self
                    (λ k s found. put-IsRegistered shard s r.shards (g.on_ring k s found));
            }
      go Strategy.ranged e h =
          let g : AreRegistered r.shards r.range_partitioner = subst (λ t. IsRegularAs t r) e h in
          rw (add_shard, e) rw e
            (sorted-All (λ x. IsRegistered shards x.shard)
              (r.range_partitioner ++ record { start = start; end = end; shard = shard } ∷ [])
              (All-append (λ (x : Ranges.Range). IsRegistered shards x.shard) r.range_partitioner
                (record { start = start; end = end; shard = shard } ∷ [])
                (All-mono r.range_partitioner (λ x. put-IsRegistered shard x.shard r.shards) g)
                (self, tt)))

  remove_shard-IsRegular :
      (x : Text) (r : ShardRouter) → IsRegular r → IsRegular (remove_shard hash x r)
  unfolding remove_shard Ring.remove_shard Ring.rebuild_sorted_keys
  remove_shard-IsRegular x r = go r.strategy refl
    where
      gone : List ℕ
      gone = to_remove hash x r.hash_ring.ring

      go :
          (strategy : Strategy)
          → r.strategy ≡ strategy
          → IsRegularAs r.strategy r
          → IsRegular (remove_shard hash x r)
      go Strategy.hashed e h =
          let g : IsRegularRing r.shards r.hash_ring = subst (λ t. IsRegularAs t r) e h in
          rw (remove_shard, e) rw e
            record {
              distinct = remove_all-IsDistinct gone r.hash_ring.ring g.distinct;
              on_ring = λ k s found.
                  let there : get k r.hash_ring.ring ≡ some s =
                    ground (arith, get-remove_all k gone r.hash_ring.ring, found) in
                  let other : s.shard_id == x ≡ false = ground (
                    arith,
                    get-remove_all k gone r.hash_ring.ring,
                    found,
                    among-other hash x k s r.hash_ring.ring g.distinct there,
                  ) in
                  remove-IsRegistered x s r.shards other (g.on_ring k s there);
            }
      go Strategy.ranged e h =
          let g : AreRegistered r.shards r.range_partitioner = subst (λ t. IsRegularAs t r) e h in
          rw (remove_shard, e) rw e (remove_shard-AreRegistered x r.shards r.range_partitioner g)

  get_shard_for_key-IsRegisteredAny :
      (key : Text) (r : ShardRouter)
      → IsRegular r
      → IsRegisteredAny r.shards (get_shard_for_key hash key r)
  unfolding get_shard_for_key Ranges.get_shard
  get_shard_for_key-IsRegisteredAny key r = go r.strategy refl
    where
      go :
          (strategy : Strategy)
          → r.strategy ≡ strategy
          → IsRegularAs r.strategy r
          → IsRegisteredAny r.shards (get_shard_for_key hash key r)
      go Strategy.hashed e h =
          rw (get_shard_for_key, e)
            (ring_get (subst (λ t. IsRegularAs t r) e h) (Ring.get_shard hash key r.hash_ring) refl)
        where
          ring_get :
              IsRegularRing r.shards r.hash_ring
              → (found : Result RingError Shard) → Ring.get_shard hash key r.hash_ring ≡ found
              → IsRegisteredAny r.shards found
          ring_get g (ok s) e =
              let place = get_shard-entry hash key r.hash_ring s e in g.on_ring place.0 s place.1
          ring_get g (err x) e = tt
      go Strategy.ranged e h =
          let g : AreRegistered r.shards r.range_partitioner = subst (λ t. IsRegularAs t r) e h in
          rw (get_shard_for_key, e)
            (find_range-IsRegisteredAny key r.shards (Ranges.last_shard r.range_partitioner)
              r.range_partitioner (last_shard-IsRegisteredAny r.shards r.range_partitioner g) g)

  new_router-IsRegular : (name : Text) (replicas : ℕ) → IsRegularAny (new_router name replicas)
  unfolding new_router get
  new_router-IsRegular name replicas = elim (Option-cases (strategy_of name)) [
    | inl unknown ↦ rw (new_router, unknown) tt
    | inr known ↦ rw (new_router, known.1) (empty known.0)
  ]
    where
      empty :
          (strategy : Strategy)
          → IsRegular record {
            strategy = strategy;
            hash_ring = record { replicas = replicas; ring = []; sorted_keys = [] };
            range_partitioner = [];
            shards = [];
          }
      empty Strategy.hashed = record { distinct = tt; on_ring = λ h s e. cc }
      empty Strategy.ranged = tt

  -- The routers that calls of add_shard and remove_shard make of a new one.
  pub data Reaches : ShardRouter → Type 0 where
    init :
        {r : ShardRouter} (name : Text) (replicas : ℕ)
        → new_router name replicas ≡ some r
        → Reaches r
    added :
        {r : ShardRouter} (shard : Shard) (start end : Option Text)
        → Reaches r
        → Reaches (add_shard hash shard start end r)
    removed :
        {r : ShardRouter} (shard_id : Text) → Reaches r → Reaches (remove_shard hash shard_id r)

  Reaches-IsRegular : {r : ShardRouter} → Reaches r → IsRegular r
  Reaches-IsRegular (init name replicas made) =
      subst IsRegularAny made (new_router-IsRegular name replicas)
  Reaches-IsRegular (added shard start end past) =
      add_shard-IsRegular shard start end _ (Reaches-IsRegular past)
  Reaches-IsRegular (removed shard_id past) =
      remove_shard-IsRegular shard_id _ (Reaches-IsRegular past)

  -- After any calls of add_shard and remove_shard, a key is routed to a registered shard or to none,
  -- by either strategy; so no key is routed to a shard that was removed.
  pub get_shard_for_key-registered :
      {r : ShardRouter} (key : Text)
      → Reaches r
      → IsRegisteredAny r.shards (get_shard_for_key hash key r)
  get_shard_for_key-registered {r} key past =
      get_shard_for_key-IsRegisteredAny key r (Reaches-IsRegular past)
