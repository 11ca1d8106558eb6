-- ===== src/Raft/View.antt =====
-- The log of a raft log store as a list of entries, and when the store reflects it.
use mathlib.Core.Option
use home_store.Prelude.{
  ℕ, zero, suc, ◌+◌, ◌%◌, ◌≤◌, ◌<◌, ◌≡◌, ◌≢◌, refl, sym, ap, ◌∙◌, Option, none, some, List, [], ◌∷◌,
  ◌++◌, length, take, drop, get_elem?, map, length-map, set, length-set, get_elem?-set_self,
  get_elem?-set_ne, get_elem?-take, get_elem?-drop, length-take, length-drop, ltb,
  get_elem?-append_lt, get_elem?-append_past, arith, ℕ_discrete, if◌then◌else◌,
}
use home_store.LogStore.{Log, tail}
use home_store.Raft.{
  Entries, RaftLogStore, cached, hit, cache_put, cache_cut, cache_size, extract_term,
}

pub take-map {ℓ κ} :
    {A : Type ℓ} {B : Type κ} (f : A → B) (n : ℕ) (xs : List A)
    → take n (map f xs) ≡ map f (take n xs)
take-map f zero xs = refl
take-map f (suc n) [] = refl
take-map f (suc n) (x ∷ xs) = ap (◌∷◌ (f x)) (take-map f n xs)

pub drop-map {ℓ κ} :
    {A : Type ℓ} {B : Type κ} (f : A → B) (n : ℕ) (xs : List A)
    → drop n (map f xs) ≡ map f (drop n xs)
drop-map f zero xs = refl
drop-map f (suc n) [] = refl
drop-map f (suc n) (x ∷ xs) = drop-map f n xs

pub get_elem?-map {ℓ κ} :
    {A : Type ℓ} {B : Type κ} (f : A → B) (i : ℕ) (xs : List A)
    → get_elem? (map f xs) i ≡ Option.map f (get_elem? xs i)
get_elem?-map f i [] = refl
get_elem?-map f zero (x ∷ xs) = refl
get_elem?-map f (suc i) (x ∷ xs) = get_elem?-map f i xs

-- What the code relies on of the serialization of NuRaft: that it can be undone, and that it starts
-- with the term.
pub record IsEncoding {E : Type 0} (entries : Entries E) : Type 0 where
  pub round_trip : (e : E) → entries.to_nuraft_log_entry (entries.serialize e) ≡ e
  pub term_first : (e : E) → extract_term (entries.serialize e) ≡ entries.get_term e

-- Whatever the cache has for an index of the log is the entry there; `base` is the last index that is
-- truncated.
abbrev pub Coherent : {E : Type 0} → ℕ → List E → List (ℕ × Option E) → Type 0
Coherent {E = E} base es cache =
    (k : ℕ) (o : Option E)
    → k < length es
    → cached cache (suc (base + k)) ≡ some o
    → get_elem? es k ≡ o

module _ {E : Type 0} where
  pub length-append_one : (es : List E) (e : E) → length (es ++ e ∷ []) ≡ suc (length es)
  length-append_one [] e = refl
  length-append_one (x ∷ es) e = ap suc (length-append_one es e)

  module _ (cache : List (ℕ × Option E)) (at : ℕ) (e : E) where
    cached_self : at % cache_size < length cache → cached (cache_put at e cache) at ≡ some (some e)
    unfolding cached hit cache_put
    cached_self h =
        let found : get_elem? (set cache (at % cache_size) (at, some e)) (at % cache_size)
            ≡ some (at, some e) =
          get_elem?-set_self cache (at % cache_size) (at, some e) h in
        ground arith

    cached-other :
        (i : ℕ) (o : Option E)
        → i ≢ at
        → at % cache_size < length cache
        → cached (cache_put at e cache) i ≡ some o
        → cached cache i ≡ some o
    unfolding cached hit cache_put
    cached-other i o ne h p = elim (ℕ_discrete (i % cache_size) (at % cache_size)) [
      | yes same ↦
          let found : get_elem? (set cache (at % cache_size) (at, some e)) (i % cache_size)
              ≡ some (at, some e) =
            ap (get_elem? (set cache (at % cache_size) (at, some e))) same
            ∙ get_elem?-set_self cache (at % cache_size) (at, some e) h in
          ground arith
      | no other ↦
          let kept : get_elem? (set cache (at % cache_size) (at, some e)) (i % cache_size)
              ≡ get_elem? cache (i % cache_size) =
            get_elem?-set_ne cache (at, some e) (λ q. other (sym q)) in
          ground arith
    ]

  pub length-cache_put :
      (i : ℕ) (e : E) (cache : List (ℕ × Option E)) → length (cache_put i e cache) ≡ length cache
  unfolding cache_put
  length-cache_put i e cache = length-set cache (i % cache_size) (i, some e)

  pub length-cache_cut :
      (i : ℕ) (cache : List (ℕ × Option E)) → length (cache_cut i cache) ≡ length cache
  unfolding cache_cut
  length-cache_cut i cache = length-map cache (λ x. if ltb i x.0 then (0, none) else x)

  -- Caching the next entry.
  pub cache_put-Coherent :
      (base : ℕ) (es : List E) (e : E) (cache : List (ℕ × Option E))
      → length cache ≡ cache_size
      → Coherent base es cache
      → Coherent base (es ++ e ∷ []) (cache_put (suc (base + length es)) e cache)
  cache_put-Coherent base es e cache full c k o h p =
      let at : ℕ = suc (base + length es) in
      elim (ℕ_discrete k (length es)) [
        | yes last ↦
            let same : suc (base + k) ≡ at = omega arith in
            let hit : some e ≡ o = cc (
              cached_self cache at e (omega (arith, full)),
              p,
              ap (cached (cache_put at e cache)) same,
            ) in
            get_elem?-append_past es (e ∷ []) k 0 (omega arith) ∙ hit
        | no inner ↦
            let lt : k < length es = omega (arith, length-append_one es e) in
            get_elem?-append_lt es (e ∷ []) k lt
            ∙ c k o lt
                (cached-other cache at e (suc (base + k)) o (omega arith) (omega (arith, full)) p)
      ]

  -- A part of the log from its start.
  pub take-Coherent :
      (base n : ℕ) (es : List E) (cache : List (ℕ × Option E))
      → Coherent base es cache
      → Coherent base (take n es) cache
  take-Coherent base n es cache c k o h p =
      let size = length-take n es in
      get_elem?-take n k es (omega (arith, size)) ∙ c k o (omega (arith, size)) p

  -- A part of the log up to its end.
  pub drop-Coherent :
      (base n : ℕ) (es : List E) (cache : List (ℕ × Option E))
      → Coherent base es cache
      → Coherent (base + n) (drop n es) cache
  drop-Coherent base n es cache c k o h p =
      let size = length-drop n es in
      let same : base + n + k ≡ base + (n + k) = omega arith in
      get_elem?-drop n k es
      ∙ c (n + k) o (omega (arith, size)) (sym (ap (λ x. cached cache (suc x)) same) ∙ p)

  -- What is taken out is found at no index of the log.
  still_hit :
      (index i : ℕ) (o : Option E) (x : Option (ℕ × Option E))
      → hit (suc i) (Option.map (λ x. if ltb index x.0 then (0, none) else x) x) ≡ some o
      → hit (suc i) x ≡ some o
  unfolding hit
  still_hit index i o none p = p
  still_hit index i o (some (j, e)) p = ground arith

  cached-cut :
      (index i : ℕ) (o : Option E) (cache : List (ℕ × Option E))
      → cached (cache_cut index cache) (suc i) ≡ some o
      → cached cache (suc i) ≡ some o
  unfolding cached cache_cut
  cached-cut index i o cache p = still_hit index i o (get_elem? cache (suc i % cache_size)) (
      ap (hit (suc i)) (
        sym
          (get_elem?-map (λ x. if ltb index x.0 then (0, none) else x) (suc i % cache_size) cache))
      ∙ p)

  pub cache_cut-Coherent :
      (base index : ℕ) (es : List E) (cache : List (ℕ × Option E))
      → Coherent base es cache
      → Coherent base es (cache_cut index cache)
  cache_cut-Coherent base index es cache c k o h p = c k o h (cached-cut index (base + k) o cache p)

-- The store holds the entries, above the lsn up to which it is truncated.
pub record Reflects {S E : Type 0} (log : S → Log) (entries : Entries E) (r : RaftLogStore S E)
    (es : List E) : Type 0 where
  pub logged : (log r.log_store).records ≡ map entries.serialize es
  pub cache_full : length r.log_entry_cache ≡ cache_size
  pub durable : r.last_durable_lsn ≤ tail (log r.log_store)
  pub coherent : Coherent (log r.log_store).truncated es r.log_entry_cache
