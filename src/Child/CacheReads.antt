-- ===== src/Child/CacheReads.antt =====
-- src/llamaste/child_main.cpp: how long the semantic cache answers with what was stored.
use llamaste.Child.{
  SemanticCacheEntry, Cache, ttl_seconds, ChatMessage, Keyed, threw, not_simple, simple, key_of,
  semantic_cache_lookup, semantic_cache_store, evict, found_at, lookup_key,
}
use llamaste.Child.CacheHits.{
  CacheCall, looked_up, cache_call, cache_calls, last_stored, cache_calls-Agrees, store_key-Agrees,
}
use llamaste.Prelude.{
  ℕ, ◌+◌, ◌≤◌, ◌≡◌, inl, inr, refl, ◌∙◌, ap, false, Option, none, some, List, [], ◌∷◌, Bytes,
  bytes_eq, bytes_eq_iff, bytes_eq_refl, ltb, lookup, insert, HasUniqueKeys, lookup-insert,
  lookup-erase, erase-HasUniqueKeys, All, map, arith, Bool-cases,
}

-- A lookup, with its time and its request.
abbrev pub look : ℕ × Option (List ChatMessage) → CacheCall
look (now, request) = looked_up now request

-- The cache has the entry for the key.
abbrev Holds : Bytes → SemanticCacheEntry → Cache → Type 0
Holds key e cache = HasUniqueKeys cache × (lookup key cache ≡ some e)

found_at-Holds :
    (key : Bytes) (e : SemanticCacheEntry) (now : ℕ) (k : Bytes) (o : Option SemanticCacheEntry)
    (cache : Cache)
    → bytes_eq k key ≡ false
    → Holds key e cache
    → Holds key e (found_at now k cache o).0
found_at-Holds key e now k none cache f a = a
found_at-Holds key e now k (some old) cache f (u, a) =
    elim (Bool-cases (ltb (old.timestamp + ttl_seconds) now)) [
      | inl g ↦ rw g (erase-HasUniqueKeys k cache u, rw (lookup-erase k key cache u, f) a)
      | inr g ↦ rw g (u, a)
    ]

-- An entry in time is found, and stays.
in_time :
    (key : Bytes) (e : SemanticCacheEntry) (now : ℕ) (cache : Cache)
    → now ≤ e.timestamp + ttl_seconds
    → found_at now key cache (some e) ≡ (cache, e.response)
in_time key e now cache t = elim (Bool-cases (ltb (e.timestamp + ttl_seconds) now)) [
  | inl g ↦ absurd (ground (arith, t))
  | inr g ↦ rw g refl
]

lookup_key-Holds :
    (key : Bytes) (e : SemanticCacheEntry) (now : ℕ) (k : Keyed) (cache : Cache)
    → now ≤ e.timestamp + ttl_seconds
    → Holds key e cache
    → Holds key e (lookup_key now cache k).0
lookup_key-Holds key e now threw cache t a = a
lookup_key-Holds key e now not_simple cache t a = a
lookup_key-Holds key e now (simple k) cache t a = elim (Bool-cases (bytes_eq k key)) [
  | inl f ↦
      let o : lookup k cache ≡ some e =
        ap (λ (j : Bytes). lookup j cache) ((bytes_eq_iff k key).0 f) ∙ a.1 in
      rw (o, in_time k e now cache t) a
  | inr f ↦ found_at-Holds key e now k (lookup k cache) cache f a
]

looks-Holds :
    (key : Bytes) (e : SemanticCacheEntry) (looks : List (ℕ × Option (List ChatMessage)))
    (cache : Cache)
    → All (λ l. l.0 ≤ e.timestamp + ttl_seconds) looks
    → Holds key e cache
    → Holds key e (cache_calls (map look looks) cache)
unfolding cache_calls cache_call semantic_cache_lookup
looks-Holds key e [] cache t a = a
looks-Holds key e ((now, request) ∷ looks) cache t a =
    looks-Holds key e looks (lookup_key now cache (key_of request)).0 t.1
      (lookup_key-Holds key e now (key_of request) cache t.0 a)

-- A response that is stored after any calls of the cache, which starts empty, is found by a request
-- with the same key for 600 seconds, through any lookups in between, if nothing else is stored.
pub semantic_cache_lookup-semantic_cache_store :
    (cs : List CacheCall) (before now : ℕ) (request request' : Option (List ChatMessage))
    (key response : Bytes) (looks : List (ℕ × Option (List ChatMessage)))
    → key_of request ≡ simple key
    → key_of request' ≡ simple key
    → All (λ l. l.0 ≤ before + ttl_seconds) looks
    → now ≤ before + ttl_seconds
    → let cache = semantic_cache_store before request response (cache_calls cs []) in
      (semantic_cache_lookup now request' (cache_calls (map look looks) cache)).1 ≡ response
unfolding semantic_cache_lookup semantic_cache_store
semantic_cache_lookup-semantic_cache_store cs before now request request' key response looks k k' ts
      t =
    let e : SemanticCacheEntry = record { response = response; timestamp = before } in
    let cache : Cache = cache_calls cs [] in
    let put : Cache = insert key e (evict cache) in
    let agrees =
      store_key-Agrees key before response (simple key) (last_stored key cs none) cache
        (cache_calls-Agrees key cs none [] (tt, inl (unfold lookup in refl))) in
    let here : lookup key put ≡ some e =
      rw (lookup-insert key key e (evict cache), bytes_eq_refl key) refl in
    let (u, found) = looks-Holds key e looks put ts (agrees.0, here) in
    rw (k, k', found, in_time key e now (cache_calls (map look looks) put) t) refl
