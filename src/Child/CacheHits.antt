-- ===== src/Child/CacheHits.antt =====
-- src/llamaste/child_main.cpp: what the semantic cache answers, after any sequence of its calls.
use llamaste.Prelude.{
  ℕ, ◌+◌, ◌≤◌, ◌≡◌, ◌≢◌, ◌⊎◌, inl, inr, refl, sym, ◌∙◌, Option, none, some, List, [], ◌∷◌, Bytes,
  bytes_eq, is_empty, length, ltb, if◌then◌else◌, lookup, insert, erase, HasUniqueKeys,
  lookup-insert, lookup-erase, insert-HasUniqueKeys, erase-HasUniqueKeys, arith, Bool-cases,
}
use llamaste.Child.{
  SemanticCacheEntry, Cache, ttl_seconds, max_entries, max_time, ChatMessage, Keyed, threw,
  not_simple, simple, key_of, semantic_cache_lookup, oldest, evict, semantic_cache_store, found_at,
  lookup_key, store_key,
}

-- A call of one of the two functions, with its time.
pub data CacheCall : Type 0 where
  looked_up : ℕ → Option (List ChatMessage) → CacheCall
  stored : ℕ → Option (List ChatMessage) → Bytes → CacheCall

unfoldable pub cache_call : CacheCall → Cache → Cache
cache_call (looked_up now request) cache = (semantic_cache_lookup now request cache).0
cache_call (stored now request response) cache = semantic_cache_store now request response cache

unfoldable pub cache_calls : List CacheCall → Cache → Cache
cache_calls [] cache = cache
cache_calls (c ∷ cs) cache = cache_calls cs (cache_call c cache)

-- What was last stored for a request with the key: time and response.
abbrev pub latest :
    Bytes → ℕ → Bytes → Keyed → Option SemanticCacheEntry → Option SemanticCacheEntry
latest key now response threw last = last
latest key now response not_simple last = last
latest key now response (simple k) last =
    if bytes_eq k key then some (record { response = response; timestamp = now }) else last

abbrev pub last_call : Bytes → CacheCall → Option SemanticCacheEntry → Option SemanticCacheEntry
last_call key (looked_up now request) last = last
last_call key (stored now request response) last = latest key now response (key_of request) last

abbrev pub last_stored :
    Bytes → List CacheCall → Option SemanticCacheEntry → Option SemanticCacheEntry
last_stored key [] last = last
last_stored key (c ∷ cs) last = last_stored key cs (last_call key c last)

-- The cache has lost the entry, or has the last one.
abbrev pub Agrees : Bytes → Option SemanticCacheEntry → Cache → Type 0
Agrees key last cache =
    HasUniqueKeys cache × ((lookup key cache ≡ none) ⊎ (lookup key cache ≡ last))

erase-Agrees :
    (key k : Bytes) (last : Option SemanticCacheEntry) (cache : Cache)
    → Agrees key last cache
    → Agrees key last (erase k cache)
erase-Agrees key k last cache (u, h) = (
  erase-HasUniqueKeys k cache u,
  elim (Bool-cases (bytes_eq k key)) [
    | inl e ↦ inl (rw (lookup-erase k key cache u, e) refl)
    | inr e ↦ rw (lookup-erase k key cache u, e) h
  ],
)

evict-Agrees :
    (key : Bytes) (last : Option SemanticCacheEntry) (cache : Cache)
    → Agrees key last cache
    → Agrees key last (evict cache)
unfolding evict
evict-Agrees key last cache a =
    let k : Bytes = (oldest cache (max_time, [])).1 in
    elim (Bool-cases (ltb (length cache) max_entries)) [
      | inl e ↦ rw e a
      | inr e ↦ elim (Bool-cases (is_empty k)) [
        | inl f ↦ rw (e, f) a
        | inr f ↦ rw (e, f) (erase-Agrees key k last cache a)
      ]
    ]

insert-Agrees :
    (key k : Bytes) (e : SemanticCacheEntry) (last : Option SemanticCacheEntry) (cache : Cache)
    → Agrees key last cache
    → Agrees key (if bytes_eq k key then some e else last) (insert k e cache)
insert-Agrees key k e last cache (u, h) = (
  insert-HasUniqueKeys k e cache u,
  elim (Bool-cases (bytes_eq k key)) [
    | inl f ↦ inr (rw (lookup-insert k key e cache, f) refl)
    | inr f ↦ rw (lookup-insert k key e cache, f) h
  ],
)

pub store_key-Agrees :
    (key : Bytes) (now : ℕ) (response : Bytes) (k : Keyed) (last : Option SemanticCacheEntry)
    (cache : Cache)
    → Agrees key last cache
    → Agrees key (latest key now response k last) (store_key now response cache k)
store_key-Agrees key now response threw last cache a = a
store_key-Agrees key now response not_simple last cache a = a
store_key-Agrees key now response (simple k) last cache a =
    insert-Agrees key k (record { response = response; timestamp = now }) last (evict cache)
      (evict-Agrees key last cache a)

found_at-Agrees :
    (key : Bytes) (now : ℕ) (k : Bytes) (o : Option SemanticCacheEntry)
    (last : Option SemanticCacheEntry) (cache : Cache)
    → Agrees key last cache
    → Agrees key last (found_at now k cache o).0
found_at-Agrees key now k none last cache a = a
found_at-Agrees key now k (some e) last cache a =
    elim (Bool-cases (ltb (e.timestamp + ttl_seconds) now)) [
      | inl f ↦ rw f (erase-Agrees key k last cache a)
      | inr f ↦ rw f a
    ]

lookup_key-Agrees :
    (key : Bytes) (now : ℕ) (k : Keyed) (last : Option SemanticCacheEntry) (cache : Cache)
    → Agrees key last cache
    → Agrees key last (lookup_key now cache k).0
lookup_key-Agrees key now threw last cache a = a
lookup_key-Agrees key now not_simple last cache a = a
lookup_key-Agrees key now (simple k) last cache a =
    found_at-Agrees key now k (lookup k cache) last cache a

pub cache_calls-Agrees :
    (key : Bytes) (cs : List CacheCall) (last : Option SemanticCacheEntry) (cache : Cache)
    → Agrees key last cache
    → Agrees key (last_stored key cs last) (cache_calls cs cache)
unfolding cache_calls cache_call semantic_cache_lookup semantic_cache_store
cache_calls-Agrees key [] last cache a = a
cache_calls-Agrees key (looked_up now request ∷ cs) last cache a =
    cache_calls-Agrees key cs last (lookup_key now cache (key_of request)).0
      (lookup_key-Agrees key now (key_of request) last cache a)
cache_calls-Agrees key (stored now request response ∷ cs) last cache a =
    cache_calls-Agrees key cs (latest key now response (key_of request) last)
      (store_key now response cache (key_of request))
      (store_key-Agrees key now response (key_of request) last cache a)

-- What a lookup finds is what is in the cache, in time.
found_at-hit :
    (now : ℕ) (key : Bytes) (cache : Cache) (o : Option SemanticCacheEntry)
    → (found_at now key cache o).1 ≢ []
    → (e : SemanticCacheEntry) × ((o ≡ some e)
        × (((found_at now key cache o).1 ≡ e.response) × (now ≤ e.timestamp + ttl_seconds)))
found_at-hit now key cache none h = absurd (h refl)
found_at-hit now key cache (some e) h = elim (Bool-cases (ltb (e.timestamp + ttl_seconds) now)) [
  | inl f ↦ absurd (h (rw f refl))
  | inr f ↦ (e, (refl, (rw f refl, ground arith)))
]

-- After any calls of the cache, which starts empty, a response that a lookup finds is the one that
-- was last stored for a request with the same key, at most 600 seconds before.
pub semantic_cache_lookup-last_stored :
    (cs : List CacheCall) (now : ℕ) (request : Option (List ChatMessage)) (key : Bytes)
    → key_of request ≡ simple key
    → (semantic_cache_lookup now request (cache_calls cs [])).1 ≢ []
    → (e : SemanticCacheEntry) × ((last_stored key cs none ≡ some e)
        × (((semantic_cache_lookup now request (cache_calls cs [])).1 ≡ e.response)
            × (now ≤ e.timestamp + ttl_seconds)))
unfolding semantic_cache_lookup
semantic_cache_lookup-last_stored cs now request key k h =
    let cache : Cache = cache_calls cs [] in
    let (e, (o, (r, t))) = found_at-hit now key cache (lookup key cache) (rw k at h) in
    let (u, a) = cache_calls-Agrees key cs none [] (tt, inl (unfold lookup in refl)) in
    rw k (e, (elim a [ inl n ↦ absurd (ground (arith, n, o)) | inr l ↦ sym l ∙ o ], (r, t)))
