-- ===== src/Child/CacheBounds.antt =====
-- src/llamaste/child_main.cpp: the size of the semantic cache.
use llamaste.Prelude.{
  ℕ, suc, ◌+◌, ◌≤◌, ◌<◌, ◌≡◌, ◌≢◌, ◌⊎◌, inl, inr, refl, ap, Bool, true, false, Option, none, some,
  List, [], ◌∷◌, Bytes, bytes_eq, bytes_eq_iff, bytes_eq_refl, ◌==◌, ◌&&◌, ◌++◌, pos, is_empty,
  length, ltb, if◌then◌else◌, lookup, insert, erase, All, arith, Bool-cases, decimal,
}
use llamaste.Child.{
  SemanticCacheEntry, Cache, ttl_seconds, max_entries, max_time, ChatMessage, Keyed, threw,
  not_simple, simple, key_of, Query, simple_key, read_messages, fnv1a_hash, semantic_cache_lookup,
  is_older, oldest, evict, semantic_cache_store, found_at, lookup_key, store_key,
}
use llamaste.Text.Reading.{int_text_nonempty}
use llamaste.Child.CacheHits.{CacheCall, looked_up, stored, cache_call, cache_calls}

length-erase : (k : Bytes) (c : Cache) → length (erase k c) ≤ length c
unfolding erase
length-erase k [] = omega arith
length-erase k ((j, e) ∷ c) = ground (arith, length-erase k c)

length-erase_found :
    (k : Bytes) (c : Cache) → lookup k c ≢ none → suc (length (erase k c)) ≡ length c
unfolding erase lookup
length-erase_found k [] h = absurd (h refl)
length-erase_found k ((j, e) ∷ c) h = elim (Bool-cases (bytes_eq j k)) [
  | inl f ↦ rw f refl
  | inr f ↦ rw f (ap suc (length-erase_found k c (rw f at h)))
]

length-insert :
    (k : Bytes) (e : SemanticCacheEntry) (c : Cache) → length (insert k e c) ≤ suc (length c)
unfolding insert
length-insert k e [] = omega arith
length-insert k e ((j, w) ∷ c) = ground (arith, length-insert k e c)

lookup_head : (k : Bytes) (e : SemanticCacheEntry) (c : Cache) → lookup k ((k, e) ∷ c) ≢ none
unfolding lookup
lookup_head k e c h = ground (arith, rw (bytes_eq_refl k) at h)

lookup_later :
    (j k : Bytes) (e : SemanticCacheEntry) (c : Cache)
    → lookup j c ≢ none
    → lookup j ((k, e) ∷ c) ≢ none
unfolding lookup
lookup_later j k e c n h = elim (Bool-cases (bytes_eq k j)) [
  | inl f ↦ absurd (ground (arith, rw f at h))
  | inr f ↦ n (rw f at h)
]

-- The entry that `oldest` gives is the one it starts with, or has its key in the cache.
oldest_found :
    (c : Cache) (best : ℕ × Bytes) → (oldest c best ≡ best) ⊎ (lookup (oldest c best).1 c ≢ none)
unfolding oldest
oldest_found [] best = inl refl
oldest_found ((k, e) ∷ c) best = elim (Bool-cases (is_older e.timestamp k best)) [
  | inl f ↦ elim (oldest_found c (e.timestamp, k)) [
    | inl p ↦ inr (rw (oldest, f, p) (lookup_head k e c))
    | inr n ↦ inr (rw (oldest, f) (lookup_later (oldest c (e.timestamp, k)).1 k e c n))
  ]
  | inr f ↦ elim (oldest_found c best) [
    | inl p ↦ inl (rw f p)
    | inr n ↦ inr (rw (oldest, f) (lookup_later (oldest c best).1 k e c n))
  ]
]

abbrev pub HasTime : Bytes × SemanticCacheEntry → Type 0
HasTime (key, e) = (key ≢ []) × (e.timestamp < max_time)

oldest_there :
    (k : Bytes) (e : SemanticCacheEntry) (c : Cache)
    → e.timestamp < max_time
    → lookup (oldest ((k, e) ∷ c) (max_time, [])).1 ((k, e) ∷ c) ≢ none
unfolding oldest
oldest_there k e c t =
    rw (oldest, older e.timestamp k t) (there k e c (oldest_found c (e.timestamp, k)))
  where
    older : (t : ℕ) (k : Bytes) → t < max_time → is_older t k (max_time, []) ≡ true
    older t k h = ground (arith, h)

    there :
        (k : Bytes) (e : SemanticCacheEntry) (c : Cache)
        → (oldest c (e.timestamp, k) ≡ (e.timestamp, k))
          ⊎ (lookup (oldest c (e.timestamp, k)).1 c ≢ none)
        → lookup (oldest c (e.timestamp, k)).1 ((k, e) ∷ c) ≢ none
    there k e c (inl p) = rw p (lookup_head k e c)
    there k e c (inr n) = lookup_later (oldest c (e.timestamp, k)).1 k e c n

found_nonempty : (k : Bytes) (c : Cache) → All HasTime c → lookup k c ≢ none → is_empty k ≡ false
unfolding lookup
found_nonempty [] [] h n = absurd (n refl)
found_nonempty [] ((j, e) ∷ c) h n = elim (Bool-cases (bytes_eq j [])) [
  | inl f ↦ absurd (h.0.0 ((bytes_eq_iff j []).0 f))
  | inr f ↦ found_nonempty [] c h.1 (rw f at n)
]
found_nonempty (x ∷ k) c h n = refl

abbrev pub IsBounded : Cache → Type 0
IsBounded c = (length c ≤ max_entries) × All HasTime c

All-erase : (k : Bytes) (c : Cache) → All HasTime c → All HasTime (erase k c)
unfolding erase
All-erase k [] h = h
All-erase k ((j, e) ∷ c) h = elim (Bool-cases (bytes_eq j k)) [
  | inl f ↦ rw f h.1
  | inr f ↦ rw f (h.0, All-erase k c h.1)
]

All-insert :
    (k : Bytes) (e : SemanticCacheEntry) (c : Cache)
    → HasTime (k, e)
    → All HasTime c
    → All HasTime (insert k e c)
unfolding insert
All-insert k e [] t h = (t, h)
All-insert k e ((j, w) ∷ c) t h = elim (Bool-cases (bytes_eq j k)) [
  | inl f ↦ rw f (t, h.1)
  | inr f ↦ rw f (h.0, All-insert k e c t h.1)
]

-- Behind `evict` there is room for one entry.
evict-IsBounded :
    (c : Cache) → IsBounded c → (length (evict c) < max_entries) × All HasTime (evict c)
unfolding evict
evict-IsBounded [] (l, h) = (omega arith, h)
evict-IsBounded ((k, e) ∷ c) (l, h) =
    let full : Cache = (k, e) ∷ c in
    let there = oldest_there k e c h.0.1 in
    let key : Bytes = (oldest full (max_time, [])).1 in
    elim (Bool-cases (ltb (length full) max_entries)) [
      | inl f ↦ rw f (ground arith, h)
      | inr f ↦
          rw (f, found_nonempty key full h there)
            (omega (arith, length-erase_found key full there, l), All-erase key full h)
    ]

-- A key is not empty.
abbrev IsKeyed : Keyed → Type 0
IsKeyed threw = Unit
IsKeyed not_simple = Unit
IsKeyed (simple key) = key ≢ []

simple_key-IsKeyed : (q : Option Query) → IsKeyed (simple_key q)
simple_key-IsKeyed none = tt
simple_key-IsKeyed (some q) =
    of_test (q.non_sys == 1 && (if is_empty q.user_text then false else true))
      (fnv1a_hash (q.sys_text ++ q.user_text))
  where
    of_test : (b : Bool) (n : ℕ) → IsKeyed (if b then simple (decimal n) else not_simple)
    of_test true n = int_text_nonempty (pos n)
    of_test false n = tt

key_of-IsKeyed : (request : Option (List ChatMessage)) → IsKeyed (key_of request)
unfolding key_of
key_of-IsKeyed none = tt
key_of-IsKeyed (some ms) =
    simple_key-IsKeyed (read_messages ms (record { non_sys = 0; user_text = []; sys_text = [] }))

store_key-IsBounded :
    (now : ℕ) (response : Bytes) (c : Cache) (k : Keyed)
    → IsKeyed k
    → now < max_time
    → IsBounded c
    → IsBounded (store_key now response c k)
store_key-IsBounded now response c threw n t b = b
store_key-IsBounded now response c not_simple n t b = b
store_key-IsBounded now response c (simple k) n t b =
    let e : SemanticCacheEntry = record { response = response; timestamp = now } in
    let (l, h) = evict-IsBounded c b in
    (omega (arith, l, length-insert k e (evict c)), All-insert k e (evict c) (n, t) h)

erase-IsBounded : (k : Bytes) (c : Cache) → IsBounded c → IsBounded (erase k c)
erase-IsBounded k c (l, h) = (omega (arith, l, length-erase k c), All-erase k c h)

lookup_key-IsBounded :
    (now : ℕ) (c : Cache) (k : Keyed) → IsBounded c → IsBounded (lookup_key now c k).0
lookup_key-IsBounded now c threw b = b
lookup_key-IsBounded now c not_simple b = b
lookup_key-IsBounded now c (simple k) b = found (lookup k c)
  where
    found : (o : Option SemanticCacheEntry) → IsBounded (found_at now k c o).0
    found none = b
    found (some e) = elim (Bool-cases (ltb (e.timestamp + ttl_seconds) now)) [
      | inl f ↦ rw f (erase-IsBounded k c b)
      | inr f ↦ rw f b
    ]

abbrev pub IsInTime : CacheCall → Type 0
IsInTime (looked_up now request) = Unit
IsInTime (stored now request response) = now < max_time

-- Any calls leave the cache, which starts with at most 50 entries, with at most 50, if the clock
-- shows less than the greatest time that it can, and no key is empty.
pub cache_calls-IsBounded :
    (cs : List CacheCall) (c : Cache) → All IsInTime cs → IsBounded c → IsBounded (cache_calls cs c)
unfolding cache_calls cache_call semantic_cache_lookup semantic_cache_store
cache_calls-IsBounded [] c t b = b
cache_calls-IsBounded (looked_up now request ∷ cs) c t b =
    cache_calls-IsBounded cs (lookup_key now c (key_of request)).0 t.1
      (lookup_key-IsBounded now c (key_of request) b)
cache_calls-IsBounded (stored now request response ∷ cs) c t b =
    cache_calls-IsBounded cs (store_key now response c (key_of request)) t.1
      (store_key-IsBounded now response c (key_of request) (key_of-IsKeyed request) t.0 b)
