-- ===== src/Child/Tests.antt =====
-- The semantic cache at concrete inputs.
use llamaste.Prelude.{
  map, ◌+◌, ◌≤◌, ◌≡◌, ◌≢◌, refl, Option, none, some, List, [], ◌∷◌, Bytes, codes, bytes_eq, decimal,
  decimal_fuel, lookup, insert, arith,
}
use llamaste.Json.{present}
use llamaste.Child.{
  SemanticCacheEntry, ChatMessage, simple, fnv1a_from, fnv1a_hash, read_messages, key_of,
  semantic_cache_lookup, semantic_cache_store, oldest, evict, ttl_seconds,
}
use llamaste.Child.CacheHits.{
  CacheCall, looked_up, stored, cache_call, cache_calls, last_stored,
  semantic_cache_lookup-last_stored,
}
use llamaste.Child.CacheReads.{look, semantic_cache_lookup-semantic_cache_store}
use llamaste.Child.CacheBounds.{IsBounded, cache_calls-IsBounded}

abbrev message : Bytes → Bytes → ChatMessage
message role text = record { role = present role; content = present text }

abbrev asked : Bytes → Bytes → Option (List ChatMessage)
asked sys user = some (message (codes "system") sys ∷ message (codes "user") user ∷ [])

-- Two requests with different texts, side by side the same.
collision : key_of (asked (codes "a") (codes "bc")) ≡ key_of (asked (codes "ab") (codes "c"))
unfolding key_of read_messages bytes_eq
collision = refl

abbrev help : Option (List ChatMessage)
help = asked (codes "s") (codes "hi")

abbrev help_key : Bytes
help_key = decimal (fnv1a_hash (codes "shi"))

keyed : key_of help ≡ simple help_key
unfolding key_of read_messages bytes_eq
keyed = refl

abbrev calls : List CacheCall
calls = stored 100 help (codes "hello") ∷ looked_up 150 help ∷ []

hit : (semantic_cache_lookup 200 help (cache_calls calls [])).1 ≢ []
unfolding semantic_cache_lookup semantic_cache_store cache_calls cache_call key_of read_messages
    bytes_eq lookup insert evict oldest fnv1a_hash fnv1a_from decimal decimal_fuel
hit e = ground arith

semantic_cache_lookup-last_stored_example :
    (e : SemanticCacheEntry) × ((last_stored help_key calls none ≡ some e)
      × (((semantic_cache_lookup 200 help (cache_calls calls [])).1 ≡ e.response)
          × (200 ≤ e.timestamp + ttl_seconds)))
semantic_cache_lookup-last_stored_example =
    semantic_cache_lookup-last_stored calls 200 help help_key keyed hit

semantic_cache_lookup-semantic_cache_store_example :
    let cache = semantic_cache_store 100 help (codes "hello") (cache_calls calls []) in
    (semantic_cache_lookup 700 help (cache_calls (map look ((300, help) ∷ [])) cache)).1
    ≡ codes "hello"
semantic_cache_lookup-semantic_cache_store_example =
    semantic_cache_lookup-semantic_cache_store calls 100 700 help help help_key (codes "hello")
      ((300, help) ∷ []) keyed keyed (omega arith, tt) (omega arith)

cache_calls-IsBounded_example : IsBounded (cache_calls calls [])
cache_calls-IsBounded_example =
    cache_calls-IsBounded calls [] (omega arith, (tt, tt)) (omega arith, tt)
