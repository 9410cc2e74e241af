-- ===== src/Child.antt =====
-- src/llamaste/child_main.cpp: the semantic cache, from requests to the responses of the model, and
-- the numbers that the inference is started with. A request is what the vendored parser makes of its
-- text. The entries of the `std::map` are a list; where its order matters, the keys are compared.
mod CacheBounds
mod CacheHits
mod CacheReads
mod Tests
use Prim.Native.Nat.{bit_xor}
use llamaste.Prelude.{
  ℕ, zero, suc, ◌+◌, ◌*◌, ◌%◌, ◌^◌, Bool, true, false, ◌&&◌, ◌||◌, Option, none, some, List, [],
  ◌∷◌, ◌++◌, Bytes, codes, is_empty, bytes_eq, bytes_ltb, decimal, length, ltb, leb, ◌==◌,
  if◌then◌else◌, Assoc, lookup, insert, erase, ℤ, pos, negsuc, ltb_ℤ, leb_ℤ,
}
use llamaste.Json.{Entry, value}

pub record SemanticCacheEntry : Type 0 where
  pub response : Bytes
  pub timestamp : ℕ

abbrev pub Cache : Type 0
Cache = Assoc SemanticCacheEntry

-- SEMANTIC_CACHE_TTL_SECONDS and SEMANTIC_CACHE_MAX_ENTRIES
abbrev pub ttl_seconds : ℕ
ttl_seconds = 600

abbrev pub max_entries : ℕ
max_entries = 50

-- `std::numeric_limits<std::time_t>::max()`
abbrev pub max_time : ℕ
max_time = 9223372036854775807

unfoldable pub fnv1a_from : ℕ → Bytes → ℕ
fnv1a_from hash [] = hash
fnv1a_from hash (c ∷ cs) = fnv1a_from (bit_xor hash c * 1099511628211 % 2 ^ 64) cs

unfoldable pub fnv1a_hash : Bytes → ℕ
fnv1a_hash s = fnv1a_from 14695981039346656037 s

-- One of the `messages`.
pub record ChatMessage : Type 0 where
  pub role : Entry Bytes
  pub content : Entry Bytes

pub record Query : Type 0 where
  pub non_sys : ℕ
  pub user_text : Bytes
  pub sys_text : Bytes

abbrev set_sys : Query → Option Bytes → Option Query
set_sys q none = none
set_sys q (some text) = some (record q { sys_text = text })

abbrev set_user : Query → Option Bytes → Option Query
set_user q none = none
set_user q (some text) = some (record q { user_text = text; non_sys = q.non_sys + 1 })

abbrev read_role : ChatMessage → Query → Option Bytes → Option Query
read_role m q none = none
read_role m q (some role) =
    if bytes_eq role (codes "system")
    then set_sys q (value m.content [])
    else if bytes_eq role (codes "user")
    then set_user q (value m.content [])
    else some (record q { non_sys = q.non_sys + 1 })

-- The loop over the messages; `none` is the exception of an entry that is no string.
unfoldable pub read_messages : List ChatMessage → Query → Option Query
read_messages [] q = some q
read_messages (m ∷ ms) q = elim (read_role m q (value m.role [])) [
  | none ↦ none
  | some q' ↦ read_messages ms q'
]

-- `"\x00"` as a C string is empty, so the two texts stand side by side.
abbrev pub cache_key : Bytes → Bytes → Bytes
cache_key sys_text user_text = decimal (fnv1a_hash (sys_text ++ ([] ++ user_text)))

-- What becomes of a request: an exception, a query that is not for the cache, or its key.
pub data Keyed : Type 0 where
  threw : Keyed
  not_simple : Keyed
  simple : Bytes → Keyed

abbrev simple_key : Option Query → Keyed
simple_key none = threw
simple_key (some q) =
    if q.non_sys == 1 && (if is_empty q.user_text then false else true)
    then simple (cache_key q.sys_text q.user_text)
    else not_simple

-- `none` is a text that is no JSON, or has no array `messages`.
unfoldable pub key_of : Option (List ChatMessage) → Keyed
key_of none = not_simple
key_of (some messages) =
    simple_key (read_messages messages (record { non_sys = 0; user_text = []; sys_text = [] }))

abbrev found_at : ℕ → Bytes → Cache → Option SemanticCacheEntry → Cache × Bytes
found_at now key cache none = (cache, [])
found_at now key cache (some e) =
    if ltb (e.timestamp + ttl_seconds) now then (erase key cache, []) else (cache, e.response)

abbrev lookup_key : ℕ → Cache → Keyed → Cache × Bytes
lookup_key now cache threw = (cache, [])
lookup_key now cache not_simple = (cache, [])
lookup_key now cache (simple key) = found_at now key cache (lookup key cache)

-- The response, which is empty where there is none; an exception leaves the cache as it is.
unfoldable pub semantic_cache_lookup : ℕ → Option (List ChatMessage) → Cache → Cache × Bytes
semantic_cache_lookup now request cache = lookup_key now cache (key_of request)

abbrev pub is_older : ℕ → Bytes → ℕ × Bytes → Bool
is_older t key (oldest_t, oldest_k) = ltb t oldest_t || (t == oldest_t && bytes_ltb key oldest_k)

-- The loop takes the first entry, in the order of the keys, of those with the least time.
unfoldable pub oldest : Cache → ℕ × Bytes → ℕ × Bytes
oldest [] best = best
oldest ((key, e) ∷ rest) best =
    oldest rest (if is_older e.timestamp key best then (e.timestamp, key) else best)

unfoldable pub evict : Cache → Cache
evict cache =
    if ltb (length cache) max_entries
    then cache
    else if is_empty (oldest cache (max_time, [])).1
    then cache
    else erase (oldest cache (max_time, [])).1 cache

abbrev store_key : ℕ → Bytes → Cache → Keyed → Cache
store_key now response cache threw = cache
store_key now response cache not_simple = cache
store_key now response cache (simple key) =
    insert key (record { response = response; timestamp = now }) (evict cache)

unfoldable pub semantic_cache_store : ℕ → Option (List ChatMessage) → Bytes → Cache → Cache
semantic_cache_store now request response cache = store_key now response cache (key_of request)

-- The fields of the detected hardware that the thread counts read.
pub record HwInfo : Type 0 where
  pub recommended_threads : ℤ
  pub recommended_batch_threads : ℤ
  pub physical_cores : ℤ

abbrev is_positive : ℤ → Bool
is_positive i = ltb_ℤ (pos 0) i

abbrev at_least_one : ℤ → ℤ
at_least_one i = if ltb_ℤ i (pos 1) then pos 1 else i

unfoldable pub compute_thread_count : HwInfo → ℤ → ℤ
compute_thread_count hw cpu_cores =
    if is_positive hw.recommended_threads
    then hw.recommended_threads
    else at_least_one (if is_positive hw.physical_cores then hw.physical_cores else cpu_cores)

unfoldable pub compute_batch_thread_count : HwInfo → ℤ → ℤ
compute_batch_thread_count hw cpu_cores =
    if is_positive hw.recommended_batch_threads
    then hw.recommended_batch_threads
    else at_least_one cpu_cores

unfoldable pub compute_context_size : ℤ → ℕ
compute_context_size free_ram_mb =
    if ltb_ℤ free_ram_mb (pos 256)
    then 512
    else if leb_ℤ (pos 2048) free_ram_mb
    then 8192
    else if leb_ℤ (pos 1024) free_ram_mb
    then 4096
    else if leb_ℤ (pos 512) free_ram_mb
    then 2048
    else 2048
