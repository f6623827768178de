-- ===== src/Gateway/MetaCache.antt =====
-- The cache of video metadata in services/gateway/internal/middleware/hlsauth.go: a map from keys
-- to list elements (here: the set of its keys) and a list in order of use, most recent first.
-- Times are in nanoseconds; the mutex makes each operation one step.
pub mod Invariant
pub mod Lookup
pub mod Entries
use flowix.Common.{
  ℕ, ◌+◌, String, Bool, ◌||◌, not, false, Option, none, some, List, [], ◌∷◌, map, ◌==◌, ltb, eqb,
  length, find?, select, if◌then◌else◌,
}
use flowix.Common.Keys.{member, remove}

pub record VideoMeta : Type 0 where
  pub id : String
  pub owner_id : String
  pub visibility : String
  pub status : String

-- `meta` is `none` in a negative entry, which keeps the status that the metadata service gave.
pub record Entry : Type 0 where
  pub key : String
  pub meta : Option VideoMeta
  pub err_status : ℕ
  pub expires : ℕ

pub record MetaCache : Type 0 where
  pub max : ℕ
  pub ttl : ℕ
  pub neg_ttl : ℕ
  pub entries : List String
  pub lru : List Entry

-- `newMetaCache`
abbrev pub new_meta_cache : ℕ → ℕ → ℕ → MetaCache
new_meta_cache max ttl neg_ttl = record {
  max = max;
  ttl = ttl;
  neg_ttl = neg_ttl;
  entries = [];
  lru = [];
}

abbrev pub keys : List Entry → List String
keys es = map (λ (e : Entry). e.key) es

unfoldable pub find_entry : String → List Entry → Option Entry
find_entry k [] = none
find_entry k (e ∷ es) = if e.key == k then some e else find_entry k es

-- `lru.Remove` of the element with the key.
unfoldable pub remove_entry : String → List Entry → List Entry
remove_entry k [] = []
remove_entry k (e ∷ es) = let rest = remove_entry k es in if e.key == k then rest else e ∷ rest

-- `lru.Back`
unfoldable pub back : List Entry → Option Entry
back [] = none
back (e ∷ []) = some e
back (e ∷ d ∷ es) = back (d ∷ es)

-- `lru.Remove (lru.Back)`
unfoldable pub drop_back : List Entry → List Entry
drop_back [] = []
drop_back (e ∷ []) = []
drop_back (e ∷ d ∷ es) = e ∷ drop_back (d ∷ es)

abbrev read_entry : ℕ → String → MetaCache → Option Entry → Option Entry × MetaCache
read_entry now k c none = (none, c)
read_entry now k c (some e) =
    if ltb e.expires now
    then (none, record c { entries = remove k c.entries; lru = remove_entry k c.lru })
    else (some e, record c { lru = e ∷ remove_entry k c.lru })

-- `get`: an entry past its time is dropped, another moves to the front.
unfoldable pub get : ℕ → String → MetaCache → Option Entry × MetaCache
unfolding find_entry remove_entry member remove
get now k c =
    if not (member k c.entries) then (none, c) else read_entry now k c (find_entry k c.lru)

abbrev evict : MetaCache → Option Entry → MetaCache
evict c none = c
evict c (some b) = record c { entries = remove b.key c.entries; lru = drop_back c.lru }

-- The entry that `put` writes: an error status selects the shorter time to live.
abbrev pub fresh_entry : ℕ → String → Option VideoMeta → ℕ → MetaCache → Entry
fresh_entry now k meta err_status c = record {
  key = k;
  meta = meta;
  err_status = err_status;
  expires = now + (if not (eqb err_status 0) then c.neg_ttl else c.ttl);
}

-- `put`: a new key may push the least recently used one out.
unfoldable pub put : ℕ → String → Option VideoMeta → ℕ → MetaCache → MetaCache
unfolding remove_entry member remove back drop_back
put now k meta err_status c =
    let e = fresh_entry now k meta err_status c in
    let grown = record c { entries = k ∷ c.entries; lru = e ∷ c.lru } in
    if member k c.entries
    then record c { lru = e ∷ remove_entry k c.lru }
    else if ltb c.max (length grown.entries)
    then evict grown (back grown.lru)
    else grown
