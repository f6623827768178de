-- ===== src/Gateway/MetaCache/Lookup.antt =====
-- What a reader gets from the cache after writes.
use flowix.Common.{
  ℕ, suc, ◌≤◌, ◌<◌, ◌≡◌, ◌≢◌, refl, ◌∙◌, String, false, Option, none, some, List, [], ◌∷◌, eq_iff,
  arith, length, if◌then◌else◌, Bool-cases, Option-cases, inl, inr, ltb,
}
use flowix.Common.Keys.{member}
use flowix.Gateway.MetaCache.{
  VideoMeta, Entry, MetaCache, keys, find_entry, remove_entry, back, drop_back, read_entry, get,
  evict, put, fresh_entry,
}
use flowix.Gateway.MetaCache.Invariant.{IsValid, put-IsValid, find_entry-key}

-- An entry counts until its time has passed.
abbrev live : ℕ → Option Entry → Option Entry
live now none = none
live now (some e) = if ltb e.expires now then none else some e

find_entry-eq-none :
    (k : String) (es : List Entry) → member k (keys es) ≡ false → find_entry k es ≡ none
unfolding find_entry member
find_entry-eq-none k [] h = refl
find_entry-eq-none k (e ∷ es) h = ground (arith, find_entry-eq-none k es)

-- In a valid cache the map does not hide an element of the list.
get_lem :
    (now : ℕ) (k : String) (c : MetaCache)
    → IsValid c
    → (get now k c).0 ≡ live now (find_entry k c.lru)
unfolding get
get_lem now k c v = elim (Bool-cases (member k c.entries)) [
  | inl m ↦ rw m (go (find_entry k c.lru))
  | inr m ↦ rw (m, find_entry-eq-none k c.lru (ground (arith, m, v.same k))) refl
]
  where
    go : (o : Option Entry) → (read_entry now k c o).0 ≡ live now o
    go none = refl
    go (some e) = ground arith

-- What `get` returns is an entry of that key whose time has not passed.
pub get-eq-some :
    (now : ℕ) (k : String) (c : MetaCache) (e : Entry)
    → IsValid c
    → (get now k c).0 ≡ some e
    → (e.key ≡ k) × (now ≤ e.expires)
get-eq-some now k c e v h = go (find_entry k c.lru) refl (rw (get_lem now k c v) at h)
  where
    go :
        (o : Option Entry)
        → find_entry k c.lru ≡ o
        → live now o ≡ some e
        → (e.key ≡ k) × (now ≤ e.expires)
    go none q l = cc
    go (some d) q l = let key = find_entry-key k c.lru q in ground (arith, key)

find_entry-remove_entry :
    (j k : String) (es : List Entry) → j ≢ k → find_entry j (remove_entry k es) ≡ find_entry j es
unfolding find_entry remove_entry
find_entry-remove_entry j k [] n = refl
find_entry-remove_entry j k (e ∷ es) n =
    ground (arith, find_entry-remove_entry j k es, eq_iff e.key j, eq_iff e.key k)

find_entry-drop_back :
    (j : String) (es : List Entry)
    → ((b : Entry) → back es ≡ some b → b.key ≢ j)
    → find_entry j (drop_back es) ≡ find_entry j es
unfolding find_entry drop_back back
find_entry-drop_back j [] n = refl
find_entry-drop_back j (e ∷ []) n = ground (arith, n e refl, eq_iff e.key j)
find_entry-drop_back j (e ∷ d ∷ es) n = ground (arith, find_entry-drop_back j (d ∷ es) n)

module _ (now : ℕ) (k : String) (meta : Option VideoMeta) (err_status : ℕ) (c : MetaCache)
    (v : IsValid c) where
  put-lru :
      0 < c.max
      → (rest : List Entry) × ((put now k meta err_status c).lru
          ≡ fresh_entry now k meta err_status c ∷ rest)
  unfolding put
  put-lru pos = elim (Bool-cases (member k c.entries)) [
    | inl m ↦ (remove_entry k c.lru, rw m)
    | inr m ↦ rw m (elim (Bool-cases (ltb c.max (suc (length c.entries)))) [
      | inl big ↦ rw big (go c.lru v.size (ground (arith, big)))
      | inr small ↦ (c.lru, rw small)
    ])
  ]
    where
      go :
          (es : List Entry)
          → length c.entries ≡ length (keys es)
          → 0 < length c.entries
          → (rest : List Entry) × ((evict
                (record c {
                  entries = k ∷ c.entries;
                  lru = fresh_entry now k meta err_status c ∷ es;
                })
                (back (fresh_entry now k meta err_status c ∷ es))).lru
              ≡ fresh_entry now k meta err_status c ∷ rest)
      go [] s p = absurd (omega arith)
      go (d ∷ es) s p = elim (Option-cases (back (d ∷ es))) [
        | inl q ↦ (d ∷ es, rw q)
        | inr (b, q) ↦ (drop_back (d ∷ es), rw q)
      ]

  -- What was just written to a valid cache that can hold an entry is read back until its time has
  -- passed.
  pub get-put_self :
      (later : ℕ)
      → 0 < c.max
      → later ≤ (fresh_entry now k meta err_status c).expires
      → (get later k (put now k meta err_status c)).0 ≡ some (fresh_entry now k meta err_status c)
  unfolding find_entry
  get-put_self later pos in_time =
      let (rest, q) = put-lru pos in
      get_lem later k (put now k meta err_status c) (put-IsValid now k meta err_status c v)
      ∙ rw q (ground (arith, eq_iff k k))

  find_entry-put :
      (j : String)
      → j ≢ k
      → ((b : Entry) → back c.lru ≡ some b → b.key ≢ j)
      → find_entry j (put now k meta err_status c).lru ≡ find_entry j c.lru
  unfolding put find_entry
  find_entry-put j n kept = elim (Bool-cases (member k c.entries)) [
    | inl m ↦ rw m (ground (arith, eq_iff k j, find_entry-remove_entry j k c.lru))
    | inr m ↦ rw m (elim (Bool-cases (ltb c.max (suc (length c.entries)))) [
      | inl big ↦ rw big (go c.lru (find_entry-drop_back j c.lru kept))
      | inr small ↦ rw small (ground (arith, eq_iff k j))
    ])
  ]
    where
      go :
          (es : List Entry)
          → find_entry j (drop_back es) ≡ find_entry j es
          → find_entry j
              (evict
                (record c {
                  entries = k ∷ c.entries;
                  lru = fresh_entry now k meta err_status c ∷ es;
                })
                (back (fresh_entry now k meta err_status c ∷ es))).lru
            ≡ find_entry j es
      go [] h = refl
      go (d ∷ es) h = elim (Option-cases (back (d ∷ es))) [
        | inl q ↦ rw q (ground (arith, eq_iff k j))
        | inr (b, q) ↦ rw q (ground (arith, eq_iff k j, h))
      ]

  -- A write of one key leaves what readers get for every other key, but for the key that was used
  -- least recently, which alone may be pushed out.
  pub get-put_ne :
      (later : ℕ) (j : String)
      → j ≢ k
      → ((b : Entry) → back c.lru ≡ some b → b.key ≢ j)
      → (get later j (put now k meta err_status c)).0 ≡ (get later j c).0
  get-put_ne later j n kept = rw (
    get_lem later j (put now k meta err_status c) (put-IsValid now k meta err_status c v),
    get_lem later j c v,
    find_entry-put j n kept,
  )

-- Reading does not change the limits of the cache.
pub get-limits :
    (now : ℕ) (k : String) (c : MetaCache)
    → ((get now k c).1.max ≡ c.max)
      × ((get now k c).1.ttl ≡ c.ttl)
      × ((get now k c).1.neg_ttl ≡ c.neg_ttl)
unfolding get
get-limits now k c = elim (Bool-cases (member k c.entries)) [
  | inl m ↦ rw m (go (find_entry k c.lru))
  | inr m ↦ rw m (refl, refl, refl)
]
  where
    go :
        (o : Option Entry)
        → ((read_entry now k c o).1.max ≡ c.max)
          × ((read_entry now k c o).1.ttl ≡ c.ttl)
          × ((read_entry now k c o).1.neg_ttl ≡ c.neg_ttl)
    go none = (refl, refl, refl)
    go (some e) = ground arith
