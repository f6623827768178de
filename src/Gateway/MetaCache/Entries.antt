-- ===== src/Gateway/MetaCache/Entries.antt =====
-- What holds of all entries of the cache: `get` brings none in, and `put` the new one alone.
use flowix.Common.{
  ℕ, ◌≡◌, refl, String, Option, none, some, List, [], ◌∷◌, arith, length, All, Bool-cases, ltb,
  ◌==◌, inl, inr,
}
use flowix.Common.Keys.{member}
use flowix.Gateway.MetaCache.{
  VideoMeta, Entry, MetaCache, find_entry, remove_entry, back, drop_back, read_entry, get, evict,
  put, fresh_entry,
}

module _ {ℓ} (P : Entry → Type ℓ) where
  All-remove_entry : (k : String) (es : List Entry) → All P es → All P (remove_entry k es)
  unfolding remove_entry
  All-remove_entry k [] h = tt
  All-remove_entry k (e ∷ es) (h, hs) = elim (Bool-cases (e.key == k)) [
    | inl t ↦ rw t (All-remove_entry k es hs)
    | inr t ↦ rw t (h, All-remove_entry k es hs)
  ]

  All-drop_back : (es : List Entry) → All P es → All P (drop_back es)
  unfolding drop_back
  All-drop_back [] h = tt
  All-drop_back (e ∷ []) h = tt
  All-drop_back (e ∷ d ∷ es) (h, hs) = (h, All-drop_back (d ∷ es) hs)

  All-find_entry :
      (k : String) (es : List Entry) {e : Entry} → All P es → find_entry k es ≡ some e → P e
  unfolding find_entry
  All-find_entry k [] h q = cc
  All-find_entry k (d ∷ es) {e} (h, hs) q = elim (Bool-cases (d.key == k)) [
    | inl t ↦ let same : d ≡ e = ground (arith, rw t at q) in rw (← same) h
    | inr t ↦ All-find_entry k es hs (rw t at q)
  ]

  read-All :
      (now : ℕ) (k : String) (c : MetaCache) (o : Option Entry)
      → ((e : Entry) → o ≡ some e → P e)
      → All P c.lru
      → All P (read_entry now k c o).1.lru
  read-All now k c none p h = h
  read-All now k c (some e) p h = elim (Bool-cases (ltb e.expires now)) [
    | inl t ↦ rw t (All-remove_entry k c.lru h)
    | inr t ↦ rw t (p e refl, All-remove_entry k c.lru h)
  ]

  -- A look into the cache brings no entry in.
  pub get-All : (now : ℕ) (k : String) (c : MetaCache) → All P c.lru → All P (get now k c).1.lru
  unfolding get
  get-All now k c h = elim (Bool-cases (member k c.entries)) [
    | inl m ↦ rw m (read-All now k c (find_entry k c.lru) (λ e q. All-find_entry k c.lru h q) h)
    | inr m ↦ rw m h
  ]

  read-entry :
      (now : ℕ) (k : String) (c : MetaCache) (o : Option Entry) (e : Entry)
      → ((d : Entry) → o ≡ some d → P d)
      → (read_entry now k c o).0 ≡ some e
      → P e
  read-entry now k c none e p q = cc
  read-entry now k c (some d) e p q = elim (Bool-cases (ltb d.expires now)) [
    | inl t ↦ absurd (ground (arith, rw t at q))
    | inr t ↦ let same : d ≡ e = ground (arith, rw t at q) in rw (← same) (p d refl)
  ]

  -- What a look gives out is one of the entries.
  pub get-entry :
      (now : ℕ) (k : String) (c : MetaCache) (e : Entry)
      → All P c.lru
      → (get now k c).0 ≡ some e
      → P e
  unfolding get
  get-entry now k c e h q = elim (Bool-cases (member k c.entries)) [
    | inl m ↦
        read-entry now k c (find_entry k c.lru) e (λ d f. All-find_entry k c.lru h f) (rw m at q)
    | inr m ↦ absurd (ground (arith, rw m at q))
  ]

  evict-All : (c : MetaCache) (o : Option Entry) → All P c.lru → All P (evict c o).lru
  evict-All c none h = h
  evict-All c (some b) h = All-drop_back c.lru h

  -- A write brings in the new entry alone.
  pub put-All :
      (now : ℕ) (k : String) (meta : Option VideoMeta) (err_status : ℕ) (c : MetaCache)
      → P (fresh_entry now k meta err_status c)
      → All P c.lru
      → All P (put now k meta err_status c).lru
  unfolding put
  put-All now k meta err_status c p h =
      let e = fresh_entry now k meta err_status c in
      elim (Bool-cases (member k c.entries)) [
        | inl m ↦ rw m (p, All-remove_entry k c.lru h)
        | inr m ↦ rw m (elim (Bool-cases (ltb c.max (length (k ∷ c.entries)))) [
          | inl big ↦ rw big (
              evict-All (record c { entries = k ∷ c.entries; lru = e ∷ c.lru }) (back (e ∷ c.lru))
                (p, h))
          | inr small ↦ rw small (p, h)
        ])
      ]
