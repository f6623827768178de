-- ===== src/Gateway/MetaCache/Invariant.antt =====
-- The map and the list of the cache hold the same keys, each once, and at most `max` of them.
use flowix.Common.{
  ℕ, suc, ◌≤◌, ◌≡◌, refl, ap, String, true, false, Option, none, some, List, [], ◌∷◌, eq_iff, arith,
  length, String-cases, Bool-cases, inl, inr, ltb,
}
use flowix.Common.Keys.{member, remove, Nodup, member-remove, remove-Nodup, length-remove}
use flowix.Gateway.MetaCache.{
  VideoMeta, Entry, MetaCache, new_meta_cache, keys, find_entry, remove_entry, back, drop_back,
  read_entry, get, evict, put, fresh_entry,
}

pub record IsValid (c : MetaCache) : Type 0 where
  pub entries_nodup : Nodup c.entries
  pub lru_nodup : Nodup (keys c.lru)
  pub same : (k : String) → member k c.entries ≡ member k (keys c.lru)
  pub size : length c.entries ≡ length (keys c.lru)
  pub bounded : length c.entries ≤ c.max

keys-remove_entry : (k : String) (es : List Entry) → keys (remove_entry k es) ≡ remove k (keys es)
unfolding remove_entry remove
keys-remove_entry k [] = refl
keys-remove_entry k (e ∷ es) = ground (arith, keys-remove_entry k es)

member_of_back : (es : List Entry) (b : Entry) → back es ≡ some b → member b.key (keys es) ≡ true
unfolding back member
member_of_back [] b h = cc
member_of_back (e ∷ []) b h = ground (arith, eq_iff e.key b.key)
member_of_back (e ∷ d ∷ es) b h = ground (arith, member_of_back (d ∷ es) b)

keys-drop_back :
    (es : List Entry) (b : Entry)
    → Nodup (keys es)
    → back es ≡ some b
    → keys (drop_back es) ≡ remove b.key (keys es)
unfolding back drop_back remove member
keys-drop_back [] b d h = cc
keys-drop_back (e ∷ []) b d h = ground (arith, eq_iff e.key b.key)
keys-drop_back (e ∷ f ∷ es) b d h = elim (String-cases e.key b.key) [
  | inl (q, t) ↦ cc (d.0, ap (λ k. member k (keys (f ∷ es))) q, member_of_back (f ∷ es) b h)
  | inr (n, t) ↦ rw t (ap (λ l. e.key ∷ l) (keys-drop_back (f ∷ es) b d.1 h))
]

back-eq-some : (e : Entry) (es : List Entry) → (b : Entry) × (back (e ∷ es) ≡ some b)
unfolding back
back-eq-some e [] = (e, refl)
back-eq-some e (d ∷ es) = back-eq-some d es

-- A cache without entries is valid.
pub new_meta_cache-IsValid : (max ttl neg_ttl : ℕ) → IsValid (new_meta_cache max ttl neg_ttl)
unfolding member
new_meta_cache-IsValid max ttl neg_ttl = record {
  entries_nodup = tt;
  lru_nodup = tt;
  same = λ k. refl;
  size = refl;
  bounded = omega arith;
}

module _ (c : MetaCache) (v : IsValid c) (k : String) where
  -- The key goes from both sides.
  drop-IsValid :
      member k c.entries ≡ true
      → IsValid (record c { entries = remove k c.entries; lru = remove_entry k c.lru })
  drop-IsValid m = record {
    entries_nodup = remove-Nodup k c.entries v.entries_nodup;
    lru_nodup = rw (keys-remove_entry k c.lru) (remove-Nodup k (keys c.lru) v.lru_nodup);
    same = λ j.
        rw (keys-remove_entry k c.lru)
          (ground (arith, member-remove j k c.entries, member-remove j k (keys c.lru), v.same j));
    size = rw (keys-remove_entry k c.lru) (
        omega (
          arith,
          length-remove k c.entries v.entries_nodup m,
          length-remove k (keys c.lru) v.lru_nodup (ground (arith, m, v.same k)),
          v.size,
        ));
    bounded = omega (arith, length-remove k c.entries v.entries_nodup m, v.bounded);
  }

  -- An entry of the key in front, in place of the one that the list had.
  front-IsValid :
      (e : Entry)
      → e.key ≡ k
      → member k c.entries ≡ true
      → IsValid (record c { lru = e ∷ remove_entry k c.lru })
  unfolding member
  front-IsValid e q m = record {
    entries_nodup = v.entries_nodup;
    lru_nodup = rw (keys-remove_entry k c.lru) (
      ground (arith, q, member-remove k k (keys c.lru), eq_iff k k),
      remove-Nodup k (keys c.lru) v.lru_nodup,
    );
    same = λ j.
        rw (keys-remove_entry k c.lru)
          (ground (arith, q, m, member-remove j k (keys c.lru), v.same j, v.same k, eq_iff k j));
    size = rw (keys-remove_entry k c.lru) (
        omega
          (arith, length-remove k (keys c.lru) v.lru_nodup (ground (arith, m, v.same k)), v.size));
    bounded = v.bounded;
  }

pub find_entry-key :
    (k : String) (es : List Entry) {e : Entry} → find_entry k es ≡ some e → e.key ≡ k
unfolding find_entry
find_entry-key k [] h = cc
find_entry-key k (d ∷ es) h = elim (String-cases d.key k) [
  | inl (q, t) ↦ ground (arith, q, t)
  | inr (n, t) ↦ find_entry-key k es (rw t at h)
]

-- Reading a valid cache leaves a valid one, also where an expired entry is dropped.
pub get-IsValid : (now : ℕ) (k : String) (c : MetaCache) → IsValid c → IsValid (get now k c).1
unfolding get
get-IsValid now k c v = elim (Bool-cases (member k c.entries)) [
  | inl m ↦ rw m (go m (find_entry k c.lru) refl)
  | inr m ↦ rw m v
]
  where
    go :
        member k c.entries ≡ true
        → (o : Option Entry) → find_entry k c.lru ≡ o
        → IsValid (read_entry now k c o).1
    go m none h = v
    go m (some e) h = elim (Bool-cases (ltb e.expires now)) [
      | inl t ↦ rw t (drop-IsValid c v k m)
      | inr t ↦ rw t (front-IsValid c v k e (find_entry-key k c.lru h) m)
    ]

-- The cache with a new key in front, before its size is looked at.
abbrev grown : MetaCache → Entry → MetaCache
grown c e = record c { entries = e.key ∷ c.entries; lru = e ∷ c.lru }

evict-IsValid :
    (c : MetaCache) (e : Entry)
    → IsValid c
    → member e.key c.entries ≡ false
    → IsValid (evict (grown c e) (back (e ∷ c.lru)))
unfolding member
evict-IsValid c e v m =
    let (b, q) = back-eq-some e c.lru in
    let lru_d : Nodup (keys (e ∷ c.lru)) = (ground (arith, m, v.same e.key), v.lru_nodup) in
    let ent_d : Nodup (e.key ∷ c.entries) = (m, v.entries_nodup) in
    let held = member_of_back (e ∷ c.lru) b q in
    let listed : member b.key (e.key ∷ c.entries) ≡ true = ground (arith, held, v.same b.key) in
    let less = length-remove b.key (e.key ∷ c.entries) ent_d listed in
    rw q (record {
      entries_nodup = remove-Nodup b.key (e.key ∷ c.entries) ent_d;
      lru_nodup =
          rw (keys-drop_back (e ∷ c.lru) b lru_d q) (remove-Nodup b.key (keys (e ∷ c.lru)) lru_d);
      same = λ j. rw (keys-drop_back (e ∷ c.lru) b lru_d q) (
          ground (
            arith,
            member-remove j b.key (e.key ∷ c.entries),
            member-remove j b.key (keys (e ∷ c.lru)),
            v.same j,
          ));
      size =
          rw (keys-drop_back (e ∷ c.lru) b lru_d q)
            (omega (arith, less, length-remove b.key (keys (e ∷ c.lru)) lru_d held, v.size));
      bounded = omega (arith, less, v.bounded);
    })

grown-IsValid :
    (c : MetaCache) (e : Entry)
    → IsValid c
    → member e.key c.entries ≡ false
    → ltb c.max (suc (length c.entries)) ≡ false
    → IsValid (grown c e)
unfolding member
grown-IsValid c e v m small = record {
  entries_nodup = (m, v.entries_nodup);
  lru_nodup = (ground (arith, m, v.same e.key), v.lru_nodup);
  same = λ j. ground (arith, v.same j);
  size = omega (arith, v.size);
  bounded = ground (arith, small);
}

-- Writing to a valid cache leaves a valid one: the map and the list have the same keys, none twice,
-- and no more than the maximum.
pub put-IsValid :
    (now : ℕ) (k : String) (meta : Option VideoMeta) (err_status : ℕ) (c : MetaCache)
    → IsValid c
    → IsValid (put now k meta err_status c)
unfolding put
put-IsValid now k meta err_status c v = elim (Bool-cases (member k c.entries)) [
  | inl m ↦ rw m (front-IsValid c v k _ refl m)
  | inr m ↦ rw m (elim (Bool-cases (ltb c.max (suc (length c.entries)))) [
    | inl big ↦ rw big (evict-IsValid c (fresh_entry now k meta err_status c) v m)
    | inr small ↦ rw small (grown-IsValid c (fresh_entry now k meta err_status c) v m small)
  ])
]
